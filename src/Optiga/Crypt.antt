-- ===== src/Optiga/Crypt.antt =====
-- lib/optiga/crypt/optiga_crypt.c
pub mod Hash
pub mod Keys
mod Tests
