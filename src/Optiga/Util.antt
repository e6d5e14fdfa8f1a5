-- ===== src/Optiga/Util.antt =====
-- lib/optiga/common/Util.c
pub mod Uint64
pub mod Bytes
pub mod Memmove
pub mod Window
mod Tests
