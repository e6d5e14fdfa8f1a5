-- ===== src/Optiga/Dtls.antt =====
-- lib/optiga/dtls
pub mod Windowing
pub mod Record
pub mod Alert
mod Tests
