-- ===== src/Optiga.antt =====
-- The stack of lib/optiga.
pub mod Physical
pub mod DataLink
pub mod Transport
pub mod Comms
pub mod FrameSize
pub mod Util
pub mod Dtls
pub mod Cmd
pub mod Crypt
pub mod Status
pub mod Objects
