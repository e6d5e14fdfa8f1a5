-- ===== src/Optiga/Cmd.antt =====
-- lib/optiga/cmd/CommandLib.c: the commands for the device.
pub mod Apdu
pub mod SetData
pub mod GetData
pub mod Request
pub mod Toolbox
pub mod CalcHash
pub mod KeyPair
pub mod Auth
pub mod Opening
mod Tests
