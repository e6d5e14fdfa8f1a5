-- ===== src/Optiga/Physical.antt =====
-- The physical layer, lib/optiga/comms/ifx_i2c/ifx_i2c_physical_layer.c: registers of the device over
-- I2C, the negotiation of frequency and frame size, the soft reset, and the transfer of frames.
pub mod Machine
pub mod Negotiation
pub mod Frames
mod Tests
