-- ===== src/Optiga/DataLink.antt =====
-- The data link layer, lib/optiga/comms/ifx_i2c/ifx_i2c_data_link_layer.c: frames with a CRC and
-- two-bit sequence numbers over I2C, acknowledged and retransmitted.
pub mod Crc
pub mod Frame
pub mod Machine
pub mod Handler
mod Tests
