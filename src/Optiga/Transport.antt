-- ===== src/Optiga/Transport.antt =====
-- lib/optiga/comms/ifx_i2c/ifx_i2c_transport_layer.c
pub mod Machine
pub mod Fragment
pub mod Handler
mod Tests
