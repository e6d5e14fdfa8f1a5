-- ===== src/Optiga/Comms.antt =====
-- The entry points above the protocol stack: lib/optiga/comms/ifx_i2c/ifx_i2c.c and
-- lib/optiga/comms/optiga_comms.c.
pub mod Stack
pub mod Client
mod Tests
