-- ===== src/Drivers.antt =====
-- The device drivers (src/drivers).
pub mod CircularBuffer
pub mod Uart
pub mod Spi
pub mod I2c
pub mod Builtin
