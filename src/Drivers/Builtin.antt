-- ===== src/Drivers/Builtin.antt =====
-- The drivers of src/drivers under the framework of src/driver_framework.c: `device_init_all` calls their
-- callbacks, which `device_register_builtin_drivers` registers.
pub mod Buses
mod Tests
use rtos_driver_framework.Base.{ℕ, Option, none, some, ◌==◌, if◌then◌else◌}
use rtos_driver_framework.DriverFramework.{
  DeviceStatus, device_error, Device, Code, Framework, device_framework_init,
  device_register_builtin_drivers,
}
use rtos_driver_framework.Drivers.Uart.{UartConfig, Uarts, driver_uart_init}
use rtos_driver_framework.Drivers.I2c.{I2cConfig, I2cs, driver_i2c_init}
use rtos_driver_framework.Drivers.Spi.{SpiConfig, Spis, driver_spi_init}

-- The static arrays of the three drivers; `none` once the UART driver has run into undefined behaviour.
pub record World : Type 0 where
  pub uarts : Option Uarts
  pub i2cs : I2cs
  pub spis : Spis

-- The configurations that stand at the addresses of the platform data.
pub record Configs : Type 0 where
  pub uart_at : ℕ → UartConfig
  pub i2c_at : ℕ → I2cConfig
  pub spi_at : ℕ → SpiConfig

-- Addresses for the three callbacks.
abbrev pub uart_address : ℕ
uart_address = 1

abbrev pub i2c_address : ℕ
i2c_address = 2

abbrev pub spi_address : ℕ
spi_address = 3

abbrev pub device_or : Option Device → Device → Device
device_or none dev = dev
device_or (some dev') dev = dev'

abbrev uart_result :
    World → Device → Option (DeviceStatus × Option Device × Uarts) → DeviceStatus × Device × World
uart_result w dev none = (device_error, dev, record w { uarts = none })
uart_result w dev (some (status, dev', uarts)) =
    (status, device_or dev' dev, record w { uarts = some uarts })

abbrev call_uart : Configs → World → Device → Option Uarts → DeviceStatus × Device × World
call_uart configs w dev none = (device_error, dev, w)
call_uart configs w dev (some uarts) =
    uart_result w dev (driver_uart_init configs.uart_at uarts (some dev))

-- The code at the three addresses.
pub builtin_init : Configs → Code World
builtin_init configs f dev w =
    if f == uart_address
    then call_uart configs w dev w.uarts
    else if f == i2c_address
    then (let (status, dev', i2cs) = driver_i2c_init configs.i2c_at w.i2cs (some dev) in
        (status, device_or dev' dev, record w { i2cs = i2cs }))
    else (let (status, dev', spis) = driver_spi_init configs.spi_at w.spis (some dev) in
        (status, device_or dev' dev, record w { spis = spis }))

-- The framework with the drivers that come with it, before any device is registered.
abbrev pub with_drivers : Framework → Framework
with_drivers s =
    device_register_builtin_drivers uart_address i2c_address spi_address (device_framework_init s)
