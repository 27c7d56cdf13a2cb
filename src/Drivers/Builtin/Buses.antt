-- ===== src/Drivers/Builtin/Buses.antt =====
-- Devices on the buses of src/drivers/i2c_driver.c and src/drivers/spi_driver.c can always be initialised.
use rtos_driver_framework.Base.{◌<◌, ◌≡◌, ◌≢◌, ◌⊎◌, none, some, List}
use rtos_driver_framework.DriverFramework.{Device, Driver, i2c_driver, spi_driver}
use rtos_driver_framework.DriverFramework.Builtin.{builtin_registry}
use rtos_driver_framework.Drivers.Builtin.{Configs, uart_address, i2c_address, spi_address}

-- A device of the I2C or the SPI driver with an instance number in range, a configuration and a priority
-- that is not the last one.
pub record OnBus (d : Device) : Type 0 where
  pub named : (d.driver_name ≡ some i2c_driver) ⊎ (d.driver_name ≡ some spi_driver)
  pub instance : d.id < 4
  pub configured : d.platform_data ≢ none
  pub priority : d.init_priority < 255

module _ (configs : Configs) where
  abbrev drivers : List Driver
  drivers = builtin_registry uart_address i2c_address spi_address
