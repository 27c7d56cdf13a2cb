-- ===== src/Drivers/Builtin/Tests.antt =====
-- A run of the drivers of src/drivers under the framework: a device on each bus.
use rtos_driver_framework.Base.{ℕ, true, false, none, some, List, [], ◌∷◌}
use rtos_driver_framework.Kernel.Memory.{zero_heap, memory_init}
use rtos_driver_framework.DriverFramework.{Name, Device, Framework, i2c_driver, spi_driver}
use rtos_driver_framework.Drivers.Uart.{UartConfig, parity_none, stop_bits_1, fresh}
use rtos_driver_framework.Drivers.I2c.{I2cConfig, i2c_speed_fast, i2c_addr_7bit}
use rtos_driver_framework.Drivers.I2c
use rtos_driver_framework.Drivers.Spi.{SpiConfig, spi_mode_0, spi_speed_low}
use rtos_driver_framework.Drivers.Spi
use rtos_driver_framework.Drivers.Builtin.{World, Configs}

abbrev uart_config : UartConfig
uart_config = record {
  baud_rate = 115200;
  parity = parity_none;
  stop_bits = stop_bits_1;
  data_bits = 8;
  enable_dma = false;
  enable_interrupts = true;
  rx_buffer_size = 64;
  tx_buffer_size = 64;
}

abbrev i2c_config : I2cConfig
i2c_config = record {
  speed = i2c_speed_fast;
  addr_mode = i2c_addr_7bit;
  enable_dma = false;
  timeout_ms = 100;
}

abbrev spi_config : SpiConfig
spi_config = record { mode = spi_mode_0; speed = spi_speed_low; enable_dma = false }

abbrev configs : Configs
configs = record { uart_at = λ a. uart_config; i2c_at = λ a. i2c_config; spi_at = λ a. spi_config }

abbrev world : World
world = record {
  uarts = some (record { instances = λ i. fresh i uart_config; heap = memory_init zero_heap });
  i2cs = λ i. record (I2c.opened i i2c_config) { initialized = false };
  spis = λ i. record (Spi.opened i spi_config) { initialized = false };
}

abbrev device : Name → ℕ → ℕ → Device
device driver_name id priority = record {
  name = some (id ∷ []);
  id = id;
  driver_name = some driver_name;
  platform_data = some 512;
  driver_data = none;
  init_priority = priority;
  initialized = false;
}

abbrev devices : List Device
devices = device i2c_driver 0 20 ∷ device spi_driver 2 10 ∷ []

abbrev empty : Framework
empty = record { driver_registry = []; device_registry = [] }
