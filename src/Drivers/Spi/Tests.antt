-- ===== src/Drivers/Spi/Tests.antt =====
-- Runs of the SPI driver of src/drivers/spi_driver.c.
use rtos_driver_framework.Base.{
  ℕ, ◌≤◌, ◌<◌, ◌≡◌, refl, true, false, none, some, List, arith, replicate, ok, invalid_param,
}
use rtos_driver_framework.Drivers.Spi.{
  spi_mode_0, spi_speed_low, SpiHandle, Spis, spi_init, spi_deinit, spi_write,
}
use rtos_driver_framework.Drivers.Spi.Ends.{spi_write_lem}

abbrev handle : SpiHandle
handle = record {
  spi_id = 1;
  config = record { mode = spi_mode_0; speed = spi_speed_low; enable_dma = false };
  initialized = true;
  busy = false;
}

abbrev stack_bytes : List ℕ
stack_bytes = replicate 256 7

abbrev image : List ℕ
image = replicate 300 1

spi_write_lem_example :
    (300 ≤ 256 → spi_write stack_bytes (some handle) (some image) 300 ≡ some ok)
    × (256 < 300 → spi_write stack_bytes (some handle) (some image) 300 ≡ none)
spi_write_lem_example =
    spi_write_lem handle 300 refl (omega arith) stack_bytes image refl (omega arith)

-- A handle is opened once, and closed once.
abbrev closed : Spis
closed i = record handle { spi_id = i; initialized = false }

handle_run :
    ((spi_init closed 1 (some handle.config)).0 ≡ some 1)
    × ((spi_init closed 4 (some handle.config)).0 ≡ none)
    × ((spi_deinit (some handle)).0 ≡ ok)
    × ((spi_deinit (some (closed 1))).0 ≡ invalid_param)
unfolding spi_init spi_deinit
handle_run = (refl, refl, refl, refl)
