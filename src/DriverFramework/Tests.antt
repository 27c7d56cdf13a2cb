-- ===== src/DriverFramework/Tests.antt =====
-- Runs of the driver framework of src/driver_framework.c.
use rtos_driver_framework.Base.{ℕ, ◌+◌, ◌≡◌, refl, false, none, some, List, [], ◌∷◌}
use rtos_driver_framework.DriverFramework.{
  Name, Device, Driver, Framework, device_ok, device_not_found, Code, driver_lookup, next_device,
  device_init_all, Registration, driver_entry, device_entry, uart_driver, spi_driver,
}
use rtos_driver_framework.DriverFramework.Skipped.{device_init_all-blocked}

abbrev driver : Name → ℕ → Driver
driver name f = record { name = some name; init = some f; deinit = none }

abbrev device : ℕ → Name → ℕ → Device
device n driver_name priority = record {
  name = some (n ∷ []);
  id = 0;
  driver_name = some driver_name;
  platform_data = some 512;
  driver_data = none;
  init_priority = priority;
  initialized = false;
}

-- Two drivers and three devices.
abbrev sample : Framework
sample = record {
  driver_registry = driver uart_driver 64 ∷ driver spi_driver 65 ∷ [];
  device_registry =
      device 97 uart_driver 30 ∷ device 98 spi_driver 10 ∷ device 99 uart_driver 20 ∷ [];
}

-- Drivers that count their calls in the world and store the number in the device.
abbrev count_calls : Code ℕ
count_calls f d w = (device_ok, record d { driver_data = some w }, w + 1)

abbrev registrations : List Registration
registrations =
    driver_entry (some (driver uart_driver 64))
    ∷ device_entry (some (device 97 uart_driver 30))
    ∷ device_entry (some (device 97 uart_driver 7))
    ∷ driver_entry none
    ∷ []

abbrev last_one : Framework
last_one = record sample {
  device_registry = device 97 uart_driver 255 ∷ device 98 spi_driver 10 ∷ [];
}

-- The device of the highest priority has no driver.
abbrev no_driver : Framework
no_driver = record sample { device_registry = device 97 (1 ∷ []) 5 ∷ device 98 spi_driver 10 ∷ [] }

chosen_run : next_device 0 255 none no_driver.device_registry ≡ some (0, device 97 (1 ∷ []) 5)
unfolding next_device
chosen_run = refl

missing_run : driver_lookup no_driver.driver_registry (some (1 ∷ [])) ≡ none
unfolding driver_lookup
missing_run = refl

device_init_all-blocked_example :
    device_init_all ℕ count_calls no_driver 0 ≡ (device_not_found, no_driver, 0, [])
device_init_all-blocked_example =
    device_init_all-blocked ℕ count_calls no_driver 0 0 (device 97 (1 ∷ []) 5) chosen_run
      missing_run
