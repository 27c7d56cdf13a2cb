-- ===== src/DriverFramework/Builtin.antt =====
-- The registry that `device_register_builtin_drivers` of src/driver_framework.c fills.
use rtos_driver_framework.Base.{ℕ, ◌≡◌, refl, none, some, List, [], ◌∷◌}
use rtos_driver_framework.DriverFramework.{
  Name, Driver, Framework, driver_register, driver_lookup, device_framework_init,
  device_register_builtin_drivers, uart_driver, i2c_driver, spi_driver,
}

abbrev pub driver_at : Name → ℕ → Driver
driver_at name f = record { name = some name; init = some f; deinit = none }

abbrev pub builtin_registry : ℕ → ℕ → ℕ → List Driver
builtin_registry uart i2c spi =
    driver_at uart_driver uart ∷ driver_at i2c_driver i2c ∷ driver_at spi_driver spi ∷ []

module _ (uart i2c spi : ℕ) where
  pub registry_lem :
      (s : Framework)
      → (device_register_builtin_drivers uart i2c spi (device_framework_init s)).driver_registry
        ≡ builtin_registry uart i2c spi
  unfolding device_register_builtin_drivers device_framework_init driver_register
  registry_lem s = refl

  pub lookup_i2c : driver_lookup (builtin_registry uart i2c spi) (some i2c_driver) ≡ some 1
  unfolding driver_lookup
  lookup_i2c = refl

  pub lookup_spi : driver_lookup (builtin_registry uart i2c spi) (some spi_driver) ≡ some 2
  unfolding driver_lookup
  lookup_spi = refl
