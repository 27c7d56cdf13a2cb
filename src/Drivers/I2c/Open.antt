-- ===== src/Drivers/I2c/Open.antt =====
-- `i2c_init` of src/drivers/i2c_driver.c and its callback for the driver framework.
use rtos_driver_framework.Base.{
  ℕ, ◌<◌, ◌≡◌, refl, inl, inr, true, false, some, arith, leb, ◌==◌, update, Bool-cases, ==_refl,
}
use rtos_driver_framework.DriverFramework.{Device, device_ok}
use rtos_driver_framework.Drivers.I2c.{
  opened, I2cConfig, I2cs, max_i2c_instances, i2c_init, driver_i2c_init,
}

-- For an instance in range, `i2c_init` gives its handle, open, and leaves the other handles.
pub i2c_init_lem :
    (s : I2cs) (i : ℕ) (config : I2cConfig)
    → i < max_i2c_instances
    → (s' : I2cs) × (i2c_init s i (some config) ≡ (some i, s'))
      × ((s' i).initialized ≡ true)
      × ((j : ℕ) → (i == j) ≡ false → s' j ≡ s j)
unfolding i2c_init
i2c_init_lem s i config in_range = elim (Bool-cases (s i).initialized) [
  | inl on ↦ (s, rw (small, on) refl, on, λ j ne. refl)
  | inr off ↦
      (update s i (opened i config), rw (small, off) refl, rw (==_refl i) refl, λ j ne. rw ne refl)
]
  where
    small : leb max_i2c_instances i ≡ false
    small = ground arith

pub driver_i2c_init_lem :
    (config_at : ℕ → I2cConfig) (s : I2cs) (d : Device) (address : ℕ)
    → d.id < max_i2c_instances
    → d.platform_data ≡ some address
    → (s' : I2cs) × (driver_i2c_init config_at s (some d)
        ≡ (device_ok, some (record d { driver_data = some d.id }), s'))
      × ((s' d.id).initialized ≡ true)
unfolding driver_i2c_init
driver_i2c_init_lem config_at s d address in_range e =
    let (s', call, on, others) = i2c_init_lem s d.id (config_at address) in_range in
    (s', ground (arith, e, call), on)
