-- ===== src/Drivers/Spi/Open.antt =====
-- `spi_init` of src/drivers/spi_driver.c and its callback for the driver framework.
use rtos_driver_framework.Base.{
  ℕ, ◌<◌, ◌≡◌, refl, inl, inr, true, false, some, arith, leb, ◌==◌, update, Bool-cases, ==_refl,
}
use rtos_driver_framework.DriverFramework.{Device, device_ok}
use rtos_driver_framework.Drivers.Spi.{
  opened, SpiConfig, Spis, max_spi_instances, spi_init, driver_spi_init,
}

-- For an instance in range, `spi_init` gives its handle, open, and leaves the other handles.
pub spi_init_lem :
    (s : Spis) (i : ℕ) (config : SpiConfig)
    → i < max_spi_instances
    → (s' : Spis) × (spi_init s i (some config) ≡ (some i, s'))
      × ((s' i).initialized ≡ true)
      × ((j : ℕ) → (i == j) ≡ false → s' j ≡ s j)
unfolding spi_init
spi_init_lem s i config in_range = elim (Bool-cases (s i).initialized) [
  | inl on ↦ (s, rw (small, on) refl, on, λ j ne. refl)
  | inr off ↦
      (update s i (opened i config), rw (small, off) refl, rw (==_refl i) refl, λ j ne. rw ne refl)
]
  where
    small : leb max_spi_instances i ≡ false
    small = ground arith

pub driver_spi_init_lem :
    (config_at : ℕ → SpiConfig) (s : Spis) (d : Device) (address : ℕ)
    → d.id < max_spi_instances
    → d.platform_data ≡ some address
    → (s' : Spis) × (driver_spi_init config_at s (some d)
        ≡ (device_ok, some (record d { driver_data = some d.id }), s'))
      × ((s' d.id).initialized ≡ true)
unfolding driver_spi_init
driver_spi_init_lem config_at s d address in_range e =
    let (s', call, on, others) = spi_init_lem s d.id (config_at address) in_range in
    (s', ground (arith, e, call), on)
