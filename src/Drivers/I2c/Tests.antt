-- ===== src/Drivers/I2c/Tests.antt =====
-- Runs of the I2C driver of src/drivers/i2c_driver.c.
use rtos_driver_framework.Base.{
  ℕ, ◌≤◌, ◌≡◌, refl, ◌⊎◌, true, false, Option, none, some, List, [], ◌∷◌, length, ok, busy,
}
use rtos_driver_framework.Drivers.I2c.{
  I2cConfig, i2c_speed_fast, i2c_addr_7bit, I2cHandle, I2cs, opened, start_transfer, readable, fill,
  fill_at, i2c_init, i2c_deinit, i2c_master_write, i2c_master_read, i2c_master_write_read,
  i2c_read_register,
}
use rtos_driver_framework.Drivers.I2c.Transfer.{Filled, i2c_master_write_read_lem}
use rtos_driver_framework.Drivers.I2c.Interleaving.{Bus}

abbrev config : I2cConfig
config = record {
  speed = i2c_speed_fast;
  addr_mode = i2c_addr_7bit;
  enable_dma = false;
  timeout_ms = 100;
}

abbrev handle : I2cHandle
handle = opened 0 config

i2c_master_write_read_lem_example :
    (handle.in_use ≡ true
      → (buffer : Option (List ℕ))
      → i2c_master_write_read (some handle) (some (7 ∷ [])) 1 buffer 2
        ≡ some (busy, some handle, buffer))
    × (handle.in_use ≡ false
        → (buffer : List ℕ) → readable (some (7 ∷ [])) 1 ≡ true
        → 2 ≤ length buffer
        → (r : List ℕ) × (i2c_master_write_read (some handle) (some (7 ∷ [])) 1 (some buffer) 2
            ≡ some (ok, some handle, some r))
          × Filled 0xbb 0 2 buffer r)
    × (handle.in_use ≡ false
        → (buffer : Option (List ℕ))
        → (readable (some (7 ∷ [])) 1 ≡ false) ⊎ (readable buffer 2 ≡ false)
        → i2c_master_write_read (some handle) (some (7 ∷ [])) 1 buffer 2 ≡ none)
i2c_master_write_read_lem_example = i2c_master_write_read_lem handle refl (some (7 ∷ [])) 1 2

abbrev one_waits : Bus
one_waits = record { handle = start_transfer handle; waiting = 1 }

-- A handle that is closed and opened again in the middle of a transfer is free at once, and the next
-- transfer runs beside the first.
abbrev reopened : Option ℕ × I2cs
reopened = i2c_init (λ i. record (start_transfer handle) { initialized = false }) 0 (some config)

reopened_run :
    ((i2c_deinit (some (start_transfer handle))).0 ≡ ok)
    × ((reopened.1 0).in_use ≡ false)
    × (i2c_master_write (some (reopened.1 0)) (some (7 ∷ [])) 1 ≡ some (ok, some handle))
unfolding i2c_deinit i2c_init i2c_master_write
reopened_run = (refl, refl, refl)

-- NULL for the value of a register is not refused.
read_register_run :
    (i2c_read_register (some handle) 7 none ≡ none)
    × (i2c_read_register (some handle) 7 (some (0 ∷ [])) ≡ some (ok, some handle, some (0xbb ∷ [])))
    × (i2c_master_read (some handle) (some (0 ∷ 0 ∷ [])) 2
        ≡ some (ok, some handle, some (0xaa ∷ 0xab ∷ [])))
unfolding i2c_read_register i2c_master_write_read i2c_master_read fill_at fill
read_register_run = (refl, refl, refl)
