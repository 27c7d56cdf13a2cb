-- ===== src/Drivers/I2c/Interleaving.antt =====
-- Transfers of several tasks on one handle of src/drivers/i2c_driver.c: while a call waits, others run.
use rtos_driver_framework.Base.{ℕ, ◌+◌, ◌-◌, ◌≤◌, ◌≡◌, ◌≢◌, ◌↔◌, true, false}
use rtos_driver_framework.Drivers.I2c.{I2cHandle, start_transfer, end_transfer}

-- A handle, and how many calls wait in the middle of a transfer on it.
pub record Bus : Type 0 where
  pub handle : I2cHandle
  pub waiting : ℕ

-- What one task does between two waits.
pub data Step : Bus → Bus → Type 0 where
  -- A call passes its tests and comes to its wait.
  begin :
      (b : Bus)
      → b.handle.initialized ≡ true
      → b.handle.in_use ≡ false
      → Step b (record { handle = start_transfer b.handle; waiting = b.waiting + 1 })
  -- A call comes back from its wait, and returns.
  finish :
      (b : Bus)
      → b.waiting ≢ 0
      → Step b (record { handle = end_transfer b.handle; waiting = b.waiting - 1 })
  -- `i2c_deinit`.
  close : (b : Bus) → Step b (record b { handle = record b.handle { initialized = false } })

-- What any sequence of such steps reaches.
pub data Reach (b : Bus) : Bus → Type 0 where
  here : Reach b b
  next : {c d : Bus} → Reach b c → Step c d → Reach b d

-- At most one call waits, and the flag tells whether one does.
abbrev pub Exclusive : Bus → Type 0
Exclusive b = (b.waiting ≤ 1) × ((b.handle.in_use ≡ true) ↔ (b.waiting ≡ 1))
