-- ===== src/Hal/SysTick.antt =====
-- The tick of src/hal/arm_cortex_m4.c: the count, the handler that calls the scheduler, and the reload
-- value of the timer.
pub mod Counts
mod Tests
use rtos_driver_framework.Base.{
  ℕ, zero, suc, ◌+◌, ◌-◌, ◌/◌, ◌%◌, Option, none, some, ltb, if◌then◌else◌, ◌>>=◌, u32_mod,
}
use rtos_driver_framework.Kernel.Scheduler.{System, scheduler_tick}

-- `hal_tick_count`, with the state of the scheduler.
pub record Hal : Type 0 where
  pub hal_tick_count : ℕ
  pub system : System

pub hal_get_systick : Hal → ℕ
hal_get_systick h = h.hal_tick_count

pub sys_tick_handler : Hal → Option Hal
sys_tick_handler h = do
  system ← scheduler_tick h.system
  some (record { hal_tick_count = (h.hal_tick_count + 1) % u32_mod; system = system })

-- A number of interrupts.
abbrev pub interrupts : ℕ → Hal → Option Hal
interrupts zero h = some h
interrupts (suc n) h = do h' ← sys_tick_handler h; interrupts n h'

-- The value that `hal_systick_init` writes to the reload register of the board; `none` is a division by
-- zero. The subtraction is that of `uint32_t`.
pub reload_value : ℕ → Option ℕ
reload_value zero = none
reload_value (suc n) =
    let value = (21000000 / suc n + u32_mod - 1) % u32_mod in
    some (if ltb 0xffffff value then 0xffffff else value)
