-- ===== src/Hal/SysTick/Counts.antt =====
-- The two tick counts of src/hal/arm_cortex_m4.c and src/kernel/scheduler.c, and the timer's period.
use rtos_driver_framework.Base.{
  ℕ, zero, suc, ◌+◌, ◌/◌, ◌%◌, ◌≤◌, ◌<◌, ◌≡◌, ◌≢◌, refl, none, some, List, arith, u32_mod,
}
use rtos_driver_framework.Kernel.Scheduler.{scheduler_get_tick_count}
use rtos_driver_framework.Kernel.Scheduler.Invariant.{IsValid}
use rtos_driver_framework.Kernel.Scheduler.Tick.{scheduler_tick_lem}
use rtos_driver_framework.Hal.SysTick.{
  Hal, hal_get_systick, sys_tick_handler, interrupts, reload_value,
}

-- From a valid state with no delayed task, any number of SysTick interrupts ends, keeps the invariant of
-- the scheduler, and adds their number to both tick counts, modulo 2 ^ 32.
pub interrupts_lem :
    (n : ℕ) (h : Hal) (q : ℕ → List ℕ)
    → IsValid h.system q
    → h.system.delayed_list ≡ none
    → hal_get_systick h < u32_mod
    → scheduler_get_tick_count h.system < u32_mod
    → (h' : Hal) × (q' : ℕ → List ℕ) × (interrupts n h ≡ some h')
      × (IsValid h'.system q'
          × (hal_get_systick h' ≡ (hal_get_systick h + n) % u32_mod)
          × (scheduler_get_tick_count h'.system
              ≡ (scheduler_get_tick_count h.system + n) % u32_mod))
unfolding hal_get_systick sys_tick_handler
interrupts_lem zero h q v idle small small' = (h, q, refl, (v, omega arith, omega arith))
interrupts_lem (suc n) h q v idle small small' =
    let (s₁, q₁, e₁, (v₁, count, idle₁, asleep, top)) = scheduler_tick_lem h.system q v idle in
    let h₁ : Hal = record { hal_tick_count = (h.hal_tick_count + 1) % u32_mod; system = s₁ } in
    let (h₂, q₂, e₂, (v₂, one, two)) =
      interrupts_lem n h₁ q₁ v₁ idle₁ (omega arith) (omega (arith, count)) in
    (h₂, q₂, rw e₁ e₂, (v₂, omega (arith, one), omega (arith, two, count)))

-- The quotient of the clock rate and a rate `t`.
quotient_small : (t : ℕ) → 2 ≤ t → 21000000 / t ≤ 10500000
quotient_small t h = grind arith

quotient_pos : (t : ℕ) → t ≢ 0 → t ≤ 21000000 → 1 ≤ 21000000 / t
quotient_pos t ne h = grind arith

quotient_zero : (t : ℕ) → 21000000 < t → 21000000 / t ≡ 0
quotient_zero t h = grind arith

-- The reload value fits the 24 bits of the register for every rate but 0. It is exact, up to the rounding
-- down of the period, for rates from 2 to 21000000; for a rate beyond that the subtraction wraps, and
-- the value is the largest one, which gives the slowest tick.
pub reload_value_lem :
    (ticks : ℕ)
    → ticks ≢ 0
    → (value : ℕ) × (reload_value ticks ≡ some value)
      × (value ≤ 0xffffff)
      × (2 ≤ ticks → ticks ≤ 21000000 → value + 1 ≡ 21000000 / ticks)
      × (21000000 < ticks → value ≡ 0xffffff)
unfolding reload_value
reload_value_lem zero ne = absurd (ne refl)
reload_value_lem (suc n) ne = (
  _,
  refl,
  ground arith,
  λ low high. ground (arith, quotient_small (suc n) low, quotient_pos (suc n) ne high),
  λ high. ground (arith, quotient_zero (suc n) high),
)
