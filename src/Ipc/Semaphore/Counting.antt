-- ===== src/Ipc/Semaphore/Counting.antt =====
-- The semaphore of src/ipc/semaphore.c counts: what is taken and given adds up, within bounds.
use rtos_driver_framework.Base.{
  ℕ, ◌+◌, ◌≤◌, ◌<◌, ◌≡◌, refl, List, [], ◌∷◌, arith, Status, ok, u32_mod, ◌↔◌,
}
use rtos_driver_framework.Ipc.Semaphore.{
  Semaphore, take_semaphore, give_semaphore, Call, take, give, step, run,
}

-- 1 for a call of the kind that succeeded.
abbrev pub took : Call × Status → ℕ
took (take, ok) = 1
took _ = 0

abbrev pub gave : Call × Status → ℕ
gave (give, ok) = 1
gave _ = 0

abbrev pub total : (Call × Status → ℕ) → List (Call × Status) → ℕ
total f [] = 0
total f (r ∷ rs) = f r + total f rs

abbrev pub Balanced : Semaphore → Call → Type 0
Balanced s c =
    ((step s c).1.count + took (c, (step s c).0) ≡ s.count + gave (c, (step s c).0))
    × ((step s c).1.max_count ≡ s.max_count)
    × (s.count ≤ s.max_count → (step s c).1.count ≤ s.max_count)

step-Balanced : (s : Semaphore) (c : Call) → s.max_count < u32_mod → Balanced s c
unfolding step take_semaphore give_semaphore
step-Balanced s take h = ground arith
step-Balanced s give h = ground arith

-- Over any sequence of calls the count changes by what was given less what was taken, counting the
-- calls that succeeded; the limit stays, and a count within it stays within it.
pub run-Balanced :
    (s : Semaphore) (cs : List Call)
    → s.max_count < u32_mod
    → ((run s cs).1.count + total took (run s cs).0 ≡ s.count + total gave (run s cs).0)
      × ((run s cs).1.max_count ≡ s.max_count)
      × (s.count ≤ s.max_count → (run s cs).1.count ≤ s.max_count)
unfolding run
run-Balanced s [] h = (refl, refl, λ le. le)
run-Balanced s (c ∷ cs) h =
    let now = step-Balanced s c h in
    let rest = run-Balanced (step s c).1 cs (omega (arith, now)) in
    (
      omega (arith, now.0, rest.0),
      omega (arith, now.1, rest.1),
      λ le. omega (arith, now.1, now.2 le, rest.2),
    )

-- `sem_take` fails exactly on a count of 0, and `sem_give` exactly at the limit; a `sem_take` undoes
-- a `sem_give` that succeeded.
pub step_outcomes :
    (s : Semaphore)
    → s.max_count < u32_mod
    → (((step s take).0 ≡ ok) ↔ (0 < s.count))
      × (((step s give).0 ≡ ok) ↔ (s.count < s.max_count))
      × ((step s give).0 ≡ ok → step (step s give).1 take ≡ (ok, s))
unfolding step take_semaphore give_semaphore
step_outcomes s h = ((ground arith, ground arith), (ground arith, ground arith), ground arith)
