-- ===== src/Kernel/Scheduler/Delayed.antt =====
-- The delayed list of src/kernel/scheduler.c holds blocked tasks in the order of their wake times.
pub mod Point
pub mod Insert
pub mod WakeOne
pub mod Wake
pub mod Ticks
mod Tests
use rtos_driver_framework.Base.{
  ℕ, ◌+◌, ◌≤◌, ◌<◌, ◌≡◌, ◌≢◌, refl, inl, inr, Bool, true, false, Option, List, [], ◌∷◌, arith, ltb,
  ◌==◌, if◌then◌else◌, length, All, All-map, ap, sym, ◌∙◌, subst, Bool-cases, ==_refl,
}
use rtos_driver_framework.Kernel.Scheduler.{Tcb, blocked, System, with_next, max_tasks}
use rtos_driver_framework.Kernel.Scheduler.Chain.{Chain, occurrences, Chain-frame}
use rtos_driver_framework.Kernel.Scheduler.Queues.{Member, All-occurrences, member_of, length-le}
use rtos_driver_framework.Kernel.Scheduler.Invariant.{InUse, IsValid}

-- The wake times ascend from `w` on.
abbrev pub Sorted : (ℕ → Tcb) → ℕ → List ℕ → Type 0
Sorted pool w [] = Unit
Sorted pool w (j ∷ js) = (w ≤ (pool j).wake_time) × Sorted pool (pool j).wake_time js

abbrev pub Waits : System → ℕ → Type 0
Waits s k = InUse s k × ((s.task_pool k).state ≡ blocked)

-- The delayed list holds the tasks `d`.
pub record Delays (s : System) (d : List ℕ) : Type 0 where
  pub chain : Chain s.task_pool s.delayed_list d
  pub members : All (Waits s) d
  pub distinct : (k : ℕ) → occurrences k d ≤ 1
  pub sorted : Sorted s.task_pool 0 d

-- Insertion behind the tasks that wake no later.
abbrev pub insert : (ℕ → Tcb) → ℕ → List ℕ → List ℕ
insert pool i [] = i ∷ []
insert pool i (j ∷ js) =
    let rest = insert pool i js in
    if ltb (pool i).wake_time (pool j).wake_time then i ∷ j ∷ js else j ∷ rest

pub occurrences-insert :
    (pool : ℕ → Tcb) (i k : ℕ) (d : List ℕ)
    → occurrences k (insert pool i d) ≡ occurrences k (i ∷ d)
occurrences-insert pool i k [] = refl
occurrences-insert pool i k (j ∷ js) = ground (arith, occurrences-insert pool i k js)

pub All-insert :
    (P : ℕ → Type 0) (pool : ℕ → Tcb) (i : ℕ) (d : List ℕ) → P i → All P d → All P (insert pool i d)
All-insert P pool i [] pi all = (pi, tt)
All-insert P pool i (j ∷ js) pi (pj, all) =
    elim (Bool-cases (ltb (pool i).wake_time (pool j).wake_time)) [
      | inl e ↦ rw e (pi, (pj, all))
      | inr e ↦ rw e (pj, All-insert P pool i js pi all)
    ]

pub Sorted-insert :
    (pool : ℕ → Tcb) (i w : ℕ) (d : List ℕ)
    → w ≤ (pool i).wake_time
    → Sorted pool w d
    → Sorted pool w (insert pool i d)
Sorted-insert pool i w [] le sorted = (le, tt)
Sorted-insert pool i w (j ∷ js) le (first, sorted) =
    elim (Bool-cases (ltb (pool i).wake_time (pool j).wake_time)) [
      | inl e ↦ rw e (le, (ground arith, sorted))
      | inr e ↦ rw e (first, Sorted-insert pool i (pool j).wake_time js (ground arith) sorted)
    ]

-- The order, in a pool with the same wake times in the list, and from a smaller bound.
pub Sorted-frame :
    (pool pool' : ℕ → Tcb) (w w' : ℕ) (d : List ℕ)
    → w' ≤ w
    → ((k : ℕ) → occurrences k d ≢ 0 → (pool' k).wake_time ≡ (pool k).wake_time)
    → Sorted pool w d
    → Sorted pool' w' d
Sorted-frame pool pool' w w' [] le same sorted = tt
Sorted-frame pool pool' w w' (j ∷ js) le same (first, sorted) =
    let e : (pool' j).wake_time ≡ (pool j).wake_time = same j (ground (arith, ==_refl j)) in
    (
      omega (arith, first, le, e),
      Sorted-frame pool pool' (pool j).wake_time (pool' j).wake_time js (omega (arith, e))
          (λ k o. same k (omega (arith, o))) sorted,
    )

-- The blocks of the list are as they were.
pub Delays-frame :
    (s s' : System) (d : List ℕ)
    → s'.delayed_list ≡ s.delayed_list
    → ((k : ℕ) → (s.task_pool k).state ≡ blocked → s'.task_pool k ≡ s.task_pool k)
    → Delays s d
    → Delays s' d
Delays-frame s s' d e same v = record {
  chain =
      subst (λ h. Chain s'.task_pool h d) (sym e)
        (Chain-frame s.task_pool s'.task_pool s.delayed_list d there v.chain);
  members = All-occurrences (Waits s) (Waits s') d (λ k o m. rw (there k o) m) v.members;
  distinct = v.distinct;
  sorted =
      Sorted-frame s.task_pool s'.task_pool 0 0 d (omega arith)
        (λ k o. ap (λ (t : Tcb). t.wake_time) (there k o)) v.sorted;
}
  where
    there : (k : ℕ) → occurrences k d ≢ 0 → s'.task_pool k ≡ s.task_pool k
    there k o = same k (member_of (Waits s) k d v.members o).1

pub delayed_bound : (s : System) (d : List ℕ) → Delays s d → length d ≤ max_tasks
delayed_bound s d v = length-le max_tasks d v.distinct (All-map (λ j m. m.0.0) d v.members)
