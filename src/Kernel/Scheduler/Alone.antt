-- ===== src/Kernel/Scheduler/Alone.antt =====
-- A task of src/kernel/scheduler.c that yields while no other is ready, and tasks of its priority that are
-- added later.
use rtos_driver_framework.Base.{
  ℕ, ◌≤◌, ◌≡◌, ◌≢◌, refl, inl, inr, true, false, some, List, [], ◌∷◌, arith, ◌==◌, if◌then◌else◌,
  ap, sym, ◌∙◌, Bool-cases, ==_refl,
}
use rtos_driver_framework.Kernel.Scheduler.{
  ready, running, is_running, System, get_highest_priority_task, is_task, requeue, schedule,
  scheduler_yield, scheduler_add_task,
}
use rtos_driver_framework.Kernel.Scheduler.Chain.{occurrences}
use rtos_driver_framework.Kernel.Scheduler.Invariant.{InUse, IsValid, enqueue, valid-But, add_valid}
use rtos_driver_framework.Kernel.Scheduler.Schedule.{requeued, yield_by, yield_stopped}
use rtos_driver_framework.Kernel.Scheduler.Turn.{first_chosen}

requeue_off :
    (s : System) (c : ℕ)
    → s.current_tcb ≡ some c
    → is_running (s.task_pool c).state ≡ false
    → requeue s s.current_tcb ≡ some s
unfolding requeue
requeue_off s c cur off = ap (requeue s) cur ∙ rw off refl

schedule_same :
    (s : System) (c : ℕ)
    → s.current_tcb ≡ some c
    → get_highest_priority_task s ≡ some c
    → schedule s ≡ some s
unfolding schedule
schedule_same s c cur e = ground (arith, e, ap (is_task c) cur)

-- A task that is no longer running but still current and at the head of the first queue keeps the
-- processor: yielding changes nothing.
yield_stuck :
    (s : System) (c : ℕ)
    → s.current_tcb ≡ some c
    → is_running (s.task_pool c).state ≡ false
    → get_highest_priority_task s ≡ some c
    → scheduler_yield s ≡ some s
yield_stuck s c cur off e = elim (Bool-cases s.scheduler_running) [
  | inl on ↦ yield_by s s s on (requeue_off s c cur off) (schedule_same s c cur e)
  | inr stopped ↦ yield_stopped s stopped
]

-- If a running task yields while no task is ready, it stays the current one, but as a ready task at the
-- head of its queue. A task of its priority or a lower one that is added later is never scheduled by
-- yielding: every later `scheduler_yield` changes nothing.
pub scheduler_yield-alone :
    (s : System) (q : ℕ → List ℕ) (c : ℕ)
    → IsValid s q
    → s.scheduler_running ≡ true
    → s.current_tcb ≡ some c
    → (s.task_pool c).state ≡ running
    → ((p : ℕ) → q p ≡ [])
    → (s' : System) × (scheduler_yield s ≡ some s')
      × ((s'.task_pool c).state ≡ ready)
      × ((d : ℕ)
          → InUse s' d
          → c ≢ d
          → (s'.task_pool c).priority ≤ (s'.task_pool d).priority
          → (s'' : System) × (scheduler_add_task s' (some d) ≡ some s'')
            × (s''.current_tcb ≡ some c)
            × (scheduler_yield s'' ≡ some s''))
scheduler_yield-alone s q c v on cur run empty =
    let p : ℕ = (s.task_pool c).priority in
    let (s₁, e₁, (v₁, st₁, same₁, on_c, states₁)) = requeued s q c v (v.current c cur) run in
    let cur₁ = same₁ ∙ cur in
    let level = st₁.priority c in
    let (highest, head) =
      first_chosen s₁ (enqueue q p c) v₁ p c c [] (v₁.current c cur₁) on_c level
        (rw (==_refl p, empty p) refl) (λ p' lt. ground (arith, empty p')) in
    (
      s₁,
      yield_by s s₁ s₁ on (ap (requeue s) cur ∙ e₁) (schedule_same s₁ c cur₁ highest),
      on_c,
      λ d used ne le.
          let p₂ : ℕ = (s₁.task_pool d).priority in
          let (s₂, e₂, (v₂, f₂, on₂, calm₂)) =
            add_valid s₁ (enqueue q p c) d (valid-But d s₁ (enqueue q p c) v₁) used
              (absent d p₂ ne) in
          let cur₂ = f₂.current ∙ cur₁ in
          let on_c₂ = f₂.state c (λ z. ne (sym z)) ∙ on_c in
          let (highest₂, head₂) =
            first_chosen s₂ (enqueue (enqueue q p c) p₂ d) v₂ p c c (if p₂ == p then d ∷ [] else [])
              (v₂.current c cur₂) on_c₂ (f₂.priority c ∙ level) (front d p₂)
              (λ p' lt. ground (arith, empty p', level, le)) in
          (s₂, e₂, cur₂, yield_stuck s₂ c cur₂ (ap is_running on_c₂) highest₂),
    )
  where
    absent : (d p₂ : ℕ) → c ≢ d → occurrences d (enqueue q (s.task_pool c).priority c p₂) ≡ 0
    absent d p₂ ne = ground (arith, empty p₂, empty (s.task_pool c).priority)

    front :
        (d p₂ : ℕ)
        → let p = (s.task_pool c).priority in
          enqueue (enqueue q p c) p₂ d p ≡ c ∷ (if p₂ == p then d ∷ [] else [])
    front d p₂ = ground (arith, empty (s.task_pool c).priority, ==_refl (s.task_pool c).priority)
