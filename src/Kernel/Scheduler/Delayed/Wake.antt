-- ===== src/Kernel/Scheduler/Delayed/Wake.antt =====
-- `process_delayed_tasks` of src/kernel/scheduler.c.
use rtos_driver_framework.Base.{
  ℕ, zero, suc, ◌+◌, ◌≤◌, ◌≡◌, ◌≢◌, refl, inl, inr, true, false, none, some, List, [], ◌∷◌, arith,
  leb, length, All, ap, ◌∙◌, subst, Bool-cases, ==_refl,
}
use rtos_driver_framework.Kernel.Scheduler.{
  ready, System, max_tasks, scheduler_add_task, wake_tasks, process_delayed_tasks,
}
use rtos_driver_framework.Kernel.Scheduler.Chain.{occurrences}
use rtos_driver_framework.Kernel.Scheduler.Invariant.{IsValid, enqueue}
use rtos_driver_framework.Kernel.Scheduler.Delayed.{Delays, delayed_bound}
use rtos_driver_framework.Kernel.Scheduler.Delayed.WakeOne.{
  due, later, enqueue_all, taken, Quiet, Wakes, wake_one,
}

wake_step :
    (fuel : ℕ) (s s' : System) (j : ℕ)
    → leb (s.task_pool j).wake_time s.system_tick_count ≡ true
    → scheduler_add_task (taken s j) (some j) ≡ some s'
    → wake_tasks (suc fuel) s (some j) ≡ wake_tasks fuel s' s'.delayed_list
unfolding wake_tasks
wake_step fuel s s' j e f = ground (arith, e, f)

wake_stop :
    (fuel : ℕ) (s : System) (j : ℕ)
    → leb (s.task_pool j).wake_time s.system_tick_count ≡ false
    → wake_tasks (suc fuel) s (some j) ≡ some s
unfolding wake_tasks
wake_stop fuel s j e = ground (arith, e)

wake_end : (fuel : ℕ) (s : System) → wake_tasks fuel s none ≡ some s
unfolding wake_tasks
wake_end zero s = refl
wake_end (suc fuel) s = refl

Quiet-refl : (s : System) → Quiet s s
Quiet-refl s = record {
  ticks = refl;
  started = refl;
  current = refl;
  task = refl;
  ids = refl;
  task_id = λ k. refl;
  priority = λ k. refl;
}

Quiet-trans : (s s' s'' : System) → Quiet s s' → Quiet s' s'' → Quiet s s''
Quiet-trans s s' s'' a b = record {
  ticks = b.ticks ∙ a.ticks;
  started = b.started ∙ a.started;
  current = b.current ∙ a.current;
  task = b.task ∙ a.task;
  ids = b.ids ∙ a.ids;
  task_id = λ k. b.task_id k ∙ a.task_id k;
  priority = λ k. b.priority k ∙ a.priority k;
}

pub occurrences-split :
    (wake : ℕ → ℕ) (now k : ℕ) (d : List ℕ)
    → occurrences k d ≡ occurrences k (due wake now d) + occurrences k (later wake now d)
occurrences-split wake now k [] = refl
occurrences-split wake now k (j ∷ js) = ground (arith, occurrences-split wake now k js)

module _ (wake priority : ℕ → ℕ) (now : ℕ) where
  -- The tasks of `d` whose time has come are ready and stand in their queues, the others still wait.
  pub record Woken (s s' : System) (q : ℕ → List ℕ) (d : List ℕ) : Type 0 where
    pub valid : IsValid s' (enqueue_all priority q (due wake now d))
    pub delays : Delays s' (later wake now d)
    pub quiet : Quiet s s'
    pub awake : All (λ (k : ℕ). (s'.task_pool k).state ≡ ready) (due wake now d)
    pub states :
        (k : ℕ)
        → occurrences k (due wake now d) ≡ 0
        → (s'.task_pool k).state ≡ (s.task_pool k).state
    pub blocks : (k : ℕ) → occurrences k (later wake now d) ≢ 0 → s'.task_pool k ≡ s.task_pool k

  abbrev Agree : System → List ℕ → Type 0
  Agree s d =
      (k : ℕ)
      → occurrences k d ≢ 0
      → ((s.task_pool k).wake_time ≡ wake k) × ((s.task_pool k).priority ≡ priority k)

  Woken-step :
      (s s₁ s₂ : System) (q : ℕ → List ℕ) (j : ℕ) (js : List ℕ)
      → occurrences j js ≡ 0
      → leb (wake j) now ≡ true
      → Wakes s s₁ q j js
      → Woken s₁ s₂ (enqueue q (priority j) j) js
      → Woken s s₂ q (j ∷ js)
  Woken-step s s₁ s₂ q j js gone e a b =
      let absent : occurrences j (due wake now js) ≡ 0 =
        omega (arith, occurrences-split wake now j js, gone) in
      record {
        valid = rw e b.valid;
        delays = rw e b.delays;
        quiet = Quiet-trans s s₁ s₂ a.quiet b.quiet;
        awake = rw e (b.states j absent ∙ a.on, b.awake);
        states = λ k o.
            let o' : occurrences k (j ∷ due wake now js) ≡ 0 = ground (arith, o, e) in
            b.states k (omega (arith, o')) ∙ a.states k (λ z. ground (arith, o', ==_refl j));
        blocks = λ k o.
            let o' : occurrences k (later wake now js) ≢ 0 =
              subst (λ (x : List ℕ). occurrences k x ≢ 0) (rw e refl) o in
            let inside : occurrences k js ≢ 0 =
              omega (arith, occurrences-split wake now k js, o') in
            b.blocks k o' ∙ a.blocks k inside;
      }

  wake_tasks_lem :
      (fuel : ℕ) (s : System) (q : ℕ → List ℕ) (d : List ℕ)
      → IsValid s q
      → Delays s d
      → s.system_tick_count ≡ now
      → Agree s d
      → length d ≤ fuel
      → (s' : System) × (wake_tasks fuel s s.delayed_list ≡ some s') × Woken s s' q d
  wake_tasks_lem fuel s q [] v d time agree enough = (
    s,
    ap (wake_tasks fuel s) d.chain ∙ wake_end fuel s,
    record {
      valid = v;
      delays = d;
      quiet = Quiet-refl s;
      awake = tt;
      states = λ k o. refl;
      blocks = λ k o. refl;
    },
  )
  wake_tasks_lem zero s q (j ∷ js) v d time agree enough = absurd (omega arith)
  wake_tasks_lem (suc fuel) s q (j ∷ js) v d time agree enough =
      let here = agree j (ground (arith, ==_refl j)) in
      let gone : occurrences j js ≡ 0 = ground (arith, d.distinct j, ==_refl j) in
      elim (Bool-cases (leb (wake j) now)) [
        | inl e ↦
            let (s₁, e₁, a) = wake_one s q j js v d in
            let v₁ = subst (λ p. IsValid s₁ (enqueue q p j)) here.1 a.valid in
            let agree₁ : Agree s₁ js = λ k o. rw (a.blocks k o) (agree k (omega (arith, o))) in
            let (s₂, e₂, b) =
              wake_tasks_lem fuel s₁ (enqueue q (priority j) j) js v₁ a.delays
                (a.quiet.ticks ∙ time) agree₁ (omega (arith, enough)) in
            (
              s₂,
              ap (wake_tasks (suc fuel) s) d.chain.0
                  ∙ wake_step fuel s s₁ j (rw (here.0, time) e) e₁
                  ∙ e₂,
              Woken-step s s₁ s₂ q j js gone e a b,
            )
        | inr e ↦ (
          s,
          ap (wake_tasks (suc fuel) s) d.chain.0 ∙ wake_stop fuel s j (rw (here.0, time) e),
          record {
            valid = rw e v;
            delays = rw e d;
            quiet = Quiet-refl s;
            awake = rw e tt;
            states = λ k o. refl;
            blocks = λ k o. refl;
          },
        )
      ]

-- `process_delayed_tasks` ends. The tasks whose wake time has come leave the delayed list, are ready,
-- and stand in the queues of their priorities, in the order of the list; the others wait on.
pub process_delayed_tasks_lem :
    (s : System) (q : ℕ → List ℕ) (d : List ℕ)
    → IsValid s q
    → Delays s d
    → (s' : System) × (process_delayed_tasks s ≡ some s')
      × Woken
          (λ k. (s.task_pool k).wake_time)
          (λ k. (s.task_pool k).priority)
          s.system_tick_count
          s
          s'
          q
          d
unfolding process_delayed_tasks
process_delayed_tasks_lem s q d v delays =
    wake_tasks_lem (λ k. (s.task_pool k).wake_time) (λ k. (s.task_pool k).priority)
      s.system_tick_count max_tasks s q d v delays refl (λ k o. (refl, refl))
      (delayed_bound s d delays)
