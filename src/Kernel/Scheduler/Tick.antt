-- ===== src/Kernel/Scheduler/Tick.antt =====
-- `scheduler_tick` of src/kernel/scheduler.c while the delayed list is empty.
use rtos_driver_framework.Base.{
  ℕ, zero, suc, ◌+◌, ◌%◌, ◌≡◌, ◌≢◌, refl, inl, inr, Bool, true, false, ◌&&◌, Option, none, some,
  List, arith, ap, ◌∙◌, Bool-cases, Option-cases, ◌>>=◌, u32_mod,
}
use rtos_driver_framework.Kernel.Scheduler.{
  Tcb, blocked, is_ready, is_running, System, get_highest_priority_task, preempts,
  process_delayed_tasks, wake_tasks, scheduler_yield, scheduler_tick, scheduler_get_tick_count,
}
use rtos_driver_framework.Kernel.Scheduler.Invariant.{IsValid}
use rtos_driver_framework.Kernel.Scheduler.Steps.{
  Kept, Stable-Kept, Stable-refl, get_highest_priority_task_lem,
}
use rtos_driver_framework.Kernel.Scheduler.Switch.{Top}
use rtos_driver_framework.Kernel.Scheduler.Schedule.{scheduler_yield_lem}

no_delayed : (s : System) → s.delayed_list ≡ none → process_delayed_tasks s ≡ some s
unfolding process_delayed_tasks wake_tasks
no_delayed s e = ap (wake_tasks 16 s) e

abbrev pub ticked : System → System
ticked s = record s { system_tick_count = (s.system_tick_count + 1) % u32_mod }

pub ticked-IsValid : (s : System) (q : ℕ → List ℕ) → IsValid s q → IsValid (ticked s) q
ticked-IsValid s q v = record {
  queues = record {
    chains = v.queues.chains;
    members = v.queues.members;
    distinct = v.queues.distinct;
  };
  right = v.right;
  levels = v.levels;
  current = v.current;
}

-- Whether the tick preempts the current task.
abbrev pub decides : System → Bool
decides s = s.scheduler_running && preempts s (get_highest_priority_task s) s.current_tcb

pub tick_quiet :
    (s s₁ : System)
    → process_delayed_tasks (ticked s) ≡ some s₁
    → decides s₁ ≡ false
    → scheduler_tick s ≡ some s₁
unfolding scheduler_tick
tick_quiet s s₁ e d = rw (e, d) refl

pub tick_yields :
    (s s₁ : System)
    → process_delayed_tasks (ticked s) ≡ some s₁
    → decides s₁ ≡ true
    → scheduler_tick s ≡ scheduler_yield s₁
unfolding scheduler_tick
tick_yields s s₁ e d = rw (e, d) refl

-- Without preemption no ready task has a higher priority than the current one.
quiet_current-Top :
    (s : System) (q : ℕ → List ℕ)
    → IsValid s q
    → s.scheduler_running ≡ true
    → (c : ℕ) → s.current_tcb ≡ some c
    → decides s ≡ false
    → Top s
unfolding get_highest_priority_task
quiet_current-Top s q v on c cur d k used r = elim (get_highest_priority_task_lem s q v) [
  | inl (e, idle) ↦ absurd (idle k used r)
  | inr (p, n, e, head, least) ↦
      (c, cur, ground (arith, least k used r, head.level, rw (on, e, cur) at d))
]

pub quiet-Top :
    (s : System) (q : ℕ → List ℕ)
    → IsValid s q
    → decides s ≡ false
    → s.scheduler_running ≡ true
    → s.current_tcb ≢ none
    → Top s
quiet-Top s q v quiet on cur = elim (Option-cases s.current_tcb) [
  | inl e ↦ absurd (cur e)
  | inr (c, e) ↦ quiet_current-Top s q v on c e quiet
]

ticked-Kept : (s s' : System) → Kept (ticked s) s' → Kept s s'
ticked-Kept s s' k = record {
  delayed = k.delayed;
  ids = k.ids;
  task_id = k.task_id;
  agree = k.agree;
}

-- `scheduler_tick`, with what it leaves alone.
pub tick_keeps :
    (s : System) (q : ℕ → List ℕ)
    → IsValid s q
    → s.delayed_list ≡ none
    → (s' : System) × (q' : ℕ → List ℕ) × (scheduler_tick s ≡ some s') × (IsValid s' q' × Kept s s')
tick_keeps s q v none_delayed = elim (Bool-cases (decides (ticked s))) [
  | inr quiet ↦ (
    ticked s,
    q,
    tick_quiet s (ticked s) (no_delayed (ticked s) none_delayed) quiet,
    (
      ticked-IsValid s q v,
      ticked-Kept s (ticked s) (Stable-Kept (ticked s) (ticked s) (Stable-refl (ticked s))),
    ),
  )
  | inl yields ↦
      let (s', q', e, (v', st, t)) = scheduler_yield_lem (ticked s) q (ticked-IsValid s q v) in
      (
        s',
        q',
        tick_yields s (ticked s) (no_delayed (ticked s) none_delayed) yields ∙ e,
        (v', ticked-Kept s s' (Stable-Kept (ticked s) s' st)),
      )
]

-- While the delayed list is empty, `scheduler_tick` ends, counts the tick modulo 2^32, keeps the
-- invariant, leaves the delayed list empty and changes the state of no task that is neither ready nor
-- running. If the scheduler runs and has a current task, then afterwards no ready task has a higher
-- priority than the current one.
pub scheduler_tick_lem :
    (s : System) (q : ℕ → List ℕ)
    → IsValid s q
    → s.delayed_list ≡ none
    → (s' : System) × (q' : ℕ → List ℕ) × (scheduler_tick s ≡ some s')
      × (IsValid s' q'
          × (scheduler_get_tick_count s' ≡ (scheduler_get_tick_count s + 1) % u32_mod)
          × (s'.delayed_list ≡ none)
          × ((k : ℕ)
              → is_ready (s.task_pool k).state ≡ false
              → is_running (s.task_pool k).state ≡ false
              → (s'.task_pool k).state ≡ (s.task_pool k).state)
          × (s.scheduler_running ≡ true → s.current_tcb ≢ none → Top s'))
unfolding scheduler_get_tick_count
scheduler_tick_lem s q v none_delayed =
    let v' = ticked-IsValid s q v in
    elim (Bool-cases (decides (ticked s))) [
      | inr quiet ↦ (
        ticked s,
        q,
        tick_quiet s (ticked s) (no_delayed (ticked s) none_delayed) quiet,
        (v', refl, none_delayed, λ k r u. refl, quiet-Top (ticked s) q v' quiet),
      )
      | inl yields ↦
          let (s', q', e, (v'', st, t)) = scheduler_yield_lem (ticked s) q v' in
          (
            s',
            q',
            tick_yields s (ticked s) (no_delayed (ticked s) none_delayed) yields ∙ e,
            (
              v'',
              st.ticks,
              st.delayed ∙ none_delayed,
              λ k r u. ap (λ (t : Tcb). t.state) (st.asleep k r u),
              λ on cur. t on,
            ),
          )
    ]

-- A number of ticks.
abbrev pub ticks : ℕ → System → Option System
ticks zero s = some s
ticks (suc n) s = do s' ← scheduler_tick s; ticks n s'

-- A blocked task stays blocked, however many ticks pass, while the delayed list is empty: and
-- `task_delay` puts nothing into it.
pub ticks-blocked :
    (n : ℕ) (s : System) (q : ℕ → List ℕ) (k : ℕ)
    → IsValid s q
    → s.delayed_list ≡ none
    → (s.task_pool k).state ≡ blocked
    → (s' : System) × (ticks n s ≡ some s') × ((s'.task_pool k).state ≡ blocked)
ticks-blocked zero s q k v none_delayed b = (s, refl, b)
ticks-blocked (suc n) s q k v none_delayed b =
    let (s₁, q₁, e₁, (v₁, count, still_none, asleep, top)) =
      scheduler_tick_lem s q v none_delayed in
    let b₁ = asleep k (ap is_ready b) (ap is_running b) ∙ b in
    let (s₂, e₂, b₂) = ticks-blocked n s₁ q₁ k v₁ still_none b₁ in (s₂, rw e₁ e₂, b₂)
