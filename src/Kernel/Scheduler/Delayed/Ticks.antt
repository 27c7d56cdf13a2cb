-- ===== src/Kernel/Scheduler/Delayed/Ticks.antt =====
-- `scheduler_tick` of src/kernel/scheduler.c with tasks in the delayed list.
use rtos_driver_framework.Base.{
  ℕ, ◌+◌, ◌%◌, ◌≤◌, ◌≡◌, ◌≢◌, refl, inl, inr, true, none, some, List, arith, ◌==◌, ap, sym, ◌∙◌,
  subst, Bool-cases, u32_mod,
}
use rtos_driver_framework.Kernel.Scheduler.{blocked, is_ready, is_running, System, scheduler_tick}
use rtos_driver_framework.Kernel.Scheduler.Chain.{occurrences}
use rtos_driver_framework.Kernel.Scheduler.Queues.{member_of}
use rtos_driver_framework.Kernel.Scheduler.Invariant.{IsValid}
use rtos_driver_framework.Kernel.Scheduler.Steps.{Awake, Stable, Stable-refl}
use rtos_driver_framework.Kernel.Scheduler.Switch.{Top}
use rtos_driver_framework.Kernel.Scheduler.Schedule.{scheduler_yield_lem}
use rtos_driver_framework.Kernel.Scheduler.Tick.{
  ticked, ticked-IsValid, decides, tick_quiet, tick_yields, quiet-Top, ticks,
}
use rtos_driver_framework.Kernel.Scheduler.Delayed.{Waits, Delays, Delays-frame}
use rtos_driver_framework.Kernel.Scheduler.Delayed.WakeOne.{due, later}
use rtos_driver_framework.Kernel.Scheduler.Delayed.Wake.{Woken, process_delayed_tasks_lem}

abbrev wake_of : System → ℕ → ℕ
wake_of s k = (s.task_pool k).wake_time

-- What a tick leaves: the tasks that are due are awake, the others wait on as they are.
pub record Ticked (s s' : System) (q' : ℕ → List ℕ) (d : List ℕ) (now : ℕ) : Type 0 where
  pub valid : IsValid s' q'
  pub delays : Delays s' (later (wake_of s) now d)
  pub count : s'.system_tick_count ≡ now
  pub due_awake : (k : ℕ) → occurrences k (due (wake_of s) now d) ≢ 0 → Awake (s'.task_pool k).state
  pub stay_awake : (k : ℕ) → Awake (s.task_pool k).state → Awake (s'.task_pool k).state
  pub blocks :
      (k : ℕ) → occurrences k (later (wake_of s) now d) ≢ 0 → s'.task_pool k ≡ s.task_pool k
  pub top : s.scheduler_running ≡ true → s.current_tcb ≢ none → Top s'

abbrev next_tick : System → ℕ
next_tick s = (s.system_tick_count + 1) % u32_mod

abbrev due_next : System → List ℕ → List ℕ
due_next s d = due (wake_of s) (next_tick s) d

abbrev rest_next : System → List ℕ → List ℕ
rest_next s d = later (wake_of s) (next_tick s) d

Ticked-by :
    (s s₁ s' : System) (q q' : ℕ → List ℕ) (d : List ℕ)
    → Delays s d
    → Woken (wake_of s) (λ k. (s.task_pool k).priority) (next_tick s) (ticked s) s₁ q d
    → IsValid s' q'
    → Stable s₁ s'
    → (s.scheduler_running ≡ true → s.current_tcb ≢ none → Top s')
    → Ticked s s' q' d (next_tick s)
Ticked-by s s₁ s' q q' d delays w v st top = record {
  valid = v;
  delays = Delays-frame s₁ s' (rest_next s d) st.delayed still w.delays;
  count = st.ticks ∙ w.quiet.ticks;
  due_awake = λ k o. st.awake k (woken k o);
  stay_awake = λ k a. st.awake k (elim (Bool-cases (occurrences k (due_next s d) == 0)) [
    | inl e ↦ subst Awake (sym (w.states k (ground arith))) a
    | inr e ↦ woken k (ground arith)
  ]);
  blocks =
      λ k o. still k (member_of (Waits s₁) k (rest_next s d) w.delays.members o).1 ∙ w.blocks k o;
  top = top;
}
  where
    still : (k : ℕ) → (s₁.task_pool k).state ≡ blocked → s'.task_pool k ≡ s₁.task_pool k
    still k b = st.asleep k (ap is_ready b) (ap is_running b)

    woken : (k : ℕ) → occurrences k (due_next s d) ≢ 0 → Awake (s₁.task_pool k).state
    woken k o = inl (ap is_ready (member_of _ k (due_next s d) w.awake o))

-- `scheduler_tick` ends, whatever waits in the delayed list, counts the tick, and keeps the invariant and
-- the order of the list. The tasks whose wake time has come are awake and have left the list; the others
-- keep their blocks, and no task falls asleep. If the scheduler runs and has a current task, then
-- afterwards no ready task has a higher priority than the current one.
pub scheduler_tick_wakes :
    (s : System) (q : ℕ → List ℕ) (d : List ℕ)
    → IsValid s q
    → Delays s d
    → (s' : System) × (q' : ℕ → List ℕ) × (scheduler_tick s ≡ some s')
      × Ticked s s' q' d ((s.system_tick_count + 1) % u32_mod)
scheduler_tick_wakes s q d v delays =
    let (s₁, e₁, w) =
      process_delayed_tasks_lem (ticked s) q d (ticked-IsValid s q v)
        (Delays-frame s (ticked s) d refl (λ k b. refl) delays) in
    elim (Bool-cases (decides s₁)) [
      | inr quiet ↦ (
        s₁,
        _,
        tick_quiet s s₁ e₁ quiet,
        Ticked-by s s₁ s₁ q _ d delays w w.valid (Stable-refl s₁) (λ on cur.
            quiet-Top s₁ _ w.valid quiet (w.quiet.started ∙ on)
              (λ e. cur (sym w.quiet.current ∙ e))),
      )
      | inl yields ↦
          let (s', q', e, (v', st, t)) = scheduler_yield_lem s₁ _ w.valid in
          (
            s',
            q',
            tick_yields s s₁ e₁ yields ∙ e,
            Ticked-by s s₁ s' q q' d delays w v' st (λ on cur. t (w.quiet.started ∙ on)),
          )
    ]

-- What any number of ticks leaves.
pub record Waited (n : ℕ) (s s' : System) (q' : ℕ → List ℕ) (d d' : List ℕ) : Type 0 where
  pub valid : IsValid s' q'
  pub delays : Delays s' d'
  pub count : s'.system_tick_count ≡ s.system_tick_count + n
  pub stay_awake : (k : ℕ) → Awake (s.task_pool k).state → Awake (s'.task_pool k).state
  pub on_time :
      (k : ℕ)
      → occurrences k d ≢ 0
      → (s.task_pool k).wake_time ≤ s.system_tick_count + n
      → n ≢ 0
      → Awake (s'.task_pool k).state
