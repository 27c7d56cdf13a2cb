-- ===== src/Kernel/Scheduler/Schedule.antt =====
-- `schedule`, `scheduler_yield` and `scheduler_start` of src/kernel/scheduler.c keep the invariant and
-- let no ready task wait behind a current task of a lower priority.
use rtos_driver_framework.Base.{
  ℕ, ◌≤◌, ◌≡◌, ◌≢◌, refl, inl, inr, true, false, Option, none, some, List, arith, ap, sym, ◌∙◌,
  subst, Bool-cases, Option-cases, ==_refl,
}
use rtos_driver_framework.Kernel.Scheduler.{
  TaskState, ready, running, is_ready, is_running, System, with_state, modify, is_task, requeue,
  schedule, scheduler_yield, scheduler_start,
}
use rtos_driver_framework.Kernel.Scheduler.Chain.{occurrences}
use rtos_driver_framework.Kernel.Scheduler.Unlink.{zero_of}
use rtos_driver_framework.Kernel.Scheduler.Invariant.{
  InUse, IsValid, valid-But, state-But, enqueue, InUse-keeps, add_valid,
}
use rtos_driver_framework.Kernel.Scheduler.Steps.{
  Stable, Stable-refl, Stable-trans, Kept, get_highest_priority_task_lem,
}
use rtos_driver_framework.Kernel.Scheduler.Switch.{
  is_running-eq, Top, Frame-Stable, Rotated, rotate_lem, state-Frame, state-Calm, Switched,
  switch_to_lem,
}

-- What a decision leaves.
pub record Decided (s s' : System) (q' : ℕ → List ℕ) : Type 0 where
  pub valid : IsValid s' q'
  pub stable : Stable s s'
  pub top : Top s'

is_task-eq : (n : ℕ) (c : Option ℕ) → is_task n c ≡ true → c ≡ some n
is_task-eq n none e = cc
is_task-eq n (some c) e = ap some (ground arith)

-- After the switch to the head of the first queue.
Top-of :
    (s s₁ s₂ : System) (q₁ : ℕ → List ℕ) (p n : ℕ)
    → Rotated s s₁ q₁
    → Switched s₁ s₂ q₁ n
    → (s.task_pool n).priority ≡ p
    → ((k : ℕ) → InUse s k → (s.task_pool k).state ≡ ready → p ≤ (s.task_pool k).priority)
    → Top s₂
Top-of s s₁ s₂ q₁ p n r w level least k used on =
    let st = Stable-trans s s₁ s₂ r.stable w.stable in
    let ne : n ≢ k = λ z.
      absurd (not_both (s₂.task_pool n).state w.runs (ap (λ j. (s₂.task_pool j).state) z ∙ on)) in
    let was : (s.task_pool k).state ≡ ready = sym (r.states k) ∙ sym (w.states k ne) ∙ on in
    let le = least k (used.0, λ z. used.1 (st.task_id k ∙ z)) was in
    (n, w.current, omega (arith, le, level, st.priority n, st.priority k))
  where
    not_both : (x : TaskState) → x ≡ running → x ≢ ready
    not_both x e f = cc

pub schedule_lem :
    (s : System) (q : ℕ → List ℕ)
    → IsValid s q
    → (s' : System) × (q' : ℕ → List ℕ) × (schedule s ≡ some s') × Decided s s' q'
unfolding schedule
schedule_lem s q v = elim (get_highest_priority_task_lem s q v) [
  | inl (e, idle) ↦ (
    s,
    q,
    rw (e, schedule) refl,
    record { valid = v; stable = Stable-refl s; top = λ k used on. absurd (idle k used on) },
  )
  | inr (p, n, e, head, least) ↦ elim (Bool-cases (is_task n s.current_tcb)) [
    | inl same ↦ (
      s,
      q,
      rw (e, schedule, same) refl,
      record {
        valid = v;
        stable = Stable-refl s;
        top = λ k used on. (
          n,
          is_task-eq n s.current_tcb same,
          subst (λ x. x ≤ (s.task_pool k).priority) (sym head.level) (least k used on),
        );
      },
    )
    | inr other ↦
        let (s₁, q₁, e₁, r) = rotate_lem s q v in
        let used₁ : InUse s₁ n = (head.used.0, λ z. head.used.1 (sym (r.stable.task_id n) ∙ z)) in
        let (s₂, e₂, w) = switch_to_lem s₁ q₁ n r.valid used₁ (r.states n ∙ head.on) in
        (
          s₂,
          _,
          rw (e, schedule, other, e₁) e₂,
          record {
            valid = w.valid;
            stable = Stable-trans s s₁ s₂ r.stable w.stable;
            top = Top-of s s₁ s₂ q₁ p n r w head.level least;
          },
        )
  ]
]

-- A running task that gives up the processor goes to the end of its queue.
pub requeued :
    (s : System) (q : ℕ → List ℕ) (c : ℕ)
    → IsValid s q
    → InUse s c
    → (s.task_pool c).state ≡ running
    → (s' : System) × (requeue s (some c) ≡ some s')
      × (IsValid s' (enqueue q (s.task_pool c).priority c)
          × Stable s s'
          × (s'.current_tcb ≡ s.current_tcb)
          × ((s'.task_pool c).state ≡ ready)
          × ((k : ℕ) → c ≢ k → (s'.task_pool k).state ≡ (s.task_pool k).state))
unfolding requeue
requeued s q c v used on =
    let p : ℕ = (s.task_pool c).priority in
    let s₁ = modify s c (with_state ready) in
    let f₁ = state-Frame s c ready in
    let v₁ = state-But c ready s q (valid-But c s q v) in
    let out : occurrences c (q (s₁.task_pool c).priority) ≡ 0 = rw (f₁.priority c) (
      zero_of (occurrences c (q p))
        (λ o. not_both (s.task_pool c).state on ((v.right c tt).1 p o))) in
    let (s₂, e₂, (v₂, f₂, on₂, calm₂)) = add_valid s₁ q c v₁ (InUse-keeps s s₁ c c f₁ used) out in
    (
      s₂,
      rw on e₂,
      (
        subst (λ x. IsValid s₂ (enqueue q x c)) (f₁.priority c) v₂,
        Stable-trans s s₁ s₂
            (Frame-Stable s s₁ c f₁ (state-Calm s c ready) (inr (ap is_running on))
              (inl (rw (==_refl c) refl)))
            (Frame-Stable s₁ s₂ c f₂ calm₂ (inl (rw (==_refl c) refl)) (inl (ap is_ready on₂))),
        f₂.current ∙ f₁.current,
        on₂,
        λ k ne. f₂.state k ne ∙ f₁.state k ne,
      ),
    )
  where
    not_both : (x : TaskState) → x ≡ running → x ≢ ready
    not_both x e f = cc

requeue_lem :
    (s : System) (q : ℕ → List ℕ)
    → IsValid s q
    → (s' : System) × (q' : ℕ → List ℕ) × (requeue s s.current_tcb ≡ some s')
      × (IsValid s' q' × Stable s s')
unfolding requeue
requeue_lem s q v = elim (Option-cases s.current_tcb) [
  | inl e ↦ (s, q, ap (requeue s) e, (v, Stable-refl s))
  | inr (c, e) ↦ elim (Bool-cases (is_running (s.task_pool c).state)) [
    | inl on ↦
        let (s', e', (v', st, same, on', states)) =
          requeued s q c v (v.current c e) (is_running-eq (s.task_pool c).state on) in
        (s', _, ap (requeue s) e ∙ e', (v', st))
    | inr off ↦ (s, q, ap (requeue s) e ∙ rw off refl, (v, Stable-refl s))
  ]
]

pub yield_stopped : (s : System) → s.scheduler_running ≡ false → scheduler_yield s ≡ some s
unfolding scheduler_yield
yield_stopped s off = ground (arith, off)

pub yield_by :
    (s s₁ s₂ : System)
    → s.scheduler_running ≡ true
    → requeue s s.current_tcb ≡ some s₁
    → schedule s₁ ≡ some s₂
    → scheduler_yield s ≡ some s₂
unfolding scheduler_yield
yield_by s s₁ s₂ on e₁ e₂ = ground (arith, on, e₁, e₂)

-- `scheduler_yield` ends, keeps the invariant that the queues hold exactly the ready tasks, and leaves
-- the block of each task that is neither ready nor running. If the scheduler runs, then afterwards no
-- ready task has a higher priority than the current one.
pub scheduler_yield_lem :
    (s : System) (q : ℕ → List ℕ)
    → IsValid s q
    → (s' : System) × (q' : ℕ → List ℕ) × (scheduler_yield s ≡ some s')
      × (IsValid s' q' × Stable s s' × (s.scheduler_running ≡ true → Top s'))
unfolding scheduler_yield
scheduler_yield_lem s q v = elim (Bool-cases s.scheduler_running) [
  | inr off ↦ (s, q, yield_stopped s off, (v, Stable-refl s, λ on. cc))
  | inl on ↦
      let (s₁, q₁, e₁, (v₁, st₁)) = requeue_lem s q v in
      let (s₂, q₂, e₂, d) = schedule_lem s₁ q₁ v₁ in
      (s₂, q₂, yield_by s s₁ s₂ on e₁ e₂, (d.valid, Stable-trans s s₁ s₂ st₁ d.stable, λ r. d.top))
]

-- `scheduler_start`, with what it leaves alone.
pub start_keeps :
    (s : System) (q : ℕ → List ℕ)
    → IsValid s q
    → (s' : System) × (q' : ℕ → List ℕ) × (scheduler_start s ≡ some s')
      × (IsValid s' q' × Kept s s')
unfolding scheduler_start
start_keeps s q v =
    let on : System = record s { scheduler_running = true } in
    let v₀ : IsValid on q = record {
      queues = record {
        chains = v.queues.chains;
        members = v.queues.members;
        distinct = v.queues.distinct;
      };
      right = v.right;
      levels = v.levels;
      current = v.current;
    } in
    let (s', q', e, d) = schedule_lem on q v₀ in
    let st = d.stable in
    (
      s',
      q',
      e,
      (
        d.valid,
        record { delayed = st.delayed; ids = st.ids; task_id = st.task_id; agree = st.agree },
      ),
    )
