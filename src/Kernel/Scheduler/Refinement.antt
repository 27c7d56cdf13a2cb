-- ===== src/Kernel/Scheduler/Refinement.antt =====
-- `scheduler_yield` of src/kernel/scheduler.c does what its specification on queues says.
use rtos_driver_framework.Base.{
  ℕ, zero, suc, ◌+◌, ◌≡◌, refl, inl, inr, true, Option, none, some, List, [], ◌∷◌, arith, ◌==◌, ap,
  sym, ◌∙◌, subst, Bool-cases,
}
use rtos_driver_framework.Kernel.Scheduler.{
  Tcb, ready, running, is_ready, is_running, System, is_task, num_priority_levels, highest_from,
  get_highest_priority_task, rotate, switch_to, requeue, schedule, scheduler_yield,
}
use rtos_driver_framework.Kernel.Scheduler.Chain.{Chain}
use rtos_driver_framework.Kernel.Scheduler.Invariant.{InUse, IsValid, enqueue, dequeue}
use rtos_driver_framework.Kernel.Scheduler.Steps.{
  Stable, Stable-refl, get_highest_priority_task_lem,
}
use rtos_driver_framework.Kernel.Scheduler.Switch.{
  is_ready-eq, is_running-eq, rotated, switch_to_lem,
}
use rtos_driver_framework.Kernel.Scheduler.Schedule.{requeued, yield_by}
use rtos_driver_framework.Kernel.Scheduler.Spec.{
  Spec, head_of, first_from, spec_requeue, spec_rotate, spec_switch, spec_decide, spec_schedule,
  spec_yield, Refines,
}

Chain-head : (pool : ℕ → Tcb) (h : Option ℕ) (is : List ℕ) → Chain pool h is → h ≡ head_of is
Chain-head pool h [] c = c
Chain-head pool h (j ∷ js) c = c.0

highest_from-first :
    (n i : ℕ) (lists : ℕ → Option ℕ) (q : ℕ → List ℕ)
    → ((p : ℕ) → lists p ≡ head_of (q p))
    → highest_from n i lists ≡ first_from n i q
unfolding highest_from
highest_from-first zero i lists q same = refl
highest_from-first (suc n) i lists q same =
    by_queue (q i) refl (highest_from-first n (i + 1) lists q same)
  where
    by_queue :
        (is : List ℕ)
        → q i ≡ is
        → highest_from n (i + 1) lists ≡ first_from n (i + 1) q
        → highest_from (suc n) i lists ≡ first_from (suc n) i q
    by_queue [] e rest = rw (highest_from, same i ∙ ap head_of e, first_from, e) rest
    by_queue (j ∷ js) e rest = rw (highest_from, same i ∙ ap head_of e, first_from, e) refl

choice :
    (s : System) (q : ℕ → List ℕ)
    → IsValid s q
    → get_highest_priority_task s ≡ first_from num_priority_levels 0 q
unfolding get_highest_priority_task
choice s q v =
    highest_from-first num_priority_levels 0 s.ready_lists q
      (λ p. Chain-head s.task_pool (s.ready_lists p) (q p) (v.queues.chains p))

module _ (priority : ℕ → ℕ) (s : System) (a : Spec) (r : Refines priority s a) where
  requeue_by :
      (c : Option ℕ)
      → s.current_tcb ≡ c
      → (s' : System) × (requeue s c ≡ some s')
        × Refines priority s' (spec_requeue priority c a)
        × (s'.scheduler_running ≡ s.scheduler_running)
  unfolding requeue
  requeue_by none e = (s, refl, r, refl)
  requeue_by (some c) e = elim (Bool-cases (is_running (s.task_pool c).state)) [
    | inr off ↦ (s, rw off refl, rw (sym (ap is_running (r.states c)) ∙ off) r, refl)
    | inl on ↦
        let (s', e', (v', st, same, ready', states)) =
          requeued s a.queues c r.valid (r.valid.current c e)
            (is_running-eq (s.task_pool c).state on) in
        (
          s',
          e',
          rw (sym (ap is_running (r.states c)) ∙ on) (record {
            valid = subst (λ p. IsValid s' (enqueue a.queues p c)) (r.priorities c) v';
            current = same ∙ r.current;
            states = λ k. elim (Bool-cases (c == k)) [
              | inl h ↦ rw h (subst (λ j. (s'.task_pool j).state ≡ ready) (ground arith) ready')
              | inr h ↦ rw h (states k (ground arith) ∙ r.states k)
            ];
            priorities = λ k. st.priority k ∙ r.priorities k;
          }),
          st.started,
        )
  ]

  -- What a rotation leaves.
  abbrev RotatedTo : Option ℕ → Type 0
  RotatedTo c =
      (s' : System) × (rotate s c ≡ some s')
      × Refines priority s' (spec_rotate priority c a)
      × Stable s s'
      × ((k : ℕ) → (s'.task_pool k).state ≡ (s.task_pool k).state)

  rotate_by : (c : Option ℕ) → s.current_tcb ≡ c → RotatedTo c
  unfolding rotate
  rotate_by none e = (s, refl, r, Stable-refl s, λ k. refl)
  rotate_by (some c) e = elim (Bool-cases (is_ready (s.task_pool c).state)) [
    | inr off ↦
        (s, rw off refl, rw (sym (ap is_ready (r.states c)) ∙ off) r, Stable-refl s, λ k. refl)
    | inl on ↦
        let (s', e', x) =
          rotated s a.queues c r.valid (r.valid.current c e)
            (is_ready-eq (s.task_pool c).state on) in
        (
          s',
          e',
          rw (sym (ap is_ready (r.states c)) ∙ on) (record {
            valid =
                subst (λ p. IsValid s' (enqueue (dequeue a.queues p c) p c)) (r.priorities c)
                  x.valid;
            current = x.current ∙ r.current;
            states = λ k. x.states k ∙ r.states k;
            priorities = λ k. x.stable.priority k ∙ r.priorities k;
          }),
          x.stable,
          x.states,
        )
  ]

  switch_by :
      (n : ℕ)
      → InUse s n
      → (s.task_pool n).state ≡ ready
      → (s' : System) × (switch_to n s ≡ some s') × Refines priority s' (spec_switch priority n a)
  switch_by n used on =
      let (s', e, w) = switch_to_lem s a.queues n r.valid used on in
      (
        s',
        e,
        record {
          valid = subst (λ p. IsValid s' (dequeue a.queues p n)) (r.priorities n) w.valid;
          current = w.current;
          states = λ k. elim (Bool-cases (n == k)) [
            | inl h ↦ rw h (subst (λ j. (s'.task_pool j).state ≡ running) (ground arith) w.runs)
            | inr h ↦ rw h (w.states k (ground arith) ∙ r.states k)
          ];
          priorities = λ k. w.stable.priority k ∙ r.priorities k;
        },
      )

decide_by :
    (priority : ℕ → ℕ) (s : System) (a : Spec)
    → Refines priority s a
    → (s' : System) × (schedule s ≡ some s') × Refines priority s' (spec_schedule priority a)
unfolding schedule
decide_by priority s a r = elim (get_highest_priority_task_lem s a.queues r.valid) [
  | inl (e, idle) ↦
      let f : first_from num_priority_levels 0 a.queues ≡ none =
        sym (choice s a.queues r.valid) ∙ e in
      (
        s,
        rw (e, schedule) refl,
        subst (λ o. Refines priority s (spec_decide priority o a)) (sym f) r,
      )
  | inr (p, n, e, head, least) ↦
      let f : first_from num_priority_levels 0 a.queues ≡ some n =
        sym (choice s a.queues r.valid) ∙ e in
      elim (Bool-cases (is_task n s.current_tcb)) [
        | inl same ↦ (
          s,
          rw (e, schedule, same) refl,
          subst (λ o. Refines priority s (spec_decide priority o a)) (sym f)
              (rw (sym (ap (is_task n) r.current) ∙ same) r),
        )
        | inr other ↦
            let (s₁, e₁, r₁, st, states) = rotate_by priority s a r s.current_tcb refl in
            let used : InUse s₁ n = (head.used.0, λ z. head.used.1 (sym (st.task_id n) ∙ z)) in
            let (s₂, e₂, r₂) =
              switch_by priority s₁ (spec_rotate priority s.current_tcb a) r₁ n used
                (states n ∙ head.on) in
            (
              s₂,
              rw (e, schedule, other, e₁) e₂,
              subst (λ o. Refines priority s₂ (spec_decide priority o a)) (sym f)
                  (rw (sym (ap (is_task n) r.current) ∙ other) (
                    subst
                      (λ c. Refines priority s₂ (spec_switch priority n (spec_rotate priority c a)))
                      r.current r₂)),
            )
      ]
]

-- `scheduler_yield` of a running scheduler ends, and does to the ready lists, the states and the current
-- task what the specification does to its queues: a running task goes to the end of the queue of its
-- priority, and the head of the first queue that is not empty becomes the running task, unless it is the
-- current one; a current task that is ready goes to the end of its queue before that.
pub scheduler_yield-Refines :
    (priority : ℕ → ℕ) (s : System) (a : Spec)
    → Refines priority s a
    → s.scheduler_running ≡ true
    → (s' : System) × (scheduler_yield s ≡ some s') × Refines priority s' (spec_yield priority a)
scheduler_yield-Refines priority s a r on =
    let (s₁, e₁, r₁, _) = requeue_by priority s a r s.current_tcb refl in
    let (s₂, e₂, r₂) = decide_by priority s₁ (spec_requeue priority s.current_tcb a) r₁ in
    (
      s₂,
      yield_by s s₁ s₂ on e₁ e₂,
      subst (λ c. Refines priority s₂ (spec_schedule priority (spec_requeue priority c a)))
          r.current r₂,
    )
