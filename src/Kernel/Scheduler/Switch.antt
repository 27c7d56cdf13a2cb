-- ===== src/Kernel/Scheduler/Switch.antt =====
-- The rotation of the current task and the switch to the next one in src/kernel/scheduler.c.
use mathlib.Core.Option.{some-injective}
use rtos_driver_framework.Base.{
  ℕ, ◌≤◌, ◌≡◌, ◌≢◌, refl, inl, inr, true, false, some, List, arith, ◌==◌, ap, sym, ◌∙◌, subst,
  Bool-cases, Option-cases, ==_refl,
}
use rtos_driver_framework.Kernel.Scheduler.{
  TaskState, ready, running, is_ready, is_running, System, with_state, modify, rotate, switch_to,
}
use rtos_driver_framework.Kernel.Scheduler.Queues.{Frame}
use rtos_driver_framework.Kernel.Scheduler.Invariant.{
  InUse, IsValid, Calm, valid-But, but-IsValid, state-But, enqueue, dequeue, InUse-keeps, add_valid,
  remove_valid,
}
use rtos_driver_framework.Kernel.Scheduler.Steps.{Awake, Stable, Stable-refl, Stable-trans}

pub is_ready-eq : (x : TaskState) → is_ready x ≡ true → x ≡ ready
is_ready-eq ready e = refl
is_ready-eq x e = cc

pub is_running-eq : (x : TaskState) → is_running x ≡ true → x ≡ running
is_running-eq running e = refl
is_running-eq x e = cc

-- No ready task has a higher priority than the current one.
abbrev pub Top : System → Type 0
Top s =
    (k : ℕ)
    → InUse s k
    → (s.task_pool k).state ≡ ready
    → (c : ℕ) × (s.current_tcb ≡ some c) × ((s.task_pool c).priority ≤ (s.task_pool k).priority)

-- A step on the lists of the task `i`, which was ready or running, is stable.
pub Frame-Stable :
    (s s' : System) (i : ℕ)
    → Frame s s' i
    → Calm s s' i
    → Awake (s.task_pool i).state
    → Awake (s'.task_pool i).state
    → Stable s s'
Frame-Stable s s' i f calm awake after = record {
  ticks = f.ticks;
  started = f.started;
  delayed = f.delayed;
  ids = f.ids;
  agree = λ e. f.task ∙ e ∙ sym f.current;
  priority = f.priority;
  task_id = f.task_id;
  asleep = λ k r u. calm k (different k r u awake) (λ e. cc (sym r ∙ ap is_ready e));
  awake = λ k a. elim (Bool-cases (i == k)) [
    | inl e ↦ subst (λ x. Awake (s'.task_pool x).state) (ground arith) after
    | inr e ↦ subst Awake (sym (f.state k (ground arith))) a
  ];
}
  where
    different :
        (k : ℕ)
        → is_ready (s.task_pool k).state ≡ false
        → is_running (s.task_pool k).state ≡ false
        → Awake (s.task_pool i).state
        → i ≢ k
    different k r u (inl e) same = cc (sym e ∙ ap (λ j. is_ready (s.task_pool j).state) same ∙ r)
    different k r u (inr e) same = cc (sym e ∙ ap (λ j. is_running (s.task_pool j).state) same ∙ u)

-- What the rotation leaves: the same tasks are ready, and the current one is the same.
pub record Rotated (s s' : System) (q' : ℕ → List ℕ) : Type 0 where
  pub valid : IsValid s' q'
  pub stable : Stable s s'
  pub states : (k : ℕ) → (s'.task_pool k).state ≡ (s.task_pool k).state
  pub current : s'.current_tcb ≡ s.current_tcb

-- A ready task that is taken out of its queue and put at its end.
pub rotated :
    (s : System) (q : ℕ → List ℕ) (c : ℕ)
    → IsValid s q
    → InUse s c
    → (s.task_pool c).state ≡ ready
    → (s' : System) × (rotate s (some c) ≡ some s')
      × Rotated s s' (enqueue (dequeue q (s.task_pool c).priority c) (s.task_pool c).priority c)
unfolding rotate
rotated s q c v used on =
    let p : ℕ = (s.task_pool c).priority in
    let (s₁, e₁, (v₁, f₁, same₁, out₁, calm₁)) = remove_valid s q c (valid-But c s q v) used in
    let (s₂, e₂, (v₂, f₂, on₂, calm₂)) =
      add_valid s₁ (dequeue q p c) c v₁ (InUse-keeps s s₁ c c f₁ used) out₁ in
    (
      s₂,
      rw (on, e₁) e₂,
      record {
        valid = subst (λ x. IsValid s₂ (enqueue (dequeue q p c) x c)) (f₁.priority c) v₂;
        stable =
            Stable-trans s s₁ s₂
              (Frame-Stable s s₁ c f₁ calm₁ (inl (ap is_ready on)) (inl (ap is_ready (same₁ ∙ on))))
              (Frame-Stable s₁ s₂ c f₂ calm₂ (inl (ap is_ready (same₁ ∙ on)))
                (inl (ap is_ready on₂)));
        states = λ k. elim (Bool-cases (c == k)) [
          | inl e ↦
              subst (λ j. (s₂.task_pool j).state ≡ (s.task_pool j).state) (ground arith)
                (on₂ ∙ sym on)
          | inr e ↦ f₂.state k (ground arith) ∙ f₁.state k (ground arith)
        ];
        current = f₂.current ∙ f₁.current;
      },
    )

pub rotate_lem :
    (s : System) (q : ℕ → List ℕ)
    → IsValid s q
    → (s' : System) × (q' : ℕ → List ℕ) × (rotate s s.current_tcb ≡ some s') × Rotated s s' q'
unfolding rotate
rotate_lem s q v = elim (Option-cases s.current_tcb) [
  | inl e ↦ (s, q, ap (rotate s) e, still)
  | inr (c, e) ↦ elim (Bool-cases (is_ready (s.task_pool c).state)) [
    | inl on ↦
        let (s', e', r) = rotated s q c v (v.current c e) (is_ready-eq (s.task_pool c).state on) in
        (s', _, ap (rotate s) e ∙ e', r)
    | inr off ↦ (s, q, ap (rotate s) e ∙ rw off refl, still)
  ]
]
  where
    still : Rotated s s q
    still = record { valid = v; stable = Stable-refl s; states = λ k. refl; current = refl }

pub state-Frame : (s : System) (i : ℕ) (x : TaskState) → Frame s (modify s i (with_state x)) i
state-Frame s i x = record {
  ticks = refl;
  started = refl;
  current = refl;
  delayed = refl;
  ids = refl;
  task = refl;
  stack = λ k w. ground arith;
  priority = λ k. ground arith;
  task_id = λ k. ground arith;
  state = λ k ne. ground arith;
}

pub state-Calm : (s : System) (i : ℕ) (x : TaskState) → Calm s (modify s i (with_state x)) i
state-Calm s i x k ne off = ground arith

Stable-current :
    (s : System) (n : ℕ) → Stable s (record s { current_tcb = some n; current_task = some n })
Stable-current s n = record {
  ticks = refl;
  started = refl;
  delayed = refl;
  ids = refl;
  agree = λ e. refl;
  priority = λ k. refl;
  task_id = λ k. refl;
  asleep = λ k r u. refl;
  awake = λ k a. a;
}

-- What the switch to `n` leaves.
pub record Switched (s s' : System) (q : ℕ → List ℕ) (n : ℕ) : Type 0 where
  pub valid : IsValid s' (dequeue q (s.task_pool n).priority n)
  pub stable : Stable s s'
  pub current : s'.current_tcb ≡ some n
  pub runs : (s'.task_pool n).state ≡ running
  pub states : (k : ℕ) → n ≢ k → (s'.task_pool k).state ≡ (s.task_pool k).state

pub switch_to_lem :
    (s : System) (q : ℕ → List ℕ) (n : ℕ)
    → IsValid s q
    → InUse s n
    → (s.task_pool n).state ≡ ready
    → (s' : System) × (switch_to n s ≡ some s') × Switched s s' q n
unfolding switch_to
switch_to_lem s q n v used on =
    let p : ℕ = (s.task_pool n).priority in
    let (s₁, e₁, (v₁, f₁, same₁, out₁, calm₁)) = remove_valid s q n (valid-But n s q v) used in
    let s₂ = modify s₁ n (with_state running) in
    let v₂ =
      but-IsValid n s₂ (dequeue q p n) (state-But n running s₁ (dequeue q p n) v₁)
        (rw (==_refl n) (λ e. cc)) (rw (==_refl n) out₁) in
    let f₂ = state-Frame s₁ n running in
    let s₃ : System = record s₂ { current_tcb = some n; current_task = some n } in
    let stable₁ =
      Frame-Stable s s₁ n f₁ calm₁ (inl (ap is_ready on)) (inl (ap is_ready (same₁ ∙ on))) in
    (
      s₃,
      rw e₁ refl,
      record {
        valid = record {
          queues = record {
            chains = v₂.queues.chains;
            members = v₂.queues.members;
            distinct = v₂.queues.distinct;
          };
          right = v₂.right;
          levels = v₂.levels;
          current = λ c e.
              subst (InUse s₂) (some-injective _ _ e)
                (InUse-keeps s₁ s₂ n n f₂ (InUse-keeps s s₁ n n f₁ used));
        };
        stable = Stable-trans s s₁ s₃ stable₁ (
            Stable-trans s₁ s₂ s₃
              (Frame-Stable s₁ s₂ n f₂ (state-Calm s₁ n running) (inl (ap is_ready (same₁ ∙ on)))
                (inr (rw (==_refl n) refl)))
              (Stable-current s₂ n));
        current = refl;
        runs = rw (==_refl n) refl;
        states = λ k ne. f₂.state k ne ∙ f₁.state k ne;
      },
    )
