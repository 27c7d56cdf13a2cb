-- ===== src/Kernel/Scheduler/Steps.antt =====
-- The parts of a scheduling decision of src/kernel/scheduler.c: the choice of a task, the rotation of
-- the current one, and the switch.
use mathlib.Core.Option.{some-injective}
use rtos_driver_framework.Base.{
  ℕ, zero, suc, ◌+◌, ◌≤◌, ◌<◌, ◌≡◌, ◌≢◌, refl, ◌⊎◌, inl, inr, true, false, Option, none, some, List,
  [], ◌∷◌, arith, ◌==◌, ap, sym, ◌∙◌, subst, Bool-cases, Option-cases, ==_refl,
}
use rtos_driver_framework.Kernel.Scheduler.{
  TaskState, Tcb, ready, is_ready, is_running, System, num_priority_levels, highest_from,
  get_highest_priority_task,
}
use rtos_driver_framework.Kernel.Scheduler.Chain.{Chain, occurrences}
use rtos_driver_framework.Kernel.Scheduler.Queues.{Frame, Member, member_of}
use rtos_driver_framework.Kernel.Scheduler.Invariant.{InUse, IsValid}

abbrev pub Awake : TaskState → Type 0
Awake x = (is_ready x ≡ true) ⊎ (is_running x ≡ true)

-- What a scheduling step leaves alone. The block of a task that is neither ready nor running
-- stays as it is, and no other task falls asleep.
pub record Stable (s s' : System) : Type 0 where
  pub ticks : s'.system_tick_count ≡ s.system_tick_count
  pub started : s'.scheduler_running ≡ s.scheduler_running
  pub delayed : s'.delayed_list ≡ s.delayed_list
  pub ids : s'.next_task_id ≡ s.next_task_id
  pub agree : s.current_task ≡ s.current_tcb → s'.current_task ≡ s'.current_tcb
  pub priority : (k : ℕ) → (s'.task_pool k).priority ≡ (s.task_pool k).priority
  pub task_id : (k : ℕ) → (s'.task_pool k).task_id ≡ (s.task_pool k).task_id
  pub asleep :
      (k : ℕ)
      → is_ready (s.task_pool k).state ≡ false
      → is_running (s.task_pool k).state ≡ false
      → s'.task_pool k ≡ s.task_pool k
  pub awake : (k : ℕ) → Awake (s.task_pool k).state → Awake (s'.task_pool k).state

pub Stable-refl : (s : System) → Stable s s
Stable-refl s = record {
  ticks = refl;
  started = refl;
  delayed = refl;
  ids = refl;
  agree = λ e. e;
  priority = λ k. refl;
  task_id = λ k. refl;
  asleep = λ k r u. refl;
  awake = λ k a. a;
}

pub Stable-trans : (s s' s'' : System) → Stable s s' → Stable s' s'' → Stable s s''
Stable-trans s s' s'' a b = record {
  ticks = b.ticks ∙ a.ticks;
  started = b.started ∙ a.started;
  delayed = b.delayed ∙ a.delayed;
  ids = b.ids ∙ a.ids;
  agree = λ e. b.agree (a.agree e);
  priority = λ k. b.priority k ∙ a.priority k;
  task_id = λ k. b.task_id k ∙ a.task_id k;
  asleep = λ k r u.
      let e = ap (λ (t : Tcb). t.state) (a.asleep k r u) in
      b.asleep k (ap is_ready e ∙ r) (ap is_running e ∙ u) ∙ a.asleep k r u;
  awake = λ k x. b.awake k (a.awake k x);
}

-- What a call leaves alone that neither makes a task nor fills the delayed list. The two variables for
-- the current task go on to agree.
pub record Kept (s s' : System) : Type 0 where
  pub delayed : s'.delayed_list ≡ s.delayed_list
  pub ids : s'.next_task_id ≡ s.next_task_id
  pub task_id : (k : ℕ) → (s'.task_pool k).task_id ≡ (s.task_pool k).task_id
  pub agree : s.current_task ≡ s.current_tcb → s'.current_task ≡ s'.current_tcb

pub Stable-Kept : (s s' : System) → Stable s s' → Kept s s'
Stable-Kept s s' st = record {
  delayed = st.delayed;
  ids = st.ids;
  task_id = st.task_id;
  agree = st.agree;
}

pub Frame-Kept : (s s' : System) (i : ℕ) → Frame s s' i → Kept s s'
Frame-Kept s s' i f = record {
  delayed = f.delayed;
  ids = f.ids;
  task_id = f.task_id;
  agree = λ e. f.task ∙ e ∙ sym f.current;
}

pub Kept-trans : (s s' s'' : System) → Kept s s' → Kept s' s'' → Kept s s''
Kept-trans s s' s'' a b = record {
  delayed = b.delayed ∙ a.delayed;
  ids = b.ids ∙ a.ids;
  task_id = λ k. b.task_id k ∙ a.task_id k;
  agree = λ e. b.agree (a.agree e);
}

from_next :
    (lists : ℕ → Option ℕ) (i p top : ℕ)
    → lists i ≡ none
    → (i + 1 ≤ p → p < top → lists p ≡ none)
    → i ≤ p
    → p < top
    → lists p ≡ none
from_next lists i p top e rest l u = elim (Bool-cases (i == p)) [
  | inl here ↦ subst (λ x. lists x ≡ none) (ground arith) e
  | inr after ↦ rest (ground arith) u
]

-- The first list that is not empty.
pub highest_from_lem :
    (n i : ℕ) (lists : ℕ → Option ℕ)
    → ((highest_from n i lists ≡ none) × ((p : ℕ) → i ≤ p → p < i + n → lists p ≡ none))
      ⊎ ((p head : ℕ) × (highest_from n i lists ≡ some head)
          × (i ≤ p)
          × (p < i + n)
          × (lists p ≡ some head)
          × ((p' : ℕ) → i ≤ p' → p' < p → lists p' ≡ none))
unfolding highest_from
highest_from_lem zero i lists = inl (refl, λ p l u. absurd (omega arith))
highest_from_lem (suc n) i lists = elim (Option-cases (lists i)) [
  | inr (head, e) ↦ inr (
    i,
    head,
    rw (e, highest_from) refl,
    omega arith,
    omega arith,
    e,
    λ p' l u. absurd (omega arith),
  )
  | inl e ↦ elim (highest_from_lem n (i + 1) lists) [
    | inl (f, all) ↦ inl (
      rw (e, highest_from) f,
      λ p l u. from_next lists i p (i + suc n) e (λ l' u'. all p l' (omega arith)) l u,
    )
    | inr (p, head, f, l, u, g, all) ↦ inr (
      p,
      head,
      rw (e, highest_from) f,
      omega arith,
      omega arith,
      g,
      λ p' l' u'. from_next lists i p' p e (all p') l' u',
    )
  ]
]

module _ (s : System) (q : ℕ → List ℕ) (v : IsValid s q) where
  -- A ready task in use stands in a list that is not empty.
  ready_list :
      (k : ℕ)
      → InUse s k
      → (s.task_pool k).state ≡ ready
      → s.ready_lists (s.task_pool k).priority ≢ none
  ready_list k used on e = (v.right k tt).0 used on (empty_queue (s.task_pool k).priority k e)
    where
      empty_chain :
          (pool : ℕ → Tcb) (h : Option ℕ) (is : List ℕ) (k : ℕ)
          → h ≡ none
          → Chain pool h is
          → occurrences k is ≡ 0
      empty_chain pool h [] k e c = refl
      empty_chain pool h (j ∷ js) k e c = cc

      empty_queue : (p k : ℕ) → s.ready_lists p ≡ none → occurrences k (q p) ≡ 0
      empty_queue p k e = empty_chain s.task_pool (s.ready_lists p) (q p) k e (v.queues.chains p)

  -- The task at the head of a list.
  pub record Head (p head : ℕ) : Type 0 where
    pub used : InUse s head
    pub on : (s.task_pool head).state ≡ ready
    pub level : (s.task_pool head).priority ≡ p
    pub rest : List ℕ
    pub first : q p ≡ head ∷ rest

  Head-of : (p head : ℕ) → s.ready_lists p ≡ some head → Head p head
  Head-of p head e = by_queue (q p) refl
    where
      here : (js : List ℕ) → occurrences head (head ∷ js) ≢ 0
      here js = ground (arith, ==_refl head)

      by_queue : (is : List ℕ) → q p ≡ is → Head p head
      by_queue [] f = cc (subst (Chain s.task_pool (s.ready_lists p)) f (v.queues.chains p))
      by_queue (j ∷ js) f =
          let c = subst (Chain s.task_pool (s.ready_lists p)) f (v.queues.chains p) in
          let same : j ≡ head = some-injective _ _ (sym c.0 ∙ e) in
          let g : q p ≡ head ∷ js = f ∙ ap (λ x. x ∷ js) same in
          let there : occurrences head (q p) ≢ 0 =
            λ o. here js (ap (occurrences head) (sym g) ∙ o) in
          let m = member_of (Member s.task_pool p) head (q p) (v.queues.members p) there in
          record {
            used = (m.0, m.2);
            on = (v.right head tt).1 p there;
            level = m.1;
            rest = js;
            first = g;
          }

  -- The choice: no task is ready, or the head of a queue, and no ready task has a higher priority.
  pub get_highest_priority_task_lem :
      ((get_highest_priority_task s ≡ none) × ((k : ℕ) → InUse s k → (s.task_pool k).state ≢ ready))
      ⊎ ((p next : ℕ) × (get_highest_priority_task s ≡ some next)
          × Head p next
          × ((k : ℕ) → InUse s k → (s.task_pool k).state ≡ ready → p ≤ (s.task_pool k).priority))
  unfolding get_highest_priority_task
  get_highest_priority_task_lem = elim (highest_from_lem num_priority_levels 0 s.ready_lists) [
    | inl (e, all) ↦ inl (
      e,
      λ k used on.
          ready_list k used on
            (all (s.task_pool k).priority (omega arith) (omega (arith, v.levels k used))),
    )
    | inr (p, head, e, l, u, there, before) ↦
        inr (p, head, e, Head-of p head there, λ k used on. least p before k (ready_list k used on))
  ]
    where
      least :
          (p : ℕ)
          → ((p' : ℕ) → 0 ≤ p' → p' < p → s.ready_lists p' ≡ none)
          → (k : ℕ) → s.ready_lists (s.task_pool k).priority ≢ none
          → p ≤ (s.task_pool k).priority
      least p before k ne = ground (arith, before (s.task_pool k).priority)
