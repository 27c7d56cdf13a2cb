-- ===== src/Kernel/Task/Found.antt =====
-- What the calls of src/kernel/task.c that take an id share: the search for the block, the removal from
-- the queue, and the yield.
use mathlib.Core.Option.{some-injective}
use rtos_driver_framework.Base.{
  ℕ, zero, suc, ◌+◌, ◌<◌, ◌≡◌, ◌≢◌, refl, inl, inr, true, false, not, ◌&&◌, some, List, arith, ◌==◌,
  update, All-map, ap, sym, ◌∙◌, subst, Bool-cases, ==_refl, ok,
}
use rtos_driver_framework.Kernel.Scheduler.{
  TaskState, ready, is_ready, Tcb, System, is_task, max_tasks, scheduler_remove_task,
  scheduler_yield,
}
use rtos_driver_framework.Kernel.Scheduler.Chain.{Chain-same}
use rtos_driver_framework.Kernel.Scheduler.Queues.{Frame}
use rtos_driver_framework.Kernel.Scheduler.Invariant.{
  InUse, InUse-keeps, IsValid, ValidBut, but-IsValid, dequeue, remove_valid,
}
use rtos_driver_framework.Kernel.Scheduler.Steps.{Stable, Stable-refl}
use rtos_driver_framework.Kernel.Scheduler.Schedule.{scheduler_yield_lem}
use rtos_driver_framework.Kernel.Task.{
  is_deleted, find_tcb, task_get_tcb, yield_if_current, task_yield,
}

-- A block that the search finds is in use.
find_tcb_sound :
    (n i k : ℕ) (pool : ℕ → Tcb) (id : ℕ)
    → find_tcb n i pool id ≡ some k
    → (k < i + n) × ((pool k).task_id ≡ id) × (is_deleted (pool k).state ≡ false)
unfolding find_tcb
find_tcb_sound zero i k pool id e = cc
find_tcb_sound (suc n) i k pool id e =
    elim (Bool-cases (((pool i).task_id == id) && not (is_deleted (pool i).state))) [
      | inl here ↦
          let same : i ≡ k = some-injective _ _ (rw (here, find_tcb) at e) in
          subst
            (λ x. (x < i + suc n) × ((pool x).task_id ≡ id) × (is_deleted (pool x).state ≡ false))
            same (omega arith, ground arith, ground arith)
      | inr other ↦
          let (u, a, b) = find_tcb_sound n (i + 1) k pool id (rw (other, find_tcb) at e) in
          (omega arith, a, b)
    ]

pub task_get_tcb-InUse :
    (s : System) (id i : ℕ)
    → id ≢ 0
    → task_get_tcb s id ≡ some i
    → InUse s i × (is_deleted (s.task_pool i).state ≡ false)
unfolding task_get_tcb
task_get_tcb-InUse s id i ne e =
    let (u, a, b) = find_tcb_sound max_tasks 0 i s.task_pool id e in
    ((omega (arith, u), λ z. ne (sym a ∙ z)), b)

-- A write that keeps the links, the priority and the id of a block.
module _ (s : System) (i : ℕ) (t : Tcb) (next_same : t.next ≡ (s.task_pool i).next)
    (level_same : t.priority ≡ (s.task_pool i).priority)
    (id_same : t.task_id ≡ (s.task_pool i).task_id)
    (stack_same : (w : ℕ) → t.stack w ≡ (s.task_pool i).stack w) where
  abbrev pub written : System
  written = record s { task_pool = update s.task_pool i t }

  pub written-Frame : Frame s written i
  written-Frame = record {
    ticks = refl;
    started = refl;
    current = refl;
    delayed = refl;
    ids = refl;
    task = refl;
    stack = λ k w. ground (arith, stack_same w);
    priority = λ k. ground arith;
    task_id = λ k. ground arith;
    state = λ k ne. ground arith;
  }

  written-valid : (q : ℕ → List ℕ) → IsValid s q → ValidBut i written q
  written-valid q v = record {
    queues = record {
      chains =
          λ p. Chain-same s.task_pool i t (s.ready_lists p) (q p) next_same (v.queues.chains p);
      members = λ p. All-map (λ k m. ground (arith, m)) (q p) (v.queues.members p);
      distinct = v.queues.distinct;
    };
    right = λ k ne. rw (there k ne) (v.right k tt);
    levels = λ k used. ground (arith, v.levels k);
    current = λ c e. ground (arith, v.current c e);
  }
    where
      there : (k : ℕ) → i ≢ k → update s.task_pool i t k ≡ s.task_pool k
      there k ne = ground arith

  -- A task in use that is no longer ready is taken out of its queue.
  pub taken_out :
      (q : ℕ → List ℕ)
      → IsValid s q
      → InUse s i
      → is_ready t.state ≡ false
      → (s' : System) × (scheduler_remove_task written (some i) ≡ some s')
        × (IsValid s' (dequeue q (s.task_pool i).priority i)
            × ((s'.task_pool i).state ≡ t.state)
            × Frame written s' i)
  taken_out q v used off =
      let here : written.task_pool i ≡ t = rw (==_refl i) refl in
      let (s', e, (v', f, same, out, calm)) =
        remove_valid written q i (written-valid q v)
          (InUse-keeps s written i i written-Frame used) in
      let state' = same ∙ ap (λ (x : Tcb). x.state) here in
      (
        s',
        e,
        (
          subst (λ x. IsValid s' (dequeue q x i)) (ap (λ (x : Tcb). x.priority) here ∙ level_same)
              (but-IsValid i s' _ v' (not_ready (s'.task_pool i).state (ap is_ready state' ∙ off))
                out),
          state',
          f,
        ),
      )
    where
      not_ready : (x : TaskState) → is_ready x ≡ false → x ≢ ready
      not_ready x off e = cc (sym off ∙ ap is_ready e)

current_yields :
    (s : System) (i : ℕ) (s' : System)
    → is_task i s.current_task ≡ true
    → scheduler_yield s ≡ some s'
    → yield_if_current s i ≡ some (ok, s')
unfolding yield_if_current task_yield
current_yields s i s' mine e = rw (mine, e) refl

other_stays :
    (s : System) (i : ℕ) → is_task i s.current_task ≡ false → yield_if_current s i ≡ some (ok, s)
unfolding yield_if_current
other_stays s i other = rw other refl

pub task_yield_lem : (s : System) → task_yield s ≡ scheduler_yield s
unfolding task_yield
task_yield_lem s = refl

pub yield_if_current_lem :
    (s : System) (q : ℕ → List ℕ) (i : ℕ)
    → IsValid s q
    → (s' : System) × (q' : ℕ → List ℕ) × (yield_if_current s i ≡ some (ok, s'))
      × (IsValid s' q' × Stable s s')
yield_if_current_lem s q i v = elim (Bool-cases (is_task i s.current_task)) [
  | inl mine ↦
      let (s', q', e, (v', st, top)) = scheduler_yield_lem s q v in
      (s', q', current_yields s i s' mine e, (v', st))
  | inr other ↦ (s, q, other_stays s i other, (v, Stable-refl s))
]
