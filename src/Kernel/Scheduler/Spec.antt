-- ===== src/Kernel/Scheduler/Spec.antt =====
-- The decision of src/kernel/scheduler.c on queues of tasks, without pointers.
use rtos_driver_framework.Base.{
  ℕ, zero, suc, ◌+◌, ◌≡◌, Option, none, some, List, [], ◌∷◌, if◌then◌else◌, update,
}
use rtos_driver_framework.Kernel.Scheduler.{
  TaskState, ready, running, is_ready, is_running, System, is_task, num_priority_levels,
}
use rtos_driver_framework.Kernel.Scheduler.Invariant.{IsValid, enqueue, dequeue}

-- What the specification keeps: the current task, the queue of each priority, the state of each task.
pub record Spec : Type 0 where
  pub current : Option ℕ
  pub queues : ℕ → List ℕ
  pub states : ℕ → TaskState

abbrev pub head_of : List ℕ → Option ℕ
head_of [] = none
head_of (j ∷ js) = some j

-- The head of the first queue that is not empty.
abbrev pub first_from : ℕ → ℕ → (ℕ → List ℕ) → Option ℕ
first_from zero i q = none
first_from (suc n) i q = elim (head_of (q i)) [ none ↦ first_from n (i + 1) q | some j ↦ some j ]

module _ (priority : ℕ → ℕ) where
  -- A running task becomes ready and goes to the end of its queue.
  abbrev pub spec_requeue : Option ℕ → Spec → Spec
  spec_requeue none a = a
  spec_requeue (some c) a =
      if is_running (a.states c)
      then record a { queues = enqueue a.queues (priority c) c; states = update a.states c ready }
      else a

  -- A ready task goes from its place in its queue to the end.
  abbrev pub spec_rotate : Option ℕ → Spec → Spec
  spec_rotate none a = a
  spec_rotate (some c) a =
      if is_ready (a.states c)
      then record a { queues = enqueue (dequeue a.queues (priority c) c) (priority c) c }
      else a

  abbrev pub spec_switch : ℕ → Spec → Spec
  spec_switch n a = record {
    current = some n;
    queues = dequeue a.queues (priority n) n;
    states = update a.states n running;
  }

  abbrev pub spec_decide : Option ℕ → Spec → Spec
  spec_decide none a = a
  spec_decide (some n) a =
      if is_task n a.current then a else spec_switch n (spec_rotate a.current a)

  abbrev pub spec_schedule : Spec → Spec
  spec_schedule a = spec_decide (first_from num_priority_levels 0 a.queues) a

  abbrev pub spec_yield : Spec → Spec
  spec_yield a = spec_schedule (spec_requeue a.current a)

  -- The state of the program stands for one of the specification.
  pub record Refines (s : System) (a : Spec) : Type 0 where
    pub valid : IsValid s a.queues
    pub current : s.current_tcb ≡ a.current
    pub states : (k : ℕ) → (s.task_pool k).state ≡ a.states k
    pub priorities : (k : ℕ) → (s.task_pool k).priority ≡ priority k
