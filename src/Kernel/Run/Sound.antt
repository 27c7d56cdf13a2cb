-- ===== src/Kernel/Run/Sound.antt =====
-- Every call on the kernel keeps its invariant, and so does a sequence of calls.
use rtos_driver_framework.Base.{ℕ, ◌+◌, ◌≤◌, ◌≡◌, ◌≢◌, Option, none, some, List, ◌>>=◌, Status}
use rtos_driver_framework.Kernel.Scheduler.{System}
use rtos_driver_framework.Kernel.Scheduler.Invariant.{IsValid}
use rtos_driver_framework.Kernel.Task.Create.{Numbered}
use rtos_driver_framework.Kernel.Run.{
  Call, create, delete, suspend, resume, delay, give_way, tick, start, step,
}

abbrev without_id : Option (Status × Option ℕ × System) → Option System
without_id r = do (status, id, s') ← r; some s'

abbrev state_of : Option (Status × System) → Option System
state_of r = do (status, s') ← r; some s'

-- The scheduler's invariant, the ids below the next one, no delayed task, and one current task.
pub record IsSound (s : System) (q : ℕ → List ℕ) : Type 0 where
  pub valid : IsValid s q
  pub numbered : Numbered s
  pub none_delayed : s.delayed_list ≡ none
  pub agree : s.current_task ≡ s.current_tcb

-- A call by the id of a task, and not by 0.
abbrev pub Allowed : Call → Type 0
Allowed (create function name priority params) = Unit {0}
Allowed (delete id) = id ≢ 0
Allowed (suspend id) = id ≢ 0
Allowed (resume id) = id ≢ 0
Allowed (delay n) = Unit {0}
Allowed give_way = Unit {0}
Allowed tick = Unit {0}
Allowed start = Unit {0}

-- What a call leaves.
abbrev Done : Call → System → Type 0
Done c s =
    (s' : System) × (q' : ℕ → List ℕ) × (step c s ≡ some s')
    × (IsSound s' q' × (s'.next_task_id ≤ s.next_task_id + 1))
