-- ===== src/Kernel/Run.antt =====
-- Sequences of calls on the kernel of src/kernel/task.c and src/kernel/scheduler.c, from the state that
-- `scheduler_init` and `task_init` set up.
pub mod Sound
mod Tests
use rtos_driver_framework.Base.{ℕ, Option, some, List, [], ◌∷◌, ◌>>=◌}
use rtos_driver_framework.Kernel.Scheduler.{System, scheduler_start, scheduler_tick}
use rtos_driver_framework.Kernel.Task.{
  task_create, task_delete, task_suspend, task_resume, task_delay, task_yield,
}

-- A call with its arguments; the status is left out.
pub data Call : Type 0 where
  create : Option ℕ → Option (List ℕ) → ℕ → ℕ → Call
  delete suspend resume : ℕ → Call
  delay : ℕ → Call
  give_way tick start : Call

abbrev pub step : Call → System → Option System
step (create function name priority params) s = do
  (status, id, s') ← task_create s function name priority params
  some s'
step (delete id) s = do (status, s') ← task_delete s id; some s'
step (suspend id) s = do (status, s') ← task_suspend s id; some s'
step (resume id) s = do (status, s') ← task_resume s id; some s'
step (delay n) s = task_delay s n
step give_way s = task_yield s
step tick s = scheduler_tick s
step start s = scheduler_start s

-- `none`: a call does not end.
abbrev pub run : List Call → System → Option System
run [] s = some s
run (c ∷ cs) s = do s' ← step c s; run cs s'
