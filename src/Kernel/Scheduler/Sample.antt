-- ===== src/Kernel/Scheduler/Sample.antt =====
-- A state of the scheduler of src/kernel/scheduler.c for the tests: of three tasks of priority 8 the
-- first one runs and the others wait.
use rtos_driver_framework.Base.{
  ℕ, true, Option, none, some, List, [], ◌∷◌, arith, ◌==◌, if◌then◌else◌,
}
use rtos_driver_framework.Kernel.Scheduler.{TaskState, ready, running, Tcb, System}
use rtos_driver_framework.Kernel.Scheduler.Queues.{Queues}
use rtos_driver_framework.Kernel.Scheduler.Invariant.{IsValid}

abbrev task : TaskState → ℕ → ℕ → Option ℕ → Tcb
task state priority task_id next = record {
  stack_ptr = some 1007;
  stack = λ _. 0;
  state = state;
  priority = priority;
  task_id = task_id;
  name = [];
  wake_time = 0;
  next = next;
}

abbrev pool : ℕ → Tcb
pool k =
    if k == 0
    then task running 8 1 none
    else if k == 1
    then task ready 8 2 (some 2)
    else if k == 2
    then task ready 8 3 none
    else task ready 0 0 none

abbrev pub three_tasks : System
three_tasks = record {
  ready_lists = λ p. if p == 8 then some 1 else none;
  system_tick_count = 41;
  scheduler_running = true;
  current_tcb = some 0;
  delayed_list = none;
  task_pool = pool;
  next_task_id = 4;
  current_task = some 0;
}

abbrev pub three_queues : ℕ → List ℕ
three_queues p = if p == 8 then 1 ∷ 2 ∷ [] else []

three-Queues : Queues three_tasks three_queues
three-Queues = record {
  chains = λ p. ground arith;
  members = λ p. ground arith;
  distinct = λ p k. ground arith;
}

pub three_tasks-IsValid : IsValid three_tasks three_queues
three_tasks-IsValid = record {
  queues = three-Queues;
  right = λ k u. ground arith;
  levels = λ k used. ground arith;
  current = λ c e. ground arith;
}
