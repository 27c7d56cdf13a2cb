-- ===== src/Kernel/Scheduler/Delayed/Tests.antt =====
-- Runs of the delayed list of src/kernel/scheduler.c: a task runs, two tasks wait in the list and a third
-- one is blocked.
use rtos_driver_framework.Base.{
  ℕ, ◌≡◌, refl, Option, none, some, List, [], ◌∷◌, arith, ◌==◌, if◌then◌else◌,
}
use rtos_driver_framework.Kernel.Scheduler.{
  TaskState, ready, running, blocked, Tcb, System, scheduler_tick,
}
use rtos_driver_framework.Kernel.Scheduler.Invariant.{IsValid}
use rtos_driver_framework.Kernel.Scheduler.Sample.{three_tasks}
use rtos_driver_framework.Kernel.Scheduler.Delayed.{Delays}
use rtos_driver_framework.Kernel.Scheduler.Delayed.Ticks.{Ticked, scheduler_tick_wakes}

abbrev task : TaskState → ℕ → ℕ → ℕ → Option ℕ → Tcb
task state priority task_id wake_time next = record (three_tasks.task_pool 0) {
  state = state;
  priority = priority;
  task_id = task_id;
  wake_time = wake_time;
  next = next;
}

abbrev waiting : System
waiting = record three_tasks {
  ready_lists = λ p. none;
  delayed_list = some 1;
  task_pool = λ k.
      if k == 0
      then task running 8 1 0 none
      else if k == 1
      then task blocked 5 2 42 (some 2)
      else if k == 2
      then task blocked 8 3 45 none
      else if k == 3
      then task blocked 5 4 43 none
      else task ready 0 0 0 none;
}

waiting-IsValid : IsValid waiting (λ p. [])
waiting-IsValid = record {
  queues = record { chains = λ p. refl; members = λ p. tt; distinct = λ p k. omega arith };
  right = λ k u. ground arith;
  levels = λ k used. ground arith;
  current = λ c e. ground arith;
}

waiting-Delays : Delays waiting (1 ∷ 2 ∷ [])
waiting-Delays = record {
  chain = (refl, (refl, refl));
  members = (((omega arith, omega arith), refl), (((omega arith, omega arith), refl), tt));
  distinct = λ k. ground arith;
  sorted = (omega arith, (omega arith, tt));
}

scheduler_tick_wakes_example :
    (s' : System) × (q' : ℕ → List ℕ) × (scheduler_tick waiting ≡ some s')
    × Ticked waiting s' q' (1 ∷ 2 ∷ []) 42
scheduler_tick_wakes_example =
    scheduler_tick_wakes waiting (λ p. []) (1 ∷ 2 ∷ []) waiting-IsValid waiting-Delays
