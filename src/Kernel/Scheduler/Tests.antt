-- ===== src/Kernel/Scheduler/Tests.antt =====
-- Runs of the scheduler of src/kernel/scheduler.c.
use rtos_driver_framework.Base.{
  ℕ, ◌≤◌, ◌<◌, ◌≡◌, ◌≢◌, refl, true, none, some, List, [], ◌∷◌, arith, ◌==◌, if◌then◌else◌,
}
use rtos_driver_framework.Kernel.Scheduler.{
  ready, suspended, with_state, System, scheduler_add_task, scheduler_yield,
}
use rtos_driver_framework.Kernel.Scheduler.Queues.{Queues}
use rtos_driver_framework.Kernel.Scheduler.Invariant.{InUse, IsValid}
use rtos_driver_framework.Kernel.Scheduler.Steps.{Stable}
use rtos_driver_framework.Kernel.Scheduler.Switch.{Top}
use rtos_driver_framework.Kernel.Scheduler.Schedule.{scheduler_yield_lem}
use rtos_driver_framework.Kernel.Scheduler.RoundRobin.{Turning, yields, yields_turn}
use rtos_driver_framework.Kernel.Scheduler.Alone.{scheduler_yield-alone}
use rtos_driver_framework.Kernel.Scheduler.Spec.{Spec, spec_yield, Refines}
use rtos_driver_framework.Kernel.Scheduler.Refinement.{scheduler_yield-Refines}
use rtos_driver_framework.Kernel.Scheduler.Sample.{three_tasks, three_queues, three_tasks-IsValid}

scheduler_yield_lem_example :
    (s' : System) × (q' : ℕ → List ℕ) × (scheduler_yield three_tasks ≡ some s')
    × (IsValid s' q' × Stable three_tasks s' × (true ≡ true → Top s'))
scheduler_yield_lem_example = scheduler_yield_lem three_tasks three_queues three_tasks-IsValid

above_8 : (p : ℕ) → p < 8 → three_queues p ≡ []
above_8 p lt = ground arith

three-Turning : Turning three_tasks three_queues 8 0 (1 ∷ 2 ∷ [])
three-Turning = record {
  valid = three_tasks-IsValid;
  on = refl;
  current = refl;
  runs = refl;
  level = refl;
  queue = refl;
  above = above_8;
}

yields_turn_example :
    (s' : System) × (q' : ℕ → List ℕ) × (yields 2 three_tasks ≡ some s')
    × Turning s' q' 8 2 (0 ∷ 1 ∷ [])
yields_turn_example = yields_turn (1 ∷ []) [] three_tasks three_queues 8 0 2 three-Turning

abbrev three_spec : Spec
three_spec = record {
  current = some 0;
  queues = three_queues;
  states = λ k. (three_tasks.task_pool k).state;
}

abbrev three_priority : ℕ → ℕ
three_priority k = (three_tasks.task_pool k).priority

scheduler_yield-Refines_example :
    (s' : System) × (scheduler_yield three_tasks ≡ some s')
    × Refines three_priority s' (spec_yield three_priority three_spec)
scheduler_yield-Refines_example =
    scheduler_yield-Refines three_priority three_tasks three_spec
      (record {
        valid = three_tasks-IsValid;
        current = refl;
        states = λ k. refl;
        priorities = λ k. refl;
      })
      refl

-- The same state with the other two tasks suspended.
abbrev one_task : System
one_task = record three_tasks {
  ready_lists = λ _. none;
  task_pool = λ k.
      if k == 0 then three_tasks.task_pool 0 else with_state suspended (three_tasks.task_pool k);
}

one_task-IsValid : IsValid one_task (λ _. [])
one_task-IsValid = record {
  queues = record { chains = λ p. refl; members = λ p. tt; distinct = λ p k. omega arith };
  right = λ k u. ground arith;
  levels = λ k used. ground arith;
  current = λ c e. ground arith;
}

scheduler_yield-alone_example :
    (s' : System) × (scheduler_yield one_task ≡ some s')
    × ((s'.task_pool 0).state ≡ ready)
    × ((d : ℕ)
        → InUse s' d
        → 0 ≢ d
        → (s'.task_pool 0).priority ≤ (s'.task_pool d).priority
        → (s'' : System) × (scheduler_add_task s' (some d) ≡ some s'')
          × (s''.current_tcb ≡ some 0)
          × (scheduler_yield s'' ≡ some s''))
scheduler_yield-alone_example =
    scheduler_yield-alone one_task (λ _. []) 0 one_task-IsValid refl refl refl (λ p. refl)
