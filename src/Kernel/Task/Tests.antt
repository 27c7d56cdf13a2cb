-- ===== src/Kernel/Task/Tests.antt =====
-- Runs of the task management of src/kernel/task.c.
use rtos_driver_framework.Base.{
  ℕ, ◌<◌, ◌≡◌, refl, ◌⊎◌, none, some, List, arith, ◌>>=◌, ok, no_memory,
}
use rtos_driver_framework.Kernel.Scheduler.{
  blocked, suspended, deleted, System, max_tasks, scheduler_init, scheduler_add_task,
  scheduler_remove_task, remove_loop, last_of,
}
use rtos_driver_framework.Kernel.Scheduler.Invariant.{IsValid}
use rtos_driver_framework.Kernel.Scheduler.Tick.{ticks}
use rtos_driver_framework.Kernel.Scheduler.Sample.{three_tasks, three_queues, three_tasks-IsValid}
use rtos_driver_framework.Kernel.Task.{
  task_init, free_tcb, new_tcb, task_init_stack, yield_if_current, task_create, task_get_tcb,
  find_tcb, task_suspend, task_delete, task_resume, task_delay,
}
use rtos_driver_framework.Kernel.Task.Slots.{IsFree}
use rtos_driver_framework.Kernel.Task.Create.{Numbered, Created, task_create_lem}
use rtos_driver_framework.Kernel.Task.Change.{task_suspend_lem, task_delete_lem}
use rtos_driver_framework.Kernel.Task.Delay.{task_delay-ticks}

three-Numbered : Numbered three_tasks
three-Numbered = record { next = omega arith; below = λ k. ground arith }

task_create_lem_example :
    ((task_create three_tasks (some 4096) none 5 0 ≡ some (no_memory, none, three_tasks))
      × ((k : ℕ) → k < max_tasks → ¬ IsFree (three_tasks.task_pool k)))
    ⊎ ((i : ℕ) × (s' : System) × Created three_tasks three_queues 4096 none 5 0 three_tasks-IsValid
          three-Numbered
          (omega arith)
          i
          s')
task_create_lem_example =
    task_create_lem three_tasks three_queues 4096 none 5 0 three_tasks-IsValid three-Numbered
      (omega arith)

found_3 : task_get_tcb three_tasks 3 ≡ some 2
unfolding task_get_tcb find_tcb
found_3 = refl

task_suspend_lem_example :
    (s' : System) × (q' : ℕ → List ℕ) × (task_suspend three_tasks 3 ≡ some (ok, s'))
    × (IsValid s' q' × ((s'.task_pool 2).state ≡ suspended))
task_suspend_lem_example =
    task_suspend_lem three_tasks three_queues 3 2 three_tasks-IsValid (omega arith) found_3

task_delete_lem_example :
    (s' : System) × (q' : ℕ → List ℕ) × (task_delete three_tasks 3 ≡ some (ok, s'))
    × (IsValid s' q' × ((s'.task_pool 2).state ≡ deleted))
task_delete_lem_example =
    task_delete_lem three_tasks three_queues 3 2 three_tasks-IsValid (omega arith) found_3

task_delay-ticks_example :
    (s' : System) × (task_delay three_tasks 5 ≡ some s')
    × ((m : ℕ) → (s'' : System) × (ticks m s' ≡ some s'') × ((s''.task_pool 0).state ≡ blocked))
task_delay-ticks_example =
    task_delay-ticks three_tasks three_queues 0 5 three_tasks-IsValid refl
      (omega arith, omega arith) (omega arith) refl

-- The id 0 names a block that was never used. Suspended and resumed, it is queued; `task_create` then
-- takes the same block and queues it behind itself, and the next `task_create` does not end.
abbrev started : System
started = scheduler_init (task_init three_tasks)

unused_block_run :
    (do
      (first, s₁) ← task_suspend started 0
      (second, s₂) ← task_resume s₁ 0
      (third, id, s₃) ← task_create s₂ (some 4096) none 0 0
      task_create s₃ (some 4096) none 0 0)
    ≡ none
unfolding scheduler_init task_init task_suspend task_resume task_create task_get_tcb find_tcb
    free_tcb new_tcb task_init_stack yield_if_current scheduler_add_task scheduler_remove_task
    remove_loop last_of
unused_block_run = refl
