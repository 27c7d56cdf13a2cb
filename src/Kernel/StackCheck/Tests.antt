-- ===== src/Kernel/StackCheck/Tests.antt =====
-- Runs of the stack check of src/kernel/memory.c.
use rtos_driver_framework.Base.{◌≡◌, refl, false, true, false, ◌==◌, if◌then◌else◌, update}
use rtos_driver_framework.Kernel.Scheduler.{System}
use rtos_driver_framework.Kernel.Scheduler.Sample.{three_tasks}
use rtos_driver_framework.Kernel.Task.{task_get_tcb, find_tcb}
use rtos_driver_framework.Kernel.StackCheck.{stack_canary, memory_check_stack_overflow}

-- The sample state with a word of the third task overwritten.
abbrev overrun : System
overrun = record three_tasks {
  task_pool =
      update three_tasks.task_pool 2
        (record (three_tasks.task_pool 2) { stack = λ w. if w == 3 then 77 else 0 });
}

check_run :
    (memory_check_stack_overflow overrun 3 ≡ true) × (memory_check_stack_overflow overrun 2 ≡ false)
unfolding memory_check_stack_overflow task_get_tcb find_tcb
    rtos_driver_framework.Kernel.StackCheck.check_words
check_run = (refl, refl)
