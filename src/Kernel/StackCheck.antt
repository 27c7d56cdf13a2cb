-- ===== src/Kernel/StackCheck.antt =====
-- `memory_check_stack_overflow` of src/kernel/memory.c on the blocks of src/kernel/task.c.
pub mod Fresh
mod Tests
use rtos_driver_framework.Base.{
  ℕ, zero, suc, ◌+◌, Bool, true, false, not, ◌&&◌, ◌||◌, Option, none, some, ◌==◌,
}
use rtos_driver_framework.Kernel.Scheduler.{System}
use rtos_driver_framework.Kernel.Task.{task_get_tcb}

abbrev pub stack_canary : ℕ
stack_canary = 0xcafebabe

-- A word that is neither the canary nor 0.
abbrev pub overwritten : ℕ → Bool
overwritten word = not (word == stack_canary) && not (word == 0)

-- The loop over the words at the bottom of the stack, from position `i` on.
pub check_words : ℕ → ℕ → (ℕ → ℕ) → Bool
check_words zero i stack = false
check_words (suc n) i stack = overwritten (stack i) || check_words n (i + 1) stack

pub memory_check_stack_overflow : System → ℕ → Bool
memory_check_stack_overflow s task_id = elim (task_get_tcb s task_id) [
  | none ↦ false
  | some tcb ↦ check_words 4 0 (s.task_pool tcb).stack
]
