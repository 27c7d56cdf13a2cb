-- ===== src/Kernel/Task/Refused.antt =====
-- The calls of src/kernel/task.c that return at once and change nothing.
use rtos_driver_framework.Base.{
  ℕ, ◌≡◌, true, false, Option, none, some, List, refl, leb, arith, invalid_param,
}
use rtos_driver_framework.Kernel.Scheduler.{System, num_priority_levels}
use rtos_driver_framework.Kernel.Task.{
  is_suspended, task_create, task_get_tcb, task_delete, task_suspend, task_resume, task_delay,
}

module _ (s : System) where
  pub task_create-none :
      (name : Option (List ℕ)) (priority params : ℕ)
      → task_create s none name priority params ≡ some (invalid_param, none, s)
  unfolding task_create
  task_create-none name priority params = refl

  pub task_create_high :
      (function : ℕ) (name : Option (List ℕ)) (priority params : ℕ)
      → leb num_priority_levels priority ≡ true
      → task_create s (some function) name priority params ≡ some (invalid_param, none, s)
  unfolding task_create
  task_create_high function name priority params high = rw high refl

  module _ (id : ℕ) (unknown : task_get_tcb s id ≡ none) where
    pub task_delete_unknown : task_delete s id ≡ some (invalid_param, s)
    unfolding task_delete
    task_delete_unknown = rw (unknown, task_delete) refl

    pub task_suspend_unknown : task_suspend s id ≡ some (invalid_param, s)
    unfolding task_suspend
    task_suspend_unknown = rw (unknown, task_suspend) refl

    pub task_resume_unknown : task_resume s id ≡ some (invalid_param, s)
    unfolding task_resume
    task_resume_unknown = rw (unknown, task_resume) refl

  pub task_resume_awake :
      (id i : ℕ)
      → task_get_tcb s id ≡ some i
      → is_suspended (s.task_pool i).state ≡ false
      → task_resume s id ≡ some (invalid_param, s)
  unfolding task_resume
  task_resume_awake id i e awake = rw (e, task_resume, awake) refl

  pub task_delay_idle : (n : ℕ) → s.current_task ≡ none → task_delay s n ≡ some s
  unfolding task_delay
  task_delay_idle n e = ground (arith, e)

  pub task_delay_zero : (c : ℕ) → s.current_task ≡ some c → task_delay s 0 ≡ some s
  unfolding task_delay
  task_delay_zero c e = ground (arith, e)
