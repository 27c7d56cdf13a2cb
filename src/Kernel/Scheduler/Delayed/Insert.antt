-- ===== src/Kernel/Scheduler/Delayed/Insert.antt =====
-- `add_to_delayed_list` of src/kernel/scheduler.c.
use rtos_driver_framework.Base.{ℕ, ◌≡◌, ◌≢◌, none, some, List}
use rtos_driver_framework.Kernel.Scheduler.{blocked, System, with_next, modify, add_to_delayed_list}
use rtos_driver_framework.Kernel.Scheduler.Chain.{Chain, occurrences}
use rtos_driver_framework.Kernel.Scheduler.Delayed.{Waits, Delays, insert}

-- What the insertion leaves: only the `next` pointers of blocks in the list and of the new one change.
record Linked (s s' : System) (d : List ℕ) : Type 0 where
  others : s' ≡ record s { task_pool = s'.task_pool; delayed_list = s'.delayed_list }
  chain : Chain s'.task_pool s'.delayed_list d
  kept : (k : ℕ) → s'.task_pool k ≡ with_next (s'.task_pool k).next (s.task_pool k)
  outside : (k : ℕ) → (s.task_pool k).state ≢ blocked → s'.task_pool k ≡ s.task_pool k

module _ (s : System) (d : List ℕ) (i : ℕ) (v : Delays s d) (waits : Waits s i)
    (out : occurrences i d ≡ 0) where
  abbrev alone : System
  alone = modify s i (with_next none)

  abbrev Inserts : Type 0
  Inserts =
      (s' : System) × (add_to_delayed_list s i ≡ some s') × Linked s s' (insert s.task_pool i d)
