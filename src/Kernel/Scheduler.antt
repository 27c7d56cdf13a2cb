-- ===== src/Kernel/Scheduler.antt =====
-- src/kernel/scheduler.c, on the static variables of that file and of src/kernel/task.c. A task
-- control block is named by its position in `task_pool`, and `none` is NULL. A loop along the `next`
-- pointers gets as much fuel as there are blocks; a result `none` stands for a loop that does not end.
-- The simulated context switch and the log have no effect on this state.
pub mod Chain
pub mod Queues
pub mod Add
pub mod Unlink
pub mod Remove
pub mod Invariant
pub mod Steps
pub mod Switch
pub mod Schedule
pub mod Delayed
pub mod Tick
pub mod Spec
pub mod Refinement
pub mod Turn
pub mod RoundRobin
pub mod Alone
pub mod Sample
mod Tests
use rtos_driver_framework.Base.{
  ℕ, zero, suc, ◌+◌, ◌%◌, Bool, true, false, not, ◌&&◌, Option, none, some, List, [], ◌∷◌, leb, ltb,
  ◌==◌, if◌then◌else◌, update, ◌>>=◌, u32_mod,
}

-- `task_state_t`.
pub data TaskState : Type 0 where
  ready running blocked suspended deleted : TaskState

abbrev pub is_ready : TaskState → Bool
is_ready ready = true
is_ready other = false

abbrev pub is_running : TaskState → Bool
is_running running = true
is_running other = false

abbrev pub num_priority_levels : ℕ
num_priority_levels = 32

abbrev pub max_tasks : ℕ
max_tasks = 16

-- `tcb_t`; the stack is a map from an index to the word there, and the stack pointer an index.
pub record Tcb : Type 0 where
  pub stack_ptr : Option ℕ
  pub stack : ℕ → ℕ
  pub state : TaskState
  pub priority : ℕ
  pub task_id : ℕ
  pub name : List ℕ
  pub wake_time : ℕ
  pub next : Option ℕ

-- The static variables of the scheduler and of the task management.
pub record System : Type 0 where
  pub ready_lists : ℕ → Option ℕ
  pub system_tick_count : ℕ
  pub scheduler_running : Bool
  pub current_tcb : Option ℕ
  pub delayed_list : Option ℕ
  pub task_pool : ℕ → Tcb
  pub next_task_id : ℕ
  pub current_task : Option ℕ

-- A write to a block.
abbrev pub modify : System → ℕ → (Tcb → Tcb) → System
modify s i f = record s { task_pool = update s.task_pool i (f (s.task_pool i)) }

abbrev pub with_next : Option ℕ → Tcb → Tcb
with_next n t = record t { next = n }

abbrev pub with_state : TaskState → Tcb → Tcb
with_state x t = record t { state = x }

unfoldable pub scheduler_init : System → System
scheduler_init s = record s {
  ready_lists = λ _. none;
  system_tick_count = 0;
  scheduler_running = false;
  current_tcb = none;
  delayed_list = none;
}

-- The last block of a list.
unfoldable pub last_of : ℕ → (ℕ → Tcb) → ℕ → Option ℕ
last_of zero pool tail = none
last_of (suc fuel) pool tail = elim (pool tail).next [
  | none ↦ some tail
  | some next ↦ last_of fuel pool next
]

-- The block at the end of its list.
abbrev pub append_task : System → ℕ → Option ℕ → Option System
append_task s tcb none =
    some (record s { ready_lists = update s.ready_lists (s.task_pool tcb).priority (some tcb) })
append_task s tcb (some head) = do
  tail ← last_of max_tasks s.task_pool head
  some (modify s tail (with_next (some tcb)))

unfoldable pub scheduler_add_task : System → Option ℕ → Option System
scheduler_add_task s none = some s
scheduler_add_task s (some tcb) =
    if leb num_priority_levels (s.task_pool tcb).priority
    then some s
    else append_task (modify s tcb (λ (t : Tcb). record t { state = ready; next = none })) tcb
        (s.ready_lists (s.task_pool tcb).priority)

-- The block taken out of the list, behind `prev`.
abbrev pub unlink : System → ℕ → Option ℕ → System
unlink s tcb none =
    modify
      (record s {
        ready_lists = update s.ready_lists (s.task_pool tcb).priority (s.task_pool tcb).next;
      })
      tcb (with_next none)
unlink s tcb (some prev) =
    modify (modify s prev (with_next (s.task_pool tcb).next)) tcb (with_next none)

-- The loop of `scheduler_remove_task`.
unfoldable pub remove_loop : ℕ → System → ℕ → Option ℕ → Option ℕ → Option System
remove_loop fuel s tcb prev none = some s
remove_loop zero s tcb prev (some curr) = none
remove_loop (suc fuel) s tcb prev (some curr) = elim (curr == tcb) [
  | true ↦ some (unlink s tcb prev)
  | false ↦ remove_loop fuel s tcb (some curr) (s.task_pool curr).next
]

unfoldable pub scheduler_remove_task : System → Option ℕ → Option System
scheduler_remove_task s none = some s
scheduler_remove_task s (some tcb) =
    if leb num_priority_levels (s.task_pool tcb).priority
    then some s
    else remove_loop max_tasks s tcb none (s.ready_lists (s.task_pool tcb).priority)

-- The first list, from level `i` on, that is not empty.
pub highest_from : ℕ → ℕ → (ℕ → Option ℕ) → Option ℕ
highest_from zero i lists = none
highest_from (suc n) i lists = elim (lists i) [
  | none ↦ highest_from n (i + 1) lists
  | some head ↦ some head
]

pub get_highest_priority_task : System → Option ℕ
get_highest_priority_task s = highest_from num_priority_levels 0 s.ready_lists

abbrev pub is_task : ℕ → Option ℕ → Bool
is_task i none = false
is_task i (some j) = i == j

-- The current task goes to the end of its list if it is still ready.
pub rotate : System → Option ℕ → Option System
rotate s none = some s
rotate s (some current) =
    if is_ready (s.task_pool current).state
    then (do s' ← scheduler_remove_task s (some current); scheduler_add_task s' (some current))
    else some s

-- The task is taken from its list and becomes the current one.
pub switch_to : ℕ → System → Option System
switch_to next s = do
  s' ← scheduler_remove_task s (some next)
  some (record (modify s' next (with_state running)) {
    current_tcb = some next;
    current_task = some next;
  })

pub schedule : System → Option System
schedule s = elim (get_highest_priority_task s) [
  | none ↦ some s
  | some next ↦
      if is_task next s.current_tcb
      then some s
      else (do s' ← rotate s s.current_tcb; switch_to next s')
]

-- A running task becomes ready.
pub requeue : System → Option ℕ → Option System
requeue s none = some s
requeue s (some current) =
    if is_running (s.task_pool current).state
    then scheduler_add_task (modify s current (with_state ready)) (some current)
    else some s

pub scheduler_yield : System → Option System
scheduler_yield s =
    if not s.scheduler_running then some s else (do s' ← requeue s s.current_tcb; schedule s')

-- The place in the delayed list behind which a task with the wake time goes.
pub delay_point : ℕ → (ℕ → Tcb) → ℕ → ℕ → Option ℕ
delay_point zero pool wake curr = none
delay_point (suc fuel) pool wake curr = elim (pool curr).next [
  | none ↦ some curr
  | some next ↦ elim (leb (pool next).wake_time wake) [
    | true ↦ delay_point fuel pool wake next
    | false ↦ some curr
  ]
]

pub add_to_delayed_list : System → ℕ → Option System
add_to_delayed_list s task =
    let s₁ = modify s task (with_next none) in
    elim s.delayed_list [
      | none ↦ some (record s₁ { delayed_list = some task })
      | some head ↦
          if ltb (s₁.task_pool task).wake_time (s₁.task_pool head).wake_time
          then some (record (modify s₁ task (with_next (some head))) { delayed_list = some task })
          else (do
            curr ← delay_point max_tasks s₁.task_pool (s₁.task_pool task).wake_time head
            some (
                modify (modify s₁ task (with_next (s₁.task_pool curr).next)) curr
                  (with_next (some task))))
    ]

-- The loop of `process_delayed_tasks`.
pub wake_tasks : ℕ → System → Option ℕ → Option System
wake_tasks fuel s none = some s
wake_tasks zero s (some task) = none
wake_tasks (suc fuel) s (some task) = elim (leb (s.task_pool task).wake_time s.system_tick_count) [
  | false ↦ some s
  | true ↦ do
    s' ←
        scheduler_add_task
          (modify (record s { delayed_list = (s.task_pool task).next }) task
            (λ (t : Tcb). record t { state = ready; next = none }))
          (some task)
    wake_tasks fuel s' s'.delayed_list
]

pub process_delayed_tasks : System → Option System
process_delayed_tasks s = wake_tasks max_tasks s s.delayed_list

-- A ready task has a higher priority than the current one.
abbrev pub preempts : System → Option ℕ → Option ℕ → Bool
preempts s none current = false
preempts s (some highest) none = false
preempts s (some highest) (some current) =
    ltb (s.task_pool highest).priority (s.task_pool current).priority

pub scheduler_tick : System → Option System
scheduler_tick s = do
  s' ← process_delayed_tasks (record s { system_tick_count = (s.system_tick_count + 1) % u32_mod })
  (if s'.scheduler_running && preempts s' (get_highest_priority_task s') s'.current_tcb
      then scheduler_yield s'
      else some s')

unfoldable pub scheduler_get_tick_count : System → ℕ
scheduler_get_tick_count s = s.system_tick_count

pub scheduler_start : System → Option System
scheduler_start s = schedule (record s { scheduler_running = true })
