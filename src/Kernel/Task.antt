-- ===== src/Kernel/Task.antt =====
-- src/kernel/task.c, on the state of src/kernel/scheduler.c. A task control block is named by its
-- position in `task_pool`; a function or a parameter is an address, and a result `none` stands for a
-- loop of the scheduler that does not end. The critical sections are empty in the source.
pub mod Slots
pub mod Create
pub mod Found
pub mod Change
pub mod Delay
pub mod Refused
mod Tests
use rtos_driver_framework.Base.{
  ℕ, zero, suc, ◌+◌, ◌-◌, ◌%◌, Bool, true, false, not, ◌&&◌, ◌||◌, Option, none, some, List, [],
  ◌∷◌, take, leb, ltb, ◌==◌, if◌then◌else◌, update, ◌>>=◌, u32_mod, Status, ok, no_memory,
  invalid_param,
}
use rtos_driver_framework.Kernel.Scheduler.{
  TaskState, ready, running, blocked, suspended, deleted, Tcb, System, modify, with_state,
  max_tasks, num_priority_levels, is_task, scheduler_add_task, scheduler_remove_task,
  scheduler_yield, scheduler_get_tick_count,
}

abbrev pub task_stack_size : ℕ
task_stack_size = 1024

abbrev pub is_deleted : TaskState → Bool
is_deleted deleted = true
is_deleted other = false

abbrev pub is_suspended : TaskState → Bool
is_suspended suspended = true
is_suspended other = false

-- The block after `memset`; the state 0 is READY.
abbrev pub zero_tcb : Tcb
zero_tcb = record {
  stack_ptr = none;
  stack = λ _. 0;
  state = ready;
  priority = 0;
  task_id = 0;
  name = [];
  wake_time = 0;
  next = none;
}

pub task_init : System → System
task_init s = record s { task_pool = λ _. zero_tcb; next_task_id = 1; current_task = none }

-- Words pushed downwards from `top`.
abbrev pub push_all : (ℕ → ℕ) → ℕ → List ℕ → (ℕ → ℕ) × ℕ
push_all stack top [] = (stack, top)
push_all stack top (w ∷ ws) = push_all (update stack (top - 1) w) (top - 1) ws

-- The frame that a first context switch restores: xPSR, PC, LR, R12, R3, R2, R1, R0, R11 to R4.
abbrev pub initial_frame : ℕ → ℕ → List ℕ
initial_frame function params =
    16777216
    ∷ function % u32_mod
    ∷ 4294967293
    ∷ 303174162
    ∷ 50529027
    ∷ 33686018
    ∷ 16843009
    ∷ params % u32_mod
    ∷ 286331153
    ∷ 269488144
    ∷ 151587081
    ∷ 134744072
    ∷ 117901063
    ∷ 101058054
    ∷ 84215045
    ∷ 67372036
    ∷ []

pub task_init_stack : Tcb → ℕ → ℕ → Tcb
task_init_stack tcb function params =
    let (stack, top) = push_all tcb.stack (task_stack_size - 1) (initial_frame function params) in
    record tcb { stack = stack; stack_ptr = some top }

-- The first block, from position `i` on, that is not in use.
pub free_tcb : ℕ → ℕ → (ℕ → Tcb) → Option ℕ
free_tcb zero i pool = none
free_tcb (suc n) i pool = elim (is_deleted (pool i).state || ((pool i).task_id == 0)) [
  | true ↦ some i
  | false ↦ free_tcb n (i + 1) pool
]

-- "unnamed".
abbrev pub unnamed : List ℕ
unnamed = 117 ∷ 110 ∷ 110 ∷ 97 ∷ 109 ∷ 101 ∷ 100 ∷ []

abbrev pub name_or : Option (List ℕ) → List ℕ
name_or none = unnamed
name_or (some name) = name

-- The block of a new task.
pub new_tcb : ℕ → Option (List ℕ) → ℕ → ℕ → ℕ → Tcb
new_tcb function name priority params task_id =
    task_init_stack
      (record zero_tcb {
        task_id = task_id;
        priority = priority;
        state = ready;
        name = take 15 (name_or name);
      })
      function params

-- The status, the id if there is a new task, and the state.
pub task_create : System → Option ℕ → Option (List ℕ) → ℕ → ℕ → Option (Status × Option ℕ × System)
task_create s none name priority params = some (invalid_param, none, s)
task_create s (some function) name priority params =
    if leb num_priority_levels priority
    then some (invalid_param, none, s)
    else elim (free_tcb max_tasks 0 s.task_pool) [
      | none ↦ some (no_memory, none, s)
      | some tcb ↦ do
        s' ←
            scheduler_add_task
              (record s {
                task_pool =
                    update s.task_pool tcb (new_tcb function name priority params s.next_task_id);
                next_task_id = (s.next_task_id + 1) % u32_mod;
              })
              (some tcb)
        some (ok, some s.next_task_id, s')
    ]

-- The first block, from position `i` on, with the id and not deleted.
unfoldable pub find_tcb : ℕ → ℕ → (ℕ → Tcb) → ℕ → Option ℕ
find_tcb zero i pool task_id = none
find_tcb (suc n) i pool task_id =
    elim (((pool i).task_id == task_id) && not (is_deleted (pool i).state)) [
      | true ↦ some i
      | false ↦ find_tcb n (i + 1) pool task_id
    ]

unfoldable pub task_get_tcb : System → ℕ → Option ℕ
task_get_tcb s task_id = find_tcb max_tasks 0 s.task_pool task_id

pub task_yield : System → Option System
task_yield s = scheduler_yield s

-- The current task gives up the processor when it has deleted or suspended itself.
pub yield_if_current : System → ℕ → Option (Status × System)
yield_if_current s tcb =
    if is_task tcb s.current_task then (do s' ← task_yield s; some (ok, s')) else some (ok, s)

pub task_delete : System → ℕ → Option (Status × System)
task_delete s task_id = elim (task_get_tcb s task_id) [
  | none ↦ some (invalid_param, s)
  | some tcb ↦ do
    s' ← scheduler_remove_task s (some tcb)
    yield_if_current (modify s' tcb (with_state deleted)) tcb
]

pub task_suspend : System → ℕ → Option (Status × System)
task_suspend s task_id = elim (task_get_tcb s task_id) [
  | none ↦ some (invalid_param, s)
  | some tcb ↦ if is_deleted (s.task_pool tcb).state then some (invalid_param, s) else (do
    s' ← scheduler_remove_task (modify s tcb (with_state suspended)) (some tcb)
    yield_if_current s' tcb)
]

pub task_resume : System → ℕ → Option (Status × System)
task_resume s task_id = elim (task_get_tcb s task_id) [
  | none ↦ some (invalid_param, s)
  | some tcb ↦
      if not (is_suspended (s.task_pool tcb).state)
      then some (invalid_param, s)
      else (do s' ← scheduler_add_task (modify s tcb (with_state ready)) (some tcb); some (ok, s'))
]

abbrev pub delayed_tcb : ℕ → Tcb → Tcb
delayed_tcb wake t = record t { wake_time = wake; state = blocked }

pub task_delay : System → ℕ → Option System
task_delay s ticks = elim s.current_task [
  | none ↦ some s
  | some current ↦ if leb ticks 0 then some s else (do
    s' ←
        scheduler_remove_task
          (modify s current (delayed_tcb ((scheduler_get_tick_count s + ticks) % u32_mod)))
          (some current)
    task_yield s')
]

pub task_get_current_id : System → ℕ
task_get_current_id s = elim s.current_task [
  | none ↦ 0
  | some current ↦ (s.task_pool current).task_id
]

pub task_get_current_tcb : System → Option ℕ
task_get_current_tcb s = s.current_task
