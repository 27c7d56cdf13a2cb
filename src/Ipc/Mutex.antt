-- ===== src/Ipc/Mutex.antt =====
-- src/ipc/mutex.c. The timeout is ignored by the code. `current` is `task_get_current_id()`.
pub mod Holder
mod Tests
use rtos_driver_framework.Base.{
  ℕ, Bool, true, false, not, Option, none, some, List, [], ◌∷◌, ◌==◌, if◌then◌else◌, Status, ok,
  error, timeout, on_handle,
}
use rtos_driver_framework.Kernel.Memory.{Heap, rtos_malloc, rtos_free}

pub record Mutex : Type 0 where
  pub locked : Bool
  pub owner_task_id : ℕ

-- `sizeof(mutex_t)`.
abbrev pub mutex_size : ℕ
mutex_size = 8

abbrev pub new_mutex : Mutex
new_mutex = record { locked = false; owner_task_id = 0 }

pub mutex_create : Heap → Option (ℕ × Mutex) × Heap
mutex_create h =
    let (r, h') = rtos_malloc h mutex_size in
    elim r [ none ↦ (none, h') | some p ↦ (some (p, new_mutex), h') ]

-- `mutex_lock` and `mutex_unlock` behind their tests for NULL.
pub lock_mutex : ℕ → Mutex → Status × Mutex
lock_mutex current m =
    if m.locked then (timeout, m) else (ok, record m { locked = true; owner_task_id = current })

pub unlock_mutex : ℕ → Mutex → Status × Mutex
unlock_mutex current m =
    if not m.locked
    then (error, m)
    else if not (m.owner_task_id == current)
    then (error, m)
    else (ok, record m { locked = false; owner_task_id = 0 })

pub mutex_lock : Option Mutex → ℕ → Status × Option Mutex
mutex_lock m current = on_handle (lock_mutex current) m

pub mutex_unlock : Option Mutex → ℕ → Status × Option Mutex
mutex_unlock m current = on_handle (unlock_mutex current) m

-- `none` as for `rtos_free`.
pub mutex_destroy : Heap → Option ℕ → Option Heap
mutex_destroy h none = some h
mutex_destroy h (some p) = rtos_free h (some p)

-- What a task does with a mutex, and a sequence of such calls with the status that each returns.
pub data Call : Type 0 where
  lock unlock : Call

pub step : Mutex → ℕ × Call → Status × Mutex
step m (current, lock) = lock_mutex current m
step m (current, unlock) = unlock_mutex current m

pub run : Mutex → List (ℕ × Call) → List Status × Mutex
run m [] = ([], m)
run m (c ∷ cs) = let (s, m') = step m c in let (ss, end) = run m' cs in (s ∷ ss, end)
