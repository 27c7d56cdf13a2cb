-- ===== src/Ipc/Semaphore.antt =====
-- src/ipc/semaphore.c. The timeout is ignored by the code.
pub mod Counting
mod Tests
use rtos_driver_framework.Base.{
  ℕ, ◌+◌, ◌-◌, ◌%◌, Option, none, some, List, [], ◌∷◌, leb, ◌==◌, if◌then◌else◌, Status, ok, error,
  timeout, on_handle, u32_mod,
}
use rtos_driver_framework.Kernel.Memory.{Heap, rtos_malloc, rtos_free}

pub record Semaphore : Type 0 where
  pub count : ℕ
  pub max_count : ℕ

-- `sizeof(semaphore_t)`.
abbrev pub semaphore_size : ℕ
semaphore_size = 8

pub sem_create : Heap → ℕ → ℕ → Option (ℕ × Semaphore) × Heap
sem_create h initial_count max_count =
    let (r, h') = rtos_malloc h semaphore_size in
    elim r [
      | none ↦ (none, h')
      | some p ↦ (some (p, record { count = initial_count; max_count = max_count }), h')
    ]

-- `sem_take` and `sem_give` behind their tests for NULL.
pub take_semaphore : Semaphore → Status × Semaphore
take_semaphore s = if s.count == 0 then (timeout, s) else (ok, record s { count = s.count - 1 })

pub give_semaphore : Semaphore → Status × Semaphore
give_semaphore s =
    if leb s.max_count s.count
    then (error, s)
    else (ok, record s { count = (s.count + 1) % u32_mod })

pub sem_take : Option Semaphore → Status × Option Semaphore
sem_take s = on_handle take_semaphore s

pub sem_give : Option Semaphore → Status × Option Semaphore
sem_give s = on_handle give_semaphore s

-- `none` as for `rtos_free`.
pub sem_destroy : Heap → Option ℕ → Option Heap
sem_destroy h none = some h
sem_destroy h (some p) = rtos_free h (some p)

pub data Call : Type 0 where
  take give : Call

pub step : Semaphore → Call → Status × Semaphore
step s take = take_semaphore s
step s give = give_semaphore s

-- A sequence of calls by any tasks, with the status that each returns.
pub run : Semaphore → List Call → List (Call × Status) × Semaphore
run s [] = ([], s)
run s (c ∷ cs) = let (r, s') = step s c in let (rs, end) = run s' cs in ((c, r) ∷ rs, end)
