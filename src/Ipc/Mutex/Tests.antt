-- ===== src/Ipc/Mutex/Tests.antt =====
-- Runs of the mutex of src/ipc/mutex.c.
use rtos_driver_framework.Base.{ℕ, ◌≡◌, refl, true, List, [], ◌∷◌, ok, timeout, error}
use rtos_driver_framework.Ipc.Mutex.{
  Mutex, new_mutex, Call, lock, unlock, lock_mutex, unlock_mutex, step, run,
}
use rtos_driver_framework.Ipc.Mutex.Holder.{spec_run, holder, mutex_refines}

-- Task 1 locks, task 2 tries to unlock and to lock.
abbrev calls : List (ℕ × Call)
calls = (1, lock) ∷ (2, unlock) ∷ (2, lock) ∷ (1, unlock) ∷ (2, lock) ∷ []

mutex_refines_example :
    ((run new_mutex calls).0, holder (run new_mutex calls).1) ≡ spec_run (holder new_mutex) calls
mutex_refines_example = mutex_refines new_mutex calls

statuses : (run new_mutex calls).0 ≡ ok ∷ error ∷ timeout ∷ ok ∷ ok ∷ []
unfolding run step lock_mutex unlock_mutex
statuses = refl

abbrev locked_by_1 : Mutex
locked_by_1 = record { locked = true; owner_task_id = 1 }
