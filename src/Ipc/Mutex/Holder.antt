-- ===== src/Ipc/Mutex/Holder.antt =====
-- The mutex of src/ipc/mutex.c against its specification: at most one task holds it, and only that
-- task can give it up.
use rtos_driver_framework.Base.{
  ℕ, true, Option, none, some, List, [], ◌∷◌, ◌≡◌, ◌≢◌, refl, arith, ◌==◌, if◌then◌else◌, Status,
  ok, error, timeout, All, ap,
}
use rtos_driver_framework.Ipc.Mutex.{Mutex, lock_mutex, unlock_mutex, Call, lock, unlock, step, run}

-- The specification: the task that holds the mutex, if any.
unfoldable pub spec_step : Option ℕ → ℕ × Call → Status × Option ℕ
spec_step none (t, lock) = (ok, some t)
spec_step (some o) (t, lock) = (timeout, some o)
spec_step none (t, unlock) = (error, none)
spec_step (some o) (t, unlock) = if o == t then (ok, none) else (error, some o)

unfoldable pub spec_run : Option ℕ → List (ℕ × Call) → List Status × Option ℕ
spec_run h [] = ([], h)
spec_run h (c ∷ cs) = let (s, h') = spec_step h c in let (ss, end) = spec_run h' cs in (s ∷ ss, end)

unfoldable pub holder : Mutex → Option ℕ
holder m = if m.locked then some m.owner_task_id else none

pub step_refines :
    (m : Mutex) (c : ℕ × Call) → ((step m c).0, holder (step m c).1) ≡ spec_step (holder m) c
unfolding step lock_mutex unlock_mutex holder spec_step
step_refines m (t, lock) = ground arith
step_refines m (t, unlock) = ground arith

-- Any sequence of calls by any tasks returns the statuses of the specification, and ends with its
-- holder.
pub mutex_refines :
    (m : Mutex) (cs : List (ℕ × Call))
    → ((run m cs).0, holder (run m cs).1) ≡ spec_run (holder m) cs
unfolding run spec_run
mutex_refines m [] = refl
mutex_refines m (c ∷ cs) = ground (
  arith,
  step_refines m c,
  mutex_refines (step m c).1 cs,
  ap (λ h. spec_run h cs) (ap (λ t. t.1) (step_refines m c)),
)

step_excludes :
    (m : Mutex) (c : ℕ × Call)
    → m.locked ≡ true
    → c.0 ≢ m.owner_task_id
    → ((step m c).0 ≢ ok) × ((step m c).1 ≡ m)
unfolding step lock_mutex unlock_mutex
step_excludes m (t, lock) h other = (ground arith, ground arith)
step_excludes m (t, unlock) h other = (ground arith, ground arith)

-- While one task holds the mutex, no call by other tasks succeeds, and none changes the mutex.
pub run_excludes :
    (m : Mutex) (cs : List (ℕ × Call))
    → m.locked ≡ true
    → All (λ c. c.0 ≢ m.owner_task_id) cs
    → All (λ s. s ≢ ok) (run m cs).0 × ((run m cs).1 ≡ m)
unfolding run
run_excludes m [] h others = (tt, refl)
run_excludes m (c ∷ cs) h others =
    let (refused, same) = step_excludes m c h others.0 in
    let rest = run_excludes m cs h others.1 in rw same ((refused, rest.0), rest.1)
