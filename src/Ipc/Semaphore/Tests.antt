-- ===== src/Ipc/Semaphore/Tests.antt =====
-- Runs of the semaphore of src/ipc/semaphore.c.
use rtos_driver_framework.Base.{◌+◌, ◌≤◌, ◌≡◌, List, [], ◌∷◌, arith}
use rtos_driver_framework.Ipc.Semaphore.{Semaphore, Call, take, give, run}
use rtos_driver_framework.Ipc.Semaphore.Counting.{total, took, gave, run-Balanced}

abbrev one_of_two : Semaphore
one_of_two = record { count = 1; max_count = 2 }

abbrev calls : List Call
calls = take ∷ take ∷ give ∷ give ∷ give ∷ []

run-Balanced_example :
    ((run one_of_two calls).1.count + total took (run one_of_two calls).0
      ≡ 1 + total gave (run one_of_two calls).0)
    × ((run one_of_two calls).1.max_count ≡ 2)
    × (1 ≤ 2 → (run one_of_two calls).1.count ≤ 2)
run-Balanced_example = run-Balanced one_of_two calls (omega arith)
