-- ===== src/Kernel/Run/Tests.antt =====
-- A run of the kernel of src/kernel: two tasks are made and started, one deletes the other, and the
-- last one waits.
use rtos_driver_framework.Base.{none, some, List, [], ◌∷◌}
use rtos_driver_framework.Kernel.Run.{
  Call, create, delete, suspend, resume, delay, give_way, tick, start,
}

abbrev calls : List Call
calls =
    create (some 4096) none 5 0
    ∷ create (some 8192) none 5 0
    ∷ start
    ∷ tick
    ∷ give_way
    ∷ suspend 1
    ∷ resume 1
    ∷ delete 2
    ∷ delay 7
    ∷ tick
    ∷ []
