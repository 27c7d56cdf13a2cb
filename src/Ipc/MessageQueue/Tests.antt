-- ===== src/Ipc/MessageQueue/Tests.antt =====
-- Runs of the message queue of src/ipc/message_queue.c.
use rtos_driver_framework.Base.{ℕ, ◌≡◌, refl, some, List, [], ◌∷◌}
use rtos_driver_framework.Kernel.Memory.{
  Heap, zero_heap, memory_init, align_size, find_best_fit, best_fit_loop, block_at, mark,
  split_block, take_block, rtos_malloc,
}
use rtos_driver_framework.Ipc.MessageQueue.{MessageQueue, new_queue, mq_create, Call, send, receive}
use rtos_driver_framework.Ipc.MessageQueue.Lifecycle.{Made, mq_destroy-mq_create}
use rtos_driver_framework.Kernel.Memory.Invariant.{memory_init-IsValid}

-- Two messages of two bytes.
abbrev empty : MessageQueue
empty = new_queue (λ _. 0) 2 2

abbrev calls : List Call
calls =
    send (1 ∷ 2 ∷ [])
    ∷ send (3 ∷ 4 ∷ [])
    ∷ send (5 ∷ 6 ∷ [])
    ∷ receive
    ∷ send (7 ∷ 8 ∷ [])
    ∷ receive
    ∷ receive
    ∷ receive
    ∷ []

create_run :
    (p b : ℕ) × (mq : MessageQueue) × (h : Heap) × (mq_create (memory_init zero_heap) 4 8
      ≡ some (some (p, b, mq), h))
unfolding mq_create memory_init rtos_malloc align_size find_best_fit best_fit_loop take_block
    split_block mark block_at
create_run = (_, _, _, _, refl)

mq_destroy-mq_create_example : Made (memory_init zero_heap) (mq_create (memory_init zero_heap) 4 8)
mq_destroy-mq_create_example =
    mq_destroy-mq_create (memory_init zero_heap) 4 8 (memory_init-IsValid zero_heap refl)
