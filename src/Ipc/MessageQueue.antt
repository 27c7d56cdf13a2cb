-- ===== src/Ipc/MessageQueue.antt =====
-- src/ipc/message_queue.c. The timeout is ignored by the code. The model holds the contents of the
-- buffer with the queue: `buffer` maps an offset in it to the byte there. A message is the list of
-- the `msg_size` bytes at the caller's pointer.
pub mod Slots
pub mod Fifo
pub mod Lifecycle
mod Tests
use rtos_driver_framework.Base.{
  ℕ, zero, suc, ◌+◌, ◌-◌, ◌*◌, ◌%◌, Bool, true, false, Option, none, some, List, [], ◌∷◌, ◌&&◌, leb,
  ltb, ◌==◌, if◌then◌else◌, length, get_or, Status, ok, busy, timeout, invalid_param, ◌>>=◌,
}
use rtos_driver_framework.Kernel.Memory.{Heap, rtos_malloc, rtos_free, mul_size, add_size}

pub record MessageQueue : Type 0 where
  pub buffer : ℕ → ℕ
  pub msg_size : ℕ
  pub max_msgs : ℕ
  pub count : ℕ
  pub head : ℕ
  pub tail : ℕ

-- `sizeof(message_queue_t)`: a pointer and five `size_t`.
abbrev pub message_queue_size : ℕ
message_queue_size = 48

-- `memcpy` into the buffer and out of it.
unfoldable pub copy_in : (ℕ → ℕ) → ℕ → List ℕ → ℕ → ℕ
copy_in f at msg a = if leb at a && ltb a (at + length msg) then get_or msg (a - at) 0 else f a

unfoldable pub copy_out : (ℕ → ℕ) → ℕ → ℕ → List ℕ
copy_out f at zero = []
copy_out f at (suc n) = f at ∷ copy_out f (at + 1) n

abbrev pub new_queue : (ℕ → ℕ) → ℕ → ℕ → MessageQueue
new_queue buffer msg_size max_msgs = record {
  buffer = buffer;
  msg_size = msg_size;
  max_msgs = max_msgs;
  count = 0;
  head = 0;
  tail = 0;
}

-- The handle, the pointer to the buffer and the queue; `none` outside as for `rtos_free`. The buffer
-- is not cleared.
pub mq_create : Heap → ℕ → ℕ → Option (Option (ℕ × ℕ × MessageQueue) × Heap)
mq_create h msg_size max_msgs =
    let (mq, h') = rtos_malloc h message_queue_size in
    elim mq [
      | none ↦ some (none, h')
      | some p ↦
          let (buffer, h'') = rtos_malloc h' (mul_size msg_size max_msgs) in
          elim buffer [
            | none ↦ do g ← rtos_free h'' (some p); some (none, g)
            | some b ↦ some (some (p, b, new_queue (λ i. h''.bytes (b + i)) msg_size max_msgs), h'')
          ]
    ]

-- `mq_send` and `mq_receive` behind their tests for NULL.
pub send_message : MessageQueue → List ℕ → Status × MessageQueue
send_message mq msg = if leb mq.max_msgs mq.count then (busy, mq) else (
  ok,
  record mq {
    buffer = copy_in mq.buffer (mq.head * mq.msg_size) msg;
    head = add_size mq.head 1 % mq.max_msgs;
    count = add_size mq.count 1;
  },
)

pub receive_message : MessageQueue → Status × Option (List ℕ) × MessageQueue
receive_message mq = if mq.count == 0 then (timeout, none, mq) else (
  ok,
  some (copy_out mq.buffer (mq.tail * mq.msg_size) mq.msg_size),
  record mq { tail = add_size mq.tail 1 % mq.max_msgs; count = mq.count - 1 },
)

pub mq_send : Option MessageQueue → Option (List ℕ) → Status × Option MessageQueue
mq_send none msg = (invalid_param, none)
mq_send (some mq) none = (invalid_param, some mq)
mq_send (some mq) (some msg) = let (s, mq') = send_message mq msg in (s, some mq')

-- `to` tells whether the pointer for the message is one; the message goes there if there is any.
pub mq_receive : Option MessageQueue → Bool → Status × Option (List ℕ) × Option MessageQueue
mq_receive none to = (invalid_param, none, none)
mq_receive (some mq) false = (invalid_param, none, some mq)
mq_receive (some mq) true = let (s, msg, mq') = receive_message mq in (s, msg, some mq')

-- The buffer behind `b` and the queue behind `p` are freed; `none` as for `rtos_free`.
pub mq_destroy : Heap → Option (ℕ × ℕ) → Option Heap
mq_destroy h none = some h
mq_destroy h (some (p, b)) = do h' ← rtos_free h (some b); rtos_free h' (some p)

-- A sequence of calls by any tasks, with the status and the message that each gives.
pub data Call : Type 0 where
  send : List ℕ → Call
  receive : Call

pub run : MessageQueue → List Call → List (Status × Option (List ℕ))
run mq [] = []
run mq (send msg ∷ cs) = let (s, mq') = send_message mq msg in (s, none) ∷ run mq' cs
run mq (receive ∷ cs) = let (s, msg, mq') = receive_message mq in (s, msg) ∷ run mq' cs
