-- ===== src/Ipc/MessageQueue/Fifo.antt =====
-- The message queue of src/ipc/message_queue.c is a bounded first-in first-out queue of messages.
use native.Mathlib.Nat.{mod-eq_of_lt}
use rtos_driver_framework.Base.{
  ℕ, zero, suc, ◌+◌, ◌-◌, ◌*◌, ◌%◌, ◌≤◌, ◌<◌, ◌≡◌, ◌≢◌, refl, Bool, Option, none, some, List, [],
  ◌∷◌, ◌++◌, arith, length, if◌then◌else◌, ap, ap₂, ◌∙◌, sym, Status, ok, busy, timeout, size_mod,
  Option-cases, inl, inr,
}
use rtos_driver_framework.Base.Fifo.{offer, poll}
use rtos_driver_framework.Base.Window.{
  window, length-window, window_front, window-congr, next_cell-ne, head_step, tail_step,
}
use rtos_driver_framework.Kernel.Memory.{Heap, rtos_malloc, rtos_free, mul_size}
use rtos_driver_framework.Kernel.Memory.Allocation.{rtos_malloc-zero}
use rtos_driver_framework.Ipc.MessageQueue.{
  MessageQueue, copy_in, copy_out, send_message, receive_message, new_queue, mq_create,
  message_queue_size, Call, send, receive,
}
use rtos_driver_framework.Ipc.MessageQueue.Slots.{copy_out-copy_in, copy_out-copy_in_ne}

pub record IsValid (mq : MessageQueue) : Type 0 where
  pub tail_in : mq.tail < mq.max_msgs
  pub count_in : mq.count ≤ mq.max_msgs
  pub head_at : mq.head ≡ (mq.tail + mq.count) % mq.max_msgs
  pub small : mq.max_msgs < size_mod

-- The message in slot `k`.
abbrev pub slot : MessageQueue → ℕ → List ℕ
slot mq k = copy_out mq.buffer (k * mq.msg_size) mq.msg_size

-- The messages held, oldest first.
abbrev pub messages : MessageQueue → List (List ℕ)
messages mq = window (slot mq) mq.max_msgs mq.tail mq.count

pub send-IsValid : (mq : MessageQueue) (msg : List ℕ) → IsValid mq → IsValid (send_message mq msg).1
unfolding send_message
send-IsValid mq msg v = ground (arith, head_step mq.max_msgs mq.tail mq.count)

pub receive-IsValid : (mq : MessageQueue) → IsValid mq → IsValid (receive_message mq).2
unfolding receive_message
receive-IsValid mq v = ground (arith, tail_step mq.max_msgs mq.tail (mq.count - 1))

-- Writing the next slot adds the message behind the others.
module _ (mq : MessageQueue) (msg : List ℕ) (v : IsValid mq) (len : length msg ≡ mq.msg_size)
    (room : mq.count < mq.max_msgs) where
  written : MessageQueue
  written = record mq { buffer = copy_in mq.buffer (mq.head * mq.msg_size) msg }

  slot_same : slot written mq.head ≡ msg
  unfolding written
  slot_same = rw (← len) (copy_out-copy_in mq.buffer (mq.head * length msg) msg)

  slot_other : (k : ℕ) → mq.head ≢ k → slot written k ≡ slot mq k
  unfolding written
  slot_other k ne = copy_out-copy_in_ne mq.buffer mq.head k mq.msg_size msg len ne

  window-written :
      window (slot written) mq.max_msgs mq.tail (suc mq.count) ≡ messages mq ++ (msg ∷ [])
  unfolding window
  window-written =
      ap₂ (λ xs x. xs ++ (x ∷ []))
        (window-congr (slot written) (slot mq) mq.max_msgs mq.tail mq.count (λ k lt.
          slot_other _ (λ e.
            next_cell-ne mq.max_msgs mq.tail k mq.count v.tail_in lt room (sym e ∙ v.head_at))))
        (ap (slot written) (sym v.head_at) ∙ slot_same)

-- `window` matches on the number of messages, the code tests it against 0.
messages_front :
    (mq : MessageQueue)
    → IsValid mq
    → mq.count ≢ 0
    → messages mq
      ≡ slot mq mq.tail ∷ window (slot mq) mq.max_msgs ((mq.tail + 1) % mq.max_msgs) (mq.count - 1)
messages_front mq v ne =
    ap (window (slot mq) mq.max_msgs mq.tail) pred_suc
    ∙ window_front (slot mq) mq.max_msgs mq.tail (mq.count - 1) v.tail_in
  where
    pred_suc : mq.count ≡ suc (mq.count - 1)
    pred_suc = omega arith

messages_none : (mq : MessageQueue) → mq.count ≡ 0 → messages mq ≡ []
unfolding window
messages_none mq e = rw e

abbrev pub send_status : Bool → Status
send_status b = if b then ok else busy

-- `mq_send` of a message of the queue's size is the `offer` of the specification.
pub send_refines :
    (mq : MessageQueue) (msg : List ℕ)
    → IsValid mq
    → length msg ≡ mq.msg_size
    → let (s, mq') = send_message mq msg in
      let (b, q) = offer mq.max_msgs (messages mq) msg in (s ≡ send_status b) × (messages mq' ≡ q)
unfolding send_message written
send_refines mq msg v len =
    ground
      (arith, length-window (slot mq) mq.max_msgs mq.tail mq.count, window-written mq msg v len)

abbrev pub receive_status : Option (List ℕ) → Status
receive_status none = timeout
receive_status (some m) = ok

-- `mq_receive` is its `poll`.
pub receive_refines :
    (mq : MessageQueue)
    → IsValid mq
    → let (s, r, mq') = receive_message mq in
      let (m, q) = poll (messages mq) in (s ≡ receive_status m) × (r ≡ m) × (messages mq' ≡ q)
unfolding receive_message
receive_refines mq v = ground (arith, messages_front mq v, messages_none mq)

-- The calls on the specification.
unfoldable pub spec_run : ℕ → List (List ℕ) → List Call → List (Status × Option (List ℕ))
spec_run cap q [] = []
spec_run cap q (send msg ∷ cs) =
    let (b, q') = offer cap q msg in (send_status b, none) ∷ spec_run cap q' cs
spec_run cap q (receive ∷ cs) = let (m, q') = poll q in (receive_status m, m) ∷ spec_run cap q' cs

abbrev pub SizedCall : ℕ → Call → Type 0
SizedCall size (send msg) = length msg ≡ size
SizedCall size receive = Unit

-- An empty buffer is not allocated.
buffer_pos : (msg_size max_msgs : ℕ) → mul_size msg_size max_msgs ≢ 0 → 0 < max_msgs
buffer_pos msg_size zero h = absurd (h (omega arith))
buffer_pos msg_size (suc n) h = omega arith

mq_create-some :
    (h : Heap) (msg_size max_msgs p b : ℕ) (mq : MessageQueue) (h' : Heap)
    → mq_create h msg_size max_msgs ≡ some (some (p, b, mq), h')
    → (buffer : ℕ → ℕ) × (0 < max_msgs) × (mq ≡ new_queue buffer msg_size max_msgs)
unfolding mq_create
mq_create-some h msg_size max_msgs p b mq h' e =
    let g = (rtos_malloc h message_queue_size).1 in
    let n = mul_size msg_size max_msgs in
    elim (Option-cases (rtos_malloc h message_queue_size).0) [
      | inl k ↦ absurd (ground (arith, k))
      | inr (p', k) ↦ elim (Option-cases (rtos_malloc g n).0) [
        | inl u ↦ elim (Option-cases (rtos_free (rtos_malloc g n).1 (some p'))) [
          | inl w ↦ absurd (ground (arith, k, u, w))
          | inr (f, w) ↦ absurd (ground (arith, k, u, w))
        ]
        | inr (b', u) ↦ (
          λ i. (rtos_malloc g n).1.bytes (b' + i),
          buffer_pos msg_size max_msgs (λ z. cc (ap (λ t. t.0) (rtos_malloc-zero g n z))),
          ground (arith, k, u),
        )
      ]
    ]

-- A queue that `mq_create` makes is valid and empty.
pub mq_create-IsValid :
    (h : Heap) (msg_size max_msgs p b : ℕ) (mq : MessageQueue) (h' : Heap)
    → max_msgs < size_mod
    → mq_create h msg_size max_msgs ≡ some (some (p, b, mq), h')
    → IsValid mq × (messages mq ≡ []) × (mq.max_msgs ≡ max_msgs) × (mq.msg_size ≡ msg_size)
unfolding window
mq_create-IsValid h msg_size max_msgs p b mq h' small e =
    let (buffer, pos, eq) = mq_create-some h msg_size max_msgs p b mq h' e in
    rw eq (
      record {
        tail_in = pos;
        count_in = omega arith;
        head_at = sym (mod-eq_of_lt pos);
        small = small;
      },
      refl,
      refl,
      refl,
    )
