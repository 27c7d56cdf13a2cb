-- ===== src/Ipc/MessageQueue/Lifecycle.antt =====
-- `mq_create` and `mq_destroy` of src/ipc/message_queue.c on the heap.
use rtos_driver_framework.Base.{
  ℕ, ◌+◌, ◌≡◌, refl, ◌⊎◌, inl, inr, Option, none, some, ap, subst, ◌∙◌, arith, Option-cases,
}
use rtos_driver_framework.Kernel.Memory.{Heap, rtos_malloc, mul_size}
use rtos_driver_framework.Kernel.Memory.Invariant.{IsValid, rtos_malloc-IsValid, rtos_free_keeps}
use rtos_driver_framework.Kernel.Memory.Allocation.{rtos_malloc_fails}
use rtos_driver_framework.Kernel.Memory.Release.{rtos_free-rtos_malloc, rtos_free-blocks}
use rtos_driver_framework.Ipc.MessageQueue.{
  MessageQueue, message_queue_size, new_queue, mq_create, mq_destroy,
}

-- NULL, with the block list as it was; or a queue, which `mq_destroy` gives back to the last byte.
abbrev pub Made : Heap → Option (Option (ℕ × ℕ × MessageQueue) × Heap) → Type 0
Made h result =
    ((h' : Heap) × (result ≡ some (none, h')) × (h'.blocks ≡ h.blocks) × IsValid h')
    ⊎ ((p b : ℕ) × (mq : MessageQueue) × (h' : Heap) × (result ≡ some (some (p, b, mq), h'))
        × IsValid h'
        × ((h'' : Heap) × (mq_destroy h' (some (p, b)) ≡ some h'')
            × (h''.blocks ≡ h.blocks)
            × IsValid h''))

module _ (h : Heap) (msg_size max_msgs : ℕ) (v : IsValid h) where
  abbrev n : ℕ
  n = mul_size msg_size max_msgs

  module _ (p : ℕ) (g : Heap) (call : rtos_malloc h message_queue_size ≡ (some p, g)) where
    call₀ : (rtos_malloc h message_queue_size).0 ≡ some p
    call₀ = ap (λ t. t.0) call

    call₁ : (rtos_malloc h message_queue_size).1 ≡ g
    call₁ = ap (λ t. t.1) call

    g-IsValid : IsValid g
    g-IsValid = subst IsValid (ap (λ t. t.1) call) (rtos_malloc-IsValid v message_queue_size)

    no_buffer : (rtos_malloc g n).0 ≡ none → Made h (mq_create h msg_size max_msgs)
    unfolding mq_create
    no_buffer u =
        let (f, e, same, _, _) = rtos_free-rtos_malloc h message_queue_size p g v call in
        inl (
          f,
          ground (arith, call₀, call₁, u, ap (λ t. t.1) (rtos_malloc_fails g n u), e),
          same,
          rtos_free_keeps g-IsValid (some p) f e,
        )

    buffer :
        (b : ℕ) (g' : Heap)
        → rtos_malloc g n ≡ (some b, g')
        → Made h (mq_create h msg_size max_msgs)
    unfolding mq_create mq_destroy
    buffer b g' u =
        let (f, e, same, _, _) = rtos_free-rtos_malloc h message_queue_size p g v call in
        let (x, e', same', _, _) = rtos_free-rtos_malloc g n b g' g-IsValid u in
        let valid' = subst IsValid (ap (λ t. t.1) u) (rtos_malloc-IsValid g-IsValid n) in
        let x-IsValid = rtos_free_keeps valid' (some b) x e' in
        let (y, e'', back) = rtos_free-blocks g x p f g-IsValid x-IsValid same' e in
        inr (
          p,
          b,
          new_queue (λ i. g'.bytes (b + i)) msg_size max_msgs,
          g',
          ground (arith, call₀, call₁, ap (λ t. t.0) u, ap (λ t. t.1) u),
          valid',
          (y, rw (mq_destroy, e') e'', back ∙ same, rtos_free_keeps x-IsValid (some p) y e''),
        )

  -- `mq_create` in a sound heap either gives NULL and leaves the list of blocks as it was, also when only
  -- the second allocation fails, or gives a queue and its buffer, and `mq_destroy` of them succeeds and
  -- brings the list of blocks back. The heap stays sound.
  pub mq_destroy-mq_create : Made h (mq_create h msg_size max_msgs)
  unfolding mq_create
  mq_destroy-mq_create = elim (Option-cases (rtos_malloc h message_queue_size).0) [
    | inl e ↦
        let gone = rtos_malloc_fails h message_queue_size e in
        inl (h, ground (arith, ap (λ t. t.0) gone, ap (λ t. t.1) gone), refl, v)
    | inr (p, e) ↦
        let g = (rtos_malloc h message_queue_size).1 in
        let call : rtos_malloc h message_queue_size ≡ (some p, g) = λ i. (e i, g) in
        elim (Option-cases (rtos_malloc g n).0) [
          | inl u ↦ no_buffer p g call u
          | inr (b, u) ↦ buffer p g call b (rtos_malloc g n).1 (λ i. (u i, (rtos_malloc g n).1))
        ]
  ]
