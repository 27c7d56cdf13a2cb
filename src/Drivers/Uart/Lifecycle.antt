-- ===== src/Drivers/Uart/Lifecycle.antt =====
-- `uart_init` and `uart_deinit` of src/drivers/uart_driver.c: what they do to the handles and the heap.
use rtos_driver_framework.Base.{
  ℕ, ◌<◌, ◌≡◌, ◌≢◌, ◌⊎◌, inl, inr, true, false, ◌||◌, none, some, Option, [], arith, leb, ap, ◌∙◌,
  sym, subst, Option-cases, size_mod, update, ◌==◌, Bool-cases, ==_refl,
}
use rtos_driver_framework.Kernel.Memory.{Heap, rtos_malloc, rtos_free}
use rtos_driver_framework.Kernel.Memory.Invariant
use rtos_driver_framework.Kernel.Memory.Allocation.{rtos_malloc_fails}
use rtos_driver_framework.Kernel.Memory.Release.{rtos_free-rtos_malloc}
use rtos_driver_framework.Drivers.CircularBuffer.{CircularBuffer, circ_buf_init, circ_buf_deinit}
use rtos_driver_framework.Drivers.CircularBuffer.Fifo
use rtos_driver_framework.Drivers.CircularBuffer.Fifo.{
  contents, init_lem, init-buffer, deinit_none, deinit_some,
}
use rtos_driver_framework.Drivers.Uart.{
  UartHandle, UartConfig, Uarts, max_uart_instances, fresh, is_null, finish_init, uart_init,
}

-- Both buffers of a handle are sound.
pub record IsReady (uart : UartHandle) : Type 0 where
  pub rx : Fifo.IsValid uart.rx_buffer
  pub tx : Fifo.IsValid uart.tx_buffer

pub record IsValid (s : Uarts) : Type 0 where
  pub heap_valid : Invariant.IsValid s.heap
  pub ready : (i : ℕ) → (s.instances i).initialized ≡ true → IsReady (s.instances i)

-- A handle replaced in the array.
replace-IsValid :
    (s : Uarts) (i : ℕ) (uart : UartHandle) (h : Heap)
    → IsValid s
    → Invariant.IsValid h
    → (uart.initialized ≡ true → IsReady uart)
    → IsValid (record { instances = update s.instances i uart; heap = h })
replace-IsValid s i uart h v vh r = record { heap_valid = vh; ready = λ j. ready_at j }
  where
    ready_at :
        (j : ℕ)
        → (update s.instances i uart j).initialized ≡ true
        → IsReady (update s.instances i uart j)
    ready_at j e = elim (Bool-cases (i == j)) [
      | inl here ↦ rw here (r (rw here at e))
      | inr there ↦ rw there (v.ready j (rw there at e))
    ]

-- How `uart_init` leaves the handles and the heap: with the handle `i` open and its buffers empty, or
-- with NULL, the handle closed and the block list as it was.
abbrev pub Opened : Uarts → ℕ → UartConfig → Uarts → Option (Option ℕ × Uarts) → Type 0
Opened s i config s' r =
    (r ≡ some (some i, s'))
    × ((s'.instances i).initialized ≡ true)
    × ((s'.instances i).config ≡ config)
    × (contents (s'.instances i).rx_buffer ≡ [])
    × (contents (s'.instances i).tx_buffer ≡ [])

abbrev pub Refused : Uarts → ℕ → Uarts → Option (Option ℕ × Uarts) → Type 0
Refused s i s' r =
    (r ≡ some (none, s'))
    × ((s'.instances i).initialized ≡ false)
    × (s'.heap.blocks ≡ s.heap.blocks)

abbrev pub Outcome : Uarts → ℕ → UartConfig → Option (Option ℕ × Uarts) → Type 0
Outcome s i config r =
    (s' : Uarts) × (Opened s i config s' r ⊎ Refused s i s' r)
    × IsValid s'
    × ((j : ℕ) → i ≢ j → s'.instances j ≡ s.instances j)

module _ (s : Uarts) (i : ℕ) (config : UartConfig) (v : IsValid s) (rx tx : CircularBuffer)
    (h : Heap) (vh : Invariant.IsValid h) where
  abbrev handle : UartHandle
  handle = record (fresh i config) { rx_buffer = rx; tx_buffer = tx }

  finish-Opened :
      (p q : ℕ)
      → rx.buffer ≡ some p
      → tx.buffer ≡ some q
      → Fifo.IsValid rx
      → Fifo.IsValid tx
      → contents rx ≡ []
      → contents tx ≡ []
      → Outcome s i config (finish_init s i config rx tx h)
  unfolding finish_init
  finish-Opened p q ep eq vr vt cr ct =
      let opened = record handle { initialized = true; tx_busy = false } in
      (
        record { instances = update s.instances i opened; heap = h },
        inl (
          ground (arith, ep, eq),
          ground arith,
          ground arith,
          rw (==_refl i) cr,
          rw (==_refl i) ct,
        ),
        replace-IsValid s i opened h v vh (λ _. record { rx = vr; tx = vt }),
        λ j ne. ground arith,
      )

  -- The buffers that were allocated have been given back as `rx'` and `tx'`.
  finish-Refused :
      (rx' tx' : CircularBuffer) (h₁ h₂ : Heap)
      → (is_null rx || is_null tx) ≡ true
      → circ_buf_deinit h rx ≡ some (rx', h₁)
      → circ_buf_deinit h₁ tx ≡ some (tx', h₂)
      → Invariant.IsValid h₂
      → h₂.blocks ≡ s.heap.blocks
      → Outcome s i config (finish_init s i config rx tx h)
  unfolding finish_init
  finish-Refused rx' tx' h₁ h₂ some_null e₁ e₂ v₂ same =
      let closed = record handle { rx_buffer = rx'; tx_buffer = tx' } in
      (
        record { instances = update s.instances i closed; heap = h₂ },
        inr (ground (arith, some_null, e₁, e₂), ground arith, same),
        replace-IsValid s i closed h₂ v v₂ (λ e. cc),
        λ j ne. ground arith,
      )

rx_null : (rx tx : CircularBuffer) → rx.buffer ≡ none → (is_null rx || is_null tx) ≡ true
rx_null rx tx e = ground arith

tx_null :
    (rx tx : CircularBuffer) (p : ℕ)
    → rx.buffer ≡ some p
    → tx.buffer ≡ none
    → (is_null rx || is_null tx) ≡ true
tx_null rx tx p e f = ground arith

module _ (s : Uarts) (i : ℕ) (config : UartConfig) (v : IsValid s)
    (rx_small : config.rx_buffer_size < size_mod)
    (tx_small : config.tx_buffer_size < size_mod) where
  -- The two buffers as `uart_init` sets them up, and the heap after each.
  abbrev first : CircularBuffer × Heap
  first = circ_buf_init s.heap config.rx_buffer_size

  abbrev second : CircularBuffer × Heap
  second = circ_buf_init first.1 config.tx_buffer_size

  first-IsValid : Invariant.IsValid first.1
  first-IsValid =
      subst Invariant.IsValid (sym (init-buffer s.heap config.rx_buffer_size).1)
        (Invariant.rtos_malloc-IsValid v.heap_valid config.rx_buffer_size)

  second-IsValid : Invariant.IsValid second.1
  second-IsValid =
      subst Invariant.IsValid (sym (init-buffer first.1 config.tx_buffer_size).1)
        (Invariant.rtos_malloc-IsValid first-IsValid config.tx_buffer_size)

  -- The heap after a call that gave no memory, and a buffer that was allocated given back.
  first_none : first.0.buffer ≡ none → first.1 ≡ s.heap
  first_none e =
      let (b, k) = init-buffer s.heap config.rx_buffer_size in
      k ∙ ap (λ t. t.1) (rtos_malloc_fails s.heap config.rx_buffer_size (sym b ∙ e))

  second_none : second.0.buffer ≡ none → second.1 ≡ first.1
  second_none e =
      let (b, k) = init-buffer first.1 config.tx_buffer_size in
      k ∙ ap (λ t. t.1) (rtos_malloc_fails first.1 config.tx_buffer_size (sym b ∙ e))

  call_some :
      (h : Heap) (size p : ℕ)
      → (circ_buf_init h size).0.buffer ≡ some p
      → rtos_malloc h size ≡ (some p, (circ_buf_init h size).1)
  call_some h size p e i = let (b, k) = init-buffer h size in ((sym b ∙ e) i, sym k i)

  neither :
      first.0.buffer ≡ none
      → second.0.buffer ≡ none
      → Outcome s i config (finish_init s i config first.0 second.0 second.1)
  neither e f =
      finish-Refused s i config v first.0 second.0 second.1 second-IsValid first.0 second.0 second.1
        second.1 (rx_null first.0 second.0 e) (deinit_none second.1 first.0 e)
        (deinit_none second.1 second.0 f) second-IsValid
        (ap (λ (t : Heap). t.blocks) (second_none f ∙ first_none e))

  only_tx :
      (q : ℕ)
      → first.0.buffer ≡ none
      → second.0.buffer ≡ some q
      → Outcome s i config (finish_init s i config first.0 second.0 second.1)
  only_tx q e f =
      let (h', freed, same, _, _) =
        rtos_free-rtos_malloc first.1 config.tx_buffer_size q second.1 first-IsValid
          (call_some first.1 config.tx_buffer_size q f) in
      finish-Refused s i config v first.0 second.0 second.1 second-IsValid first.0
        (record second.0 { buffer = none }) second.1 h' (rx_null first.0 second.0 e)
        (deinit_none second.1 first.0 e) (deinit_some second.1 second.0 q h' f freed)
        (Invariant.rtos_free_keeps second-IsValid (some q) h' freed)
        (same ∙ ap (λ (t : Heap). t.blocks) (first_none e))

  only_rx :
      (p : ℕ)
      → first.0.buffer ≡ some p
      → second.0.buffer ≡ none
      → Outcome s i config (finish_init s i config first.0 second.0 second.1)
  only_rx p e f =
      let (h', freed, same, _, _) =
        rtos_free-rtos_malloc s.heap config.rx_buffer_size p first.1 v.heap_valid
          (call_some s.heap config.rx_buffer_size p e) in
      let freed' = ap (λ h. rtos_free h (some p)) (second_none f) ∙ freed in
      finish-Refused s i config v first.0 second.0 second.1 second-IsValid
        (record first.0 { buffer = none }) second.0 h' h' (tx_null first.0 second.0 p e f)
        (deinit_some second.1 first.0 p h' e freed') (deinit_none h' second.0 f)
        (Invariant.rtos_free_keeps second-IsValid (some p) h' freed') same

  both_set_up : Outcome s i config (finish_init s i config first.0 second.0 second.1)
  both_set_up = elim (Option-cases first.0.buffer) [
    | inl e ↦ elim (Option-cases second.0.buffer) [
      | inl f ↦ neither e f
      | inr (q, f) ↦ only_tx q e f
    ]
    | inr (p, e) ↦ elim (Option-cases second.0.buffer) [
      | inl f ↦ only_rx p e f
      | inr (q, f) ↦
          let (vr, cr) =
            init_lem s.heap config.rx_buffer_size p rx_small
              (sym (init-buffer s.heap config.rx_buffer_size).0 ∙ e) in
          let (vt, ct) =
            init_lem first.1 config.tx_buffer_size q tx_small
              (sym (init-buffer first.1 config.tx_buffer_size).0 ∙ f) in
          finish-Opened s i config v first.0 second.0 second.1 second-IsValid p q e f vr vt cr ct
    ]
  ]

-- `uart_init` of a closed instance keeps the handles and the heap sound and the other handles as they
-- were. It opens the instance with both buffers empty, or gives NULL with every byte given back.
pub uart_init_lem :
    (s : Uarts) (i : ℕ) (config : UartConfig)
    → IsValid s
    → config.rx_buffer_size < size_mod
    → config.tx_buffer_size < size_mod
    → i < max_uart_instances
    → (s.instances i).initialized ≡ false
    → Outcome s i config (uart_init s i (some config))
unfolding uart_init
uart_init_lem s i config v rx_small tx_small i_in closed =
    rw (closed, in_range) (both_set_up s i config v rx_small tx_small)
  where
    in_range : leb max_uart_instances i ≡ false
    in_range = ground arith
