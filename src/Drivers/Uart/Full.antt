-- ===== src/Drivers/Uart/Full.antt =====
-- The transmit buffer of src/drivers/uart_driver.c has a writer and no reader: `uart_write` puts
-- bytes into it, and only `uart_flush` takes any out.
use rtos_driver_framework.Base.{
  ℕ, ◌≤◌, ◌≡◌, refl, true, false, List, [], ◌∷◌, arith, All, Status, busy, ap, ◌∙◌,
}
use rtos_driver_framework.Drivers.CircularBuffer.{CircularBuffer}
use rtos_driver_framework.Drivers.CircularBuffer.Fifo.{put-full}
use rtos_driver_framework.Drivers.Uart.{
  UartHandle, put_all, write_bytes, read_bytes, Call, write, write_dma, read, set_callback, step,
  run,
}

-- A write of at least one byte was turned away.
abbrev pub Refused : Call × Status → Type 0
Refused (write (x ∷ xs), s) = s ≡ busy
Refused _ = Unit

record IsFull (uart : UartHandle) : Type 0 where
  open_handle : uart.initialized ≡ true
  full : uart.tx_buffer.size ≤ uart.tx_buffer.count

put_all-full :
    (cb : CircularBuffer) (x : ℕ) (xs : List ℕ)
    → cb.size ≤ cb.count
    → put_all cb (x ∷ xs) ≡ (false, cb)
unfolding put_all
put_all-full cb x xs h = let same = put-full cb x h in rw (same, put_all, ap (λ t. t.1) same)

step-IsFull :
    (uart : UartHandle) (c : Call)
    → IsFull uart
    → Refused (c, (step uart c).0)
      × IsFull (step uart c).1
      × ((step uart c).1.tx_buffer ≡ uart.tx_buffer)
unfolding step write_bytes read_bytes
step-IsFull uart (write []) f = ground arith
step-IsFull uart (write (x ∷ xs)) f = ground (arith, put_all-full uart.tx_buffer x xs)
step-IsFull uart (write_dma []) f = ground arith
step-IsFull uart (write_dma (x ∷ xs)) f = ground arith
step-IsFull uart (read len) f = ground arith
step-IsFull uart (set_callback g user) f = ground arith

-- Once the transmit buffer of an initialised handle is full, it stays so, and every further write is
-- turned away, whatever calls other than `uart_flush` and `uart_deinit` are made in between.
pub run-full :
    (uart : UartHandle) (cs : List Call)
    → uart.initialized ≡ true
    → uart.tx_buffer.size ≤ uart.tx_buffer.count
    → All Refused (run uart cs).0 × ((run uart cs).1.tx_buffer ≡ uart.tx_buffer)
unfolding run
run-full uart [] i f = (tt, refl)
run-full uart (c ∷ cs) i f =
    let (refused, still, same) = step-IsFull uart c (record { open_handle = i; full = f }) in
    let rest = run-full (step uart c).1 cs still.open_handle still.full in
    ((refused, rest.0), rest.1 ∙ same)
