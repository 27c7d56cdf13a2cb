-- ===== src/Drivers/Uart/Write.antt =====
-- `uart_write` of src/drivers/uart_driver.c: which bytes reach the transmit buffer.
use rtos_driver_framework.Base.{
  ℕ, ◌-◌, ◌≡◌, refl, Bool, true, none, some, List, [], ◌∷◌, ◌++◌, append-nil, append_assoc, arith,
  leb, if◌then◌else◌, length, take, take-nil, take-cons, take_zero, ap, ap₂, ◌∙◌, sym, ok, busy,
  Bool-cases, inl, inr,
}
use rtos_driver_framework.Drivers.CircularBuffer.{CircularBuffer, circ_buf_put}
use rtos_driver_framework.Drivers.CircularBuffer.Fifo.{
  IsValid, contents, put-IsValid, put-full, Put-ok,
}
use rtos_driver_framework.Drivers.Uart.{UartHandle, put_all, write_bytes, notify}

-- How many bytes the buffer still takes.
abbrev pub room : CircularBuffer → ℕ
room cb = cb.size - cb.count

-- What the loop has done when it stops.
pub record Sent (cb : CircularBuffer) (xs : List ℕ) (out : Bool × CircularBuffer) : Type 0 where
  pub all : out.0 ≡ leb (length xs) (room cb)
  pub bytes : contents out.1 ≡ contents cb ++ take (room cb) xs
  pub valid : IsValid out.1
  pub size : out.1.size ≡ cb.size

pub put_all-Sent : (cb : CircularBuffer) (xs : List ℕ) → IsValid cb → Sent cb xs (put_all cb xs)
unfolding put_all
put_all-Sent cb [] v = record {
  all = ground arith;
  bytes = rw (take-nil, append-nil);
  valid = v;
  size = refl;
}
put_all-Sent cb (x ∷ xs) v = elim (Bool-cases (leb cb.size cb.count)) [
  | inl full ↦
      let same = put-full cb x (ground arith) in
      rw (same, put_all, ap (λ t. t.1) same)
        record {
          all = ground arith;
          bytes = rw (take_zero (room cb) (x ∷ xs) (ground arith), append-nil);
          valid = v;
          size = refl;
        }
  | inr free ↦
      let p = Put-ok cb x v (ground arith) in
      let rest = put_all-Sent (circ_buf_put cb x).1 xs (put-IsValid cb x v) in
      rw (p.done, put_all)
        record {
          all = ground (arith, rest.all, p.count, p.size);
          bytes =
              rest.bytes
              ∙ ap₂ (λ ys n. ys ++ take n xs) p.held (omega (arith, p.count, p.size))
              ∙ append_assoc (contents cb) (x ∷ []) (take (room cb - 1) xs)
              ∙ ap (λ ys. contents cb ++ ys) (sym (take-cons (room cb) x xs (ground arith)));
          valid = rest.valid;
          size = rest.size ∙ p.size;
        }
]

-- `uart_write` of at least one byte through an initialised handle succeeds exactly when all bytes
-- fit. The bytes that fit are sent in order, also when it fails, and it tells the transmit callback
-- only when it succeeds.
pub write_bytes_lem :
    (uart : UartHandle) (x : ℕ) (xs : List ℕ)
    → uart.initialized ≡ true
    → IsValid uart.tx_buffer
    → let (s, n, uart') = write_bytes uart (some (x ∷ xs)) in
      let fits = leb (length (x ∷ xs)) (room uart.tx_buffer) in
      (s ≡ (if fits then ok else busy))
      × (n ≡ (if fits then notify uart.tx_callback uart.tx_callback_data else none))
      × (contents uart'.tx_buffer ≡ contents uart.tx_buffer ++ take (room uart.tx_buffer) (x ∷ xs))
      × IsValid uart'.tx_buffer
      × (uart'.rx_buffer ≡ uart.rx_buffer)
unfolding write_bytes
write_bytes_lem uart x xs i v =
    let sent = put_all-Sent uart.tx_buffer (x ∷ xs) v in
    ground (arith, sent.all, sent.bytes, sent.valid)
