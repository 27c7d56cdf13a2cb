-- ===== src/Drivers/Uart/Read.antt =====
-- `uart_read` of src/drivers/uart_driver.c: which bytes leave the receive buffer.
use rtos_driver_framework.Base.{
  ℕ, zero, suc, ◌≡◌, refl, true, List, ◌∷◌, arith, ◌==◌, take, drop, ap, ◌∙◌, sym, ok, Bool-cases,
  inl, inr,
}
use rtos_driver_framework.Drivers.CircularBuffer.{CircularBuffer, circ_buf_get}
use rtos_driver_framework.Drivers.CircularBuffer.Fifo.{
  IsValid, contents, get-IsValid, get-empty, get-ok, contents_none,
}
use rtos_driver_framework.Drivers.Uart.{UartHandle, get_all, read_bytes}

pub record Received (cb : CircularBuffer) (len : ℕ) (out : List ℕ × CircularBuffer) : Type 0 where
  pub bytes : out.0 ≡ take len (contents cb)
  pub left : contents out.1 ≡ drop len (contents cb)
  pub valid : IsValid out.1

pub get_all-Received :
    (cb : CircularBuffer) (len : ℕ) → IsValid cb → Received cb len (get_all cb len)
unfolding get_all
get_all-Received cb zero v = record { bytes = refl; left = refl; valid = v }
get_all-Received cb (suc len) v = elim (Bool-cases (cb.count == 0)) [
  | inl empty ↦
      let e = contents_none cb (ground arith) in
      let same = get-empty cb (ground arith) in
      rw (same, get_all, ap (λ t. t.1) same)
        record { bytes = rw e; left = e ∙ sym (ap (drop (suc len)) e); valid = v }
  | inr some_left ↦
      let g = get-ok cb v (ground arith) in
      let rest = get_all-Received (circ_buf_get cb).1 len (get-IsValid cb v) in
      rw (g.byte, get_all)
        record {
          bytes = ap (λ ys. cb.cells cb.tail ∷ ys) rest.bytes ∙ ap (take (suc len)) (sym g.held);
          left = rest.left ∙ ap (drop (suc len)) (sym g.held);
          valid = rest.valid;
        }
]

-- `uart_read` through an initialised handle gives the oldest bytes of the receive buffer, at most
-- `len` of them and all if they are fewer, leaves the others there, and leaves the transmit buffer
-- alone.
pub read_bytes_lem :
    (uart : UartHandle) (len : ℕ)
    → uart.initialized ≡ true
    → IsValid uart.rx_buffer
    → let (s, xs, uart') = read_bytes uart len in
      (s ≡ ok)
      × (xs ≡ take len (contents uart.rx_buffer))
      × (contents uart'.rx_buffer ≡ drop len (contents uart.rx_buffer))
      × IsValid uart'.rx_buffer
      × (uart'.tx_buffer ≡ uart.tx_buffer)
unfolding read_bytes
read_bytes_lem uart len i v =
    let r = get_all-Received uart.rx_buffer len v in ground (arith, r.bytes, r.left, r.valid)
