-- ===== src/Drivers/CircularBuffer/Fifo.antt =====
-- The circular buffer of src/drivers/uart_driver.c is a bounded first-in first-out queue of bytes.
use native.Mathlib.Nat.{mod-eq_of_lt}
use rtos_driver_framework.Base.{
  ℕ, suc, ◌+◌, ◌-◌, ◌%◌, ◌≤◌, ◌<◌, ◌≡◌, ◌≢◌, refl, true, false, none, some, List, [], ◌∷◌, ◌++◌,
  arith, ap, ap₂, ◌∙◌, sym, size_mod, update, length,
}
use rtos_driver_framework.Base.Fifo.{offer, poll}
use rtos_driver_framework.Base.Window.{
  window, length-window, window_front, window-congr, next_cell-ne, head_step, tail_step,
}
use rtos_driver_framework.Kernel.Memory.{Heap, rtos_malloc, rtos_free}
use rtos_driver_framework.Kernel.Memory.Allocation.{rtos_malloc-zero}
use rtos_driver_framework.Drivers.CircularBuffer.{
  CircularBuffer, circ_buf_init, circ_buf_deinit, circ_buf_put, circ_buf_get, circ_buf_flush,
}

pub record IsValid (cb : CircularBuffer) : Type 0 where
  pub tail_in : cb.tail < cb.size
  pub count_in : cb.count ≤ cb.size
  pub head_at : cb.head ≡ (cb.tail + cb.count) % cb.size
  pub small : cb.size < size_mod

-- The bytes held, oldest first.
abbrev pub contents : CircularBuffer → List ℕ
contents cb = window cb.cells cb.size cb.tail cb.count

pub length-contents : (cb : CircularBuffer) → length (contents cb) ≡ cb.count
length-contents cb = length-window cb.cells cb.size cb.tail cb.count

-- Every access lies inside the buffer.
pub in_bounds : (cb : CircularBuffer) → IsValid cb → (cb.head < cb.size) × (cb.tail < cb.size)
in_bounds cb v = omega (arith, v.head_at)

pub put-IsValid : (cb : CircularBuffer) (byte : ℕ) → IsValid cb → IsValid (circ_buf_put cb byte).1
unfolding circ_buf_put
put-IsValid cb byte v = ground (arith, in_bounds cb v, head_step cb.size cb.tail cb.count)

pub get-IsValid : (cb : CircularBuffer) → IsValid cb → IsValid (circ_buf_get cb).1
unfolding circ_buf_get
get-IsValid cb v = ground (arith, tail_step cb.size cb.tail (cb.count - 1))

pub flush-IsValid : (cb : CircularBuffer) → IsValid cb → IsValid (circ_buf_flush cb)
unfolding circ_buf_flush
flush-IsValid cb v = record {
  tail_in = omega (arith, v.tail_in);
  count_in = omega arith;
  head_at = sym (mod-eq_of_lt (omega (arith, v.tail_in)));
  small = v.small;
}

window_put :
    (cb : CircularBuffer) (byte : ℕ)
    → IsValid cb
    → cb.count < cb.size
    → window (update cb.cells cb.head byte) cb.size cb.tail (suc cb.count)
      ≡ contents cb ++ (byte ∷ [])
unfolding window
window_put cb byte v room =
    ap₂ (λ xs x. xs ++ (x ∷ []))
      (window-congr (update cb.cells cb.head byte) cb.cells cb.size cb.tail cb.count
        λ k lt. ground (arith, next_cell-ne cb.size cb.tail k cb.count))
      (ground (arith, v.head_at))

contents_front :
    (cb : CircularBuffer)
    → IsValid cb
    → cb.count ≢ 0
    → contents cb
      ≡ cb.cells cb.tail ∷ window cb.cells cb.size ((cb.tail + 1) % cb.size) (cb.count - 1)
contents_front cb v ne =
    ap (window cb.cells cb.size cb.tail) pred_suc
    ∙ window_front cb.cells cb.size cb.tail (cb.count - 1) v.tail_in
  where
    pred_suc : cb.count ≡ suc (cb.count - 1)
    pred_suc = omega arith

pub contents_none : (cb : CircularBuffer) → cb.count ≡ 0 → contents cb ≡ []
unfolding window
contents_none cb e = rw e

-- `circ_buf_put` is `offer`, and `circ_buf_get` is `poll`, on the bytes held.
pub put_refines :
    (cb : CircularBuffer) (byte : ℕ)
    → IsValid cb
    → ((circ_buf_put cb byte).0, contents (circ_buf_put cb byte).1)
      ≡ offer cb.size (contents cb) byte
unfolding circ_buf_put
put_refines cb byte v = ground (arith, length-contents cb, window_put cb byte v)

pub get_refines :
    (cb : CircularBuffer)
    → IsValid cb
    → ((circ_buf_get cb).0, contents (circ_buf_get cb).1) ≡ poll (contents cb)
unfolding circ_buf_get
get_refines cb v = ground (arith, contents_front cb v, contents_none cb)

-- A full buffer takes nothing.
pub put-full : (cb : CircularBuffer) (x : ℕ) → cb.size ≤ cb.count → circ_buf_put cb x ≡ (false, cb)
unfolding circ_buf_put
put-full cb x h = ground arith

-- A byte that is put.
pub record Put (cb : CircularBuffer) (x : ℕ) : Type 0 where
  pub done : (circ_buf_put cb x).0 ≡ true
  pub held : contents (circ_buf_put cb x).1 ≡ contents cb ++ (x ∷ [])
  pub count : (circ_buf_put cb x).1.count ≡ cb.count + 1
  pub size : (circ_buf_put cb x).1.size ≡ cb.size

pub Put-ok : (cb : CircularBuffer) (x : ℕ) → IsValid cb → cb.count < cb.size → Put cb x
unfolding circ_buf_put
Put-ok cb x v h = ground (arith, put_refines cb x v, length-contents cb)

-- A byte that is read, and an empty buffer.
pub get-empty : (cb : CircularBuffer) → cb.count ≡ 0 → circ_buf_get cb ≡ (none, cb)
unfolding circ_buf_get
get-empty cb h = ground arith

pub record Got (cb : CircularBuffer) : Type 0 where
  pub byte : (circ_buf_get cb).0 ≡ some (cb.cells cb.tail)
  pub held : contents cb ≡ cb.cells cb.tail ∷ contents (circ_buf_get cb).1
  pub count : (circ_buf_get cb).1.count + 1 ≡ cb.count
  pub size : (circ_buf_get cb).1.size ≡ cb.size

pub get-ok : (cb : CircularBuffer) → IsValid cb → 0 < cb.count → Got cb
unfolding circ_buf_get
get-ok cb v h = ground (arith, contents_front cb v)

-- What `circ_buf_init` sets up is sound and empty, if it got its memory.
pub init_lem :
    (h : Heap) (size p : ℕ)
    → size < size_mod
    → (rtos_malloc h size).0 ≡ some p
    → IsValid (circ_buf_init h size).0 × (contents (circ_buf_init h size).0 ≡ [])
unfolding circ_buf_init window
init_lem h size p small e =
    let pos = size_pos size (λ z. cc (ap (λ t. t.0) (rtos_malloc-zero h size z))) in
    (
      record {
        tail_in = pos;
        count_in = omega arith;
        head_at = sym (mod-eq_of_lt pos);
        small = small;
      },
      refl,
    )
  where
    size_pos : (n : ℕ) → n ≢ 0 → 0 < n
    size_pos n ne = omega arith

pub init-buffer :
    (h : Heap) (size : ℕ)
    → ((circ_buf_init h size).0.buffer ≡ (rtos_malloc h size).0)
      × ((circ_buf_init h size).1 ≡ (rtos_malloc h size).1)
unfolding circ_buf_init
init-buffer h size = (refl, refl)

pub deinit_none :
    (h : Heap) (cb : CircularBuffer) → cb.buffer ≡ none → circ_buf_deinit h cb ≡ some (cb, h)
unfolding circ_buf_deinit
deinit_none h cb e = ground (arith)

pub deinit_some :
    (h : Heap) (cb : CircularBuffer) (p : ℕ) (h' : Heap)
    → cb.buffer ≡ some p
    → rtos_free h (some p) ≡ some h'
    → circ_buf_deinit h cb ≡ some (record cb { buffer = none }, h')
unfolding circ_buf_deinit
deinit_some h cb p h' e f = ground (arith, f)
