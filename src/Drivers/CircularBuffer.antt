-- ===== src/Drivers/CircularBuffer.antt =====
-- The circular buffer of src/drivers/uart_driver.c. The model holds the bytes of its memory with it:
-- `cells` maps an index to the byte there.
pub mod Fifo
use rtos_driver_framework.Base.{
  ℕ, ◌+◌, ◌-◌, ◌%◌, Bool, true, false, Option, none, some, leb, ◌==◌, if◌then◌else◌, update, ◌>>=◌,
}
use rtos_driver_framework.Kernel.Memory.{Heap, add_size, rtos_malloc, rtos_free}

pub record CircularBuffer : Type 0 where
  pub buffer : Option ℕ
  pub cells : ℕ → ℕ
  pub size : ℕ
  pub head : ℕ
  pub tail : ℕ
  pub count : ℕ

-- The memory that `rtos_malloc` gives is not cleared.
unfoldable pub circ_buf_init : Heap → ℕ → CircularBuffer × Heap
circ_buf_init h size =
    let (r, h') = rtos_malloc h size in
    (
      record {
        buffer = r;
        cells = elim r [ none ↦ λ _. 0 | some p ↦ λ i. h'.bytes (p + i) ];
        size = size;
        head = 0;
        tail = 0;
        count = 0;
      },
      h',
    )

-- `none` as for `rtos_free`.
pub circ_buf_deinit : Heap → CircularBuffer → Option (CircularBuffer × Heap)
circ_buf_deinit h cb = elim cb.buffer [
  | none ↦ some (cb, h)
  | some p ↦ do h' ← rtos_free h (some p); some (record cb { buffer = none }, h')
]

pub circ_buf_put : CircularBuffer → ℕ → Bool × CircularBuffer
circ_buf_put cb byte = if leb cb.size cb.count then (false, cb) else (
  true,
  record cb {
    cells = update cb.cells cb.head byte;
    head = add_size cb.head 1 % cb.size;
    count = add_size cb.count 1;
  },
)

-- The byte read, if there is one, and the buffer.
pub circ_buf_get : CircularBuffer → Option ℕ × CircularBuffer
circ_buf_get cb = if cb.count == 0 then (none, cb) else (
  some (cb.cells cb.tail),
  record cb { tail = add_size cb.tail 1 % cb.size; count = cb.count - 1 },
)

pub circ_buf_available : CircularBuffer → ℕ
circ_buf_available cb = cb.count

pub circ_buf_flush : CircularBuffer → CircularBuffer
circ_buf_flush cb = record cb { head = 0; tail = 0; count = 0 }
