-- ===== src/Kernel/Pool.antt =====
-- The block pools of src/kernel/memory.c. A pool keeps one bit for each block, 1 for a free one, in
-- an array of bytes behind `free_list`; the model holds the contents of that array with the pool.
pub mod Bitmap
pub mod Calls
pub mod Lifecycle
mod Tests
use mathlib.Core.Option
use rtos_driver_framework.Base.{
  ℕ, zero, suc, Bool, ◌+◌, ◌-◌, ◌*◌, ◌/◌, ◌%◌, Option, none, some, true, false, not, ◌||◌, List, [],
  leb, ltb, ◌==◌, if◌then◌else◌, get_or, set, replicate, ◌>>=◌, Status, ok, error, no_memory,
  invalid_param,
}
use rtos_driver_framework.Base.Bits.{test_bit, clear_bit, set_bit}
use rtos_driver_framework.Kernel.Memory.{
  Heap, align_size, add_size, sub_size, mul_size, rtos_malloc, rtos_free,
}

-- `memory_pool_t`.
pub record MemoryPool : Type 0 where
  pub pool_start : Option ℕ
  pub block_size : ℕ
  pub num_blocks : ℕ
  pub free_blocks : ℕ
  pub free_list : Option ℕ
  pub bitmap : List ℕ

-- `pool->free_list[byte_idx] & (1 << bit_idx)` for block `i`.
pub is_free : List ℕ → ℕ → Bool
is_free bitmap i = test_bit (get_or bitmap (i / 8) 0) (i % 8)

pub mark_used : List ℕ → ℕ → List ℕ
mark_used bitmap i = set bitmap (i / 8) (clear_bit (get_or bitmap (i / 8) 0) (i % 8))

pub mark_free : List ℕ → ℕ → List ℕ
mark_free bitmap i = set bitmap (i / 8) (set_bit (get_or bitmap (i / 8) 0) (i % 8))

-- The loop of `memory_pool_alloc`: the first free block from `i` on, among `n`.
pub find_free : List ℕ → ℕ → ℕ → Option ℕ
find_free bitmap i zero = none
find_free bitmap i (suc n) =
    let rest = find_free bitmap (i + 1) n in if is_free bitmap i then some i else rest

-- The address of block `i`.
abbrev pub block_address : MemoryPool → ℕ → Option ℕ
block_address pool i = Option.map (λ start. add_size start (i * pool.block_size)) pool.pool_start

-- `memory_pool_alloc` on a pool that is no NULL.
pub alloc_block : MemoryPool → Option ℕ × MemoryPool
alloc_block pool =
    if pool.free_blocks == 0 then (none, pool) else elim (find_free pool.bitmap 0 pool.num_blocks) [
      | none ↦ (none, pool)
      | some i ↦ (
        block_address pool i,
        record pool { bitmap = mark_used pool.bitmap i; free_blocks = pool.free_blocks - 1 },
      )
    ]

pub memory_pool_alloc : Option MemoryPool → Option ℕ × Option MemoryPool
memory_pool_alloc none = (none, none)
memory_pool_alloc (some pool) = let (r, pool') = alloc_block pool in (r, some pool')

-- `memory_pool_free` once the offset of the pointer from the start of the pool is known.
pub free_at : MemoryPool → ℕ → Status × MemoryPool
free_at pool offset =
    let i = offset / pool.block_size in
    if not (offset % pool.block_size == 0)
    then (invalid_param, pool)
    else if leb pool.num_blocks i
    then (invalid_param, pool)
    else if is_free pool.bitmap i
    then (error, pool)
    else (
      ok,
      record pool { bitmap = mark_free pool.bitmap i; free_blocks = add_size pool.free_blocks 1 },
    )

-- `none`: the remainder by a block size of 0, which is undefined; only a destroyed pool has it.
pub memory_pool_free : Option MemoryPool → Option ℕ → Option (Status × Option MemoryPool)
memory_pool_free none ptr = some (invalid_param, none)
memory_pool_free (some pool) none = some (invalid_param, some pool)
memory_pool_free (some pool) (some ptr) =
    if pool.block_size == 0 then none else elim pool.pool_start [
      | none ↦ none
      | some start ↦ let (s, pool') = free_at pool (sub_size ptr start) in some (s, some pool')
    ]

-- `memory_pool_create` behind the allocation of the blocks at `start` and of the bitmap.
abbrev pub made : ℕ → ℕ → ℕ → ℕ → ℕ → MemoryPool
made start list block_size num_blocks bitmap_size = record {
  pool_start = some start;
  block_size = block_size;
  num_blocks = num_blocks;
  free_blocks = num_blocks;
  free_list = some list;
  bitmap = replicate bitmap_size 0xff;
}

pub make_bitmap : MemoryPool → Heap → ℕ → ℕ → ℕ → Option (Status × MemoryPool × Heap)
make_bitmap pool h start block_size num_blocks =
    let bitmap_size = add_size num_blocks 7 / 8 in
    let (list, h') = rtos_malloc h bitmap_size in
    elim list [
      | none ↦ do
        h'' ← rtos_free h' (some start)
        some (no_memory, record pool { pool_start = some start; free_list = none }, h'')
      | some l ↦ some (ok, made start l block_size num_blocks bitmap_size, h')
    ]

-- `memory_pool_create` on a pool that is no NULL; it writes the fields of `pool` as it goes.
pub memory_pool_create : Heap → MemoryPool → ℕ → ℕ → Option (Status × MemoryPool × Heap)
memory_pool_create h pool block_size num_blocks =
    if block_size == 0 || (num_blocks == 0)
    then some (invalid_param, pool, h)
    else (let size = align_size block_size in
        let (start, h') = rtos_malloc h (mul_size size num_blocks) in
        elim start [
          | none ↦ some (no_memory, record pool { pool_start = none }, h')
          | some p ↦ make_bitmap pool h' p size num_blocks
        ])

-- `rtos_free` behind a test for NULL, as `memory_pool_destroy` calls it.
abbrev pub free_if_set : Heap → Option ℕ → Option Heap
free_if_set h none = some h
free_if_set h (some p) = rtos_free h (some p)

abbrev pub empty_pool : MemoryPool
empty_pool = record {
  pool_start = none;
  block_size = 0;
  num_blocks = 0;
  free_blocks = 0;
  free_list = none;
  bitmap = [];
}

-- `memory_pool_destroy` on a pool that is no NULL; `none` as for `rtos_free`.
pub memory_pool_destroy : Heap → MemoryPool → Option (MemoryPool × Heap)
memory_pool_destroy h pool = do
  h' ← free_if_set h pool.pool_start
  h'' ← free_if_set h' pool.free_list
  some (empty_pool, h'')
