-- ===== src/Kernel/Memory.antt =====
-- src/kernel/memory.c: the heap, its statistics and the block pools. A pointer into the heap is an
-- offset from `heap_memory`, and `none` is NULL. The list of block headers is a list of records in
-- the order of their `next` pointers, each with the offset at which it stands.
pub mod Blocks
pub mod Merge
pub mod BestFit
pub mod Invariant
pub mod Allocation
pub mod Release
pub mod Stats
pub mod Report
mod Tests
use rtos_driver_framework.Base.{
  ℕ, ◌+◌, ◌-◌, ◌*◌, ◌/◌, ◌%◌, Bool, true, false, not, ◌&&◌, ◌||◌, Option, none, some, List, [], ◌∷◌,
  ltb, leb, ◌==◌, if◌then◌else◌, ◌>>=◌, size_mod, u32_mod,
}

-- `memory_block_t`, with the offset of the header itself.
pub record Block : Type 0 where
  pub addr : ℕ
  pub size : ℕ
  pub is_free : Bool
  pub magic : ℕ

-- `memory_stats_t`.
pub record MemoryStats : Type 0 where
  pub total_heap_size : ℕ
  pub used_heap_size : ℕ
  pub free_heap_size : ℕ
  pub largest_free_block : ℕ
  pub num_allocations : ℕ
  pub num_frees : ℕ
  pub fragmentation_percent : ℕ

-- The static variables of the file; `bytes` are the contents of the payloads.
pub record Heap : Type 0 where
  pub bytes : ℕ → ℕ
  pub blocks : List Block
  pub initialized : Bool
  pub stats : MemoryStats

-- The static variables as a program starts.
abbrev pub zero_heap : Heap
zero_heap = record {
  bytes = λ _. 0;
  blocks = [];
  initialized = false;
  stats = record {
    total_heap_size = 0;
    used_heap_size = 0;
    free_heap_size = 0;
    largest_free_block = 0;
    num_allocations = 0;
    num_frees = 0;
    fragmentation_percent = 0;
  };
}

abbrev pub heap_size : ℕ
heap_size = 64 * 1024

-- `sizeof(memory_block_t)`: two `size_t`, a pointer, a `bool` and a `uint32_t`, padded.
abbrev pub header_size : ℕ
header_size = 32

abbrev pub memory_magic : ℕ
memory_magic = 0xdeadbeef

-- `size_t` addition, subtraction and multiplication.
abbrev pub add_size : ℕ → ℕ → ℕ
add_size a b = (a + b) % size_mod

abbrev pub sub_size : ℕ → ℕ → ℕ
sub_size a b = (a + size_mod - b) % size_mod

abbrev pub mul_size : ℕ → ℕ → ℕ
mul_size a b = a * b % size_mod

abbrev pub first_block : Block
first_block = record {
  addr = 0;
  size = heap_size - header_size;
  is_free = true;
  magic = memory_magic;
}

unfoldable pub memory_init : Heap → Heap
memory_init h = if h.initialized then h else record {
  bytes = h.bytes;
  blocks = first_block ∷ [];
  initialized = true;
  stats = record {
    total_heap_size = heap_size;
    used_heap_size = header_size;
    free_heap_size = heap_size - header_size;
    largest_free_block = heap_size - header_size;
    num_allocations = 0;
    num_frees = 0;
    fragmentation_percent = 0;
  };
}

-- `(size + 3) & ~3`: the mask clears the two low bits.
unfoldable pub align_size : ℕ → ℕ
align_size size = add_size size 3 / 4 * 4

-- The loop of `find_best_fit` over the rest of the list, with `best_fit` and `min_diff`.
unfoldable pub best_fit_loop : List Block → ℕ → Option ℕ → ℕ → Option ℕ
best_fit_loop [] size best_fit min_diff = best_fit
best_fit_loop (b ∷ bs) size best_fit min_diff =
    let better = b.is_free && leb size b.size && ltb (b.size - size) min_diff in
    best_fit_loop bs size (if better then some b.addr else best_fit)
      (if better then b.size - size else min_diff)

unfoldable pub find_best_fit : List Block → ℕ → Option ℕ
unfolding best_fit_loop
find_best_fit blocks size = best_fit_loop blocks size none (size_mod - 1)

-- The new header that `split_block` writes behind `size` bytes of `b`.
abbrev pub rest_of : Block → ℕ → Block
rest_of b size = record {
  addr = b.addr + header_size + size;
  size = b.size - size - header_size;
  is_free = true;
  magic = memory_magic;
}

abbrev pub split_one : Block → ℕ → List Block → List Block
split_one b size bs =
    if leb (add_size size (header_size + 32)) b.size
    then record b { size = size } ∷ rest_of b size ∷ bs
    else b ∷ bs

-- `split_block` on the block whose header stands at `a`.
unfoldable pub split_block : List Block → ℕ → ℕ → List Block
split_block [] a size = []
split_block (b ∷ bs) a size = if b.addr == a then split_one b size bs else b ∷ split_block bs a size

-- `block->is_free = v` for the header at `a`.
unfoldable pub mark : List Block → ℕ → Bool → List Block
mark [] a v = []
mark (b ∷ bs) a v = if b.addr == a then record b { is_free = v } ∷ bs else b ∷ mark bs a v

-- The header at `a`.
unfoldable pub block_at : List Block → ℕ → Option Block
block_at [] a = none
block_at (b ∷ bs) a = if b.addr == a then some b else block_at bs a

abbrev pub join : Block → Block → Block
join b c = record b { size = add_size b.size (header_size + c.size) }

-- `merge_free_blocks` from `current` on: it stays at a block that has swallowed its successor.
pub merge_from : Block → List Block → List Block
merge_from b [] = b ∷ []
merge_from b (c ∷ cs) = elim (b.is_free && c.is_free) [
  | true ↦ merge_from (join b c) cs
  | false ↦ b ∷ merge_from c cs
]

pub merge_free_blocks : List Block → List Block
unfolding merge_from
merge_free_blocks [] = []
merge_free_blocks (b ∷ bs) = merge_from b bs

abbrev pub count_allocation : MemoryStats → ℕ → MemoryStats
count_allocation s size = record s {
  num_allocations = (s.num_allocations + 1) % u32_mod;
  used_heap_size = add_size s.used_heap_size (size + header_size);
  free_heap_size = sub_size s.free_heap_size (size + header_size);
}

abbrev pub count_free : MemoryStats → ℕ → MemoryStats
count_free s size = record s {
  num_frees = (s.num_frees + 1) % u32_mod;
  used_heap_size = sub_size s.used_heap_size (size + header_size);
  free_heap_size = add_size s.free_heap_size (size + header_size);
}

-- `rtos_malloc` once the block at `a` is chosen.
unfoldable pub take_block : Heap → ℕ → ℕ → Heap
unfolding split_block mark block_at
take_block h a size =
    let blocks' = mark (split_block h.blocks a size) a false in
    elim (block_at blocks' a) [
      | none ↦ record h { blocks = blocks' }
      | some b ↦ record h { blocks = blocks'; stats = count_allocation h.stats b.size }
    ]

unfoldable pub rtos_malloc : Heap → ℕ → Option ℕ × Heap
unfolding align_size find_best_fit take_block
rtos_malloc h size =
    if not h.initialized || (size == 0)
    then (none, h)
    else elim (find_best_fit h.blocks (align_size size)) [
      | none ↦ (none, h)
      | some a ↦ (some (a + header_size), take_block h a (align_size size))
    ]

-- The header that stands `header_size` bytes before a pointer; `none` if no header of the list does.
pub header_of : List Block → ℕ → Option Block
unfolding block_at
header_of blocks ptr = if ltb ptr header_size then none else block_at blocks (ptr - header_size)

-- The part of `rtos_free` behind its test for NULL.
pub free_block : Heap → Block → Heap
unfolding mark merge_free_blocks
free_block h b = if not (b.magic == memory_magic) || b.is_free then h else record h {
  blocks = merge_free_blocks (mark h.blocks b.addr true);
  stats = count_free h.stats b.size;
}

-- `none`: no header of the list stands before `ptr`, so that the code reads payload bytes as one.
pub rtos_free : Heap → Option ℕ → Option Heap
unfolding header_of free_block
rtos_free h none = some h
rtos_free h (some ptr) =
    if not h.initialized
    then some h
    else elim (header_of h.blocks ptr) [ none ↦ none | some b ↦ some (free_block h b) ]

-- `memset` and `memcpy` on the payload bytes.
abbrev pub memset : (ℕ → ℕ) → ℕ → ℕ → ℕ → ℕ → ℕ
memset f p v n a = if leb p a && ltb a (p + n) then v else f a

abbrev pub memcpy : (ℕ → ℕ) → ℕ → ℕ → ℕ → ℕ → ℕ
memcpy f to from n a = if leb to a && ltb a (to + n) then f (from + (a - to)) else f a

pub rtos_calloc : Heap → ℕ → ℕ → Option ℕ × Heap
unfolding rtos_malloc
rtos_calloc h num size =
    let (r, h') = rtos_malloc h (mul_size num size) in
    elim r [
      | none ↦ (none, h')
      | some p ↦ (some p, record h' { bytes = memset h'.bytes p 0 (mul_size num size) })
    ]

-- The rest of `rtos_realloc` behind its call of `rtos_malloc`, whose result and heap are given: the
-- header of `ptr` is read again for the number of bytes to copy.
pub move_block : ℕ → Option ℕ × Heap → Option (Option ℕ × Heap)
move_block ptr (none, h) = some (none, h)
move_block ptr (some p, h) = do
  b ← header_of h.blocks ptr
  h' ← rtos_free (record h { bytes = memcpy h.bytes p ptr b.size }) (some ptr)
  some (some p, h')

-- The result and the heap; `none` as for `rtos_free`.
pub rtos_realloc : Heap → Option ℕ → ℕ → Option (Option ℕ × Heap)
rtos_realloc h none new_size = some (rtos_malloc h new_size)
rtos_realloc h (some ptr) new_size =
    if new_size == 0 then (do h' ← rtos_free h (some ptr); some (none, h')) else (do
      b ← header_of h.blocks ptr
      if leb new_size b.size then some (some ptr, h) else move_block ptr (rtos_malloc h new_size))

-- The loop of `calculate_fragmentation`: the largest free block and the sum of all.
pub free_totals : List Block → ℕ → ℕ → ℕ × ℕ
free_totals [] largest total = (largest, total)
free_totals (b ∷ bs) largest total =
    free_totals bs (if b.is_free && ltb largest b.size then b.size else largest)
      (if b.is_free then add_size total b.size else total)

-- `percent` stands for `(uint32_t)((1.0 - (double)largest / total) * 100.0)`.
pub calculate_fragmentation : (ℕ → ℕ → ℕ) → List Block → MemoryStats → MemoryStats
unfolding free_totals
calculate_fragmentation percent blocks stats =
    let (largest, total) = free_totals blocks 0 0 in
    record stats {
      largest_free_block = largest;
      fragmentation_percent = if total == 0 then 0 else percent largest total;
    }

-- What stands behind the pointer `stats` afterwards.
pub memory_get_stats : (ℕ → ℕ → ℕ) → Heap → Option MemoryStats → Option MemoryStats
unfolding calculate_fragmentation
memory_get_stats percent h none = none
memory_get_stats percent h (some stats) =
    if not h.initialized
    then some stats
    else some (calculate_fragmentation percent h.blocks h.stats)
