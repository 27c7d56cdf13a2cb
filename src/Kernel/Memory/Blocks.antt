-- ===== src/Kernel/Memory/Blocks.antt =====
-- The block list of src/kernel/memory.c: what splitting, marking and merging keep.
use rtos_driver_framework.Base.{
  ℕ, ◌+◌, ◌-◌, ◌≤◌, ◌<◌, ◌≡◌, ◌≢◌, refl, true, false, ◌&&◌, none, some, List, [], ◌∷◌, arith, leb,
  ◌==◌, if◌then◌else◌,
}
use rtos_driver_framework.Kernel.Memory.{
  Block, heap_size, header_size, memory_magic, split_block, mark, block_at, rest_of, header_of,
}

-- The blocks lie side by side from offset `a` to the end of the heap, each behind its header.
abbrev pub Tiles : ℕ → List Block → Type 0
Tiles a [] = a ≡ heap_size
Tiles a (b ∷ bs) = (b.addr ≡ a) × (b.magic ≡ memory_magic) × Tiles (a + header_size + b.size) bs

abbrev pub Apart : Block → List Block → Type 0
Apart b [] = Unit {0}
Apart b (c ∷ cs) = (b.is_free && c.is_free) ≡ false

-- No two neighbours are both free.
abbrev pub Coalesced : List Block → Type 0
Coalesced [] = Unit {0}
Coalesced (b ∷ bs) = Apart b bs × Coalesced bs

-- The bytes of the allocated blocks, headers included, and their number.
abbrev pub live_bytes : List Block → ℕ
live_bytes [] = 0
live_bytes (b ∷ bs) = (if b.is_free then 0 else b.size + header_size) + live_bytes bs

abbrev pub live_blocks : List Block → ℕ
live_blocks [] = 0
live_blocks (b ∷ bs) = (if b.is_free then 0 else 1) + live_blocks bs

pub Tiles-le : (a : ℕ) (bs : List Block) → Tiles a bs → a ≤ heap_size
Tiles-le a [] t = omega arith
Tiles-le a (b ∷ bs) t = omega (arith, Tiles-le (a + header_size + b.size) bs t.2)

-- The allocated blocks fit between `a` and the end.
pub live_bytes-le : (a : ℕ) (bs : List Block) → Tiles a bs → a + live_bytes bs ≤ heap_size
live_bytes-le a [] t = omega arith
live_bytes-le a (b ∷ bs) t = ground (arith, live_bytes-le (a + header_size + b.size) bs t.2)

-- A header that is found lies in the heap, with its block, at the offset asked for.
pub block_at_bounds :
    (a x : ℕ) (bs : List Block) (b : Block)
    → Tiles a bs
    → block_at bs x ≡ some b
    → (b.addr ≡ x) × (b.magic ≡ memory_magic) × (a ≤ x) × (x + header_size + b.size ≤ heap_size)
unfolding block_at
block_at_bounds a x [] b t e = cc
block_at_bounds a x (c ∷ cs) b t e = ground (
  arith,
  block_at_bounds (a + header_size + c.size) x cs b t.2,
  Tiles-le (a + header_size + c.size) cs t.2,
)

-- A header found for a pointer stands right before it, and is found at its own offset.
pub header_of_lem :
    (bs : List Block) (p : ℕ) (b : Block)
    → Tiles 0 bs
    → header_of bs p ≡ some b
    → (p ≡ b.addr + header_size) × (block_at bs b.addr ≡ some b)
unfolding header_of
header_of_lem bs p b t e = ground (arith, block_at_bounds 0 (p - header_size) bs b t)

-- What `rtos_malloc` does to the list: the block at `x` is split where it pays, and taken.
abbrev pub carve : List Block → ℕ → ℕ → List Block
carve bs x size = mark (split_block bs x size) x false

abbrev pub carve_one : Block → ℕ → List Block → List Block
carve_one b size bs =
    if leb (size + header_size + 32) b.size
    then record b { size = size; is_free = false } ∷ rest_of b size ∷ bs
    else record b { is_free = false } ∷ bs

-- The header of the block that a request of `size` bytes gets out of the free block `b`.
abbrev pub carved : Block → ℕ → Block
carved b size = record b {
  size = if leb (size + header_size + 32) b.size then size else b.size;
  is_free = false;
}

pub carve_cons :
    (b : Block) (bs : List Block) (x size : ℕ)
    → size ≤ heap_size
    → carve (b ∷ bs) x size ≡ (if b.addr == x then carve_one b size bs else b ∷ carve bs x size)
unfolding split_block mark
carve_cons b bs x size h = ground arith

-- An offset below the list is no header of it.
pub block_at_below : (a x : ℕ) (bs : List Block) → Tiles a bs → x < a → block_at bs x ≡ none
unfolding block_at
block_at_below a x [] t h = refl
block_at_below a x (b ∷ bs) t h = ground (arith, block_at_below (a + header_size + b.size) x bs t.2)

-- A header of the list lies at or behind its start.
block_at_rest :
    (a : ℕ) (bs : List Block) (y : ℕ) (c : Block) → Tiles a bs → block_at bs y ≡ some c → a ≤ y
block_at_rest a bs y c t e = (block_at_bounds a y bs c t e).2

pub carve_nil : (x size : ℕ) → carve [] x size ≡ []
unfolding mark split_block
carve_nil x size = refl

module _ (x size : ℕ) (small : size ≤ heap_size) where
  pub carve-Tiles : (a : ℕ) (bs : List Block) → Tiles a bs → Tiles a (carve bs x size)
  unfolding mark split_block
  carve-Tiles a [] t = t
  carve-Tiles a (b ∷ bs) t =
      rw (carve_cons b bs x size small)
        (ground (arith, carve-Tiles (a + header_size + b.size) bs t.2))

  -- Carving adds a free block only behind the one it takes.
  carve-Apart : (c b : Block) (bs : List Block) → Apart c (b ∷ bs) → Apart c (carve (b ∷ bs) x size)
  carve-Apart c b bs h = rw (carve_cons b bs x size small) (ground arith)

  -- Carving a free block keeps free neighbours apart.
  pub carve-Coalesced :
      (a : ℕ) (bs : List Block) (b : Block)
      → Tiles a bs
      → block_at bs x ≡ some b
      → b.is_free ≡ true
      → Coalesced bs
      → Coalesced (carve bs x size)
  unfolding block_at
  carve-Coalesced a [] b t e f h = cc
  carve-Coalesced a (c ∷ []) b t e f h =
      rw (carve_cons c [] x size small) (ground (arith, carve_nil x size))
  carve-Coalesced a (c ∷ d ∷ bs) b t e f h = rw (carve_cons c (d ∷ bs) x size small) (
      ground
        (arith, carve-Apart c d bs h.0, carve-Coalesced (a + header_size + c.size) (d ∷ bs) b t.2))

  -- The block taken, and what the allocated blocks come to with it.
  pub carve_lem :
      (a : ℕ) (bs : List Block) (b : Block)
      → Tiles a bs
      → block_at bs x ≡ some b
      → b.is_free ≡ true
      → (block_at (carve bs x size) x ≡ some (carved b size))
        × (live_bytes (carve bs x size) ≡ live_bytes bs + (carved b size).size + header_size)
        × (live_blocks (carve bs x size) ≡ live_blocks bs + 1)
  unfolding block_at
  carve_lem a [] b t e f = cc
  carve_lem a (c ∷ cs) b t e f =
      rw (carve_cons c cs x size small)
        (ground (arith, carve_lem (a + header_size + c.size) cs b t.2))

  -- Every other header stays as it is.
  pub carve_others :
      (a : ℕ) (bs : List Block) (y : ℕ) (b c : Block)
      → Tiles a bs
      → block_at bs x ≡ some b
      → b.is_free ≡ true
      → x ≢ y
      → block_at bs y ≡ some c
      → block_at (carve bs x size) y ≡ some c
  unfolding block_at
  carve_others a [] y b c t e f ne k = cc
  carve_others a (d ∷ bs) y b c t e f ne k = rw (carve_cons d bs x size small) (
      ground (
        arith,
        carve_others (a + header_size + d.size) bs y b c t.2,
        block_at_rest (a + header_size + d.size) bs y c t.2,
      ))
