-- ===== src/Kernel/Memory/Merge.antt =====
-- Marking a block free and merging free neighbours, as `rtos_free` of src/kernel/memory.c does.
use rtos_driver_framework.Base.{
  ℕ, ◌+◌, ◌≤◌, ◌≡◌, refl, Bool, true, not, none, false, some, List, [], ◌∷◌, arith, ◌==◌, ap, ◌∙◌,
  inl, inr, Bool-cases,
}
use rtos_driver_framework.Kernel.Memory.{
  Block, heap_size, header_size, memory_magic, mark, block_at, join, merge_from, merge_free_blocks,
}
use rtos_driver_framework.Kernel.Memory.Blocks.{
  Tiles, Apart, Coalesced, live_bytes, live_blocks, Tiles-le, block_at_below, carve, carve_cons,
}

module _ (x : ℕ) where
  pub mark-Tiles : (a : ℕ) (bs : List Block) → Tiles a bs → Tiles a (mark bs x true)
  unfolding mark
  mark-Tiles a [] t = t
  mark-Tiles a (b ∷ bs) t = ground (arith, mark-Tiles (a + header_size + b.size) bs t.2)

  -- The allocated blocks are one fewer.
  pub mark-live :
      (bs : List Block) (b : Block)
      → block_at bs x ≡ some b
      → b.is_free ≡ false
      → (live_bytes bs ≡ live_bytes (mark bs x true) + b.size + header_size)
        × (live_blocks bs ≡ live_blocks (mark bs x true) + 1)
  unfolding mark block_at
  mark-live [] b e f = cc
  mark-live (c ∷ cs) b e f = ground (arith, mark-live cs b)

-- Merging keeps the tiling; no size wraps.
merge_from-Tiles :
    (a : ℕ) (b : Block) (cs : List Block) → Tiles a (b ∷ cs) → Tiles a (merge_from b cs)
unfolding merge_from
merge_from-Tiles a b [] t = t
merge_from-Tiles a b (c ∷ cs) t = ground (
  arith,
  merge_from-Tiles a (join b c) cs,
  merge_from-Tiles (a + header_size + b.size) c cs,
  Tiles-le (a + header_size + b.size + header_size + c.size) cs t.2.2,
)

merge_from-live :
    (b : Block) (cs : List Block)
    → (live_bytes (merge_from b cs) ≡ live_bytes (b ∷ cs))
      × (live_blocks (merge_from b cs) ≡ live_blocks (b ∷ cs))
unfolding merge_from
merge_from-live b [] = (refl, refl)
merge_from-live b (c ∷ cs) = ground (arith, merge_from-live (join b c) cs, merge_from-live c cs)

-- The first block stays first, and free if it was.
merge_from-Apart : (d b : Block) (cs : List Block) → Apart d (b ∷ cs) → Apart d (merge_from b cs)
unfolding merge_from
merge_from-Apart d b [] h = h
merge_from-Apart d b (c ∷ cs) h = ground (arith, merge_from-Apart d (join b c) cs)

merge_from-Coalesced : (b : Block) (cs : List Block) → Coalesced (merge_from b cs)
unfolding merge_from
merge_from-Coalesced b [] = (tt, tt)
merge_from-Coalesced b (c ∷ cs) =
    ground (
      arith,
      merge_from-Coalesced (join b c) cs,
      merge_from-Coalesced c cs,
      merge_from-Apart b c cs,
    )

-- An allocated block is left alone.
merge_from-block_at :
    (y : ℕ) (d b : Block) (cs : List Block)
    → block_at (b ∷ cs) y ≡ some d
    → d.is_free ≡ false
    → block_at (merge_from b cs) y ≡ some d
unfolding merge_from block_at
merge_from-block_at y d b [] e f = e
merge_from-block_at y d b (c ∷ cs) e f =
    ground (arith, merge_from-block_at y d (join b c) cs, merge_from-block_at y d c cs)

-- Whether an allocated block stands at an offset.
abbrev pub live_at : List Block → ℕ → Bool
live_at bs y = elim (block_at bs y) [ none ↦ false | some d ↦ not d.is_free ]

merge_from-live_at :
    (a y : ℕ) (b : Block) (cs : List Block)
    → Tiles a (b ∷ cs)
    → live_at (merge_from b cs) y ≡ live_at (b ∷ cs) y
unfolding merge_from block_at
merge_from-live_at a y b [] t = refl
merge_from-live_at a y b (c ∷ cs) t = ground (
  arith,
  merge_from-live_at a y (join b c) cs,
  merge_from-live_at (a + header_size + b.size) y c cs,
  Tiles-le (a + header_size + b.size + header_size + c.size) cs t.2.2,
  block_at_below (a + header_size + b.size + header_size + c.size) y cs t.2.2,
)

merge_from_id : (b : Block) (cs : List Block) → Coalesced (b ∷ cs) → merge_from b cs ≡ b ∷ cs
unfolding merge_from
merge_from_id b [] h = refl
merge_from_id b (c ∷ cs) h = ground (arith, merge_from_id c cs h.1)

-- `merge_free_blocks` keeps the tiling and the allocated blocks, and leaves free neighbours apart.
pub merge-Tiles : (a : ℕ) (bs : List Block) → Tiles a bs → Tiles a (merge_free_blocks bs)
unfolding merge_free_blocks
merge-Tiles a [] t = t
merge-Tiles a (b ∷ bs) t = merge_from-Tiles a b bs t

pub merge-Coalesced : (bs : List Block) → Coalesced (merge_free_blocks bs)
unfolding merge_free_blocks
merge-Coalesced [] = tt
merge-Coalesced (b ∷ bs) = merge_from-Coalesced b bs

pub merge-live :
    (bs : List Block)
    → (live_bytes (merge_free_blocks bs) ≡ live_bytes bs)
      × (live_blocks (merge_free_blocks bs) ≡ live_blocks bs)
unfolding merge_free_blocks
merge-live [] = (refl, refl)
merge-live (b ∷ bs) = merge_from-live b bs

pub merge-block_at :
    (y : ℕ) (d : Block) (bs : List Block)
    → block_at bs y ≡ some d
    → d.is_free ≡ false
    → block_at (merge_free_blocks bs) y ≡ some d
unfolding merge_free_blocks
merge-block_at y d [] e f = e
merge-block_at y d (b ∷ bs) e f = merge_from-block_at y d b bs e f

-- Merging neither takes nor releases a block.
pub merge-live_at :
    (a y : ℕ) (bs : List Block) → Tiles a bs → live_at (merge_free_blocks bs) y ≡ live_at bs y
unfolding merge_free_blocks
merge-live_at a y [] t = refl
merge-live_at a y (b ∷ bs) t = merge_from-live_at a y b bs t

-- After marking, no allocated block stands at the offset.
pub mark-live_at : (a x : ℕ) (bs : List Block) → Tiles a bs → live_at (mark bs x true) x ≡ false
unfolding mark block_at
mark-live_at a x [] t = refl
mark-live_at a x (b ∷ bs) t = ground (arith, mark-live_at (a + header_size + b.size) x bs t.2)

merge-Apart :
    (c : Block) (bs : List Block)
    → Apart c bs
    → merge_free_blocks (c ∷ bs) ≡ c ∷ merge_free_blocks bs
unfolding merge_free_blocks merge_from
merge-Apart c [] h = refl
merge-Apart c (b ∷ bs) h = ground arith

mark_miss :
    (x : ℕ) (c : Block) (cs : List Block)
    → (c.addr == x) ≡ false
    → mark (c ∷ cs) x true ≡ c ∷ mark cs x true
unfolding mark
mark_miss x c cs h = ground arith

module _ (x size : ℕ) (small : size ≤ heap_size) where
  -- The head of the list keeps its flag: it is free again, or it was not the block taken.
  given_back-Apart :
      (c : Block) (bs : List Block) (b : Block)
      → block_at bs x ≡ some b
      → b.is_free ≡ true
      → Apart c bs
      → Apart c (mark (carve bs x size) x true)
  unfolding mark block_at
  given_back-Apart c [] b e f h = cc
  given_back-Apart c (d ∷ ds) b e f h = rw (carve_cons d ds x size small) (ground arith)

  given_back_hit :
      (c : Block) (cs : List Block)
      → c.is_free ≡ true
      → c.magic ≡ memory_magic
      → Coalesced (c ∷ cs)
      → c.addr ≡ x
      → c.size ≤ heap_size
      → merge_free_blocks (mark (carve (c ∷ cs) x size) x true) ≡ c ∷ cs
  unfolding merge_free_blocks merge_from mark
  given_back_hit c cs f m h e le =
      rw (carve_cons c cs x size small) (ground (arith, merge_from_id c cs h))

  -- A block that is carved and given back leaves the list as it was.
  pub given_back :
      (a : ℕ) (bs : List Block) (b : Block)
      → Tiles a bs
      → Coalesced bs
      → block_at bs x ≡ some b
      → b.is_free ≡ true
      → merge_free_blocks (mark (carve bs x size) x true) ≡ bs
  unfolding block_at
  given_back a [] b t h e f = cc
  given_back a (c ∷ cs) b t h e f = elim (Bool-cases (c.addr == x)) [
    | inl hit ↦
        given_back_hit c cs (ground arith) t.1 h (ground arith)
          (omega (arith, Tiles-le (a + header_size + c.size) cs t.2))
    | inr miss ↦
        rw (carve_cons c cs x size small, miss, mark_miss x c (carve cs x size) miss)
          (merge-Apart c _ (given_back-Apart c cs b (ground arith) f h.0)
            ∙ ap (λ l. c ∷ l) (given_back (a + header_size + c.size) cs b t.2 h.1 (ground arith) f))
  ]
