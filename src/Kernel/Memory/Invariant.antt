-- ===== src/Kernel/Memory/Invariant.antt =====
-- The invariant of the heap of src/kernel/memory.c, and that each call of its interface keeps it.
use mathlib.Core.Option.{some-injective}
use rtos_driver_framework.Base.{
  ℕ, ◌+◌, ◌%◌, ◌≤◌, ◌<◌, ◌≡◌, ◌≢◌, refl, inl, inr, true, false, Option, none, some, arith, size_mod,
  u32_mod, subst, sym, ◌∙◌, Option-cases,
}
use rtos_driver_framework.Kernel.Memory.{
  Block, Heap, heap_size, header_size, memory_init, align_size, block_at, take_block, rtos_malloc,
  header_of, free_block, rtos_free, rtos_calloc, merge_free_blocks, mark, mul_size,
  count_allocation, count_free,
}
use rtos_driver_framework.Kernel.Memory.Blocks.{
  Tiles, Coalesced, live_bytes, live_blocks, live_bytes-le, block_at_bounds, carve, carved,
  carve-Tiles, carve-Coalesced, carve_lem, header_of_lem,
}
use rtos_driver_framework.Kernel.Memory.Merge.{
  mark-Tiles, mark-live, merge-Tiles, merge-Coalesced, merge-live,
}
use rtos_driver_framework.Kernel.Memory.BestFit.{Fits, find_best_fit_lem}

pub record IsValid (h : Heap) : Type 0 where
  pub started : h.initialized ≡ true
  pub tiled : Tiles 0 h.blocks
  pub apart : Coalesced h.blocks
  pub total : h.stats.total_heap_size ≡ heap_size
  pub used : h.stats.used_heap_size ≡ header_size + live_bytes h.blocks
  pub free : (h.stats.free_heap_size + h.stats.used_heap_size) % size_mod ≡ heap_size
  pub free_in_range : h.stats.free_heap_size < size_mod
  pub counted : h.stats.num_allocations ≡ (h.stats.num_frees + live_blocks h.blocks) % u32_mod

-- `memory_init` makes a valid heap out of one that was not initialised.
pub memory_init-IsValid : (h : Heap) → h.initialized ≡ false → IsValid (memory_init h)
unfolding memory_init
memory_init-IsValid h e = ground arith

module _ {h : Heap} (v : IsValid h) where
  module _ (b : Block) (size : ℕ) (e : block_at h.blocks b.addr ≡ some b) (f : Fits size b) where
    pub fits_heap : size ≤ heap_size
    fits_heap = omega (arith, block_at_bounds 0 b.addr h.blocks b v.tiled e)

    -- The heap with the block taken, written out.
    pub take_block_lem : take_block h b.addr size ≡ record h {
      blocks = carve h.blocks b.addr size;
      stats = count_allocation h.stats (carved b size).size;
    }
    unfolding take_block
    take_block_lem = rw ((carve_lem b.addr size fits_heap 0 h.blocks b v.tiled e f.0).0, take_block)

    pub take_block-IsValid : IsValid (take_block h b.addr size)
    take_block-IsValid =
        let facts = carve_lem b.addr size fits_heap 0 h.blocks b v.tiled e f.0 in
        let tiles = carve-Tiles b.addr size fits_heap 0 h.blocks v.tiled in
        rw take_block_lem record {
          started = v.started;
          tiled = tiles;
          apart = carve-Coalesced b.addr size fits_heap 0 h.blocks b v.tiled e f.0 v.apart;
          total = v.total;
          used = omega (arith, v.used, facts.1, live_bytes-le 0 _ tiles);
          free = omega (arith, v.free, v.used, facts.1, live_bytes-le 0 _ tiles);
          free_in_range = omega arith;
          counted = omega (arith, v.counted, facts.2);
        }

  pub free_block-IsValid :
      (b : Block) → block_at h.blocks b.addr ≡ some b → IsValid (free_block h b)
  unfolding free_block
  free_block-IsValid b e = ground (arith, freed)
    where
      freed :
          b.is_free ≡ false
          → IsValid (record h {
            blocks = merge_free_blocks (mark h.blocks b.addr true);
            stats = count_free h.stats b.size;
          })
      freed f =
          let live = mark-live b.addr h.blocks b e f in
          let merged = merge-live (mark h.blocks b.addr true) in
          let bound = live_bytes-le 0 h.blocks v.tiled in
          record {
            started = v.started;
            tiled =
                merge-Tiles 0 (mark h.blocks b.addr true) (mark-Tiles b.addr 0 h.blocks v.tiled);
            apart = merge-Coalesced (mark h.blocks b.addr true);
            total = v.total;
            used = omega (arith, v.used, live, merged, bound);
            free = omega (arith, v.free, v.used, live, merged, bound);
            free_in_range = omega arith;
            counted = omega (arith, v.counted, live, merged);
          }

  -- `rtos_malloc` keeps the invariant: the headers tile the heap, no two free blocks are adjacent, and
  -- the statistics count the allocated blocks.
  pub rtos_malloc-IsValid : (size : ℕ) → IsValid (rtos_malloc h size).1
  unfolding rtos_malloc
  rtos_malloc-IsValid size = elim (find_best_fit_lem 0 h.blocks (align_size size) v.tiled) [
    | inl (e, _) ↦ ground (arith, e)
    | inr (b, e, k, f, _) ↦ ground (arith, e, take_block-IsValid b (align_size size) k f)
  ]

  -- `rtos_free` at a pointer behind the header `b`, and at one behind no header.
  pub rtos_free_header :
      (p : ℕ) (b : Block)
      → header_of h.blocks p ≡ some b
      → rtos_free h (some p) ≡ some (free_block h b)
  unfolding rtos_free
  rtos_free_header p b e = ground (arith, v.started)

  pub rtos_free_stray : (p : ℕ) → header_of h.blocks p ≡ none → rtos_free h (some p) ≡ none
  unfolding rtos_free
  rtos_free_stray p e = rw (v.started, e)

  -- `rtos_free` keeps the invariant if no undefined behaviour occurs.
  pub rtos_free_keeps : (p : Option ℕ) (h' : Heap) → rtos_free h p ≡ some h' → IsValid h'
  unfolding rtos_free
  rtos_free_keeps none h' e = subst IsValid (some-injective _ _ e) v
  rtos_free_keeps (some p) h' e = elim (Option-cases (header_of h.blocks p)) [
    | inl k ↦ cc (rtos_free_stray p k)
    | inr (b, k) ↦
        subst IsValid (some-injective _ _ (sym (rtos_free_header p b k) ∙ e))
          (free_block-IsValid b (header_of_lem h.blocks p b v.tiled k).1)
  ]

  -- `rtos_free` of NULL or of a pointer behind the header of a block, free or not, is defined and keeps
  -- the invariant.
  pub rtos_free-IsValid :
      (p : Option ℕ)
      → ((q : ℕ) → p ≡ some q → header_of h.blocks q ≢ none)
      → (h' : Heap) × (rtos_free h p ≡ some h') × IsValid h'
  unfolding rtos_free
  rtos_free-IsValid none known = (h, refl, v)
  rtos_free-IsValid (some p) known = elim (Option-cases (header_of h.blocks p)) [
    | inl k ↦ elim (known p refl k) [ ]
    | inr (b, k) ↦
        (_, rtos_free_header p b k, free_block-IsValid b (header_of_lem h.blocks p b v.tiled k).1)
  ]

  pub rtos_calloc-IsValid : (num size : ℕ) → IsValid (rtos_calloc h num size).1
  unfolding rtos_calloc
  rtos_calloc-IsValid num size = ground (arith, rtos_malloc-IsValid (mul_size num size))

-- Writing payload bytes leaves a heap valid.
pub write-IsValid : (h : Heap) (f : ℕ → ℕ) → IsValid h → IsValid (record h { bytes = f })
write-IsValid h f v = record {
  started = v.started;
  tiled = v.tiled;
  apart = v.apart;
  total = v.total;
  used = v.used;
  free = v.free;
  free_in_range = v.free_in_range;
  counted = v.counted;
}
