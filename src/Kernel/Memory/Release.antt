-- ===== src/Kernel/Memory/Release.antt =====
-- `rtos_free` and `rtos_realloc` of src/kernel/memory.c: what is given back, and what is kept.
use mathlib.Core.Option.{some-injective}
use rtos_driver_framework.Base.{
  ℕ, ◌≡◌, ◌≢◌, ◌⊎◌, inl, inr, true, false, none, some, arith, sym, ◌∙◌, ap, Option-cases,
  Bool-cases, not, ◌||◌, ◌==◌, true, false,
}
use rtos_driver_framework.Kernel.Memory.{
  Block, Heap, align_size, block_at, take_block, rtos_malloc, header_of, free_block, rtos_free,
  mark, memcpy, memory_magic, merge_free_blocks,
}
use rtos_driver_framework.Kernel.Memory.Blocks.{
  block_at_bounds, carved, header_of_lem, live_bytes-le,
}
use rtos_driver_framework.Kernel.Memory.Merge.{
  given_back, merge-live_at, mark-live_at, mark-Tiles, live_at,
}
use rtos_driver_framework.Kernel.Memory.BestFit.{Fits}
use rtos_driver_framework.Kernel.Memory.Invariant.{
  IsValid, take_block_lem, fits_heap, rtos_free_header, rtos_free_stray, rtos_free_keeps,
}
use rtos_driver_framework.Kernel.Memory.Allocation.{granted, granted_header, rtos_malloc_keeps}

module _ {h : Heap} (v : IsValid h) (b : Block) (n : ℕ) (at : block_at h.blocks b.addr ≡ some b)
    (f : Fits n b) where
  free_block-take_block :
      let g = free_block (take_block h b.addr n) (carved b n) in
      (g.blocks ≡ h.blocks)
      × (g.stats.used_heap_size ≡ h.stats.used_heap_size)
      × (g.stats.free_heap_size ≡ h.stats.free_heap_size)
  unfolding free_block
  free_block-take_block = rw (take_block_lem v b n at f) (
      ground (
        arith,
        given_back b.addr n (fits_heap v b n at f) 0 h.blocks b v.tiled v.apart at f.0,
        block_at_bounds 0 b.addr h.blocks b v.tiled at,
        live_bytes-le 0 h.blocks v.tiled,
      ))

-- Giving back what `rtos_malloc` has just handed out restores the block list and the byte counts.
pub rtos_free-rtos_malloc :
    (h : Heap) (size p : ℕ) (h' : Heap)
    → IsValid h
    → rtos_malloc h size ≡ (some p, h')
    → (h'' : Heap) × (rtos_free h' (some p) ≡ some h'')
      × (h''.blocks ≡ h.blocks)
      × (h''.stats.used_heap_size ≡ h.stats.used_heap_size)
      × (h''.stats.free_heap_size ≡ h.stats.free_heap_size)
rtos_free-rtos_malloc h size p h' v call =
    let (b, e, k, at, f, m) = granted v size p call in
    let back = free_block-take_block v b (align_size size) at f in
    let freed = free_block h' (carved b (align_size size)) in
    (
      freed,
      rtos_free_header (rtos_malloc_keeps v size p call) p _ (granted_header v size p call),
      rw k back.0,
      rw k back.1,
      rw k back.2,
    )

-- Where `rtos_free` has been, no allocated block stands.
free_block-live_at :
    (h : Heap) (b : Block)
    → IsValid h
    → block_at h.blocks b.addr ≡ some b
    → live_at (free_block h b).blocks b.addr ≡ false
unfolding free_block
free_block-live_at h b v e = ground (
  arith,
  block_at_bounds 0 b.addr h.blocks b v.tiled e,
  merge-live_at 0 b.addr (mark h.blocks b.addr true) (mark-Tiles b.addr 0 h.blocks v.tiled),
  mark-live_at 0 b.addr h.blocks v.tiled,
)

-- A free block is not freed again.
free_block_id : (h : Heap) (b : Block) → b.is_free ≡ true → free_block h b ≡ h
unfolding free_block
free_block_id h b f = ground arith

-- A call of `rtos_free` that is defined goes through the header before its pointer.
pub rtos_free_cases :
    (h : Heap) (p : ℕ) (h' : Heap)
    → IsValid h
    → rtos_free h (some p) ≡ some h'
    → (b : Block) × (header_of h.blocks p ≡ some b) × (h' ≡ free_block h b)
rtos_free_cases h p h' v e = elim (Option-cases (header_of h.blocks p)) [
  | inl k ↦ cc (rtos_free_stray v p k)
  | inr (b, k) ↦ (b, k, some-injective _ _ (sym e ∙ rtos_free_header v p b k))
]

free_block-blocks :
    (h g : Heap) (b : Block)
    → g.blocks ≡ h.blocks
    → (free_block g b).blocks ≡ (free_block h b).blocks
unfolding free_block
free_block-blocks h g b same = elim (Bool-cases (not (b.magic == memory_magic) || b.is_free)) [
  | inl e ↦ rw e same
  | inr e ↦ rw e (ap (λ l. merge_free_blocks (mark l b.addr true)) same)
]

-- What `rtos_free` does to the list depends on the list only.
pub rtos_free-blocks :
    (h g : Heap) (p : ℕ) (h' : Heap)
    → IsValid h
    → IsValid g
    → g.blocks ≡ h.blocks
    → rtos_free h (some p) ≡ some h'
    → (g' : Heap) × (rtos_free g (some p) ≡ some g') × (g'.blocks ≡ h'.blocks)
rtos_free-blocks h g p h' v w same e =
    let (b, k, eq) = rtos_free_cases h p h' v e in
    (
      free_block g b,
      rtos_free_header w p b (ap (λ l. header_of l p) same ∙ k),
      free_block-blocks h g b same ∙ ap (λ (x : Heap). x.blocks) (sym eq),
    )

-- A second `rtos_free` of one pointer changes nothing: it meets a free block, unless the header has
-- been merged away and the call is undefined.
pub rtos_free_twice :
    (h : Heap) (p : ℕ) (h' : Heap)
    → IsValid h
    → rtos_free h (some p) ≡ some h'
    → (rtos_free h' (some p) ≡ some h') ⊎ (header_of h'.blocks p ≡ none)
rtos_free_twice h p h' v e = elim (Option-cases (header_of h'.blocks p)) [
  | inl k ↦ inr k
  | inr (c, k) ↦
      let (b, kb, eq) = rtos_free_cases h p h' v e in
      let v' = rtos_free_keeps v (some p) h' e in
      let (pb, at_b) = header_of_lem h.blocks p b v.tiled kb in
      let (pc, at_c) = header_of_lem h'.blocks p c v'.tiled k in
      let dead = free_block-live_at h b v at_b in
      inl (
        rtos_free_header v' p c k
        ∙ ap some (
            free_block_id h' c
              (ground (arith, pb, pc, at_c, dead, ap (λ (t : Heap). t.blocks) eq))))
]

module _ (h : Heap) (p new_size : ℕ) (b : Block) (v : IsValid h) (ne : new_size ≢ 0)
    (k : header_of h.blocks p ≡ some b) (live : b.is_free ≡ false) where
  -- The heap in which the old contents have been copied behind `q`.
  abbrev copied : Heap → ℕ → Heap
  copied g q = record g { bytes = memcpy g.bytes q p b.size }
