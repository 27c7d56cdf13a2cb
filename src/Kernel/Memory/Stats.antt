-- ===== src/Kernel/Memory/Stats.antt =====
-- The byte counts of src/kernel/memory.c at their limits, and requests near the top of `size_t`.
use rtos_driver_framework.Base.{
  ℕ, ◌+◌, ◌-◌, ◌≤◌, ◌<◌, ◌≡◌, inl, inr, false, some, List, [], ◌∷◌, arith, size_mod,
}
use rtos_driver_framework.Kernel.Memory.{
  Block, Heap, heap_size, header_size, align_size, rtos_malloc, header_of, take_block,
}
use rtos_driver_framework.Kernel.Memory.Blocks.{Tiles, live_bytes, block_at_bounds, header_of_lem}
use rtos_driver_framework.Kernel.Memory.BestFit.{NoFit}
use rtos_driver_framework.Kernel.Memory.Invariant.{IsValid}
use rtos_driver_framework.Kernel.Memory.Allocation.{rtos_malloc_cases, rtos_malloc_keeps}

-- Every block is allocated.
abbrev pub Exhausted : List Block → Type 0
Exhausted [] = Unit {0}
Exhausted (b ∷ bs) = (b.is_free ≡ false) × Exhausted bs

live_bytes-Exhausted :
    (a : ℕ) (bs : List Block) → Tiles a bs → Exhausted bs → a + live_bytes bs ≡ heap_size
live_bytes-Exhausted a [] t e = omega arith
live_bytes-Exhausted a (b ∷ bs) t e =
    ground (arith, live_bytes-Exhausted (a + header_size + b.size) bs t.2 e.1)

-- When every block of a valid heap is allocated, the statistics count one header too many: more
-- bytes used than the heap has, and a free size wrapped to just below 2 ^ 64.
pub free_heap_size-Exhausted :
    (h : Heap)
    → IsValid h
    → Exhausted h.blocks
    → (h.stats.used_heap_size ≡ heap_size + header_size)
      × (h.stats.free_heap_size ≡ size_mod - header_size)
free_heap_size-Exhausted h v e =
    omega (arith, v.used, v.free, v.free_in_range, live_bytes-Exhausted 0 h.blocks v.tiled e)

align_size-wraps : (size : ℕ) → size_mod ≤ size + 3 → size < size_mod → align_size size ≡ 0
unfolding align_size
align_size-wraps size big small = omega arith

-- A request of the three largest sizes is rounded to 0 by the wrap of `align_size`: where any block
-- is free it succeeds, with a block smaller than what was asked for.
pub rtos_malloc_wraps :
    (h : Heap) (size : ℕ)
    → IsValid h
    → size_mod ≤ size + 3
    → size < size_mod
    → ¬ NoFit 0 h.blocks
    → (p : ℕ) × (h' : Heap) × (rtos_malloc h size ≡ (some p, h'))
      × ((c : Block) → header_of h'.blocks p ≡ some c → c.size < size)
rtos_malloc_wraps h size v big small some_free = elim (rtos_malloc_cases h size v (omega arith)) [
  | inl (e, n) ↦ absurd (some_free (rw rounded at n))
  | inr (b, e, _, _, _) ↦
      (b.addr + header_size, take_block h b.addr (align_size size), e, bounded _ _ e)
]
  where
    rounded : align_size size ≡ 0
    rounded = align_size-wraps size big small

    bounded :
        (p : ℕ) (h' : Heap)
        → rtos_malloc h size ≡ (some p, h')
        → (c : Block) → header_of h'.blocks p ≡ some c
        → c.size < size
    bounded p h' call c k =
        let v' = rtos_malloc_keeps v size p call in
        let (pc, at) = header_of_lem h'.blocks p c v'.tiled k in
        omega (arith, block_at_bounds 0 c.addr h'.blocks c v'.tiled at)
