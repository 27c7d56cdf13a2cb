-- ===== src/Kernel/Memory/Report.antt =====
-- `memory_get_stats` of src/kernel/memory.c, and what its report says of the next allocation.
use mathlib.Core.Option.{some-injective}
use rtos_driver_framework.Base.{
  ℕ, ◌+◌, ◌≤◌, ◌<◌, ◌≡◌, ◌≢◌, ◌↔◌, refl, ◌⊎◌, inl, inr, false, ◌&&◌, none, some, List, [], ◌∷◌,
  arith, ltb, ◌==◌, if◌then◌else◌, size_mod, ap, sym, subst, ◌∙◌, Bool-cases,
}
use rtos_driver_framework.Kernel.Memory.{
  Block, MemoryStats, Heap, align_size, rtos_malloc, free_totals, calculate_fragmentation,
  memory_get_stats, add_size, block_at,
}
use rtos_driver_framework.Kernel.Memory.BestFit.{Fits, NoFit}
use rtos_driver_framework.Kernel.Memory.Invariant.{IsValid}
use rtos_driver_framework.Kernel.Memory.Allocation.{rtos_malloc_cases, align_size_lem}

-- The largest free block of a list and `n`.
abbrev pub largest_free : ℕ → List Block → ℕ
largest_free n [] = n
largest_free n (b ∷ bs) = largest_free (if b.is_free && ltb n b.size then b.size else n) bs

free_totals-largest :
    (bs : List Block) (n total : ℕ) → (free_totals bs n total).0 ≡ largest_free n bs
unfolding free_totals
free_totals-largest [] n total = refl
free_totals-largest (b ∷ bs) n total =
    free_totals-largest bs (if b.is_free && ltb n b.size then b.size else n)
      (if b.is_free then add_size total b.size else total)

le-largest_free : (bs : List Block) (n : ℕ) → n ≤ largest_free n bs
le-largest_free [] n = omega arith
le-largest_free (b ∷ bs) n =
    ground (arith, le-largest_free bs (if b.is_free && ltb n b.size then b.size else n))

-- A request fits just if it is not larger than the largest free block.
NoFit-largest_free :
    (bs : List Block) (n size : ℕ) → n < size → NoFit size bs → largest_free n bs < size
NoFit-largest_free [] n size small none_fits = small
NoFit-largest_free (b ∷ bs) n size small none_fits =
    NoFit-largest_free bs (if b.is_free && ltb n b.size then b.size else n) size
      (ground (arith, none_fits.0)) none_fits.1

largest_free-NoFit : (bs : List Block) (n size : ℕ) → largest_free n bs < size → NoFit size bs
largest_free-NoFit [] n size small = tt
largest_free-NoFit (b ∷ bs) n size small = (
  ground (arith, le-largest_free bs (if b.is_free && ltb n b.size then b.size else n)),
  largest_free-NoFit bs (if b.is_free && ltb n b.size then b.size else n) size small,
)

NoFit-block_at :
    (bs : List Block) (a size : ℕ) (b : Block)
    → block_at bs a ≡ some b
    → NoFit size bs
    → ¬ Fits size b
unfolding block_at
NoFit-block_at [] a size b e none_fits fits = cc
NoFit-block_at (c ∷ bs) a size b e none_fits fits = elim (Bool-cases (c.addr == a)) [
  | inl here ↦
      let same : c ≡ b = some-injective _ _ (rw (here, block_at) at e) in
      not_both (subst (λ x. (x.is_free ≡ false) ⊎ (x.size < size)) same none_fits.0)
  | inr there ↦ NoFit-block_at bs a size b (rw (there, block_at) at e) none_fits.1 fits
]
  where
    not_both : (b.is_free ≡ false) ⊎ (b.size < size) → ⊥
    not_both (inl taken) = cc (sym taken ∙ fits.0)
    not_both (inr small) = omega (arith, small, fits.1)

-- The largest free block of the report of `memory_get_stats` tells what the next `rtos_malloc` does: a
-- request of a size, not 0 and not within three bytes of 2 ^ 64, gets NULL just if the size, rounded up
-- to four, is larger.
pub rtos_malloc-memory_get_stats :
    (percent : ℕ → ℕ → ℕ) (h : Heap) (stats : MemoryStats) (size : ℕ)
    → IsValid h
    → size ≢ 0
    → size + 3 < size_mod
    → (report : MemoryStats) × (memory_get_stats percent h (some stats) ≡ some report)
      × (((rtos_malloc h size).0 ≡ none) ↔ (report.largest_free_block < align_size size))
unfolding memory_get_stats calculate_fragmentation
rtos_malloc-memory_get_stats percent h stats size v ne small =
    let largest = free_totals-largest h.blocks 0 0 in
    let positive : 0 < align_size size = omega (arith, align_size_lem size small) in
    let report = calculate_fragmentation percent h.blocks h.stats in
    (
      report,
      ground (arith, v.started),
      elim (rtos_malloc_cases h size v ne) [
        | inl (e, none_fits) ↦ (
          λ _. rw largest (NoFit-largest_free h.blocks 0 (align_size size) positive none_fits),
          λ _. ap (λ t. t.0) e,
        )
        | inr (b, e, at, fits, least) ↦ (
          λ z. cc (sym (ap (λ t. t.0) e) ∙ z),
          λ below. absurd (
              NoFit-block_at h.blocks b.addr (align_size size) b at
                (largest_free-NoFit h.blocks 0 (align_size size) (rw largest at below)) fits),
        )
      ],
    )
