-- ===== src/Kernel/Memory/Allocation.antt =====
-- What `rtos_malloc` and `rtos_calloc` of src/kernel/memory.c return.
use mathlib.Core.Option.{some-injective}
use rtos_driver_framework.Base.{
  ℕ, ◌+◌, ◌-◌, ◌%◌, ◌≤◌, ◌<◌, ◌≡◌, ◌≢◌, refl, ◌⊎◌, inl, inr, false, Option, none, some, List, [],
  ◌∷◌, arith, size_mod, sym, ◌∙◌, ap, subst, Option-cases,
}
use rtos_driver_framework.Kernel.Memory.{
  Block, Heap, header_size, align_size, block_at, take_block, rtos_malloc, rtos_calloc, mul_size,
  header_of,
}
use rtos_driver_framework.Kernel.Memory.Blocks.{
  Tiles, block_at_bounds, carved, carve_lem, carve_others, header_of_lem,
}
use rtos_driver_framework.Kernel.Memory.BestFit.{Fits, AtLeast, NoFit, find_best_fit_lem}
use rtos_driver_framework.Kernel.Memory.Invariant.{
  IsValid, take_block_lem, fits_heap, rtos_malloc-IsValid,
}

-- `align_size` rounds up to a multiple of four, where the sum does not wrap.
pub align_size_lem :
    (size : ℕ)
    → size + 3 < size_mod
    → (size ≤ align_size size) × (align_size size < size + 4) × (align_size size % 4 ≡ 0)
unfolding align_size
align_size_lem size h = omega arith

-- A request of no bytes gets NULL.
pub rtos_malloc-zero : (h : Heap) (size : ℕ) → size ≡ 0 → rtos_malloc h size ≡ (none, h)
unfolding rtos_malloc
rtos_malloc-zero h size e = ground arith

-- The two ways in which a call of `rtos_malloc` for a positive size can go: no block fits, or the
-- smallest block `b` that fits is taken.
pub rtos_malloc_cases :
    (h : Heap) (size : ℕ)
    → IsValid h
    → size ≢ 0
    → ((rtos_malloc h size ≡ (none, h)) × NoFit (align_size size) h.blocks)
      ⊎ ((b : Block) × (rtos_malloc h size
            ≡ (some (b.addr + header_size), take_block h b.addr (align_size size)))
          × (block_at h.blocks b.addr ≡ some b)
          × Fits (align_size size) b
          × AtLeast b.size (align_size size) h.blocks)
unfolding rtos_malloc
rtos_malloc_cases h size v ne = elim (find_best_fit_lem 0 h.blocks (align_size size) v.tiled) [
  | inl (e, n) ↦ inl (ground (arith, v.started, e), n)
  | inr (b, e, k, f, m) ↦ inr (b, ground (arith, v.started, e), k, f, m)
]

-- Two blocks of a tiled list do not overlap.
blocks_disjoint :
    (a : ℕ) (bs : List Block) (x y : ℕ) (b c : Block)
    → Tiles a bs
    → block_at bs x ≡ some b
    → block_at bs y ≡ some c
    → x < y
    → x + header_size + b.size ≤ y
unfolding block_at
blocks_disjoint a [] x y b c t e k h = cc
blocks_disjoint a (d ∷ ds) x y b c t e k h = ground (
  arith,
  blocks_disjoint (a + header_size + d.size) ds x y b c t.2,
  block_at_bounds (a + header_size + d.size) y ds c t.2,
  block_at_bounds (a + header_size + d.size) x ds b t.2,
)

-- Nor do the payloads and headers of two pointers.
pub headers_disjoint :
    (bs : List Block) (p q : ℕ) (c d : Block)
    → Tiles 0 bs
    → header_of bs p ≡ some c
    → header_of bs q ≡ some d
    → q ≢ p
    → (p + c.size + header_size ≤ q) ⊎ (q + d.size + header_size ≤ p)
headers_disjoint bs p q c d t e k ne =
    let (ep, at_p) = header_of_lem bs p c t e in
    let (eq, at_q) = header_of_lem bs q d t k in
    ground (
      arith,
      blocks_disjoint 0 bs c.addr d.addr c d t at_p at_q,
      blocks_disjoint 0 bs d.addr c.addr d c t at_q at_p,
    )

-- A call that gives NULL leaves the heap as it was.
pub rtos_malloc_fails :
    (h : Heap) (size : ℕ) → (rtos_malloc h size).0 ≡ none → rtos_malloc h size ≡ (none, h)
unfolding rtos_malloc
rtos_malloc_fails h size e = ground arith

module _ {h : Heap} (v : IsValid h) (size p : ℕ) {h' : Heap}
    (call : rtos_malloc h size ≡ (some p, h')) where
  pub positive : size ≢ 0
  unfolding rtos_malloc
  positive e = ground arith

  -- The block that the call took.
  pub granted :
      (b : Block) × (p ≡ b.addr + header_size)
      × (h' ≡ take_block h b.addr (align_size size))
      × (block_at h.blocks b.addr ≡ some b)
      × Fits (align_size size) b
      × AtLeast b.size (align_size size) h.blocks
  granted = elim (rtos_malloc_cases h size v positive) [
    | inl (e, n) ↦ cc (sym e ∙ call)
    | inr (b, e, k, f, m) ↦ (
      b,
      some-injective _ _ (ap (λ t. t.0) (sym call ∙ e)),
      ap (λ t. t.1) (sym call ∙ e),
      k,
      f,
      m,
    )
  ]

  -- Its header, as carved.
  pub granted_header : header_of h'.blocks p ≡ some (carved granted.0 (align_size size))
  unfolding header_of
  granted_header =
      let (b, e, k, at, f, m) = granted in
      let n = align_size size in
      let taken = ap (λ (t : Heap). t.blocks) (k ∙ take_block_lem v b n at f) in
      let facts = carve_lem b.addr n (fits_heap v b n at f) 0 h.blocks b v.tiled at f.0 in
      ground (arith, e, taken, facts.0)

  -- The pointer stands behind the header of an allocated block of at least the aligned size. The
  -- block that stood there was free and large enough, and no block that fits was smaller.
  pub rtos_malloc_lem :
      (b c : Block) × (header_of h.blocks p ≡ some b)
      × Fits (align_size size) b
      × AtLeast b.size (align_size size) h.blocks
      × (header_of h'.blocks p ≡ some c)
      × (c.is_free ≡ false)
      × (align_size size ≤ c.size)
      × (c.size ≤ b.size)
  unfolding header_of
  rtos_malloc_lem =
      let (b, e, k, at, f, m) = granted in
      (
        b,
        carved b (align_size size),
        ground (arith, e, at),
        f,
        m,
        granted_header,
        refl,
        ground arith,
        ground arith,
      )

  pub rtos_malloc_keeps : IsValid h'
  rtos_malloc_keeps = subst IsValid (ap (λ t. t.1) call) (rtos_malloc-IsValid v size)

  -- Every other block keeps its header, and the memory handed out overlaps neither it nor its
  -- header.
  pub rtos_malloc_others :
      (q : ℕ) (d : Block)
      → header_of h.blocks q ≡ some d
      → q ≢ p
      → (header_of h'.blocks q ≡ some d)
        × ((c : Block)
            → header_of h'.blocks p ≡ some c
            → (p + c.size + header_size ≤ q) ⊎ (q + d.size + header_size ≤ p))
  unfolding header_of
  rtos_malloc_others q d e ne =
      let (b, eq, k, at, f, m) = granted in
      let n = align_size size in
      let taken = ap (λ (t : Heap). t.blocks) (k ∙ take_block_lem v b n at f) in
      let others = carve_others b.addr n (fits_heap v b n at f) 0 h.blocks (q - header_size) b d in
      let there : header_of h'.blocks q ≡ some d =
        rw taken (ground (arith, others v.tiled at f.0)) in
      (there, λ c e'. headers_disjoint h'.blocks p q c d (rtos_malloc_keeps.tiled) e' there ne)

  -- The payloads keep their contents.
  pub rtos_malloc-bytes : h'.bytes ≡ h.bytes
  rtos_malloc-bytes =
      let (b, eq, k, at, f, m) = granted in
      ap (λ (t : Heap). t.bytes) (k ∙ take_block_lem v b (align_size size) at f)

-- `rtos_calloc` hands out zeroes, as many as the product has after its wrap, and leaves every other
-- byte of the heap as it was.
pub rtos_calloc_zero :
    (h : Heap) (num size p : ℕ) (h' : Heap)
    → IsValid h
    → rtos_calloc h num size ≡ (some p, h')
    → ((i : ℕ) → i < mul_size num size → h'.bytes (p + i) ≡ 0)
      × ((a : ℕ) → (a < p) ⊎ (p + mul_size num size ≤ a) → h'.bytes a ≡ h.bytes a)
unfolding rtos_calloc
rtos_calloc_zero h num size p h' v e = elim (Option-cases (rtos_malloc h n).0) [
  | inl k ↦ cc (ap (λ t. t.0) (rw (k, rtos_calloc) at e))
  | inr (q, k) ↦
      let same = rtos_malloc-bytes v n q (λ i. (k i, (rtos_malloc h n).1)) in
      let e' = rw (k, rtos_calloc) at e in
      let at_p = some-injective _ _ (ap (λ t. t.0) e') in
      let contents = ap (λ (t : Option ℕ × Heap). t.1.bytes) e' in
      (
        λ i lt. ground (arith, at_p, ap (λ g. g (p + i)) contents),
        λ a out. ground (arith, at_p, ap (λ g. g a) contents, ap (λ g. g a) same),
      )
]
  where
    n : ℕ
    n = mul_size num size
