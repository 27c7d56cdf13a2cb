-- ===== src/Kernel/Memory/BestFit.antt =====
-- `find_best_fit` of src/kernel/memory.c against the smallest free block that is large enough.
use rtos_driver_framework.Base.{
  ℕ, ◌+◌, ◌-◌, ◌≤◌, ◌<◌, ◌≡◌, refl, ◌⊎◌, inl, inr, true, false, ◌&&◌, Option, none, some, List, [],
  ◌∷◌, arith, leb, ltb, Bool-cases, size_mod,
}
use rtos_driver_framework.Kernel.Memory.{Block, header_size, block_at, best_fit_loop, find_best_fit}
use rtos_driver_framework.Kernel.Memory.Blocks.{Tiles, Tiles-le, block_at_bounds}

abbrev pub Fits : ℕ → Block → Type 0
Fits size b = (b.is_free ≡ true) × (size ≤ b.size)

-- No block of the list that fits is smaller than `best`.
abbrev pub AtLeast : ℕ → ℕ → List Block → Type 0
AtLeast best size [] = Unit {0}
AtLeast best size (b ∷ bs) =
    ((b.is_free ≡ false) ⊎ (b.size < size) ⊎ (best ≤ b.size)) × AtLeast best size bs

-- No block of the list is free and large enough.
abbrev pub NoFit : ℕ → List Block → Type 0
NoFit size [] = Unit {0}
NoFit size (b ∷ bs) = ((b.is_free ≡ false) ⊎ (b.size < size)) × NoFit size bs

-- What the loop over `bs` returns, with the running minimum `md` above `size`.
abbrev Chosen : List Block → ℕ → Option ℕ → ℕ → Option ℕ → Type 0
Chosen bs size bf md r =
    ((r ≡ bf) × AtLeast (size + md) size bs)
    ⊎ ((b : Block) × (r ≡ some b.addr)
        × (block_at bs b.addr ≡ some b)
        × Fits size b
        × (b.size < size + md)
        × AtLeast b.size size bs)

-- A block behind `b` is found past `b`.
block_at_past :
    (a : ℕ) (b c : Block) (bs : List Block)
    → Tiles a (b ∷ bs)
    → block_at bs c.addr ≡ some c
    → block_at (b ∷ bs) c.addr ≡ some c
unfolding block_at
block_at_past a b c bs t e =
    ground (arith, block_at_bounds (a + header_size + b.size) c.addr bs c t.2 e)

module _ (a : ℕ) (b : Block) (bs : List Block) (size md : ℕ) (bf : Option ℕ)
    (t : Tiles a (b ∷ bs)) where
  choose_here :
      (r : Option ℕ)
      → Fits size b
      → b.size - size < md
      → Chosen bs size (some b.addr) (b.size - size) r
      → Chosen (b ∷ bs) size bf md r
  unfolding block_at
  choose_here r f lt (inl (e, k)) =
      inr (b, e, ground arith, f, omega arith, (inr (inr (omega arith)), rw (size_back f.1) at k))
    where
      size_back : size ≤ b.size → size + (b.size - size) ≡ b.size
      size_back h = omega arith
  choose_here r f lt (inr (c, e, k, g, below, m)) =
      inr (c, e, block_at_past a b c bs t k, g, omega arith, (inr (inr (omega arith)), m))

  choose_later :
      (r : Option ℕ)
      → (b.is_free && leb size b.size && ltb (b.size - size) md) ≡ false
      → Chosen bs size bf md r
      → Chosen (b ∷ bs) size bf md r
  choose_later r h (inl (e, k)) = inl (e, (ground arith, k))
  choose_later r h (inr (c, e, k, g, below, m)) =
      inr (c, e, block_at_past a b c bs t k, g, omega arith, (ground arith, m))

best_fit_loop-Chosen :
    (a : ℕ) (bs : List Block) (size : ℕ) (bf : Option ℕ) (md : ℕ)
    → Tiles a bs
    → Chosen bs size bf md (best_fit_loop bs size bf md)
unfolding best_fit_loop
best_fit_loop-Chosen a [] size bf md t = inl (refl, tt)
best_fit_loop-Chosen a (b ∷ bs) size bf md t =
    elim (Bool-cases (b.is_free && leb size b.size && ltb (b.size - size) md)) [
      | inl better ↦ rw better (
          choose_here a b bs size md bf t _ (ground arith) (ground arith) (
            best_fit_loop-Chosen (a + header_size + b.size) bs size (some b.addr) (b.size - size)
              t.2))
      | inr worse ↦ rw worse (
          choose_later a b bs size md bf t _ worse
            (best_fit_loop-Chosen (a + header_size + b.size) bs size bf md t.2))
    ]

AtLeast-NoFit :
    (a size : ℕ) (bs : List Block)
    → Tiles a bs
    → AtLeast (size + (size_mod - 1)) size bs
    → NoFit size bs
AtLeast-NoFit a size [] t k = tt
AtLeast-NoFit a size (b ∷ bs) t k = ground (
  arith,
  AtLeast-NoFit (a + header_size + b.size) size bs t.2,
  Tiles-le (a + header_size + b.size) bs t.2,
)

-- In a tiled list `find_best_fit` returns NULL only if no block is free and large enough. Otherwise
-- it returns the header of such a block, and none that fits is smaller.
pub find_best_fit_lem :
    (a : ℕ) (bs : List Block) (size : ℕ)
    → Tiles a bs
    → ((find_best_fit bs size ≡ none) × NoFit size bs)
      ⊎ ((b : Block) × (find_best_fit bs size ≡ some b.addr)
          × (block_at bs b.addr ≡ some b)
          × Fits size b
          × AtLeast b.size size bs)
unfolding find_best_fit
find_best_fit_lem a bs size t = elim (best_fit_loop-Chosen a bs size none (size_mod - 1) t) [
  | inl (e, k) ↦ inl (e, AtLeast-NoFit a size bs t k)
  | inr (b, e, k, f, below, m) ↦ inr (b, e, k, f, m)
]
