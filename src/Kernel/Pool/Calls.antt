-- ===== src/Kernel/Pool/Calls.antt =====
-- The calls on a block pool of src/kernel/memory.c, for a pool that counts its free blocks rightly.
use native.Mathlib.Nat.{mul-div_cancel, mod-eq-sub-div-mul}
use rtos_driver_framework.Base.{
  ℕ, zero, suc, ◌+◌, ◌-◌, ◌*◌, ◌/◌, ◌%◌, ◌≤◌, ◌<◌, ◌≡◌, refl, ◌⊎◌, inl, inr, true, false, none,
  List, arith, ◌==◌, if◌then◌else◌, ok, error, size_mod, ap, Bool-cases, ==_iff,
}
use rtos_driver_framework.Kernel.Pool.{
  MemoryPool, is_free, mark_used, mark_free, block_address, alloc_block, free_at,
}
use rtos_driver_framework.Kernel.Pool.Bitmap.{
  IsBitmap, count_free, count_free_step, find_free-First, is_free-mark_used, is_free-mark_free,
  mark_used-IsBitmap, mark_free-IsBitmap,
}

pub record IsValid (pool : MemoryPool) : Type 0 where
  pub bits : IsBitmap pool.num_blocks pool.bitmap
  pub counted : pool.free_blocks ≡ count_free pool.bitmap pool.num_blocks
  pub sized : 0 < pool.block_size
  pub small : pool.num_blocks < size_mod

-- No block is counted free where none is.
count_free-none :
    (bs : List ℕ) (n : ℕ) → ((j : ℕ) → j < n → is_free bs j ≡ false) → count_free bs n ≡ 0
count_free-none bs zero h = refl
count_free-none bs (suc n) h =
    ground (arith, h n (omega arith), count_free-none bs n (λ j lt. h j (omega arith)))

count_free-pos : (bs : List ℕ) (n k : ℕ) → k < n → is_free bs k ≡ true → 0 < count_free bs n
count_free-pos bs zero k lt f = absurd (omega arith)
count_free-pos bs (suc n) k lt f = elim (Bool-cases (k == n)) [
  | inl e ↦ ground (arith, ap (is_free bs) ((==_iff k n).0 e))
  | inr ne ↦ ground (arith, count_free-pos bs n k)
]

-- Taking the free block `i`, and giving it back, as changes of the bitmap and the count.
abbrev pub taken : MemoryPool → ℕ → MemoryPool
taken pool i = record pool { bitmap = mark_used pool.bitmap i; free_blocks = pool.free_blocks - 1 }

taken-IsValid :
    (pool : MemoryPool) (i : ℕ)
    → IsValid pool
    → i < pool.num_blocks
    → is_free pool.bitmap i ≡ true
    → IsValid (taken pool i)
taken-IsValid pool i v lt f = record {
  bits = mark_used-IsBitmap pool.num_blocks pool.bitmap v.bits i lt;
  counted = omega (
    arith,
    v.counted,
    count_free_step pool.bitmap (mark_used pool.bitmap i) i pool.num_blocks lt f
        (ground (arith, is_free-mark_used pool.num_blocks pool.bitmap v.bits i lt i))
        (λ j ne. ground (arith, is_free-mark_used pool.num_blocks pool.bitmap v.bits i lt j)),
  );
  sized = v.sized;
  small = v.small;
}

-- `memory_pool_alloc` on a valid pool: it returns NULL and changes nothing if no block is free;
-- otherwise it returns the address of the lowest free block, which is free no more, keeps every other
-- block as it was, and leaves the pool valid.
pub alloc_block_lem :
    (pool : MemoryPool)
    → IsValid pool
    → let (r, pool') = alloc_block pool in
      ((r ≡ none)
        × (pool' ≡ pool)
        × ((j : ℕ) → j < pool.num_blocks → is_free pool.bitmap j ≡ false))
      ⊎ ((i : ℕ) × (r ≡ block_address pool i)
          × (i < pool.num_blocks)
          × (is_free pool.bitmap i ≡ true)
          × ((j : ℕ) → j < i → is_free pool.bitmap j ≡ false)
          × ((j : ℕ) → is_free pool'.bitmap j ≡ (if i == j then false else is_free pool.bitmap j))
          × IsValid pool')
unfolding alloc_block
alloc_block_lem pool v = elim (find_free-First pool.bitmap 0 pool.num_blocks) [
  | inl (e, h) ↦
      let none_free =
        count_free-none pool.bitmap pool.num_blocks (λ j lt. h j (omega arith) (omega arith)) in
      inl (
        ground (arith, v.counted),
        ground (arith, v.counted),
        λ j lt. h j (omega arith) (omega arith),
      )
  | inr (i, e, _, lt, f, h) ↦
      let pos = count_free-pos pool.bitmap pool.num_blocks i (omega arith) f in
      let step : alloc_block pool ≡ (block_address pool i, taken pool i) =
        ground (arith, e, v.counted, pos) in
      inr (
        i,
        rw step refl,
        omega arith,
        f,
        λ j lt'. h j (omega arith) lt',
        λ j. rw step (is_free-mark_used pool.num_blocks pool.bitmap v.bits i (omega arith) j),
        rw step (taken-IsValid pool i v (omega arith) f),
      )
]

abbrev pub given : MemoryPool → ℕ → MemoryPool
given pool i = record pool { bitmap = mark_free pool.bitmap i; free_blocks = pool.free_blocks + 1 }

given-IsValid :
    (pool : MemoryPool) (i : ℕ)
    → IsValid pool
    → i < pool.num_blocks
    → is_free pool.bitmap i ≡ false
    → IsValid (given pool i)
given-IsValid pool i v lt u = record {
  bits = mark_free-IsBitmap pool.num_blocks pool.bitmap v.bits i lt;
  counted = omega (
    arith,
    v.counted,
    count_free_step (mark_free pool.bitmap i) pool.bitmap i pool.num_blocks lt
        (ground (arith, is_free-mark_free pool.num_blocks pool.bitmap v.bits i lt i)) u
        (λ j ne. ground (arith, is_free-mark_free pool.num_blocks pool.bitmap v.bits i lt j)),
  );
  sized = v.sized;
  small = v.small;
}

count_free-le : (bs : List ℕ) (n : ℕ) → count_free bs n ≤ n
count_free-le bs zero = omega arith
count_free-le bs (suc n) = ground (arith, count_free-le bs n)

module _ (pool : MemoryPool) (i : ℕ) (v : IsValid pool) (lt : i < pool.num_blocks) where
  -- The offset of a block leads back to its number.
  index : i * pool.block_size / pool.block_size ≡ i
  index = mul-div_cancel i v.sized

  exact : i * pool.block_size % pool.block_size ≡ 0
  exact = omega (
    arith,
    mod-eq-sub-div-mul (i * pool.block_size) pool.block_size,
    ap (λ (t : ℕ). t * pool.block_size) index,
  )

  free_at-free : is_free pool.bitmap i ≡ true → free_at pool (i * pool.block_size) ≡ (error, pool)
  unfolding free_at
  free_at-free f = rw (index, exact, f) (ground arith)

  free_at-used :
      is_free pool.bitmap i ≡ false → free_at pool (i * pool.block_size) ≡ (ok, given pool i)
  unfolding free_at
  free_at-used u =
      let counts = (given-IsValid pool i v lt u).counted in
      let bound = count_free-le (mark_free pool.bitmap i) pool.num_blocks in
      rw (index, exact, u) (ground (arith, counts, bound, v.small))

-- `memory_pool_free` of block `i`: a block in use is given back and the pool stays valid; a free one
-- is refused and nothing changes.
pub free_at_lem :
    (pool : MemoryPool) (i : ℕ)
    → IsValid pool
    → i < pool.num_blocks
    → let (s, pool') = free_at pool (i * pool.block_size) in
      IsValid pool'
      × ((is_free pool.bitmap i ≡ true) → (s ≡ error) × (pool' ≡ pool))
      × ((is_free pool.bitmap i ≡ false)
          → (s ≡ ok)
            × (pool'.free_blocks ≡ pool.free_blocks + 1)
            × ((j : ℕ) → is_free pool'.bitmap j ≡ (if i == j then true else is_free pool.bitmap j)))
free_at_lem pool i v lt = elim (Bool-cases (is_free pool.bitmap i)) [
  | inl f ↦
      let same = free_at-free pool i v lt f in
      (rw same v, λ _. (rw same refl, rw same refl), λ u. cc)
  | inr u ↦
      let step = free_at-used pool i v lt u in
      (
        rw step (given-IsValid pool i v lt u),
        λ f. cc,
        λ _. (
          rw step refl,
          rw step refl,
          λ j. rw step (is_free-mark_free pool.num_blocks pool.bitmap v.bits i lt j),
        ),
      )
]
