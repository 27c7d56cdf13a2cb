-- ===== src/Kernel/Pool/Lifecycle.antt =====
-- A block pool of src/kernel/memory.c from its creation on, and the round trip of a block.
use rtos_driver_framework.Base.{
  ℕ, zero, suc, ◌+◌, ◌*◌, ◌/◌, ◌%◌, ◌≤◌, ◌<◌, ◌≡◌, ◌≢◌, refl, inl, inr, true, false, some, arith,
  ◌==◌, if◌then◌else◌, ok, size_mod, ap, sym, ◌∙◌, subst, ==_iff, Bool-cases, Option-cases, get_or,
  replicate, length-replicate,
}
use rtos_driver_framework.Base.Bits.{all_ones}
use rtos_driver_framework.Kernel.Memory.{
  Heap, align_size, mul_size, add_size, sub_size, rtos_malloc, rtos_free,
}
use rtos_driver_framework.Kernel.Memory.Allocation.{align_size_lem}
use rtos_driver_framework.Kernel.Pool.{
  MemoryPool, is_free, made, make_bitmap, memory_pool_create, alloc_block, free_at,
  memory_pool_free,
}
use rtos_driver_framework.Kernel.Pool.Bitmap.{count_free, count_free-congr}
use rtos_driver_framework.Kernel.Pool.Calls.{IsValid, alloc_block_lem, free_at_lem}

get_or-replicate : (k i v : ℕ) → i < k → get_or (replicate k v) i 0 ≡ v
get_or-replicate zero i v h = absurd (omega arith)
get_or-replicate (suc k) zero v h = refl
get_or-replicate (suc k) (suc i) v h = get_or-replicate k i v (omega arith)

replicate-lt : (k i v : ℕ) → v < 256 → get_or (replicate k v) i 0 < 256
replicate-lt zero i v h = omega arith
replicate-lt (suc k) zero v h = h
replicate-lt (suc k) (suc i) v h = replicate-lt k i v h

-- After `memset(..., 0xFF, ...)` every block is free.
is_free-replicate : (k i : ℕ) → i < 8 * k → is_free (replicate k 0xff) i ≡ true
unfolding is_free
is_free-replicate k i h =
    rw (get_or-replicate k (i / 8) 255 (omega arith)) (all_ones (i % 8) (omega arith))

count_free-replicate : (k n : ℕ) → n ≤ 8 * k → count_free (replicate k 0xff) n ≡ n
count_free-replicate k zero h = refl
count_free-replicate k (suc n) h = ground (arith, is_free-replicate k n, count_free-replicate k n)

made-IsValid :
    (start list size n : ℕ)
    → 0 < size
    → n + 7 < size_mod
    → IsValid (made start list size n (add_size n 7 / 8))
made-IsValid start list size n pos small = record {
  bits = record {
    long = omega (arith, length-replicate {A = ℕ} (add_size n 7 / 8) 255);
    bytes = λ k. replicate-lt (add_size n 7 / 8) k 255 (omega arith);
  };
  counted = sym (count_free-replicate (add_size n 7 / 8) n (omega arith));
  sized = pos;
  small = omega arith;
}

make_bitmap_ok :
    (pool : MemoryPool) (h : Heap) (start size n : ℕ) (pool' : MemoryPool) (h' : Heap)
    → make_bitmap pool h start size n ≡ some (ok, pool', h')
    → (l : ℕ) × (pool' ≡ made start l size n (add_size n 7 / 8))
unfolding make_bitmap
make_bitmap_ok pool h start size n pool' h' e =
    elim (Option-cases (rtos_malloc h (add_size n 7 / 8)).0) [
      | inl k ↦ elim (Option-cases (rtos_free (rtos_malloc h (add_size n 7 / 8)).1 (some start))) [
        | inl u ↦ absurd (ground (arith, k, u))
        | inr (g, u) ↦ absurd (ground (arith, k, u))
      ]
      | inr (l, k) ↦ (l, ground (arith, k))
    ]

memory_pool_create_ok :
    (h : Heap) (pool : MemoryPool) (block_size n : ℕ) (pool' : MemoryPool) (h' : Heap)
    → memory_pool_create h pool block_size n ≡ some (ok, pool', h')
    → (block_size ≢ 0)
      × (start : ℕ) × (l : ℕ) × (pool' ≡ made start l (align_size block_size) n (add_size n 7 / 8))
unfolding memory_pool_create
memory_pool_create_ok h pool block_size n pool' h' e =
    elim (Option-cases (rtos_malloc h (mul_size (align_size block_size) n)).0) [
      | inl k ↦ absurd (ground (arith, k))
      | inr (p, k) ↦
          let call =
            make_bitmap_ok pool (rtos_malloc h (mul_size (align_size block_size) n)).1 p
              (align_size block_size) n pool' h' (ground (arith, k)) in
          (ground (arith, k), p, call.0, call.1)
    ]

-- A pool that `memory_pool_create` reports as made is valid, has all its blocks free, and has blocks
-- of the aligned size, if neither the size nor the number of blocks is within 7 of 2 ^ 64.
pub memory_pool_create-IsValid :
    (h : Heap) (pool : MemoryPool) (block_size num_blocks : ℕ) (pool' : MemoryPool) (h' : Heap)
    → block_size + 3 < size_mod
    → num_blocks + 7 < size_mod
    → memory_pool_create h pool block_size num_blocks ≡ some (ok, pool', h')
    → IsValid pool'
      × (pool'.num_blocks ≡ num_blocks)
      × (pool'.block_size ≡ align_size block_size)
      × ((j : ℕ) → j < num_blocks → is_free pool'.bitmap j ≡ true)
memory_pool_create-IsValid h pool block_size n pool' h' sb sn e =
    let (ne, start, l, eq) = memory_pool_create_ok h pool block_size n pool' h' e in
    rw eq (
      made-IsValid start l (align_size block_size) n (omega (arith, align_size_lem block_size sb))
          sn,
      refl,
      refl,
      λ j lt. is_free-replicate (add_size n 7 / 8) j (omega arith),
    )

-- The calls leave the shape of a pool alone.
abbrev SameShape : MemoryPool → MemoryPool → Type 0
SameShape a b =
    (a.pool_start ≡ b.pool_start) × (a.block_size ≡ b.block_size) × (a.num_blocks ≡ b.num_blocks)

alloc_block-SameShape : (pool : MemoryPool) → SameShape (alloc_block pool).1 pool
unfolding alloc_block
alloc_block-SameShape pool = ground arith

free_at-SameShape : (pool : MemoryPool) (offset : ℕ) → SameShape (free_at pool offset).1 pool
unfolding free_at
free_at-SameShape pool offset = ground arith

-- An address below 2 ^ 64 gives back the offset.
offset_of : (start x : ℕ) → start + x < size_mod → sub_size (add_size start x) start ≡ x
offset_of start x h = omega arith

memory_pool_free-some :
    (pool : MemoryPool) (start ptr offset : ℕ)
    → 0 < pool.block_size
    → pool.pool_start ≡ some start
    → sub_size ptr start ≡ offset
    → memory_pool_free (some pool) (some ptr)
      ≡ some ((free_at pool offset).0, some (free_at pool offset).1)
unfolding memory_pool_free
memory_pool_free-some pool start ptr offset pos at e = ground (arith, ap (free_at pool) e)

product_mono : (i n b : ℕ) → i < n → i * b ≤ n * b
product_mono i n b h = grind arith

-- `q` is `pool` with its free block `i` taken.
abbrev Without : MemoryPool → ℕ → MemoryPool → Type 0
Without pool i q =
    SameShape q pool
    × IsValid q
    × ((j : ℕ) → is_free q.bitmap j ≡ (if i == j then false else is_free pool.bitmap j))

module _ (pool q : MemoryPool) (i start : ℕ) (v : IsValid pool) (w : Without pool i q)
    (lt : i < pool.num_blocks) (f : is_free pool.bitmap i ≡ true) where
  returned : MemoryPool
  returned = (free_at q (i * q.block_size)).1

  in_use : is_free q.bitmap i ≡ false
  in_use = ground (arith, w.2 i)

  back :
      IsValid returned
      × ((free_at q (i * q.block_size)).0 ≡ ok)
      × ((j : ℕ) → is_free returned.bitmap j ≡ is_free pool.bitmap j)
  unfolding returned
  back =
      let (valid, _, used) = free_at_lem q i w.1 (omega (arith, w.0)) in
      let (done, _, bits) = used in_use in (valid, done, λ j. restored bits j)
    where
      restored :
          ((j : ℕ) → is_free returned.bitmap j ≡ (if i == j then true else is_free q.bitmap j))
          → (j : ℕ) → is_free returned.bitmap j ≡ is_free pool.bitmap j
      restored bits j = elim (Bool-cases (i == j)) [
        | inl e ↦ ground (arith, bits j, w.2 j, ap (is_free pool.bitmap) ((==_iff i j).0 e))
        | inr ne ↦ ground (arith, bits j, w.2 j)
      ]

  give_back :
      pool.pool_start ≡ some start
      → start + pool.num_blocks * pool.block_size < size_mod
      → (pool'' : MemoryPool) × (memory_pool_free
            (some q)
            (some (add_size start (i * pool.block_size)))
          ≡ some (ok, some pool''))
        × IsValid pool''
        × (pool''.free_blocks ≡ pool.free_blocks)
        × ((j : ℕ) → is_free pool''.bitmap j ≡ is_free pool.bitmap j)
  unfolding returned
  give_back at room =
      let (valid, done, bits) = back in
      let same = free_at-SameShape q (i * q.block_size) in
      (
        returned,
        memory_pool_free-some q start _ (i * q.block_size) w.1.sized (w.0.0 ∙ at) (
              ap (λ b. sub_size (add_size start (i * pool.block_size)) start) w.0.1
              ∙ offset_of start (i * pool.block_size) in_room
              ∙ ap (λ b. i * b) (sym w.0.1))
            ∙ ap (λ s. some (s, some returned)) done,
        valid,
        valid.counted
            ∙ count_free-congr returned.bitmap pool.bitmap returned.num_blocks (λ j _. bits j)
            ∙ ap (count_free pool.bitmap) (same.2 ∙ w.0.2)
            ∙ sym v.counted,
        bits,
      )
    where
      in_room : start + i * pool.block_size < size_mod
      in_room = omega (arith, product_mono i pool.num_blocks pool.block_size lt)

-- A block that `memory_pool_alloc` hands out is taken back by `memory_pool_free` at its address, and
-- the pool then has the same free blocks as before, if the pool lies below 2 ^ 64.
pub free-alloc :
    (pool : MemoryPool) (start p : ℕ) (pool' : MemoryPool)
    → IsValid pool
    → pool.pool_start ≡ some start
    → start + pool.num_blocks * pool.block_size < size_mod
    → alloc_block pool ≡ (some p, pool')
    → (pool'' : MemoryPool) × (memory_pool_free (some pool') (some p) ≡ some (ok, some pool''))
      × IsValid pool''
      × (pool''.free_blocks ≡ pool.free_blocks)
      × ((j : ℕ) → is_free pool''.bitmap j ≡ is_free pool.bitmap j)
free-alloc pool start p pool' v at room e = elim (alloc_block_lem pool v) [
  | inl (gone, _, _) ↦ absurd (ground (arith, gone, e))
  | inr (i, r, lt, f, _, bits, v') ↦
      let w = subst (Without pool i) (ap (λ t. t.1) e) (alloc_block-SameShape pool, v', bits) in
      let address : p ≡ add_size start (i * pool.block_size) = ground (arith, r, e, at) in
      subst
        (λ x.
          (pool'' : MemoryPool) × (memory_pool_free (some pool') (some x) ≡ some (ok, some pool''))
          × IsValid pool''
          × (pool''.free_blocks ≡ pool.free_blocks)
          × ((j : ℕ) → is_free pool''.bitmap j ≡ is_free pool.bitmap j))
        (sym address) (give_back pool pool' i start v w lt f at room)
]
