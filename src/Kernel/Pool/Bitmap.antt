-- ===== src/Kernel/Pool/Bitmap.antt =====
-- The bitmap of a block pool of src/kernel/memory.c as a set of block numbers.
use rtos_driver_framework.Base.{
  ℕ, zero, suc, ◌+◌, ◌*◌, ◌/◌, ◌%◌, ◌≤◌, ◌<◌, ◌≡◌, ◌≢◌, refl, ◌⊎◌, inl, inr, true, false, Option,
  none, some, List, arith, ◌==◌, if◌then◌else◌, get_or, set, length, length-set, get_or-set_self,
  get_or-set_ne, ==_iff, Bool-cases, ap, sym, ◌∙◌,
}
use rtos_driver_framework.Base.Bits.{
  clear_bit, set_bit, clear_bit-lt, set_bit-lt, test_bit-clear_bit, test_bit-set_bit,
}
use rtos_driver_framework.Kernel.Pool.{is_free, mark_used, mark_free, find_free}

-- Bytes, enough of them for `n` bits.
pub record IsBitmap (n : ℕ) (bitmap : List ℕ) : Type 0 where
  pub long : n ≤ 8 * length bitmap
  pub bytes : (k : ℕ) → get_or bitmap k 0 < 256

get_or-set :
    (bs : List ℕ) (i j v : ℕ)
    → i < length bs
    → get_or (set bs i v) j 0 ≡ (if i == j then v else get_or bs j 0)
get_or-set bs i j v h = elim (Bool-cases (i == j)) [
  | inl e ↦ rw (e, ← (==_iff i j).0 e) (get_or-set_self bs i v 0 h)
  | inr ne ↦ rw ne (get_or-set_ne bs i j v 0 (λ e. ground (arith)))
]

module _ (n : ℕ) (bs : List ℕ) (v : IsBitmap n bs) (i : ℕ) (hi : i < n) where
  -- One block changes its bit.
  pub is_free-mark_used :
      (j : ℕ) → is_free (mark_used bs i) j ≡ (if i == j then false else is_free bs j)
  unfolding is_free mark_used
  is_free-mark_used j = ground (
    arith,
    v.long,
    get_or-set bs (i / 8) (j / 8) (clear_bit (get_or bs (i / 8) 0) (i % 8)),
    test_bit-clear_bit (get_or bs (i / 8) 0) (i % 8) (v.bytes (i / 8)) (omega arith) (j % 8)
        (omega arith),
  )

  pub is_free-mark_free :
      (j : ℕ) → is_free (mark_free bs i) j ≡ (if i == j then true else is_free bs j)
  unfolding is_free mark_free
  is_free-mark_free j = ground (
    arith,
    v.long,
    get_or-set bs (i / 8) (j / 8) (set_bit (get_or bs (i / 8) 0) (i % 8)),
    test_bit-set_bit (get_or bs (i / 8) 0) (i % 8) (v.bytes (i / 8)) (omega arith) (j % 8)
        (omega arith),
  )

  pub mark_used-IsBitmap : IsBitmap n (mark_used bs i)
  unfolding mark_used
  mark_used-IsBitmap = record {
    long = omega (arith, v.long, length-set bs (i / 8) (clear_bit (get_or bs (i / 8) 0) (i % 8)));
    bytes = λ k. ground (
      arith,
      v.long,
      v.bytes k,
      get_or-set bs (i / 8) k (clear_bit (get_or bs (i / 8) 0) (i % 8)),
      clear_bit-lt (get_or bs (i / 8) 0) (i % 8) (v.bytes (i / 8)) (omega arith),
    );
  }

  pub mark_free-IsBitmap : IsBitmap n (mark_free bs i)
  unfolding mark_free
  mark_free-IsBitmap = record {
    long = omega (arith, v.long, length-set bs (i / 8) (set_bit (get_or bs (i / 8) 0) (i % 8)));
    bytes = λ k. ground (
      arith,
      v.long,
      v.bytes k,
      get_or-set bs (i / 8) k (set_bit (get_or bs (i / 8) 0) (i % 8)),
      set_bit-lt (get_or bs (i / 8) 0) (i % 8) (v.bytes (i / 8)) (omega arith),
    );
  }

-- How many of the first `n` blocks are free.
abbrev pub count_free : List ℕ → ℕ → ℕ
count_free bs zero = 0
count_free bs (suc n) = (if is_free bs n then 1 else 0) + count_free bs n

-- Counts of two bitmaps that differ at block `i` alone.
pub count_free-congr :
    (bs cs : List ℕ) (n : ℕ)
    → ((j : ℕ) → j < n → is_free bs j ≡ is_free cs j)
    → count_free bs n ≡ count_free cs n
count_free-congr bs cs zero h = refl
count_free-congr bs cs (suc n) h =
    ground (arith, h n (omega arith), count_free-congr bs cs n (λ j lt. h j (omega arith)))

pub count_free_step :
    (bs cs : List ℕ) (i n : ℕ)
    → i < n
    → is_free bs i ≡ true
    → is_free cs i ≡ false
    → ((j : ℕ) → i ≢ j → is_free bs j ≡ is_free cs j)
    → count_free bs n ≡ count_free cs n + 1
count_free_step bs cs i zero lt b c h = absurd (omega arith)
count_free_step bs cs i (suc n) lt b c h = elim (Bool-cases (i == n)) [
  | inl e ↦
      let same = (==_iff i n).0 e in
      ground (
        arith,
        ap (is_free bs) same,
        ap (is_free cs) same,
        count_free-congr bs cs n (λ j lt'. h j (omega arith)),
      )
  | inr ne ↦ ground (arith, h n (ground arith), count_free_step bs cs i n (ground arith) b c h)
]

-- The search returns the first free block of those that it looks at.
abbrev pub First : List ℕ → ℕ → ℕ → Option ℕ → Type 0
First bs i n r =
    ((r ≡ none) × ((j : ℕ) → i ≤ j → j < i + n → is_free bs j ≡ false))
    ⊎ ((k : ℕ) × (r ≡ some k)
        × (i ≤ k)
        × (k < i + n)
        × (is_free bs k ≡ true)
        × ((j : ℕ) → i ≤ j → j < k → is_free bs j ≡ false))

-- A block in use is passed over.
First-past :
    (bs : List ℕ) (i n : ℕ) (r : Option ℕ)
    → is_free bs i ≡ false
    → First bs (i + 1) n r
    → First bs i (suc n) r
First-past bs i n r u (inl (e, h)) = inl (e, λ j a b. used j a b)
  where
    used : (j : ℕ) → i ≤ j → j < i + suc n → is_free bs j ≡ false
    used j a b = elim (Bool-cases (i == j)) [
      | inl same ↦ ap (is_free bs) (sym ((==_iff i j).0 same)) ∙ u
      | inr ne ↦ h j (ground arith) (omega arith)
    ]
First-past bs i n r u (inr (k, e, a, b, f, h)) =
    inr (k, e, omega arith, omega arith, f, λ j a' b'. used j a' b')
  where
    used : (j : ℕ) → i ≤ j → j < k → is_free bs j ≡ false
    used j a' b' = elim (Bool-cases (i == j)) [
      | inl same ↦ ap (is_free bs) (sym ((==_iff i j).0 same)) ∙ u
      | inr ne ↦ h j (ground arith) b'
    ]

pub find_free-First : (bs : List ℕ) (i n : ℕ) → First bs i n (find_free bs i n)
unfolding find_free
find_free-First bs i zero = inl (refl, λ j a b. absurd (omega arith))
find_free-First bs i (suc n) = elim (Bool-cases (is_free bs i)) [
  | inl f ↦ inr (i, rw f refl, omega arith, omega arith, f, λ j a b. absurd (omega arith))
  | inr u ↦ rw u (First-past bs i n _ u (find_free-First bs (i + 1) n))
]
