-- ===== src/Base/Bits.antt =====
-- Single bits of a byte, as C tests, sets and clears them with a shifted one. The laws hold of every
-- byte and every two positions, and are checked by evaluation.
use Prim.Native.Nat.{ℕ, zero, suc, ◌+◌, ◌-◌, ◌*◌, ◌/◌, ◌%◌, ◌^◌, ◌<◌, bit_and, bit_or}
use mathlib.Core.Path.{◌≡◌, refl}
use mathlib.Core.Bool.{Bool, true, false, not, ◌&&◌}
use native.Mathlib.Omega.{arith}
use rtos_driver_framework.Base.Tests.{◌==◌, if◌then◌else◌, ltb}

-- `x & (1 << i)` as a truth value, `x & ~(1 << i)` and `x | (1 << i)` of a byte.
unfoldable pub test_bit : ℕ → ℕ → Bool
test_bit x i = not (bit_and x (2 ^ i) == 0)

unfoldable pub clear_bit : ℕ → ℕ → ℕ
clear_bit x i = bit_and x (255 - 2 ^ i)

unfoldable pub set_bit : ℕ → ℕ → ℕ
set_bit x i = bit_or x (2 ^ i)

all_below : ℕ → (ℕ → Bool) → Bool
all_below zero p = true
all_below (suc n) p = p n && all_below n p

all_below_lem : (n : ℕ) (p : ℕ → Bool) (k : ℕ) → all_below n p ≡ true → k < n → p k ≡ true
unfolding all_below
all_below_lem zero p k h lt = absurd (omega arith)
all_below_lem (suc n) p k h lt = ground (arith, all_below_lem n p k)

same : Bool → Bool → Bool
same true b = b
same false b = not b

same_lem : (a b : Bool) → same a b ≡ true → a ≡ b
unfolding same
same_lem true true h = refl
same_lem true false h = cc
same_lem false true h = cc
same_lem false false h = refl

-- A byte and two positions in one number.
law_at : ℕ → ℕ → ℕ → Bool
law_at x i j =
    ltb (clear_bit x i) 256
    && ltb (set_bit x i) 256
    && same (test_bit (clear_bit x i) j) (if i == j then false else test_bit x j)
    && same (test_bit (set_bit x i) j) (if i == j then true else test_bit x j)

table : all_below 16384 (λ k. law_at (k / 64) (k / 8 % 8) (k % 8)) ≡ true
unfolding all_below law_at same test_bit clear_bit set_bit
table = refl

law_of_digits :
    (k x i j : ℕ) → k / 64 ≡ x → k / 8 % 8 ≡ i → k % 8 ≡ j → k < 16384 → law_at x i j ≡ true
law_of_digits k x i j byte first second small =
    cc (all_below_lem 16384 (λ n. law_at (n / 64) (n / 8 % 8) (n % 8)) k table small)

law : (x i j : ℕ) → x < 256 → i < 8 → j < 8 → law_at x i j ≡ true
law x i j hx hi hj =
    law_of_digits (x * 64 + i * 8 + j) x i j (omega arith) (omega arith) (omega arith) (omega arith)

module _ (x i : ℕ) (hx : x < 256) (hi : i < 8) where
  pub clear_bit-lt : clear_bit x i < 256
  unfolding law_at
  clear_bit-lt = ground (arith, law x i 0 hx hi (omega arith))

  pub set_bit-lt : set_bit x i < 256
  unfolding law_at
  set_bit-lt = ground (arith, law x i 0 hx hi (omega arith))

  pub test_bit-clear_bit :
      (j : ℕ) → j < 8 → test_bit (clear_bit x i) j ≡ (if i == j then false else test_bit x j)
  unfolding law_at
  test_bit-clear_bit j hj = same_lem _ _ (ground (arith, law x i j hx hi hj))

  pub test_bit-set_bit :
      (j : ℕ) → j < 8 → test_bit (set_bit x i) j ≡ (if i == j then true else test_bit x j)
  unfolding law_at
  test_bit-set_bit j hj = same_lem _ _ (ground (arith, law x i j hx hi hj))

ones : all_below 8 (test_bit 255) ≡ true
unfolding all_below test_bit
ones = refl

pub all_ones : (j : ℕ) → j < 8 → test_bit 255 j ≡ true
all_ones j h = all_below_lem 8 (test_bit 255) j ones h
