-- ===== src/Base/Xor.antt =====
-- The laws of `^` on words of any width, from its last digit: `x ^ y` ends in the parity of the sum.
use Prim.Native.Nat.{
  ℕ, zero, suc, ◌+◌, ◌*◌, ◌/◌, ◌%◌, ◌^◌, ◌≤◌, ◌<◌, min, bit_and, bit_xor, digits, differ,
  bit_and-bitwise, bit_xor-bitwise,
}
use mathlib.Core.Path.{◌≡◌, refl, ap, sym, ◌∙◌}
use native.Mathlib.Omega.{arith}

-- The digits of `x ^ y` as the definition counts them, with a count that is large enough.
abbrev xor_digits : ℕ → ℕ → ℕ → ℕ
xor_digits n a b = digits (λ y. y) differ n a b

differ-parity : (a b : ℕ) → differ (a % 2) (b % 2) ≡ (a + b) % 2
differ-parity a b = by_digits (a % 2) (b % 2) (omega arith) (omega arith) ∙ omega arith
  where
    by_digits : (x y : ℕ) → x < 2 → y < 2 → differ x y ≡ (x + y) % 2
    by_digits zero zero p q = refl
    by_digits zero (suc zero) p q = refl
    by_digits (suc zero) zero p q = refl
    by_digits (suc zero) (suc zero) p q = refl
    by_digits (suc (suc x)) y p q = absurd (omega arith)
    by_digits zero (suc (suc y)) p q = absurd (omega arith)
    by_digits (suc zero) (suc (suc y)) p q = absurd (omega arith)

count_free : (n a b : ℕ) → a ≤ n → xor_digits n a b ≡ xor_digits a a b
count_free n a b p = two_counts n a a b p (omega arith)
  where
    two_counts : (n m a b : ℕ) → a ≤ n → a ≤ m → xor_digits n a b ≡ xor_digits m a b
    two_counts zero zero a b p q = refl
    two_counts zero (suc m) zero b p q = refl
    two_counts zero (suc m) (suc a) b p q = absurd (omega arith)
    two_counts (suc n) zero zero b p q = refl
    two_counts (suc n) zero (suc a) b p q = absurd (omega arith)
    two_counts (suc n) (suc m) zero b p q = refl
    two_counts (suc n) (suc m) (suc a) b p q =
        ap (λ (t : ℕ). t * 2 + differ (suc a % 2) (b % 2))
          (two_counts n m (suc a / 2) (b / 2) (omega arith) (omega arith))

pub zero-xor : (b : ℕ) → bit_xor 0 b ≡ b
zero-xor b = bit_xor-bitwise 0 b

pub xor_step : (a b : ℕ) → bit_xor a b ≡ bit_xor (a / 2) (b / 2) * 2 + (a + b) % 2
xor_step zero b = omega (arith, zero-xor b, zero-xor (b / 2))
xor_step (suc a) b = omega (
  arith,
  bit_xor-bitwise (suc a) b,
  bit_xor-bitwise (suc a / 2) (b / 2),
  count_free a (suc a / 2) (b / 2) (omega arith),
  differ-parity (suc a) b,
)

-- The laws, by recursion on a bound of the words.
xor_comm_below : (n a b : ℕ) → a ≤ n → b ≤ n → bit_xor a b ≡ bit_xor b a
xor_comm_below zero zero zero p q = refl
xor_comm_below zero zero (suc b) p q = absurd (omega arith)
xor_comm_below zero (suc a) b p q = absurd (omega arith)
xor_comm_below (suc n) a b p q = omega (
  arith,
  xor_step a b,
  xor_step b a,
  xor_comm_below n (a / 2) (b / 2) (omega arith) (omega arith),
)

pub xor_comm : (a b : ℕ) → bit_xor a b ≡ bit_xor b a
xor_comm a b = xor_comm_below (a + b) a b (omega arith) (omega arith)

xor_assoc_below :
    (n a b c : ℕ) → a ≤ n → b ≤ n → c ≤ n → bit_xor (bit_xor a b) c ≡ bit_xor a (bit_xor b c)
xor_assoc_below zero zero b c p q r = rw (zero-xor b, zero-xor (bit_xor b c)) refl
xor_assoc_below zero (suc a) b c p q r = absurd (omega arith)
xor_assoc_below (suc n) a b c p q r =
    let ih = xor_assoc_below n (a / 2) (b / 2) (c / 2) (omega arith) (omega arith) (omega arith) in
    let left : bit_xor a b / 2 ≡ bit_xor (a / 2) (b / 2) = omega (arith, xor_step a b) in
    let right : bit_xor b c / 2 ≡ bit_xor (b / 2) (c / 2) = omega (arith, xor_step b c) in
    omega (
      arith,
      ih,
      xor_step a b,
      xor_step b c,
      xor_step (bit_xor a b) c,
      xor_step a (bit_xor b c),
      ap (λ (t : ℕ). bit_xor t (c / 2)) left,
      ap (λ (t : ℕ). bit_xor (a / 2) t) right,
    )

pub xor_assoc : (a b c : ℕ) → bit_xor (bit_xor a b) c ≡ bit_xor a (bit_xor b c)
xor_assoc a b c = xor_assoc_below (a + b + c) a b c (omega arith) (omega arith) (omega arith)

xor_self_below : (n a : ℕ) → a ≤ n → bit_xor a a ≡ 0
xor_self_below zero zero p = refl
xor_self_below zero (suc a) p = absurd (omega arith)
xor_self_below (suc n) a p = omega (arith, xor_step a a, xor_self_below n (a / 2) (omega arith))

pub xor_self : (a : ℕ) → bit_xor a a ≡ 0
xor_self a = xor_self_below a a (omega arith)

pub xor-zero : (a : ℕ) → bit_xor a 0 ≡ a
xor-zero a = xor_comm a 0 ∙ zero-xor a

-- `x ^ y ^ y` is `x`, so that words that differ still differ behind the same `^`.
pub xor_twice : (a b : ℕ) → bit_xor (bit_xor a b) b ≡ a
xor_twice a b = xor_assoc a b b ∙ ap (bit_xor a) (xor_self b) ∙ xor-zero a

pub xor_cancel : (a b c : ℕ) → bit_xor a c ≡ bit_xor b c → a ≡ b
xor_cancel a b c e = sym (xor_twice a c) ∙ ap (λ (t : ℕ). bit_xor t c) e ∙ xor_twice b c

pub xor_lt : (n a b : ℕ) → a < 2 ^ n → b < 2 ^ n → bit_xor a b < 2 ^ n
xor_lt zero zero zero p q = omega arith
xor_lt zero zero (suc b) p q = absurd (omega arith)
xor_lt zero (suc a) b p q = absurd (omega arith)
xor_lt (suc n) a b p q =
    omega (arith, xor_step a b, xor_lt n (a / 2) (b / 2) (omega arith) (omega arith))

-- Two fields that do not overlap.
pub xor_fields : (n x y : ℕ) → x < 2 ^ n → bit_xor x (y * 2 ^ n) ≡ x + y * 2 ^ n
xor_fields zero x y p = let none : x ≡ 0 = omega arith in rw none (omega (arith, zero-xor (y * 1)))
xor_fields (suc n) x y p =
    let half : y * 2 ^ suc n / 2 ≡ y * 2 ^ n = omega (arith, ap (λ (t : ℕ). y * t) (pow n)) in
    omega (
      arith,
      xor_step x (y * 2 ^ suc n),
      xor_fields n (x / 2) y (omega arith),
      ap (bit_xor (x / 2)) half,
      ap (λ (t : ℕ). y * t) (pow n),
    )
  where
    pow : (k : ℕ) → 2 ^ suc k ≡ 2 * 2 ^ k
    pow k = omega arith

-- `x & 1`.
no_digits : (n a : ℕ) → digits (λ y. zero) min n a 0 ≡ 0
no_digits zero a = refl
no_digits (suc n) zero = refl
no_digits (suc n) (suc a) = omega (arith, no_digits n (suc a / 2))

pub and-one : (a : ℕ) → bit_and a 1 ≡ a % 2
and-one zero = refl
and-one (suc a) = omega (arith, bit_and-bitwise (suc a) 1, no_digits a (suc a / 2))
