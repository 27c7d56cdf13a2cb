-- ===== src/Bootloader/Burst.antt =====
-- Errors that the checksum of src/bootloader/bootloader.c finds.
use Prim.Native.Nat.{bit_xor}
use rtos_driver_framework.Base.{
  ℕ, zero, suc, ◌*◌, ◌/◌, ◌%◌, ◌^◌, ◌≤◌, ◌<◌, ◌≡◌, ◌≢◌, refl, inl, inr, true, false, List, [], ◌∷◌,
  ◌++◌, length, arith, ◌==◌, All, ap, ap₂, sym, ◌∙◌, Bool-cases, u32_mod,
}
use rtos_driver_framework.Base.Xor.{xor_comm, xor_cancel, xor_twice, xor_lt}
use rtos_driver_framework.Bootloader.{polynomial, crc_bit, crc_bits, crc_bytes, crc32_calculate}
use rtos_driver_framework.Bootloader.Shift.{
  IsByte, crc_bit_even, crc_bit_odd, crc_bit-lt, crc_bits-lt, little_endian, crc_bytes_lem,
  crc_bytes-lt,
}

-- The polynomial has a top bit, so a shift with the polynomial and one without differ.
apart : (a b : ℕ) → a < 2 ^ 31 → b < 2 ^ 31 → bit_xor a polynomial ≢ b
apart a b p q e = absurd (omega (arith, found, xor_lt 31 b a q p))
  where
    found : polynomial ≡ bit_xor b a
    found =
        sym (xor_twice polynomial a)
        ∙ ap (λ (t : ℕ). bit_xor t a) (xor_comm polynomial a)
        ∙ ap (λ (t : ℕ). bit_xor t a) e

zero_of : (a : ℕ) → (a % 2 == 0) ≡ true → a % 2 ≡ 0
zero_of a e = ground arith

one_of : (a : ℕ) → (a % 2 == 0) ≡ false → a % 2 ≡ 1
one_of a e = ground arith

crc_bit_injective : (c d : ℕ) → c < u32_mod → d < u32_mod → crc_bit c ≡ crc_bit d → c ≡ d
crc_bit_injective c d p q e = elim (Bool-cases (c % 2 == 0)) [
  | inl x ↦ elim (Bool-cases (d % 2 == 0)) [
    | inl y ↦ omega (
      arith,
      crc_bit_even c (zero_of c x),
      crc_bit_even d (zero_of d y),
      zero_of c x,
      zero_of d y,
    )
    | inr y ↦ absurd (
        apart (d / 2) (c / 2) (omega arith) (omega arith)
          (sym (crc_bit_odd d (one_of d y)) ∙ sym e ∙ crc_bit_even c (zero_of c x)))
  ]
  | inr x ↦ elim (Bool-cases (d % 2 == 0)) [
    | inl y ↦ absurd (
        apart (c / 2) (d / 2) (omega arith) (omega arith)
          (sym (crc_bit_odd c (one_of c x)) ∙ e ∙ crc_bit_even d (zero_of d y)))
    | inr y ↦
        let same =
          xor_cancel (c / 2) (d / 2) polynomial
            (sym (crc_bit_odd c (one_of c x)) ∙ e ∙ crc_bit_odd d (one_of d y)) in
        omega (arith, same, one_of c x, one_of d y)
  ]
]

crc_bits_injective : (n c d : ℕ) → c < u32_mod → d < u32_mod → crc_bits n c ≡ crc_bits n d → c ≡ d
unfolding crc_bits
crc_bits_injective zero c d p q e = e
crc_bits_injective (suc n) c d p q e =
    crc_bit_injective c d p q
      (crc_bits_injective n (crc_bit c) (crc_bit d) (crc_bit-lt c p) (crc_bit-lt d q) e)

-- Registers that differ still differ behind the same bytes.
crc_bytes_injective :
    (xs : List ℕ) (c d : ℕ)
    → All IsByte xs
    → c < u32_mod
    → d < u32_mod
    → crc_bytes c xs ≡ crc_bytes d xs
    → c ≡ d
unfolding crc_bytes
crc_bytes_injective [] c d bytes p q e = e
crc_bytes_injective (x ∷ xs) c d bytes p q e =
    let p' = xor_lt 32 c x p (omega (arith, bytes.0)) in
    let q' = xor_lt 32 d x q (omega (arith, bytes.0)) in
    xor_cancel c d x (
      crc_bits_injective 8 (bit_xor c x) (bit_xor d x) p' q' (
        crc_bytes_injective xs (crc_bits 8 (bit_xor c x)) (crc_bits 8 (bit_xor d x)) bytes.1
          (crc_bits-lt 8 (bit_xor c x) p') (crc_bits-lt 8 (bit_xor d x) q') e))

little_endian-lt : (xs : List ℕ) → All IsByte xs → length xs ≤ 4 → little_endian xs < u32_mod
little_endian-lt [] bytes short = omega arith
little_endian-lt (a ∷ []) bytes short = omega arith
little_endian-lt (a ∷ b ∷ []) bytes short = omega arith
little_endian-lt (a ∷ b ∷ c ∷ []) bytes short = omega arith
little_endian-lt (a ∷ b ∷ c ∷ d ∷ []) bytes short = omega arith
little_endian-lt (a ∷ b ∷ c ∷ d ∷ e ∷ xs) bytes short = absurd (omega arith)

little_endian_injective :
    (xs ys : List ℕ)
    → All IsByte xs
    → All IsByte ys
    → length xs ≡ length ys
    → little_endian xs ≡ little_endian ys
    → xs ≡ ys
little_endian_injective [] [] bx by same e = refl
little_endian_injective [] (y ∷ ys) bx by same e = absurd (omega arith)
little_endian_injective (x ∷ xs) [] bx by same e = absurd (omega arith)
little_endian_injective (x ∷ xs) (y ∷ ys) bx by same e =
    ap₂ ◌∷◌ (omega (arith, bx.0, by.0, e))
      (little_endian_injective xs ys bx.1 by.1 (omega (arith, same)) (omega (arith, bx.0, by.0, e)))

crc_bytes-append :
    (xs ys : List ℕ) (crc : ℕ) → crc_bytes crc (xs ++ ys) ≡ crc_bytes (crc_bytes crc xs) ys
unfolding crc_bytes
crc_bytes-append [] ys crc = refl
crc_bytes-append (x ∷ xs) ys crc = crc_bytes-append xs ys (crc_bits 8 (bit_xor crc x))

All-append_left : (xs ys : List ℕ) → All IsByte (xs ++ ys) → All IsByte xs
All-append_left [] ys bytes = tt
All-append_left (x ∷ xs) ys bytes = (bytes.0, All-append_left xs ys bytes.1)

-- Two images of bytes that differ only within a stretch of at most four bytes have different checksums.
pub crc32_calculate_burst :
    (before xs ys after : List ℕ)
    → All IsByte before
    → All IsByte xs
    → All IsByte ys
    → All IsByte after
    → length xs ≡ length ys
    → length xs ≤ 4
    → xs ≢ ys
    → crc32_calculate (before ++ (xs ++ after)) ≢ crc32_calculate (before ++ (ys ++ after))
unfolding crc32_calculate
crc32_calculate_burst before xs ys after b bx by a same short ne e =
    ne (little_endian_injective xs ys bx by same words)
  where
    c : ℕ
    c = crc_bytes 0xffffffff before

    c_small : c < u32_mod
    c_small = crc_bytes-lt before 0xffffffff b (omega arith)

    split :
        (zs : List ℕ)
        → crc_bytes 0xffffffff (before ++ (zs ++ after)) ≡ crc_bytes (crc_bytes c zs) after
    split zs = crc_bytes-append before (zs ++ after) 0xffffffff ∙ crc_bytes-append zs after c

    x_small : crc_bytes c xs < u32_mod
    x_small = crc_bytes-lt xs c bx c_small

    y_small : crc_bytes c ys < u32_mod
    y_small = crc_bytes-lt ys c by c_small

    ends : crc_bytes (crc_bytes c xs) after ≡ crc_bytes (crc_bytes c ys) after
    ends = omega (
      arith,
      e,
      split xs,
      split ys,
      crc_bytes-lt after (crc_bytes c xs) a x_small,
      crc_bytes-lt after (crc_bytes c ys) a y_small,
    )

    middle :
        crc_bits (8 * length xs) (bit_xor c (little_endian xs))
        ≡ crc_bits (8 * length xs) (bit_xor c (little_endian ys))
    middle =
        sym (crc_bytes_lem c xs bx)
        ∙ crc_bytes_injective after (crc_bytes c xs) (crc_bytes c ys) a x_small y_small ends
        ∙ crc_bytes_lem c ys by
        ∙ ap (λ (t : ℕ). crc_bits (8 * t) (bit_xor c (little_endian ys))) (sym same)

    lx : little_endian xs < u32_mod
    lx = little_endian-lt xs bx short

    ly : little_endian ys < u32_mod
    ly = little_endian-lt ys by (omega (arith, same, short))

    words : little_endian xs ≡ little_endian ys
    words = xor_cancel (little_endian xs) (little_endian ys) c (
        xor_comm (little_endian xs) c
        ∙ crc_bits_injective (8 * length xs) (bit_xor c (little_endian xs))
            (bit_xor c (little_endian ys)) (xor_lt 32 c (little_endian xs) c_small lx)
            (xor_lt 32 c (little_endian ys) c_small ly) middle
        ∙ xor_comm c (little_endian ys))
