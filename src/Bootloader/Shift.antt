-- ===== src/Bootloader/Shift.antt =====
-- The checksum loop of src/bootloader/bootloader.c as one shift register: to feed a message byte by byte
-- is to xor the whole message onto the register and then to shift.
use Prim.Native.Nat.{bit_xor}
use rtos_driver_framework.Base.{
  ℕ, zero, suc, ◌+◌, ◌*◌, ◌/◌, ◌%◌, ◌^◌, ◌<◌, ◌≡◌, refl, inl, inr, true, false, List, [], ◌∷◌,
  length, arith, ◌==◌, All, ap, sym, ◌∙◌, Bool-cases, u32_mod,
}
use rtos_driver_framework.Base.Xor.{
  xor_lt, xor_step, xor_comm, xor_assoc, xor-zero, xor_fields, and-one,
}
use rtos_driver_framework.Bootloader.{polynomial, crc_bit, crc_bits, crc_bytes}

abbrev pub IsByte : ℕ → Type 0
IsByte x = x < 256

pub crc_bit_even : (crc : ℕ) → crc % 2 ≡ 0 → crc_bit crc ≡ crc / 2
unfolding crc_bit
crc_bit_even crc e = rw (and-one crc, e) (xor-zero (crc / 2))

pub crc_bit_odd : (crc : ℕ) → crc % 2 ≡ 1 → crc_bit crc ≡ bit_xor (crc / 2) polynomial
unfolding crc_bit
crc_bit_odd crc e = rw (and-one crc, e) refl

-- A word whose last digit is 0 passes through a shift.
crc_bit-xor : (a y : ℕ) → crc_bit (bit_xor a (y * 2)) ≡ bit_xor (crc_bit a) y
crc_bit-xor a y = elim (Bool-cases (a % 2 == 0)) [
  | inl even ↦
      crc_bit_even word (omega (arith, digit, zero_of even))
      ∙ half
      ∙ ap (λ (t : ℕ). bit_xor t y) (sym (crc_bit_even a (zero_of even)))
  | inr odd ↦
      crc_bit_odd word (omega (arith, digit, one_of odd))
      ∙ ap (λ (t : ℕ). bit_xor t polynomial) half
      ∙ xor_assoc (a / 2) y polynomial
      ∙ ap (bit_xor (a / 2)) (xor_comm y polynomial)
      ∙ sym (xor_assoc (a / 2) polynomial y)
      ∙ ap (λ (t : ℕ). bit_xor t y) (sym (crc_bit_odd a (one_of odd)))
]
  where
    word : ℕ
    word = bit_xor a (y * 2)

    halves : bit_xor (a / 2) (y * 2 / 2) ≡ bit_xor (a / 2) y
    halves = ap (bit_xor (a / 2)) (omega arith)

    digit : word % 2 ≡ a % 2
    digit = omega (arith, xor_step a (y * 2))

    half : word / 2 ≡ bit_xor (a / 2) y
    half = omega (arith, xor_step a (y * 2), halves)

    zero_of : (a % 2 == 0) ≡ true → a % 2 ≡ 0
    zero_of e = ground arith

    one_of : (a % 2 == 0) ≡ false → a % 2 ≡ 1
    one_of e = ground arith

crc_bits-xor : (n a y : ℕ) → crc_bits n (bit_xor a (y * 2 ^ n)) ≡ bit_xor (crc_bits n a) y
unfolding crc_bits
crc_bits-xor zero a y = ap (bit_xor a) (omega arith)
crc_bits-xor (suc n) a y =
    ap (λ (t : ℕ). crc_bits n (crc_bit (bit_xor a t))) (shape n)
    ∙ ap (crc_bits n) (crc_bit-xor a (y * 2 ^ n))
    ∙ crc_bits-xor n (crc_bit a) y
  where
    shape : (n : ℕ) → y * 2 ^ suc n ≡ y * 2 ^ n * 2
    shape n = omega (arith, ap (λ (t : ℕ). y * t) (pow n))
      where
        pow : (k : ℕ) → 2 ^ suc k ≡ 2 * 2 ^ k
        pow k = omega arith

crc_bits-add : (n m a : ℕ) → crc_bits (n + m) a ≡ crc_bits m (crc_bits n a)
unfolding crc_bits
crc_bits-add zero m a = let e : 0 + m ≡ m = omega arith in ap (λ (t : ℕ). crc_bits t a) e
crc_bits-add (suc n) m a = ap (λ (t : ℕ). crc_bits t a) (the_sum n) ∙ crc_bits-add n m (crc_bit a)
  where
    the_sum : (n : ℕ) → suc n + m ≡ suc (n + m)
    the_sum n = omega arith

-- The message as one number, its first byte lowest.
abbrev pub little_endian : List ℕ → ℕ
little_endian [] = 0
little_endian (x ∷ xs) = x + little_endian xs * 256

pub crc_bytes_lem :
    (crc : ℕ) (xs : List ℕ)
    → All IsByte xs
    → crc_bytes crc xs ≡ crc_bits (8 * length xs) (bit_xor crc (little_endian xs))
unfolding crc_bytes crc_bits
crc_bytes_lem crc [] bytes = sym (xor-zero crc)
crc_bytes_lem crc (x ∷ xs) bytes =
    let l : ℕ = little_endian xs in
    let rounds : 8 + 8 * length xs ≡ 8 * length (x ∷ xs) = omega arith in
    let ih = crc_bytes_lem (crc_bits 8 (bit_xor crc x)) xs bytes.1 in
    let shifted = crc_bits-xor 8 (bit_xor crc x) l in
    let fields = xor_assoc crc x (l * 256) ∙ ap (bit_xor crc) (xor_fields 8 x l bytes.0) in
    ih
    ∙ ap (crc_bits (8 * length xs)) (sym shifted ∙ ap (crc_bits 8) fields)
    ∙ sym (crc_bits-add 8 (8 * length xs) (bit_xor crc (x + l * 256)))
    ∙ ap (λ (t : ℕ). crc_bits t (bit_xor crc (x + l * 256))) rounds

-- The register stays a word of 32 bits.
pub crc_bit-lt : (crc : ℕ) → crc < u32_mod → crc_bit crc < u32_mod
crc_bit-lt crc small = elim (Bool-cases (crc % 2 == 0)) [
  | inl even ↦ omega (arith, crc_bit_even crc (ground arith))
  | inr odd ↦ omega (
    arith,
    crc_bit_odd crc (ground arith),
    xor_lt 32 (crc / 2) polynomial (omega arith) (omega arith),
  )
]

pub crc_bits-lt : (n crc : ℕ) → crc < u32_mod → crc_bits n crc < u32_mod
unfolding crc_bits
crc_bits-lt zero crc small = small
crc_bits-lt (suc n) crc small = crc_bits-lt n (crc_bit crc) (crc_bit-lt crc small)

pub crc_bytes-lt :
    (xs : List ℕ) (crc : ℕ) → All IsByte xs → crc < u32_mod → crc_bytes crc xs < u32_mod
unfolding crc_bytes
crc_bytes-lt [] crc bytes small = small
crc_bytes-lt (x ∷ xs) crc bytes small =
    crc_bytes-lt xs (crc_bits 8 (bit_xor crc x)) bytes.1
      (crc_bits-lt 8 (bit_xor crc x) (xor_lt 32 crc x small (omega (arith, bytes.0))))
