-- ===== src/Bootloader/Division.antt =====
-- The checksum of src/bootloader/bootloader.c as the remainder of a division of polynomials over two
-- elements. A list of bits holds the coefficients of a polynomial, the highest first.
use Prim.Native.Nat.{bit_xor}
use rtos_driver_framework.Base.{
  ℕ, zero, suc, ◌+◌, ◌-◌, ◌*◌, ◌/◌, ◌%◌, ◌^◌, ◌≤◌, ◌<◌, ◌≡◌, refl, inl, inr, Bool, true, false, not,
  ◌||◌, List, [], ◌∷◌, ◌++◌, map, length, replicate, arith, ◌==◌, if◌then◌else◌, All, ap, ap₂, sym,
  ◌∙◌, append_assoc, Bool-cases,
}
use rtos_driver_framework.Base.Xor.{xor_step, xor_comm, xor-zero}
use rtos_driver_framework.Bootloader.{polynomial, crc_bit, crc_bits, crc_bytes, crc32_calculate}
use rtos_driver_framework.Bootloader.Shift.{
  IsByte, crc_bit_even, crc_bit_odd, little_endian, crc_bytes_lem, crc_bytes-lt,
}

-- The bits of a word as they are sent: the lowest first.
abbrev pub bits : ℕ → ℕ → List Bool
bits zero x = []
bits (suc n) x = (x % 2 == 1) ∷ bits n (x / 2)

abbrev pub message_bits : List ℕ → List Bool
message_bits [] = []
message_bits (x ∷ xs) = bits 8 x ++ message_bits xs

abbrev xor_bit : Bool → Bool → Bool
xor_bit true y = not y
xor_bit false y = y

-- The sum of a polynomial and the leading part of another.
abbrev pub add_leading : List Bool → List Bool → List Bool
add_leading [] ys = ys
add_leading (x ∷ xs) [] = []
add_leading (x ∷ xs) (y ∷ ys) = xor_bit x y ∷ add_leading xs ys

abbrev has : ℕ → List ℕ → Bool
has n [] = false
has n (k ∷ ks) = n == k || has n ks

abbrev coefficients : ℕ → List ℕ → List Bool
coefficients zero exponents = []
coefficients (suc n) exponents = has n exponents ∷ coefficients n exponents

-- The polynomial of IEEE 802.3 behind its leading term of degree 32.
abbrev pub generator : List Bool
generator = coefficients 32 (26 ∷ 23 ∷ 22 ∷ 16 ∷ 12 ∷ 11 ∷ 10 ∷ 8 ∷ 7 ∷ 5 ∷ 4 ∷ 2 ∷ 1 ∷ 0 ∷ [])

-- Long division: `n` times the leading term is taken off, by a subtraction of the divisor if it is there.
abbrev pub remainder : ℕ → List Bool → List Bool
remainder zero p = p
remainder (suc n) [] = []
remainder (suc n) (b ∷ p) = remainder n (if b then add_leading generator p else p)

generator_lem : bits 32 polynomial ≡ generator
generator_lem = refl

bits-zero : (n : ℕ) → bits n 0 ≡ replicate n false
bits-zero zero = refl
bits-zero (suc n) = ap (λ (l : List Bool). false ∷ l) (bits-zero n)

-- `^` with a short word changes the leading bits.
bits-xor :
    (k m a b : ℕ) → k ≤ m → b < 2 ^ k → bits m (bit_xor a b) ≡ add_leading (bits k b) (bits m a)
bits-xor zero m a b short small = let e : b ≡ 0 = omega arith in rw (e, xor-zero a) refl
bits-xor (suc k) zero a b short small = absurd (omega arith)
bits-xor (suc k) (suc m) a b short small =
    ap₂ ◌∷◌ digit (ap (bits m) half ∙ bits-xor k m (a / 2) (b / 2) (omega arith) (omega arith))
  where
    half : bit_xor a b / 2 ≡ bit_xor (a / 2) (b / 2)
    half = omega (arith, xor_step a b)

    digit : (bit_xor a b % 2 == 1) ≡ xor_bit (b % 2 == 1) (a % 2 == 1)
    digit = ground (arith, xor_step a b)

-- A round of the inner loop is a step of the division.
bits-crc_bit :
    (m w : ℕ)
    → 32 ≤ m
    → bits m (crc_bit w)
      ≡ (if w % 2 == 1 then add_leading generator (bits m (w / 2)) else bits m (w / 2))
bits-crc_bit m w long = elim (Bool-cases (w % 2 == 1)) [
  | inl odd ↦ rw odd (
      ap (bits m) (crc_bit_odd w (ground arith))
      ∙ bits-xor 32 m (w / 2) polynomial long (omega arith))
  | inr even ↦ rw even (ap (bits m) (crc_bit_even w (ground arith)))
]

bits-crc_bits : (n m t w : ℕ) → t ≡ n + m → 32 ≤ m → remainder n (bits t w) ≡ bits m (crc_bits n w)
unfolding crc_bits
bits-crc_bits zero m t w e long = ap (λ (k : ℕ). bits k w) (omega arith)
bits-crc_bits (suc n) m zero w e long = absurd (omega arith)
bits-crc_bits (suc n) m (suc t) w e long =
    ap (remainder n) (sym (bits-crc_bit t w (omega arith)))
    ∙ bits-crc_bits n m t (crc_bit w) (omega arith) long

-- A number of two fields.
bits-fields : (n m x y : ℕ) → x < 2 ^ n → bits (n + m) (x + y * 2 ^ n) ≡ bits n x ++ bits m y
bits-fields zero m x y small =
    let count : 0 + m ≡ m = omega arith in
    let word : x + y * 2 ^ 0 ≡ y = omega arith in ap₂ bits count word
bits-fields (suc n) m x y small =
    ap (λ (t : ℕ). bits t (x + y * 2 ^ suc n)) the_sum
    ∙ ap₂ ◌∷◌ digit (ap (bits (n + m)) half ∙ bits-fields n m (x / 2) y (omega arith))
  where
    the_sum : suc n + m ≡ suc (n + m)
    the_sum = omega arith

    pow : 2 ^ suc n ≡ 2 * 2 ^ n
    pow = omega arith

    shape : y * 2 ^ suc n ≡ 2 * (y * 2 ^ n)
    shape = omega (arith, ap (λ (t : ℕ). y * t) pow)

    half : (x + y * 2 ^ suc n) / 2 ≡ x / 2 + y * 2 ^ n
    half = omega (arith, shape)

    digit : ((x + y * 2 ^ suc n) % 2 == 1) ≡ (x % 2 == 1)
    digit = ap (λ (t : ℕ). t == 1) (omega (arith, shape))

bits-little_endian :
    (m : ℕ) (xs : List ℕ)
    → All IsByte xs
    → bits (8 * length xs + m) (little_endian xs) ≡ message_bits xs ++ replicate m false
bits-little_endian m [] bytes =
    let count : 8 * 0 + m ≡ m = omega arith in ap (λ (t : ℕ). bits t 0) count ∙ bits-zero m
bits-little_endian m (x ∷ xs) bytes =
    let l : ℕ = little_endian xs in
    let count : 8 * length (x ∷ xs) + m ≡ 8 + (8 * length xs + m) = omega arith in
    ap (λ (t : ℕ). bits t (x + l * 256)) count
    ∙ bits-fields 8 (8 * length xs + m) x l bytes.0
    ∙ ap (λ (p : List Bool). bits 8 x ++ p) (bits-little_endian m xs bytes.1)
    ∙ sym (append_assoc (bits 8 x) (message_bits xs) (replicate m false))

-- `~` turns every bit.
bits-not : (n c : ℕ) → c < 2 ^ n → bits n (2 ^ n - 1 - c) ≡ map not (bits n c)
bits-not zero c small = refl
bits-not (suc n) c small = ap₂ ◌∷◌ digit (ap (bits n) half ∙ bits-not n (c / 2) (omega arith))
  where
    half : (2 ^ suc n - 1 - c) / 2 ≡ 2 ^ n - 1 - c / 2
    half = omega arith

    turned : (2 ^ suc n - 1 - c) % 2 ≡ 1 - c % 2
    turned = omega arith

    digit : ((2 ^ suc n - 1 - c) % 2 == 1) ≡ not (c % 2 == 1)
    digit = ground (arith, turned)

-- `crc32_calculate` of a message of bytes: its bits are the complement of the remainder of the
-- polynomial of the message, with 32 zeros behind it and its first 32 bits turned, by the polynomial of
-- IEEE 802.3, where each byte is sent from its lowest bit on.
pub crc32_calculate-remainder :
    (xs : List ℕ)
    → All IsByte xs
    → bits 32 (crc32_calculate xs)
      ≡ map not (
          remainder
            (8 * length xs)
            (add_leading (replicate 32 true) (message_bits xs ++ replicate 32 false)))
unfolding crc32_calculate
crc32_calculate-remainder xs bytes =
    let n : ℕ = 8 * length xs in
    let ones : ℕ = 0xffffffff in
    let l : ℕ = little_endian xs in
    let onto : bits (n + 32) (bit_xor ones l) ≡ add_leading (bits 32 ones) (bits (n + 32) l) =
      ap (bits (n + 32)) (xor_comm ones l)
      ∙ bits-xor 32 (n + 32) l ones (omega arith) (omega arith) in
    bits-not 32 (crc_bytes ones xs) (crc_bytes-lt xs ones bytes (omega arith))
    ∙ ap (map not) (
        ap (bits 32) (crc_bytes_lem ones xs bytes)
        ∙ sym (bits-crc_bits n 32 (n + 32) (bit_xor ones l) refl (omega arith))
        ∙ ap (remainder n)
            (onto ∙ ap (add_leading (replicate 32 true)) (bits-little_endian 32 xs bytes)))
