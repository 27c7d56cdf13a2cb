-- ===== src/Bootloader/Tests.antt =====
-- Runs of the checksum and of the header test of src/bootloader/bootloader.c.
use rtos_driver_framework.Base.{
  ℕ, ◌*◌, ◌≡◌, ◌≢◌, refl, true, false, not, some, List, [], ◌∷◌, ◌++◌, map, length, replicate, ap,
  arith, ok, error,
}
use rtos_driver_framework.Bootloader.{
  crc_bit, crc_bits, crc_bytes, crc32_calculate, FirmwareHeader, bootloader_verify_image,
}
use rtos_driver_framework.Bootloader.Division.{
  bits, message_bits, add_leading, remainder, crc32_calculate-remainder,
}
use rtos_driver_framework.Bootloader.Burst.{crc32_calculate_burst}

-- "123456789", whose checksum is the published check value of this code.
abbrev digits : List ℕ
digits = 49 ∷ 50 ∷ 51 ∷ 52 ∷ 53 ∷ 54 ∷ 55 ∷ 56 ∷ 57 ∷ []

check_value : crc32_calculate digits ≡ 0xcbf43926
unfolding crc32_calculate crc_bytes crc_bits crc_bit
check_value = refl

crc32_calculate-remainder_example :
    bits 32 (crc32_calculate digits)
    ≡ map not (
        remainder
          (8 * length digits)
          (add_leading (replicate 32 true) (message_bits digits ++ replicate 32 false)))
crc32_calculate-remainder_example = crc32_calculate-remainder digits (omega arith)

abbrev original : List ℕ
original = 7 ∷ 9 ∷ []

abbrev changed : List ℕ
changed = 9 ∷ 9 ∷ []

original≢changed : original ≢ changed
original≢changed e = omega (arith, ap first e)
  where
    first : List ℕ → ℕ
    first [] = 0
    first (x ∷ xs) = x

crc32_calculate_burst_example :
    crc32_calculate (digits ++ (original ++ digits))
    ≢ crc32_calculate (digits ++ (changed ++ digits))
crc32_calculate_burst_example =
    crc32_calculate_burst digits original changed digits (omega arith) (omega arith) (omega arith)
      (omega arith) refl (omega arith) original≢changed

abbrev header : ℕ → FirmwareHeader
header magic = record { magic = magic; version = 1; size = 9; crc32 = 0; entry_point = 134250496 }

header_run :
    (bootloader_verify_image (some (header 0xdeadc0de)) ≡ ok)
    × (bootloader_verify_image (some (header 7)) ≡ error)
unfolding bootloader_verify_image
header_run = (refl, refl)
