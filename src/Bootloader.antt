-- ===== src/Bootloader.antt =====
-- src/bootloader/bootloader.c: the checksum of a firmware image and the test of its header. The call of
-- the application and what is printed are left out.
pub mod Shift
pub mod Division
pub mod Burst
mod Tests
use Prim.Native.Nat.{bit_and, bit_xor}
use rtos_driver_framework.Base.{
  ℕ, zero, suc, ◌+◌, ◌-◌, ◌*◌, ◌/◌, ◌%◌, not, Option, none, some, List, [], ◌∷◌, ◌==◌,
  if◌then◌else◌, Status, ok, error, invalid_param, u32_mod,
}

abbrev pub polynomial : ℕ
polynomial = 0xedb88320

-- `crc = (crc >> 1) ^ (0xEDB88320 & -(crc & 1))`, where `-` is that of `uint32_t`.
pub crc_bit : ℕ → ℕ
crc_bit crc = bit_xor (crc / 2) (bit_and polynomial ((u32_mod - bit_and crc 1) % u32_mod))

-- The inner loop with `n` rounds left.
pub crc_bits : ℕ → ℕ → ℕ
crc_bits zero crc = crc
crc_bits (suc n) crc = crc_bits n (crc_bit crc)

-- The outer loop.
pub crc_bytes : ℕ → List ℕ → ℕ
crc_bytes crc [] = crc
crc_bytes crc (x ∷ xs) = crc_bytes (crc_bits 8 (bit_xor crc x)) xs

-- `~crc` on 32 bits.
pub crc32_calculate : List ℕ → ℕ
crc32_calculate bytes = u32_mod - 1 - crc_bytes 0xffffffff bytes

-- `firmware_header_t`.
pub record FirmwareHeader : Type 0 where
  pub magic : ℕ
  pub version : ℕ
  pub size : ℕ
  pub crc32 : ℕ
  pub entry_point : ℕ

abbrev pub firmware_magic : ℕ
firmware_magic = 0xdeadc0de

pub bootloader_verify_image : Option FirmwareHeader → Status
bootloader_verify_image none = invalid_param
bootloader_verify_image (some header) = if not (header.magic == firmware_magic) then error else ok
