-- ===== src/Drivers/I2c/Transfer.antt =====
-- The outcomes of the transfers of src/drivers/i2c_driver.c and of the bus scan.
use rtos_driver_framework.Base.{
  ℕ, zero, suc, ◌+◌, ◌%◌, ◌≤◌, ◌<◌, ◌≡◌, refl, ◌⊎◌, inl, inr, Bool, true, false, Option, none, some,
  List, [], ◌∷◌, length, get_elem?, drop, arith, ap, ◌∙◌, ok, busy,
}
use rtos_driver_framework.Drivers.I2c.{
  I2cHandle, start_transfer, end_transfer, readable, fill, fill_at, i2c_master_write_read,
  scan_addresses, i2c_scan_bus,
}

-- The first `n` bytes count up from `base + i`, and the others are those of the buffer.
pub record Filled (base i n : ℕ) (buffer r : List ℕ) : Type 0 where
  pub size : length r ≡ length buffer
  pub counted : (k : ℕ) → k < n → get_elem? r k ≡ some ((base + (i + k)) % 256)
  pub rest : (k : ℕ) → n ≤ k → get_elem? r k ≡ get_elem? buffer k

fill_lem :
    (base i n : ℕ) (buffer : List ℕ)
    → n ≤ length buffer
    → (r : List ℕ) × (fill base i n buffer ≡ some r) × Filled base i n buffer r
unfolding fill
fill_lem base i zero buffer fits = (
  buffer,
  refl,
  record { size = refl; counted = λ k u. absurd (omega arith); rest = λ k u. refl },
)
fill_lem base i (suc n) [] fits = absurd (omega arith)
fill_lem base i (suc n) (y ∷ buffer) fits =
    let (r, e, f) = fill_lem base (i + 1) n buffer (omega arith) in
    (
      (base + i) % 256 ∷ r,
      rw e refl,
      record { size = ap suc f.size; counted = first r f; rest = behind r f },
    )
  where
    first :
        (r : List ℕ)
        → Filled base (i + 1) n buffer r
        → (k : ℕ) → k < suc n
        → get_elem? ((base + i) % 256 ∷ r) k ≡ some ((base + (i + k)) % 256)
    first r f zero u = ap (λ (t : ℕ). some (t % 256)) (omega arith)
    first r f (suc k) u = f.counted k (omega arith) ∙ ap (λ (t : ℕ). some (t % 256)) (omega arith)

    behind :
        (r : List ℕ)
        → Filled base (i + 1) n buffer r
        → (k : ℕ) → suc n ≤ k
        → get_elem? ((base + i) % 256 ∷ r) k ≡ get_elem? (y ∷ buffer) k
    behind r f zero u = absurd (omega arith)
    behind r f (suc k) u = f.rest k (omega arith)

fill_overrun : (base i n : ℕ) (buffer : List ℕ) → length buffer < n → fill base i n buffer ≡ none
unfolding fill
fill_overrun base i zero buffer short = absurd (omega arith)
fill_overrun base i (suc n) [] short = refl
fill_overrun base i (suc n) (y ∷ buffer) short =
    rw (fill_overrun base (i + 1) n buffer (omega arith)) refl

fill_at_overrun :
    (base n : ℕ) (buffer : Option (List ℕ))
    → readable buffer n ≡ false
    → fill_at base n buffer ≡ none
unfolding fill_at
fill_at_overrun base zero none short = cc
fill_at_overrun base (suc n) none short = refl
fill_at_overrun base n (some buffer) short = rw (fill_overrun base 0 n buffer (ground arith)) refl

fill_at_lem :
    (base n : ℕ) (buffer : List ℕ)
    → n ≤ length buffer
    → (r : List ℕ) × (fill_at base n (some buffer) ≡ some (some r)) × Filled base 0 n buffer r
unfolding fill_at
fill_at_lem base n buffer fits = let (r, e, f) = fill_lem base 0 n buffer fits in (r, rw e refl, f)

unmoved : (i2c : I2cHandle) → i2c.in_use ≡ false → end_transfer (start_transfer i2c) ≡ i2c
unmoved i2c idle = ground (arith, idle)

module _ (i2c : I2cHandle) (on : i2c.initialized ≡ true) where
  -- `i2c_master_write_read` through an initialised handle. A handle in use gives the busy status and
  -- changes nothing. Otherwise the call succeeds if both buffers are large enough: the bytes read are
  -- those of the simulation, the rest of the buffer stays, and the handle is free again. It does not test
  -- its two pointers: NULL for a positive length, or a buffer that is too short, is undefined behaviour.
  pub i2c_master_write_read_lem :
      (write_data : Option (List ℕ)) (write_len read_len : ℕ)
      → (i2c.in_use ≡ true
          → (buffer : Option (List ℕ))
          → i2c_master_write_read (some i2c) write_data write_len buffer read_len
            ≡ some (busy, some i2c, buffer))
        × (i2c.in_use ≡ false
            → (buffer : List ℕ) → readable write_data write_len ≡ true
            → read_len ≤ length buffer
            → (r : List ℕ) × (i2c_master_write_read
                  (some i2c)
                  write_data
                  write_len
                  (some buffer)
                  read_len
                ≡ some (ok, some i2c, some r))
              × Filled 0xbb 0 read_len buffer r)
        × (i2c.in_use ≡ false
            → (buffer : Option (List ℕ))
            → (readable write_data write_len ≡ false) ⊎ (readable buffer read_len ≡ false)
            → i2c_master_write_read (some i2c) write_data write_len buffer read_len ≡ none)
  unfolding i2c_master_write_read
  i2c_master_write_read_lem write_data write_len read_len = (
    λ used buffer. ground (arith, on, used),
    λ idle buffer fits_write fits_read.
        let (r, e, f) = fill_at_lem 0xbb read_len buffer fits_read in
        (r, ground (arith, e, unmoved i2c idle), f),
    λ idle buffer short. short_call idle buffer (readable write_data write_len) refl short,
  )
    where
      short_call :
          i2c.in_use ≡ false
          → (buffer : Option (List ℕ)) (can : Bool) → readable write_data write_len ≡ can
          → (can ≡ false) ⊎ (readable buffer read_len ≡ false)
          → i2c_master_write_read (some i2c) write_data write_len buffer read_len ≡ none
      short_call idle buffer false e short = ground (arith, on, idle, e)
      short_call idle buffer true e (inl z) = cc
      short_call idle buffer true e (inr z) =
          ground (arith, on, idle, e, fill_at_overrun 0xbb read_len buffer z)

-- The bus scan through an initialised handle finds the addresses 0x50, 0x68 and 0x77, in this order, and
-- leaves the rest of the buffer; a buffer of fewer than three bytes is written behind its end.
pub i2c_scan_bus_lem :
    (i2c : I2cHandle) (found : List ℕ) (count : ℕ)
    → i2c.initialized ≡ true
    → (3 ≤ length found
        → i2c_scan_bus (some i2c) (some found) (some count)
          ≡ some (ok, some (0x50 ∷ 0x68 ∷ 0x77 ∷ drop 3 found), some 3))
      × (length found < 3 → i2c_scan_bus (some i2c) (some found) (some count) ≡ none)
unfolding i2c_scan_bus scan_addresses
i2c_scan_bus_lem i2c [] count on = (λ h. absurd (omega arith), λ h. rw on refl)
i2c_scan_bus_lem i2c (a ∷ []) count on = (λ h. absurd (omega arith), λ h. rw on refl)
i2c_scan_bus_lem i2c (a ∷ b ∷ []) count on = (λ h. absurd (omega arith), λ h. rw on refl)
i2c_scan_bus_lem i2c (a ∷ b ∷ c ∷ found) count on = (λ h. rw on refl, λ h. absurd (omega arith))
