-- ===== src/Drivers/Spi/Ends.antt =====
-- `spi_write` and `spi_read` of src/drivers/spi_driver.c: their buffers on the stack hold 256 bytes.
use rtos_driver_framework.Base.{
  ℕ, zero, suc, ◌-◌, ◌≤◌, ◌<◌, ◌≡◌, ◌≢◌, refl, inl, inr, true, none, some, List, ◌∷◌, ◌++◌, map,
  length, take, drop, replicate, arith, ap, ◌∙◌, ok,
}
use rtos_driver_framework.Drivers.Spi.{SpiHandle, dummy_tx, spi_write, spi_read}
use rtos_driver_framework.Drivers.Spi.Transfer.{
  turn, transfer_by, spi_transfer_lem, loop_back_overrun,
}

turned_zeros : (n m : ℕ) → n ≤ m → map turn (take n (replicate m 0)) ≡ replicate n 255
turned_zeros zero m a = refl
turned_zeros (suc n) zero a = absurd (omega arith)
turned_zeros (suc n) (suc m) a = ap (λ (l : List ℕ). 255 ∷ l) (turned_zeros n m (omega arith))

sent : (len : ℕ) → len ≢ 0 → len ≤ 256 → map turn (take len dummy_tx) ≡ 0 ∷ replicate (len - 1) 255
sent zero ne a = absurd (ne refl)
sent (suc n) ne a =
    ap (λ (l : List ℕ). 0 ∷ l)
      (turned_zeros n 255 (omega arith) ∙ ap (λ (k : ℕ). replicate k 255) (omega arith))

module _ (spi : SpiHandle) (len : ℕ) (on : spi.initialized ≡ true) (ne : len ≢ 0) where
  -- `spi_write` of at least one byte through an initialised handle succeeds up to 256 bytes, and writes
  -- behind the end of its buffer on the stack beyond that.
  pub spi_write_lem :
      (dummy bytes : List ℕ)
      → length dummy ≡ 256
      → len ≤ length bytes
      → (len ≤ 256 → spi_write dummy (some spi) (some bytes) len ≡ some ok)
        × (256 < len → spi_write dummy (some spi) (some bytes) len ≡ none)
  unfolding spi_write
  spi_write_lem dummy bytes size a = (
    λ small. rw (spi_transfer_lem spi on bytes dummy len ne a (omega arith)) refl,
    λ big.
        rw
          (
            transfer_by spi on bytes dummy len ne,
            loop_back_overrun len bytes dummy (inr (omega arith)),
          )
          refl,
  )

  -- `spi_read` of at least one byte through an initialised handle gives, up to 256 bytes, a byte 0 and
  -- then bytes 255, since only the first byte sent is 255; beyond 256 bytes it reads behind the end of
  -- its buffer on the stack.
  pub spi_read_lem :
      (buffer : List ℕ)
      → len ≤ length buffer
      → (len ≤ 256
          → spi_read (some spi) (some buffer) len
            ≡ some (ok, some ((0 ∷ replicate (len - 1) 255) ++ drop len buffer)))
        × (256 < len → spi_read (some spi) (some buffer) len ≡ none)
  unfolding spi_read
  spi_read_lem buffer a = (
    λ small.
        spi_transfer_lem spi on dummy_tx buffer len ne (omega arith) a
        ∙ ap (λ (l : List ℕ). some (ok, some (l ++ drop len buffer))) (sent len ne small),
    λ big.
        rw
          (
            transfer_by spi on dummy_tx buffer len ne,
            loop_back_overrun len dummy_tx buffer (inl (omega arith)),
          )
          refl,
  )
