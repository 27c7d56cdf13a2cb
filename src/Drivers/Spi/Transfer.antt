-- ===== src/Drivers/Spi/Transfer.antt =====
-- Transfers through an initialised handle of src/drivers/spi_driver.c.
use Prim.Native.Nat.{bit_xor}
use rtos_driver_framework.Base.{
  ℕ, zero, suc, ◌≤◌, ◌<◌, ◌≡◌, ◌≢◌, refl, true, none, some, List, [], ◌∷◌, ◌++◌, map, length, take,
  drop, arith, ap, ap₂, ◌∙◌, ◌⊎◌, inl, inr, Option-cases, ◌>>=◌, ok,
}
use rtos_driver_framework.Base.Xor.{xor_twice}
use rtos_driver_framework.Drivers.Spi.{SpiHandle, loop_back, transfer_bytes, spi_transfer}

abbrev pub turn : ℕ → ℕ
turn x = bit_xor x 0xff

pub loop_back_lem :
    (n : ℕ) (tx rx : List ℕ)
    → n ≤ length tx
    → n ≤ length rx
    → loop_back n tx rx ≡ some (map turn (take n tx) ++ drop n rx)
unfolding loop_back
loop_back_lem zero tx rx a b = refl
loop_back_lem (suc n) [] rx a b = absurd (omega arith)
loop_back_lem (suc n) (x ∷ tx) [] a b = absurd (omega arith)
loop_back_lem (suc n) (x ∷ tx) (y ∷ rx) a b =
    rw (loop_back_lem n tx rx (omega arith) (omega arith)) refl

-- An access behind the end of a buffer.
pub loop_back_overrun :
    (n : ℕ) (tx rx : List ℕ) → (length tx < n) ⊎ (length rx < n) → loop_back n tx rx ≡ none
unfolding loop_back
loop_back_overrun zero tx rx (inl a) = absurd (omega arith)
loop_back_overrun zero tx rx (inr b) = absurd (omega arith)
loop_back_overrun (suc n) [] rx short = refl
loop_back_overrun (suc n) (x ∷ tx) [] short = refl
loop_back_overrun (suc n) (x ∷ tx) (y ∷ rx) (inl a) =
    rw (loop_back_overrun n tx rx (inl (omega (arith, a)))) refl
loop_back_overrun (suc n) (x ∷ tx) (y ∷ rx) (inr b) =
    rw (loop_back_overrun n tx rx (inr (omega (arith, b)))) refl

module _ (spi : SpiHandle) (open_handle : spi.initialized ≡ true) where
  pub transfer_by :
      (tx rx : List ℕ) (len : ℕ)
      → len ≢ 0
      → spi_transfer (some spi) (some tx) (some rx) len
        ≡ (do r ← loop_back len tx rx; some (ok, some r))
  unfolding spi_transfer transfer_bytes
  transfer_by tx rx zero ne = absurd (ne refl)
  transfer_by tx rx (suc n) ne = elim (Option-cases (loop_back (suc n) tx rx)) [
    | inl e ↦ ground (arith, open_handle, e)
    | inr (r, e) ↦ ground (arith, open_handle, e)
  ]

  pub spi_transfer_lem :
      (tx rx : List ℕ) (len : ℕ)
      → len ≢ 0
      → len ≤ length tx
      → len ≤ length rx
      → spi_transfer (some spi) (some tx) (some rx) len
        ≡ some (ok, some (map turn (take len tx) ++ drop len rx))
  spi_transfer_lem tx rx len ne a b =
      transfer_by tx rx len ne ∙ rw (loop_back_lem len tx rx a b) refl

turned_twice :
    (n : ℕ) (tx rx : List ℕ)
    → n ≤ length tx
    → map turn (take n (map turn (take n tx) ++ rx)) ≡ take n tx
turned_twice zero tx rx a = refl
turned_twice (suc n) [] rx a = absurd (omega arith)
turned_twice (suc n) (x ∷ tx) rx a = ap₂ ◌∷◌ (xor_twice x 0xff) (turned_twice n tx rx (omega arith))

length-received : (n : ℕ) (tx rx : List ℕ) → n ≤ length tx → n ≤ length (map turn (take n tx) ++ rx)
length-received zero tx rx a = omega arith
length-received (suc n) [] rx a = absurd (omega arith)
length-received (suc n) (x ∷ tx) rx a = omega (arith, length-received n tx rx (omega arith))

-- Through an initialised handle, a transfer of what a transfer of at least one byte has received gives
-- back the bytes that were sent, and leaves the rest of both receive buffers as it was.
pub spi_transfer_twice :
    (spi : SpiHandle) (tx rx rx' : List ℕ) (len : ℕ)
    → spi.initialized ≡ true
    → len ≢ 0
    → len ≤ length tx
    → len ≤ length rx
    → len ≤ length rx'
    → (r : List ℕ) × (spi_transfer (some spi) (some tx) (some rx) len ≡ some (ok, some r))
      × (spi_transfer (some spi) (some r) (some rx') len
          ≡ some (ok, some (take len tx ++ drop len rx')))
      × (drop len r ≡ drop len rx)
spi_transfer_twice spi tx rx rx' len on ne a b c = (
  map turn (take len tx) ++ drop len rx,
  spi_transfer_lem spi on tx rx len ne a b,
  spi_transfer_lem spi on (map turn (take len tx) ++ drop len rx) rx' len ne
        (length-received len tx (drop len rx) a) c
      ∙ ap (λ (l : List ℕ). some (ok, some (l ++ drop len rx')))
          (turned_twice len tx (drop len rx) a),
  drop-received len tx (drop len rx) a,
)
  where
    drop-received :
        (n : ℕ) (tx rest : List ℕ) → n ≤ length tx → drop n (map turn (take n tx) ++ rest) ≡ rest
    drop-received zero tx rest a = refl
    drop-received (suc n) [] rest a = absurd (omega arith)
    drop-received (suc n) (x ∷ tx) rest a = drop-received n tx rest (omega arith)
