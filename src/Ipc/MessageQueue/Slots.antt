-- ===== src/Ipc/MessageQueue/Slots.antt =====
-- Messages in the buffer of src/ipc/message_queue.c: copying one in and out, and the other slots.
use rtos_driver_framework.Base.{
  ℕ, zero, suc, ◌+◌, ◌-◌, ◌*◌, ◌≤◌, ◌<◌, ◌≡◌, ◌≢◌, refl, List, [], ◌∷◌, arith, length, get_or, ap,
  ap₂, ◌∙◌,
}
use native.Mathlib.Decide.{dec_lt}
use native.Mathlib.Nat.{mul-le-mul_right}
use rtos_driver_framework.Ipc.MessageQueue.{copy_in, copy_out}

copy_out-congr :
    (f g : ℕ → ℕ) (at n : ℕ)
    → ((a : ℕ) → at ≤ a → a < at + n → f a ≡ g a)
    → copy_out f at n ≡ copy_out g at n
unfolding copy_out
copy_out-congr f g at zero h = refl
copy_out-congr f g at (suc n) h =
    ap₂ ◌∷◌ (h at (omega arith) (omega arith))
      (copy_out-congr f g (at + 1) n (λ a lo hi. h a (omega arith) (omega arith)))

copy_out-read :
    (g : ℕ → ℕ) (at : ℕ) (msg : List ℕ)
    → ((a : ℕ) → at ≤ a → a < at + length msg → g a ≡ get_or msg (a - at) 0)
    → copy_out g at (length msg) ≡ msg
unfolding copy_out
copy_out-read g at [] h = refl
copy_out-read g at (x ∷ xs) h =
    ap₂ ◌∷◌ (h at (omega arith) (omega arith) ∙ ap (λ k. get_or (x ∷ xs) k 0) here) (
      copy_out-read g (at + 1) xs
        λ a lo hi. h a (omega arith) (omega arith) ∙ ap (λ k. get_or (x ∷ xs) k 0) (next a lo))
  where
    here : at - at ≡ 0
    here = omega arith

    next : (a : ℕ) → at + 1 ≤ a → a - at ≡ suc (a - (at + 1))
    next a lo = omega arith

-- A message that is copied in is read back whole.
pub copy_out-copy_in :
    (f : ℕ → ℕ) (at : ℕ) (msg : List ℕ) → copy_out (copy_in f at msg) at (length msg) ≡ msg
unfolding copy_in
copy_out-copy_in f at msg = copy_out-read (copy_in f at msg) at msg (λ a lo hi. ground arith)

-- Slots of one size do not overlap.
slot_end : (i j size : ℕ) → i < j → i * size + size ≤ j * size
slot_end i j size h = omega (arith, scaled)
  where
    scaled : (i + 1) * size ≤ j * size
    scaled = mul-le-mul_right size h'
      where
        h' : i + 1 ≤ j
        h' = omega arith

slots_apart :
    (i j size a : ℕ)
    → i ≢ j
    → j * size ≤ a
    → a < j * size + size
    → ¬ ((i * size ≤ a) × (a < i * size + size))
slots_apart i j size a ne lo hi (lo', hi') = elim (dec_lt i j) [
  | yes p ↦ omega (arith, slot_end i j size p)
  | no p ↦ omega (arith, slot_end j i size (omega arith))
]

-- The other slots keep their messages.
pub copy_out-copy_in_ne :
    (f : ℕ → ℕ) (i j size : ℕ) (msg : List ℕ)
    → length msg ≡ size
    → i ≢ j
    → copy_out (copy_in f (i * size) msg) (j * size) size ≡ copy_out f (j * size) size
unfolding copy_in
copy_out-copy_in_ne f i j size msg len ne =
    copy_out-congr (copy_in f (i * size) msg) f (j * size) size
      λ a lo hi. ground (arith, slots_apart i j size a ne lo hi)
