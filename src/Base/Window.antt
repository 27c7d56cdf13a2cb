-- ===== src/Base/Window.antt =====
-- A ring of `cap` cells read as a queue: `n` cells from index `t` on, going round at `cap`.
use Prim.Native.Nat.{ℕ, zero, suc, ◌+◌, ◌-◌, ◌%◌, ◌<◌, ◌≤◌}
use mathlib.Core.Path.{◌≡◌, refl, ap, ap₂, ◌∙◌, sym}
use mathlib.Core.Logic.{◌≢◌, ◌⊎◌, inl, inr}
use mathlib.Core.List.{List, [], ◌∷◌, ◌++◌}
use native.Mathlib.Omega.{arith}
use native.Mathlib.Nat.{mod-eq_of_lt, mod-add-mod, mod-eq-sub-mod}
use native.Mathlib.Decide.{dec_lt}
use rtos_driver_framework.Base.Lists.{length, length-append}

module _ {ℓ} {A : Type ℓ} where
  -- Oldest first; the newest cell is at `t + n - 1`.
  unfoldable pub window : (ℕ → A) → ℕ → ℕ → ℕ → List A
  window f cap t zero = []
  window f cap t (suc n) = window f cap t n ++ (f ((t + n) % cap) ∷ [])

  pub length-window : (f : ℕ → A) (cap t n : ℕ) → length (window f cap t n) ≡ n
  unfolding window
  length-window f cap t zero = refl
  length-window f cap t (suc n) =
      omega
        (arith, length-append (window f cap t n) (f ((t + n) % cap) ∷ []), length-window f cap t n)

  -- The oldest cell comes off the front.
  pub window_front :
      (f : ℕ → A) (cap t n : ℕ)
      → t < cap
      → window f cap t (suc n) ≡ f t ∷ window f cap ((t + 1) % cap) n
  unfolding window
  window_front f cap t zero h =
      ap (λ k. f k ∷ []) (ap (λ k. k % cap) (omega arith) ∙ mod-eq_of_lt h)
  window_front f cap t (suc n) h =
      ap₂ (λ xs k. xs ++ (f k ∷ [])) (window_front f cap t n h)
        (ap (λ k. k % cap) (omega arith) ∙ sym (mod-add-mod (t + 1) cap n))

  -- Only the cells of the window matter.
  pub window-congr :
      (f g : ℕ → A) (cap t n : ℕ)
      → ((k : ℕ) → k < n → f ((t + k) % cap) ≡ g ((t + k) % cap))
      → window f cap t n ≡ window g cap t n
  unfolding window
  window-congr f g cap t zero h = refl
  window-congr f g cap t (suc n) h =
      ap₂ (λ xs x. xs ++ (x ∷ [])) (window-congr f g cap t n (λ k hk. h k (omega arith)))
        (h n (omega arith))

-- One round of the ring, without the remainder.
pub wrap :
    (cap x : ℕ) → x < cap + cap → ((x < cap) × (x % cap ≡ x)) ⊎ ((cap ≤ x) × (x % cap ≡ x - cap))
wrap cap x h = elim (dec_lt x cap) [
  | yes p ↦ inl (p, mod-eq_of_lt p)
  | no p ↦ inr (omega arith, mod-eq-sub-mod (omega arith) ∙ mod-eq_of_lt (omega arith))
]

-- Fewer than `cap` steps round the ring end at another cell.
pub step-ne : (cap t k n : ℕ) → t < cap → k < n → n < cap → (t + n) % cap ≢ (t + k) % cap
step-ne cap t k n h hk hn =
    ground (arith, wrap cap (t + k) (omega arith), wrap cap (t + n) (omega arith))

-- The cell that a ring with `n` cells in use writes next is none of them.
pub next_cell-ne : (cap t k n : ℕ) → t < cap → k < n → n < cap → (t + k) % cap ≢ (t + n) % cap
next_cell-ne cap t k n h hk hn e = step-ne cap t k n h hk hn (sym e)

-- The write position moves on with the number of cells in use, and the read position against it.
pub head_step : (cap t n : ℕ) → ((t + n) % cap + 1) % cap ≡ (t + (n + 1)) % cap
head_step cap t n = mod-add-mod (t + n) cap 1 ∙ ap (λ k. k % cap) (omega arith)

pub tail_step : (cap t n : ℕ) → (t + suc n) % cap ≡ ((t + 1) % cap + n) % cap
tail_step cap t n = ap (λ k. k % cap) (omega arith) ∙ sym (mod-add-mod (t + 1) cap n)
