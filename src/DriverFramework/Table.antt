-- ===== src/DriverFramework/Table.antt =====
-- The search loops of src/driver_framework.c over a table that grows at its end.
use mathlib.Core.Option.{some-injective}
use rtos_driver_framework.Base.{
  ℕ, zero, suc, ◌+◌, ◌≡◌, refl, ◌⊎◌, inl, inr, Bool, true, false, Option, none, some, List, [], ◌∷◌,
  ◌++◌, arith, if◌then◌else◌, length, get_elem?, ap, sym, ◌∙◌, Bool-cases, Option-cases, ==_refl,
}
use rtos_driver_framework.DriverFramework.{Name, same, named, find_from}

pub same_refl : (n : Name) → same n n ≡ true
same_refl [] = refl
same_refl (x ∷ xs) = rw (==_refl x, same_refl xs) refl

-- A search through a table with one more entry.
module _ {ℓ} {A : Type ℓ} (test : A → Bool) where
  find-append_some :
      (i j : ℕ) (xs : List A) (y : A)
      → find_from i test xs ≡ some j
      → find_from i test (xs ++ (y ∷ [])) ≡ some j
  find-append_some i j [] y e = cc
  find-append_some i j (x ∷ xs) y e = elim (Bool-cases (test x)) [
    | inl h ↦ rw h (rw h at e)
    | inr h ↦ rw h (find-append_some (i + 1) j xs y (rw h at e))
  ]

  find-append_none :
      (i : ℕ) (xs : List A) (y : A)
      → find_from i test xs ≡ none
      → find_from i test (xs ++ (y ∷ [])) ≡ (if test y then some (i + length xs) else none)
  find-append_none i [] y e = ap (λ k. if test y then some k else none) (omega arith)
  find-append_none i (x ∷ xs) y e = elim (Bool-cases (test x)) [
    | inl h ↦ cc (rw h at e)
    | inr h ↦ rw h (
        find-append_none (i + 1) xs y (rw h at e)
        ∙ ap (λ k. if test y then some k else none) (omega arith))
  ]

get_elem?-append {ℓ} :
    {A : Type ℓ} (xs : List A) (y : A) (i : ℕ) (a : A)
    → get_elem? (xs ++ (y ∷ [])) i ≡ some a
    → (get_elem? xs i ≡ some a) ⊎ ((i ≡ length xs) × (a ≡ y))
get_elem?-append [] y zero a e = inr (refl, sym (some-injective _ _ e))
get_elem?-append [] y (suc i) a e = cc
get_elem?-append (x ∷ xs) y zero a e = inl e
get_elem?-append (x ∷ xs) y (suc i) a e = elim (get_elem?-append xs y i a e) [
  | inl h ↦ inl h
  | inr (at, h) ↦ inr (ap suc at, h)
]

module _ {ℓ} {A : Type ℓ} (name_of : A → Option Name) where
  abbrev pub search : Name → List A → Option ℕ
  search n xs = find_from 0 (λ x. named n (name_of x)) xs

  -- Every entry has a name, and a search for it ends at the entry.
  abbrev pub IsTable : List A → Type ℓ
  IsTable xs =
      (i : ℕ) (x : A)
      → get_elem? xs i ≡ some x
      → (n : Name) × (name_of x ≡ some n) × (search n xs ≡ some i)

  pub search_new :
      (xs : List A) (y : A) (n : Name) (i : ℕ)
      → name_of y ≡ some n
      → search n xs ≡ none
      → i ≡ length xs
      → search n (xs ++ (y ∷ [])) ≡ some i
  search_new xs y n i e f at =
      find-append_none (λ z. named n (name_of z)) 0 xs y f
      ∙ rw (e, same_refl n) (ap some (omega (arith, at)))

  pub search_old :
      (xs : List A) (y : A) (n m : Name)
      → name_of y ≡ some n
      → same n m ≡ false
      → search m (xs ++ (y ∷ [])) ≡ search m xs
  search_old xs y n m e ne = elim (Option-cases (search m xs)) [
    | inl f ↦ find-append_none (λ z. named m (name_of z)) 0 xs y f ∙ rw (e, ne) (sym f)
    | inr (i, f) ↦ find-append_some (λ z. named m (name_of z)) 0 i xs y f ∙ sym f
  ]

  pub append-IsTable :
      (xs : List A) (y : A) (n : Name)
      → IsTable xs
      → name_of y ≡ some n
      → search n xs ≡ none
      → IsTable (xs ++ (y ∷ []))
  append-IsTable xs y n t e f i x at = elim (get_elem?-append xs y i x at) [
    | inl old ↦
        let (m, em, found) = t i x old in
        (m, em, find-append_some (λ z. named m (name_of z)) 0 i xs y found)
    | inr (here, new) ↦ (n, ap name_of new ∙ e, search_new xs y n i e f here)
  ]

pub get_elem?_last {ℓ} :
    {A : Type ℓ} (xs : List A) (y : A) → get_elem? (xs ++ (y ∷ [])) (length xs) ≡ some y
get_elem?_last [] y = refl
get_elem?_last (x ∷ xs) y = get_elem?_last xs y
