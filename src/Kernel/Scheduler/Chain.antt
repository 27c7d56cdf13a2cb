-- ===== src/Kernel/Scheduler/Chain.antt =====
-- The lists that the `next` pointers of src/kernel/scheduler.c make.
use rtos_driver_framework.Base.{
  ℕ, zero, suc, ◌+◌, ◌≤◌, ◌<◌, ◌≡◌, ◌≢◌, refl, Option, none, some, List, [], ◌∷◌, ◌++◌, arith, ◌==◌,
  if◌then◌else◌, update, length, ap, sym, ◌∙◌, ==_refl,
}
use rtos_driver_framework.Kernel.Scheduler.{Tcb, with_next, last_of}

-- From `head`, the `next` pointers lead through the list and end.
abbrev pub Chain : (ℕ → Tcb) → Option ℕ → List ℕ → Type 0
Chain pool head [] = head ≡ none
Chain pool head (i ∷ is) = (head ≡ some i) × Chain pool (pool i).next is

-- How often a number stands in a list.
abbrev pub occurrences : ℕ → List ℕ → ℕ
occurrences i [] = 0
occurrences i (j ∷ js) = (if i == j then 1 else 0) + occurrences i js

-- The last element, or `d`.
abbrev pub last_or : ℕ → List ℕ → ℕ
last_or d [] = d
last_or d (j ∷ js) = last_or j js

-- A write to a block outside a chain.
pub Chain-update :
    (pool : ℕ → Tcb) (i : ℕ) (t : Tcb) (head : Option ℕ) (is : List ℕ)
    → occurrences i is ≡ 0
    → Chain pool head is
    → Chain (update pool i t) head is
Chain-update pool i t head [] o c = c
Chain-update pool i t head (j ∷ js) o (e, c) =
    (e, ground (arith, Chain-update pool i t (pool j).next js))

-- A write that keeps `next`.
pub Chain-same :
    (pool : ℕ → Tcb) (i : ℕ) (t : Tcb) (head : Option ℕ) (is : List ℕ)
    → t.next ≡ (pool i).next
    → Chain pool head is
    → Chain (update pool i t) head is
Chain-same pool i t head [] o c = c
Chain-same pool i t head (j ∷ js) o (e, c) =
    (e, ground (arith, Chain-same pool i t (pool j).next js))

-- A chain whose blocks are as they were.
pub Chain-frame :
    (pool pool' : ℕ → Tcb) (head : Option ℕ) (is : List ℕ)
    → ((k : ℕ) → occurrences k is ≢ 0 → pool' k ≡ pool k)
    → Chain pool head is
    → Chain pool' head is
Chain-frame pool pool' head [] same c = c
Chain-frame pool pool' head (j ∷ js) same (e, c) =
    let here = same j (ground (arith, ==_refl j)) in
    (e, rw here (Chain-frame pool pool' (pool j).next js (λ k o. same k (omega (arith, o))) c))

pub last_of_lem :
    (pool : ℕ → Tcb) (fuel i : ℕ) (is : List ℕ)
    → Chain pool (pool i).next is
    → length is < fuel
    → last_of fuel pool i ≡ some (last_or i is)
unfolding last_of
last_of_lem pool zero i is c h = absurd (omega arith)
last_of_lem pool (suc fuel) i [] c h = rw (c, last_of) refl
last_of_lem pool (suc fuel) i (j ∷ js) (e, c) h =
    rw (e, last_of) (last_of_lem pool fuel j js c (omega arith))

pub occurrences-append :
    (i j : ℕ) (is : List ℕ)
    → occurrences i (is ++ (j ∷ [])) ≡ occurrences i is + (if i == j then 1 else 0)
occurrences-append i j [] = omega arith
occurrences-append i j (k ∷ ks) = omega (arith, occurrences-append i j ks)

-- The last element stands in its list.
pub occurrences-last : (i : ℕ) (is : List ℕ) → occurrences (last_or i is) (i ∷ is) ≢ 0
occurrences-last i [] = ground (arith, ==_refl i)
occurrences-last i (j ∷ js) = ground (arith, occurrences-last j js)

last-ne : (i j : ℕ) (js : List ℕ) → occurrences i (j ∷ js) ≡ 0 → i ≢ last_or j js
last-ne i j js o e = occurrences-last j js (ap (λ k. occurrences k (j ∷ js)) (sym e) ∙ o)

-- A block with no next one put behind the last one.
pub Chain-append :
    (pool : ℕ → Tcb) (i t : ℕ) (is : List ℕ)
    → ((k : ℕ) → occurrences k (i ∷ is) ≤ 1)
    → occurrences t (i ∷ is) ≡ 0
    → (pool t).next ≡ none
    → Chain pool (pool i).next is
    → let l = last_or i is in
      let pool' = update pool l (with_next (some t) (pool l)) in
      Chain pool' (pool' i).next (is ++ (t ∷ []))
Chain-append pool i t [] d o e c = (ground (arith, ==_refl i), ground arith)
Chain-append pool i t (j ∷ js) d o e (at, c) =
    let ne = last-ne i j js (ground (arith, d i, ==_refl i)) in
    (ground arith, Chain-append pool j t js (λ k. omega (arith, d k)) (omega arith) e c)
