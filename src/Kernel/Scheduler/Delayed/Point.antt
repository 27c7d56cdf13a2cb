-- ===== src/Kernel/Scheduler/Delayed/Point.antt =====
-- The loop of `add_to_delayed_list` of src/kernel/scheduler.c.
use rtos_driver_framework.Base.{
  ℕ, zero, suc, ◌≤◌, ◌<◌, ◌≡◌, ◌≢◌, refl, inl, inr, true, false, Option, some, List, [], ◌∷◌, arith,
  leb, ltb, update, length, ap, ◌∙◌, Bool-cases, ==_refl,
}
use rtos_driver_framework.Kernel.Scheduler.{Tcb, with_next, delay_point}
use rtos_driver_framework.Kernel.Scheduler.Chain.{Chain, occurrences, Chain-update}
use rtos_driver_framework.Kernel.Scheduler.Delayed.{insert}

-- The pool with the block `i` linked behind the block `c`.
abbrev pub linked : (ℕ → Tcb) → ℕ → ℕ → (ℕ → Tcb)
linked pool i c =
    let pool' = update pool i (with_next (pool c).next (pool i)) in
    update pool' c (with_next (some i) (pool' c))

Chain-linked :
    (pool : ℕ → Tcb) (i c : ℕ) (h : Option ℕ) (is : List ℕ)
    → occurrences i is ≡ 0
    → occurrences c is ≡ 0
    → Chain pool h is
    → Chain (linked pool i c) h is
Chain-linked pool i c h is out out' chain =
    Chain-update (update pool i (with_next (pool c).next (pool i))) c _ h is out'
      (Chain-update pool i (with_next (pool c).next (pool i)) h is out chain)

-- The loop finds the block behind which the insertion takes place.
pub delay_point_lem :
    (pool : ℕ → Tcb) (fuel i j : ℕ) (js : List ℕ)
    → Chain pool (pool j).next js
    → ((k : ℕ) → occurrences k (j ∷ js) ≤ 1)
    → occurrences i (j ∷ js) ≡ 0
    → length js < fuel
    → (c : ℕ) × (delay_point fuel pool (pool i).wake_time j ≡ some c)
      × (occurrences c (j ∷ js) ≢ 0)
      × Chain (linked pool i c) (linked pool i c j).next (insert pool i js)
unfolding delay_point
delay_point_lem pool zero i j js c d out enough = absurd (omega arith)
delay_point_lem pool (suc fuel) i j [] e d out enough =
    (j, rw (e, delay_point) refl, ground (arith, ==_refl j), rw (==_refl j) (refl, ground arith))
delay_point_lem pool (suc fuel) i j (k ∷ ks) (e, c) d out enough =
    elim (Bool-cases (leb (pool k).wake_time (pool i).wake_time)) [
      | inl passes ↦
          let (p, f, there, chain) =
            delay_point_lem pool fuel i k ks c (λ x. omega (arith, d x)) (omega (arith, out))
              (omega arith) in
          let gone : occurrences j (k ∷ ks) ≡ 0 = ground (arith, d j, ==_refl j) in
          let apart : p ≢ j = λ z. there (ap (λ x. occurrences x (k ∷ ks)) z ∙ gone) in
          let later : ltb (pool i).wake_time (pool k).wake_time ≡ false = ground arith in
          let kept : linked pool i p j ≡ pool j = ground arith in
          (
            p,
            rw (e, delay_point, passes) f,
            omega (arith, there),
            rw later (ap (λ (t : Tcb). t.next) kept ∙ e, chain),
          )
      | inr stops ↦
          let gone : occurrences j (k ∷ ks) ≡ 0 = ground (arith, d j, ==_refl j) in
          let sooner : ltb (pool i).wake_time (pool k).wake_time ≡ true = ground arith in
          let rest = Chain-linked pool i j (some k) (k ∷ ks) (omega (arith, out)) gone (refl, c) in
          let head : (linked pool i j j).next ≡ some i = ground (arith, ==_refl j) in
          let second : (linked pool i j i).next ≡ some k = ground (arith, ==_refl i, e) in
          (
            j,
            rw (e, delay_point, stops) refl,
            ground (arith, ==_refl j),
            rw sooner (head, (second, rest.1)),
          )
    ]
