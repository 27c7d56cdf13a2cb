-- ===== src/Kernel/Scheduler/Unlink.antt =====
-- The loop of `scheduler_remove_task` of src/kernel/scheduler.c.
use rtos_driver_framework.Base.{
  ℕ, zero, suc, ◌≤◌, ◌≡◌, ◌≢◌, refl, inl, inr, none, some, List, [], ◌∷◌, arith, ◌==◌,
  if◌then◌else◌, update, length, All, ap, sym, ◌∙◌, subst, Bool-cases, ==_refl,
}
use rtos_driver_framework.Kernel.Scheduler.{Tcb, System, with_next, unlink, remove_loop}
use rtos_driver_framework.Kernel.Scheduler.Chain.{Chain, occurrences, Chain-update}

abbrev pub without : ℕ → List ℕ → List ℕ
without i [] = []
without i (j ∷ js) = if j == i then without i js else j ∷ without i js

pub without-absent : (i : ℕ) (is : List ℕ) → occurrences i is ≡ 0 → without i is ≡ is
without-absent i [] o = refl
without-absent i (j ∷ js) o = ground (arith, without-absent i js)

pub occurrences-without : (k i : ℕ) (is : List ℕ) → occurrences k (without i is) ≤ occurrences k is
occurrences-without k i [] = omega arith
occurrences-without k i (j ∷ js) = ground (arith, occurrences-without k i js)

pub without-gone : (i : ℕ) (is : List ℕ) → occurrences i (without i is) ≡ 0
without-gone i [] = refl
without-gone i (j ∷ js) = ground (arith, without-gone i js)

pub All-without : (P : ℕ → Type 0) (i : ℕ) (is : List ℕ) → All P is → All P (without i is)
All-without P i [] all = tt
All-without P i (j ∷ js) (pj, all) = elim (Bool-cases (j == i)) [
  | inl e ↦ rw e (All-without P i js all)
  | inr e ↦ rw e (pj, All-without P i js all)
]

module _ (s : System) (i : ℕ) where
  -- The state after the loop has gone through the blocks `rest` behind the block `prev`.
  pub record Unlinked (s' : System) (prev : ℕ) (rest : List ℕ) : Type 0 where
    pub others : s' ≡ record s { task_pool = s'.task_pool }
    pub chain : Chain s'.task_pool (s'.task_pool prev).next (without i rest)
    pub frame : (k : ℕ) → i ≢ k → occurrences k (prev ∷ rest) ≡ 0 → s'.task_pool k ≡ s.task_pool k
    pub kept : (k : ℕ) → s'.task_pool k ≡ with_next (s'.task_pool k).next (s.task_pool k)

  Unlinked-here :
      (prev : ℕ) (js : List ℕ)
      → Chain s.task_pool (s.task_pool i).next js
      → ((k : ℕ) → occurrences k (prev ∷ i ∷ js) ≤ 1)
      → prev ≢ i
      → Unlinked (unlink s i (some prev)) prev (i ∷ js)
  Unlinked-here prev js c d ne =
      let absent : occurrences i js ≡ 0 = ground (arith, d i, ==_refl i) in
      let absent' : occurrences prev js ≡ 0 = ground (arith, d prev, ==_refl prev) in
      let pool = update s.task_pool prev (with_next (s.task_pool i).next (s.task_pool prev)) in
      let linked = Chain-update pool i (with_next none (pool i)) (s.task_pool i).next js absent (
        Chain-update s.task_pool prev (with_next (s.task_pool i).next (s.task_pool prev))
          (s.task_pool i).next js absent' c) in
      let head : ((unlink s i (some prev)).task_pool prev).next ≡ (s.task_pool i).next =
        ground arith in
      record {
        others = refl;
        chain =
            rw (==_refl i, without-absent i js absent)
              (subst (λ h. Chain (unlink s i (some prev)).task_pool h js) (sym head) linked);
        frame = λ k ne' o. ground arith;
        kept = λ k. ground arith;
      }

  pub remove_loop_lem :
      (fuel prev : ℕ) (rest : List ℕ)
      → Chain s.task_pool (s.task_pool prev).next rest
      → ((k : ℕ) → occurrences k (prev ∷ rest) ≤ 1)
      → prev ≢ i
      → length rest ≤ fuel
      → (s' : System) × (remove_loop fuel s i (some prev) (s.task_pool prev).next ≡ some s')
        × Unlinked s' prev rest
  unfolding remove_loop
  remove_loop_lem fuel prev [] c d ne enough = (
    s,
    rw (c, remove_loop) refl,
    record { others = refl; chain = c; frame = λ k ne' o. refl; kept = λ k. refl },
  )
  remove_loop_lem zero prev (j ∷ js) c d ne enough = absurd (omega arith)
  remove_loop_lem (suc fuel) prev (j ∷ js) (e, c) d ne enough = elim (Bool-cases (j == i)) [
    | inl here ↦
        let eq : j ≡ i = ground arith in
        (
          unlink s i (some prev),
          rw (e, remove_loop, here, remove_loop) refl,
          subst (λ x. Unlinked (unlink s i (some prev)) prev (x ∷ js)) (sym eq)
              (Unlinked-here prev js (subst (λ x. Chain s.task_pool (s.task_pool x).next js) eq c)
                (λ k. subst (λ x. occurrences k (prev ∷ x ∷ js) ≤ 1) eq (d k)) ne),
        )
    | inr there ↦
        let (s', eq, u) =
          remove_loop_lem fuel j js c (λ k. omega (arith, d k)) (ground arith)
            (omega (arith, enough)) in
        let absent : occurrences prev (j ∷ js) ≡ 0 = ground (arith, d prev, ==_refl prev) in
        (
          s',
          rw (e, remove_loop, there, remove_loop) eq,
          record {
            others = u.others;
            chain =
                rw there
                  (ap (λ (t : Tcb). t.next) (u.frame prev (λ z. ne (sym z)) absent) ∙ e, u.chain);
            frame = λ k ne' o. u.frame k ne' (omega (arith, o));
            kept = u.kept;
          },
        )
  ]

pub zero_of : (n : ℕ) → ¬ (n ≢ 0) → n ≡ 0
zero_of n h = elim (Bool-cases (n == 0)) [
  | inl e ↦ ground arith
  | inr e ↦ absurd (h (ground arith))
]
