-- ===== src/Kernel/Scheduler/Turn.antt =====
-- A queue of src/kernel/scheduler.c whose head is taken and put at its end.
use rtos_driver_framework.Base.{
  ℕ, ◌≤◌, ◌<◌, ◌≡◌, ◌≢◌, refl, inl, inr, false, some, List, [], ◌∷◌, ◌++◌, append-nil, arith, ◌==◌,
  if◌then◌else◌, ap, sym, ◌∙◌, subst, ==_refl, ◌>>=◌,
}
use rtos_driver_framework.Kernel.Scheduler.{
  ready, running, System, get_highest_priority_task, is_task, rotate, switch_to, schedule,
}
use rtos_driver_framework.Kernel.Scheduler.Chain.{occurrences}
use rtos_driver_framework.Kernel.Scheduler.Unlink.{without, without-absent}
use rtos_driver_framework.Kernel.Scheduler.Invariant.{InUse, IsValid, enqueue, dequeue}
use rtos_driver_framework.Kernel.Scheduler.Steps.{
  Stable, Stable-trans, Head, get_highest_priority_task_lem,
}
use rtos_driver_framework.Kernel.Scheduler.Switch.{rotated, switch_to_lem}

abbrev head_or : ℕ → List ℕ → ℕ
head_or d [] = d
head_or d (j ∷ js) = j

-- The head of the queue of a ready task is chosen, if the queues above are empty.
pub first_chosen :
    (s : System) (q : ℕ → List ℕ) (v : IsValid s q) (p a b : ℕ) (rest : List ℕ)
    → InUse s a
    → (s.task_pool a).state ≡ ready
    → (s.task_pool a).priority ≡ p
    → q p ≡ b ∷ rest
    → ((p' : ℕ) → p' < p → q p' ≡ [])
    → (get_highest_priority_task s ≡ some b) × Head s q v p b
first_chosen s q v p a b rest used on level first above =
    elim (get_highest_priority_task_lem s q v) [
      | inl (e, idle) ↦ absurd (idle a used on)
      | inr (p', n, e, head, least) ↦
          let at : p' ≡ p =
            same_level p' n head.rest (subst (λ x. p' ≤ x) level (least a used on)) head.first in
          let same : n ≡ b = ap (head_or 0) (sym head.first ∙ ap q at ∙ first) in
          (e ∙ ap some same, subst (λ x. Head s q v x b) at (subst (Head s q v p') same head))
    ]
  where
    same_level : (p' n : ℕ) (is : List ℕ) → p' ≤ p → q p' ≡ n ∷ is → p' ≡ p
    same_level p' n is le e = ground (arith, above p')

-- The decision for the head `n` of the first queue, when another task is current and ready.
pub schedule_switch :
    (s : System) (q : ℕ → List ℕ) (c n : ℕ)
    → IsValid s q
    → s.current_tcb ≡ some c
    → (s.task_pool c).state ≡ ready
    → c ≢ n
    → get_highest_priority_task s ≡ some n
    → InUse s n
    → (s.task_pool n).state ≡ ready
    → let p = (s.task_pool c).priority in
      let q' = enqueue (dequeue q p c) p c in
      (s' : System) × (schedule s ≡ some s')
      × (IsValid s' (dequeue q' (s.task_pool n).priority n)
          × (s'.current_tcb ≡ some n)
          × ((s'.task_pool n).state ≡ running)
          × Stable s s')
unfolding schedule
schedule_switch s q c n v cur on ne e used on_n =
    let (s₁, e₁, r) = rotated s q c v (v.current c cur) on in
    let used₁ : InUse s₁ n = (used.0, λ z. used.1 (sym (r.stable.task_id n) ∙ z)) in
    let (s₂, e₂, w) = switch_to_lem s₁ _ n r.valid used₁ (r.states n ∙ on_n) in
    (
      s₂,
      rw (e, schedule, other) (ap (λ o. o >>= switch_to n) (ap (rotate s) cur ∙ e₁) ∙ e₂),
      (
        subst
            (λ x. IsValid s₂ (
              dequeue (enqueue (dequeue q (s.task_pool c).priority c) (s.task_pool c).priority c) x
                n))
            (r.stable.priority n) w.valid,
        w.current,
        w.runs,
        Stable-trans s s₁ s₂ r.stable w.stable,
      ),
    )
  where
    other : is_task n s.current_tcb ≡ false
    other = ap (is_task n) cur ∙ ground arith

without-append :
    (i j : ℕ) (is : List ℕ)
    → without i (is ++ (j ∷ [])) ≡ without i is ++ (if j == i then [] else j ∷ [])
without-append i j [] = ground arith
without-append i j (k ∷ ks) = ground (arith, without-append i j ks)

-- The queue after a task `a` behind `b` and `rest` has been put at its end again and `b` taken out.
turned :
    (a b : ℕ) (rest : List ℕ)
    → occurrences a (b ∷ rest) ≡ 0
    → occurrences b rest ≡ 0
    → without b (without a ((b ∷ rest) ++ (a ∷ [])) ++ (a ∷ [])) ≡ rest ++ (a ∷ [])
turned a b rest oa ob =
    ap (λ l. without b (l ++ (a ∷ []))) front
    ∙ without-append b a (b ∷ rest)
    ∙ rw (==_refl b, ne, without-absent b rest ob) refl
  where
    ne : (a == b) ≡ false
    ne = ground (arith, oa)

    front : without a ((b ∷ rest) ++ (a ∷ [])) ≡ b ∷ rest
    front =
        without-append a a (b ∷ rest)
        ∙ rw (==_refl a) (append-nil (without a (b ∷ rest)) ∙ without-absent a (b ∷ rest) oa)

pub turned_queue :
    (q : ℕ → List ℕ) (p a b : ℕ) (rest : List ℕ)
    → q p ≡ b ∷ rest
    → occurrences a (q p) ≡ 0
    → occurrences b (q p) ≤ 1
    → dequeue (enqueue (dequeue (enqueue q p a) p a) p a) p b p ≡ rest ++ (a ∷ [])
turned_queue q p a b rest e oa ob =
    rw (==_refl p, e)
      (turned a b rest (ap (occurrences a) (sym e) ∙ oa)
        (ground (arith, ap (occurrences b) e, ==_refl b)))
