-- ===== src/Kernel/Scheduler/Remove.antt =====
-- `scheduler_remove_task` of src/kernel/scheduler.c takes a task out of the queue of its priority.
use rtos_driver_framework.Base.{
  ℕ, ◌≤◌, ◌<◌, ◌≡◌, ◌≢◌, refl, inl, inr, false, Option, none, some, List, [], ◌∷◌, arith, leb, ◌==◌,
  update, length, All-map, ap, sym, ◌∙◌, subst, Bool-cases, ==_refl,
}
use rtos_driver_framework.Kernel.Scheduler.{
  Tcb, System, with_next, unlink, remove_loop, num_priority_levels, max_tasks,
  scheduler_remove_task,
}
use rtos_driver_framework.Kernel.Scheduler.Chain.{Chain, occurrences, Chain-update}
use rtos_driver_framework.Kernel.Scheduler.Queues.{
  Queues, Frame, Member, member_of, queue_bound, Queues-at,
}
use rtos_driver_framework.Kernel.Scheduler.Unlink.{
  without, without-absent, occurrences-without, All-without, remove_loop_lem, zero_of,
}

module _ (s : System) (q : ℕ → List ℕ) (i : ℕ) (v : Queues s q)
    (level : (s.task_pool i).priority < num_priority_levels) where
  abbrev p : ℕ
  p = (s.task_pool i).priority

  abbrev Removed : System → Type 0
  Removed s' =
      Queues s' (update q p (without i (q p)))
      × Frame s s' i
      × ((s'.task_pool i).state ≡ (s.task_pool i).state)
      × ((k : ℕ) → i ≢ k → occurrences k (q p) ≡ 0 → s'.task_pool k ≡ s.task_pool k)

  -- A block of another priority is neither the task nor in the queue.
  elsewhere :
      (pool : ℕ → Tcb)
      → ((k : ℕ) → i ≢ k → occurrences k (q p) ≡ 0 → pool k ≡ s.task_pool k)
      → (k : ℕ) → (s.task_pool k).priority ≢ p
      → pool k ≡ s.task_pool k
  elsewhere pool frame k other =
      frame k (λ z. other (ap (λ x. (s.task_pool x).priority) (sym z)))
        (zero_of (occurrences k (q p))
          (λ o. other (member_of (Member s.task_pool p) k (q p) (v.members p) o).1))

  distinct-without : (k : ℕ) → occurrences k (without i (q p)) ≤ 1
  distinct-without k = omega (arith, occurrences-without k i (q p), v.distinct p k)

  -- A state that has the pointers changed, and the chain right, is right.
  Removed-by :
      (pool : ℕ → Tcb) (lists : ℕ → Option ℕ)
      → ((p' : ℕ) → p ≢ p' → lists p' ≡ s.ready_lists p')
      → ((k : ℕ) → i ≢ k → occurrences k (q p) ≡ 0 → pool k ≡ s.task_pool k)
      → ((k : ℕ) → pool k ≡ with_next (pool k).next (s.task_pool k))
      → Chain pool (lists p) (without i (q p))
      → Removed (record s { task_pool = pool; ready_lists = lists })
  Removed-by pool lists apart same kept c = (
    Queues-at s (record s { task_pool = pool; ready_lists = lists }) q p (without i (q p)) v apart
        (elsewhere pool same) c
        (All-map
          (λ k m. (
            m.0,
            ap (λ (t : Tcb). t.priority) (kept k) ∙ m.1,
            λ z. m.2 (sym (ap (λ (t : Tcb). t.task_id) (kept k)) ∙ z),
          ))
          (without i (q p)) (All-without (Member s.task_pool p) i (q p) (v.members p)))
        distinct-without,
    record {
      ticks = refl;
      started = refl;
      current = refl;
      delayed = refl;
      ids = refl;
      task = refl;
      stack = λ k w. ap (λ (t : Tcb). t.stack w) (kept k);
      priority = λ k. ap (λ (t : Tcb). t.priority) (kept k);
      task_id = λ k. ap (λ (t : Tcb). t.task_id) (kept k);
      state = λ k ne. ap (λ (t : Tcb). t.state) (kept k);
    },
    ap (λ (t : Tcb). t.state) (kept i),
    same,
  )

  Removes : Option ℕ → Type 0
  Removes head = (s' : System) × (remove_loop max_tasks s i none head ≡ some s') × Removed s'

  from_empty : q p ≡ [] → Removes (s.ready_lists p)
  unfolding Removes remove_loop
  from_empty e =
      let none_there : s.ready_lists p ≡ none =
        subst (Chain s.task_pool (s.ready_lists p)) e (v.chains p) in
      (
        s,
        rw (none_there, remove_loop) refl,
        Removed-by s.task_pool s.ready_lists (λ p' ne. refl) (λ k ne o. refl) (λ k. refl)
            (rw e none_there),
      )

  module _ (j : ℕ) (js : List ℕ) (e : q p ≡ j ∷ js) where
    there : (s.ready_lists p ≡ some j) × Chain s.task_pool (s.task_pool j).next js
    there = subst (Chain s.task_pool (s.ready_lists p)) e (v.chains p)

    distinct : (k : ℕ) → occurrences k (j ∷ js) ≤ 1
    distinct k = omega (arith, v.distinct p k, ap (occurrences k) e)

    from_head : j ≡ i → Removes (s.ready_lists p)
    unfolding Removes remove_loop
    from_head eq =
        let absent : occurrences i js ≡ 0 = ground (arith, distinct i, ==_refl i) in
        let pool = update s.task_pool i (with_next none (s.task_pool i)) in
        let lists = update s.ready_lists p (s.task_pool i).next in
        let after : Chain s.task_pool (s.task_pool i).next js =
          subst (λ x. Chain s.task_pool (s.task_pool x).next js) eq there.1 in
        (
          unlink s i none,
          rw (there.0, remove_loop, eq, ==_refl i) refl,
          Removed-by pool lists (λ p' ne. ground arith) (λ k ne o. ground arith) (λ k. ground arith)
              (rw (e, eq, ==_refl i, ==_refl p, without-absent i js absent)
                (Chain-update s.task_pool i (with_next none (s.task_pool i)) (s.task_pool i).next js
                  absent after)),
        )

    from_tail : j ≢ i → Removes (s.ready_lists p)
    unfolding Removes remove_loop
    from_tail ne =
        let (s', eq, u) =
          remove_loop_lem s i 15 j js there.1 distinct ne
            (omega (arith, queue_bound s q p v, ap length e)) in
        let skip : (j == i) ≡ false = ground arith in
        (
          s',
          rw (there.0, remove_loop, skip, remove_loop) eq,
          subst Removed (sym u.others) (
              Removed-by s'.task_pool s.ready_lists (λ p' ne'. refl)
                (λ k ne' o. u.frame k ne' (ap (occurrences k) (sym e) ∙ o)) u.kept
                (rw (e, skip) (there.0, u.chain))),
        )

  pub scheduler_remove_task_lem :
      (s' : System) × (scheduler_remove_task s (some i) ≡ some s')
      × (Queues s' (update q p (without i (q p)))
          × Frame s s' i
          × ((s'.task_pool i).state ≡ (s.task_pool i).state)
          × ((k : ℕ) → i ≢ k → occurrences k (q p) ≡ 0 → s'.task_pool k ≡ s.task_pool k))
  unfolding scheduler_remove_task Removes
  scheduler_remove_task_lem = rw high (by_queue (q p) refl)
    where
      high : leb num_priority_levels p ≡ false
      high = ground arith

      by_queue : (is : List ℕ) → q p ≡ is → Removes (s.ready_lists p)
      by_queue [] e = from_empty e
      by_queue (j ∷ js) e = elim (Bool-cases (j == i)) [
        | inl here ↦ from_head j js e (ground arith)
        | inr there ↦ from_tail j js e (ground arith)
      ]
