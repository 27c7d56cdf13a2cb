-- ===== src/Kernel/Scheduler/Add.antt =====
-- `scheduler_add_task` of src/kernel/scheduler.c puts a task at the end of the queue of its priority.
use rtos_driver_framework.Base.{
  ℕ, ◌≤◌, ◌<◌, ◌≡◌, ◌≢◌, refl, false, none, some, List, [], ◌∷◌, ◌++◌, arith, leb, update, length,
  All, All-map, ap, sym, ◌∙◌, subst, ==_refl,
}
use rtos_driver_framework.Kernel.Scheduler.{
  Tcb, ready, System, with_next, modify, append_task, num_priority_levels, max_tasks,
  scheduler_add_task,
}
use rtos_driver_framework.Kernel.Scheduler.Chain.{
  Chain, occurrences, occurrences-append, last_or, occurrences-last, Chain-update, last_of_lem,
  Chain-append,
}
use rtos_driver_framework.Kernel.Scheduler.Queues.{
  Queues, Frame, Member, member_of, queue_bound, Queues-at, All-occurrences,
}

All-append : (P : ℕ → Type 0) (is : List ℕ) (i : ℕ) → All P is → P i → All P (is ++ (i ∷ []))
All-append P [] i all pi = (pi, tt)
All-append P (j ∷ js) i (pj, all) pi = (pj, All-append P js i all pi)

module _ (s : System) (q : ℕ → List ℕ) (i : ℕ) (v : Queues s q) (in_pool : i < max_tasks)
    (used : (s.task_pool i).task_id ≢ 0) (level : (s.task_pool i).priority < num_priority_levels)
    (out : occurrences i (q (s.task_pool i).priority) ≡ 0) where
  abbrev p : ℕ
  p = (s.task_pool i).priority

  abbrev cleared : System
  cleared = modify s i (λ (t : Tcb). record t { state = ready; next = none })

  Member-cleared : Member cleared.task_pool p i
  Member-cleared = (in_pool, rw (==_refl i) refl, rw (==_refl i) used)

  members-cleared : All (Member cleared.task_pool p) (q p)
  members-cleared =
      All-occurrences (Member s.task_pool p) (Member cleared.task_pool p) (q p)
        (λ k o m. ground (arith, m)) (v.members p)

  Chain-cleared : Chain cleared.task_pool (s.ready_lists p) (q p)
  Chain-cleared = Chain-update s.task_pool i _ (s.ready_lists p) (q p) out (v.chains p)

  distinct-append : (k : ℕ) → occurrences k (q p ++ (i ∷ [])) ≤ 1
  distinct-append k = ground (arith, occurrences-append k i (q p), v.distinct p k, out)

  abbrev Added : System → Type 0
  Added s' =
      Queues s' (update q p (q p ++ (i ∷ [])))
      × Frame s s' i
      × ((s'.task_pool i).state ≡ ready)
      × ((k : ℕ) → i ≢ k → occurrences k (q p) ≡ 0 → s'.task_pool k ≡ s.task_pool k)

  -- The queue was empty, or ended with `l`.
  Added-first :
      q p ≡ [] → (s' : System) × (append_task cleared i (s.ready_lists p) ≡ some s') × Added s'
  Added-first e =
      let none_there : s.ready_lists p ≡ none =
        subst (Chain s.task_pool (s.ready_lists p)) e (v.chains p) in
      let same_level : (cleared.task_pool i).priority ≡ p = rw (==_refl i) refl in
      let s' : System = record cleared { ready_lists = update s.ready_lists p (some i) } in
      (
        s',
        rw (none_there, same_level) refl,
        (
          Queues-at s s' q p (q p ++ (i ∷ [])) v (λ p' ne. ground arith) (λ k ne. ground arith)
              (rw (e, ==_refl p) (refl, rw (==_refl i) refl))
              (All-append (Member cleared.task_pool p) (q p) i members-cleared Member-cleared)
              distinct-append,
          record {
            ticks = refl;
            started = refl;
            current = refl;
            delayed = refl;
            ids = refl;
            task = refl;
            stack = λ k w. ground arith;
            priority = λ k. ground arith;
            task_id = λ k. ground arith;
            state = λ k ne. ground arith;
          },
          rw (==_refl i) refl,
          λ k ne o. ground arith,
        ),
      )

  module _ (j : ℕ) (js : List ℕ) (e : q p ≡ j ∷ js) where
    abbrev l : ℕ
    l = last_or j js

    abbrev linked : System
    linked = modify cleared l (with_next (some i))

    l-priority : (s.task_pool l).priority ≡ p
    l-priority =
        (member_of (Member s.task_pool p) l (q p) (v.members p)
          (λ o. occurrences-last j js (ap (occurrences l) (sym e) ∙ o))).1

    l-elsewhere : (k : ℕ) → occurrences k (q p) ≡ 0 → l ≢ k
    l-elsewhere k o z =
        occurrences-last j js (ap (occurrences l) (sym e) ∙ ap (λ x. occurrences x (q p)) z ∙ o)

    Chain-there : (s.ready_lists p ≡ some j) × Chain cleared.task_pool (cleared.task_pool j).next js
    Chain-there = subst (Chain cleared.task_pool (s.ready_lists p)) e Chain-cleared

    short : length js < max_tasks
    short = omega (arith, queue_bound s q p v, ap length e)

    last_there : append_task cleared i (s.ready_lists p) ≡ some linked
    last_there =
        rw (Chain-there.0, last_of_lem cleared.task_pool max_tasks j js Chain-there.1 short) refl

    Chain-linked : Chain linked.task_pool (s.ready_lists p) (q p ++ (i ∷ []))
    Chain-linked = rw e (
      Chain-there.0,
      Chain-append cleared.task_pool j i js
          (λ k. omega (arith, v.distinct p k, ap (occurrences k) e))
          (omega (arith, out, ap (occurrences i) e)) (rw (==_refl i) refl) Chain-there.1,
    )

    Added-last : (s' : System) × (append_task cleared i (s.ready_lists p) ≡ some s') × Added s'
    Added-last = (
      linked,
      last_there,
      (
        Queues-at s linked q p (q p ++ (i ∷ [])) v (λ p' ne. refl)
            (λ k ne. ground (arith, l-priority)) Chain-linked
            (All-map (λ k m. ground (arith, m)) (q p ++ (i ∷ []))
              (All-append (Member cleared.task_pool p) (q p) i members-cleared Member-cleared))
            distinct-append,
        record {
          ticks = refl;
          started = refl;
          current = refl;
          delayed = refl;
          ids = refl;
          task = refl;
          stack = λ k w. ground arith;
          priority = λ k. ground arith;
          task_id = λ k. ground arith;
          state = λ k ne. ground arith;
        },
        ground (arith, ==_refl i),
        λ k ne o. let ne' = l-elsewhere k o in ground arith,
      ),
    )

  pub scheduler_add_task_lem :
      (s' : System) × (scheduler_add_task s (some i) ≡ some s')
      × (Queues s' (update q p (q p ++ (i ∷ [])))
          × Frame s s' i
          × ((s'.task_pool i).state ≡ ready)
          × ((k : ℕ) → i ≢ k → occurrences k (q p) ≡ 0 → s'.task_pool k ≡ s.task_pool k))
  unfolding scheduler_add_task
  scheduler_add_task_lem = rw high (by_queue (q p) refl)
    where
      high : leb num_priority_levels p ≡ false
      high = ground arith

      by_queue :
          (is : List ℕ)
          → q p ≡ is
          → (s' : System) × (append_task cleared i (s.ready_lists p) ≡ some s') × Added s'
      by_queue [] e = Added-first e
      by_queue (j ∷ js) e = Added-last j js e
