-- ===== src/Kernel/Task/Slots.antt =====
-- The task control blocks that `task_create` of src/kernel/task.c takes and fills.
use rtos_driver_framework.Base.{
  ℕ, zero, suc, ◌+◌, ◌≤◌, ◌<◌, ◌≡◌, ◌≢◌, refl, ◌⊎◌, inl, inr, true, false, not, ◌&&◌, ◌||◌, Option,
  none, some, List, arith, ◌==◌, update, ap, sym, ◌∙◌, subst, Bool-cases,
}
use rtos_driver_framework.Kernel.Scheduler.{ready, Tcb, System, num_priority_levels}
use rtos_driver_framework.Kernel.Scheduler.Chain.{Chain-update, occurrences}
use rtos_driver_framework.Kernel.Scheduler.Queues.{Member, member_of, All-occurrences}
use rtos_driver_framework.Kernel.Scheduler.Unlink.{zero_of}
use rtos_driver_framework.Kernel.Scheduler.Invariant.{IsValid, ValidBut}
use rtos_driver_framework.Kernel.Task.{is_deleted, free_tcb, find_tcb, new_tcb, task_init_stack}

-- A block that `task_create` can take.
abbrev pub IsFree : Tcb → Type 0
IsFree t = (is_deleted t.state || (t.task_id == 0)) ≡ true

pub free_tcb_lem :
    (n i : ℕ) (pool : ℕ → Tcb)
    → ((free_tcb n i pool ≡ none)
        × ((k : ℕ)
            → i ≤ k
            → k < i + n
            → (is_deleted (pool k).state || ((pool k).task_id == 0)) ≡ false))
      ⊎ ((k : ℕ) × (free_tcb n i pool ≡ some k) × (k < i + n) × IsFree (pool k))
unfolding free_tcb
free_tcb_lem zero i pool = inl (refl, λ k l u. absurd (omega arith))
free_tcb_lem (suc n) i pool =
    elim (Bool-cases (is_deleted (pool i).state || ((pool i).task_id == 0))) [
      | inl free ↦ inr (i, rw (free, free_tcb) refl, omega arith, free)
      | inr used ↦ elim (free_tcb_lem n (i + 1) pool) [
        | inl (e, all) ↦ inl (
          rw (used, free_tcb) e,
          λ k l u. elim (Bool-cases (i == k)) [
            | inl here ↦
                subst (λ x. (is_deleted (pool x).state || ((pool x).task_id == 0)) ≡ false)
                  (ground arith) used
            | inr after ↦ all k (ground arith) (omega arith)
          ],
        )
        | inr (k, e, u, f) ↦ inr (k, rw (used, free_tcb) e, omega arith, f)
      ]
    ]

-- The search for an id ends at the one block that has it.
pub find_tcb_lem :
    (n i k : ℕ) (pool : ℕ → Tcb) (id : ℕ)
    → i ≤ k
    → k < i + n
    → (((pool k).task_id == id) && not (is_deleted (pool k).state)) ≡ true
    → ((j : ℕ) → i ≤ j → j < k → (pool j).task_id ≢ id)
    → find_tcb n i pool id ≡ some k
unfolding find_tcb
find_tcb_lem zero i k pool id l u e before = absurd (omega arith)
find_tcb_lem (suc n) i k pool id l u e before = elim (Bool-cases (i == k)) [
  | inl here ↦
      let same : k ≡ i = ground arith in
      rw
        (
          subst (λ x. (((pool x).task_id == id) && not (is_deleted (pool x).state)) ≡ true) same e,
          find_tcb,
        )
        (ap some (sym same))
  | inr after ↦
      let skip : (((pool i).task_id == id) && not (is_deleted (pool i).state)) ≡ false =
        ground (arith, before i) in
      rw (skip, find_tcb)
        (find_tcb_lem n (i + 1) k pool id (ground arith) (omega arith) e
          (λ j l' u'. before j (omega arith) u'))
]

-- A free block stands in no queue.
pub free-not_queued :
    (s : System) (q : ℕ → List ℕ) (i p : ℕ)
    → IsValid s q
    → IsFree (s.task_pool i)
    → occurrences i (q p) ≡ 0
free-not_queued s q i p v free = zero_of (occurrences i (q p)) λ o.
    let m = member_of (Member s.task_pool p) i (q p) (v.queues.members p) o in
    let r = (v.right i tt).1 p o in not_free (s.task_pool i) r m.2 free
  where
    not_free : (t : Tcb) → t.state ≡ ready → t.task_id ≢ 0 → ¬ IsFree t
    not_free t r ne free = ground (arith, rw r at free)

-- A block that gets a new record.
abbrev pub reset : System → ℕ → ℕ → Tcb → System
reset s i id t = record s { task_pool = update s.task_pool i t; next_task_id = id }

pub elsewhere :
    (s : System) (i id : ℕ) (t : Tcb) (k : ℕ) → i ≢ k → (reset s i id t).task_pool k ≡ s.task_pool k
elsewhere s i id t k ne = ground arith

module _ (s : System) (q : ℕ → List ℕ) (i id : ℕ) (t : Tcb) (v : IsValid s q)
    (free : IsFree (s.task_pool i)) (numbered : t.task_id ≢ 0)
    (level : t.priority < num_priority_levels) where
  pub reset-valid : ValidBut i (reset s i id t) q
  reset-valid = record {
    queues = record {
      chains = λ p.
          Chain-update s.task_pool i t (s.ready_lists p) (q p) (free-not_queued s q i p v free)
            (v.queues.chains p);
      members = λ p.
          All-occurrences (Member s.task_pool p) (Member (update s.task_pool i t) p) (q p)
            (λ k o m.
              rw
                (elsewhere s i id t k
                  (λ e. o (ap (λ x. occurrences x (q p)) (sym e) ∙ free-not_queued s q i p v free)))
                m)
            (v.queues.members p);
      distinct = v.queues.distinct;
    };
    right = λ k ne. rw (elsewhere s i id t k ne) (v.right k tt);
    levels = λ k used. elim (Bool-cases (i == k)) [
      | inl here ↦ rw here level
      | inr other ↦ rw other (v.levels k (rw other at used))
    ];
    current = λ c e. elim (Bool-cases (i == c)) [
      | inl here ↦ rw here ((v.current c e).0, numbered)
      | inr other ↦ rw other (v.current c e)
    ];
  }

pub new_tcb_lem :
    (function : ℕ) (name : Option (List ℕ)) (priority params id : ℕ)
    → let t = new_tcb function name priority params id in
      (t.state ≡ ready) × (t.priority ≡ priority) × (t.task_id ≡ id)
unfolding new_tcb task_init_stack
new_tcb_lem function name priority params id = (refl, refl, refl)

-- The first frame leaves the bottom of the stack alone.
pub new_tcb-stack :
    (function : ℕ) (name : Option (List ℕ)) (priority params id w : ℕ)
    → w < 4
    → (new_tcb function name priority params id).stack w ≡ 0
unfolding new_tcb task_init_stack
new_tcb-stack function name priority params id w u = ground arith
