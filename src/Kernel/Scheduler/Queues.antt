-- ===== src/Kernel/Scheduler/Queues.antt =====
-- The ready lists of src/kernel/scheduler.c stand for one queue of tasks for each priority.
use rtos_driver_framework.Base.{
  ℕ, zero, suc, ◌+◌, ◌≤◌, ◌<◌, ◌≡◌, ◌≢◌, refl, inl, inr, List, [], ◌∷◌, arith, ltb, ◌==◌,
  if◌then◌else◌, update, length, All, All-map, sym, ◌∙◌, subst, Bool-cases, ==_refl,
}
use rtos_driver_framework.Kernel.Scheduler.{Tcb, System, max_tasks}
use rtos_driver_framework.Kernel.Scheduler.Chain.{Chain, occurrences, Chain-frame}

-- The number of the places below `n` in a list.
total : ℕ → List ℕ → ℕ
total zero is = 0
total (suc n) is = occurrences n is + total n is

total-cons : (n j : ℕ) (js : List ℕ) → total n (j ∷ js) ≡ (if ltb j n then 1 else 0) + total n js
unfolding total
total-cons zero j js = ground arith
total-cons (suc n) j js = ground (arith, total-cons n j js)

total-nil : (n : ℕ) → total n [] ≡ 0
unfolding total
total-nil zero = refl
total-nil (suc n) = omega (arith, total-nil n)

total-length : (n : ℕ) (is : List ℕ) → All (λ j. j < n) is → total n is ≡ length is
total-length n [] all = total-nil n
total-length n (j ∷ js) (lt, all) = ground (arith, total-cons n j js, total-length n js all)

total-le : (n : ℕ) (is : List ℕ) → ((k : ℕ) → occurrences k is ≤ 1) → total n is ≤ n
unfolding total
total-le zero is d = omega arith
total-le (suc n) is d = omega (arith, d n, total-le n is d)

-- A list of different numbers below `n` has at most `n` elements.
pub length-le :
    (n : ℕ) (is : List ℕ) → ((k : ℕ) → occurrences k is ≤ 1) → All (λ j. j < n) is → length is ≤ n
length-le n is d all = omega (arith, total-le n is d, total-length n is all)

-- What holds of each task in the queue of priority `p`.
abbrev pub Member : (ℕ → Tcb) → ℕ → ℕ → Type 0
Member pool p j = (j < max_tasks) × ((pool j).priority ≡ p) × ((pool j).task_id ≢ 0)

-- The lists hold the queues `q`.
pub record Queues (s : System) (q : ℕ → List ℕ) : Type 0 where
  pub chains : (p : ℕ) → Chain s.task_pool (s.ready_lists p) (q p)
  pub members : (p : ℕ) → All (Member s.task_pool p) (q p)
  pub distinct : (p k : ℕ) → occurrences k (q p) ≤ 1

pub member_of {ℓ} : (P : ℕ → Type ℓ) (k : ℕ) (is : List ℕ) → All P is → occurrences k is ≢ 0 → P k
member_of P k [] all o = absurd (o refl)
member_of P k (j ∷ js) (pj, all) o = elim (Bool-cases (k == j)) [
  | inl e ↦ subst P (ground arith) pj
  | inr e ↦ member_of P k js all (λ z. o (rw e (omega (arith, z))))
]

pub queue_bound : (s : System) (q : ℕ → List ℕ) (p : ℕ) → Queues s q → length (q p) ≤ max_tasks
queue_bound s q p v =
    length-le max_tasks (q p) (v.distinct p) (All-map (λ j m. m.0) (q p) (v.members p))

pub All-occurrences :
    (P Q : ℕ → Type 0) (is : List ℕ)
    → ((k : ℕ) → occurrences k is ≢ 0 → P k → Q k)
    → All P is
    → All Q is
All-occurrences P Q [] f all = tt
All-occurrences P Q (j ∷ js) f (pj, all) =
    (f j (ground (arith, ==_refl j)) pj, All-occurrences P Q js (λ k o. f k (omega (arith, o))) all)

-- An operation on the queue of one priority.
pub Queues-at :
    (s s' : System) (q : ℕ → List ℕ) (p : ℕ) (is : List ℕ)
    → Queues s q
    → ((p' : ℕ) → p ≢ p' → s'.ready_lists p' ≡ s.ready_lists p')
    → ((k : ℕ) → (s.task_pool k).priority ≢ p → s'.task_pool k ≡ s.task_pool k)
    → Chain s'.task_pool (s'.ready_lists p) is
    → All (Member s'.task_pool p) is
    → ((k : ℕ) → occurrences k is ≤ 1)
    → Queues s' (update q p is)
Queues-at s s' q p is v lists same c m d = record {
  chains = chain_at;
  members = members_at;
  distinct = distinct_at;
}
  where
    kept : (p' : ℕ) → p ≢ p' → (k : ℕ) → occurrences k (q p') ≢ 0 → s'.task_pool k ≡ s.task_pool k
    kept p' ne k o =
        same k (λ e. ne (sym e ∙ (member_of (Member s.task_pool p') k (q p') (v.members p') o).1))

    chain_at : (p' : ℕ) → Chain s'.task_pool (s'.ready_lists p') (update q p is p')
    chain_at p' = elim (Bool-cases (p == p')) [
      | inl e ↦ rw e (subst (λ x. Chain s'.task_pool (s'.ready_lists x) is) (ground arith) c)
      | inr e ↦
          rw (e, lists p' (ground arith))
            (Chain-frame s.task_pool s'.task_pool (s.ready_lists p') (q p') (kept p' (ground arith))
              (v.chains p'))
    ]

    members_at : (p' : ℕ) → All (Member s'.task_pool p') (update q p is p')
    members_at p' = elim (Bool-cases (p == p')) [
      | inl e ↦ rw e (subst (λ x. All (Member s'.task_pool x) is) (ground arith) m)
      | inr e ↦ rw e (
          All-occurrences (Member s.task_pool p') (Member s'.task_pool p') (q p')
            (λ k o m. rw (kept p' (ground arith) k o) m) (v.members p'))
    ]

    distinct_at : (p' k : ℕ) → occurrences k (update q p is p') ≤ 1
    distinct_at p' k = ground (arith, d k, v.distinct p' k)

-- What an operation on the lists leaves alone, but for the state of the task `i`.
pub record Frame (s s' : System) (i : ℕ) : Type 0 where
  pub ticks : s'.system_tick_count ≡ s.system_tick_count
  pub started : s'.scheduler_running ≡ s.scheduler_running
  pub current : s'.current_tcb ≡ s.current_tcb
  pub delayed : s'.delayed_list ≡ s.delayed_list
  pub ids : s'.next_task_id ≡ s.next_task_id
  pub task : s'.current_task ≡ s.current_task
  pub priority : (k : ℕ) → (s'.task_pool k).priority ≡ (s.task_pool k).priority
  pub task_id : (k : ℕ) → (s'.task_pool k).task_id ≡ (s.task_pool k).task_id
  pub stack : (k w : ℕ) → (s'.task_pool k).stack w ≡ (s.task_pool k).stack w
  pub state : (k : ℕ) → i ≢ k → (s'.task_pool k).state ≡ (s.task_pool k).state
