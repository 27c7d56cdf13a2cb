-- ===== src/Kernel/Scheduler/Invariant.antt =====
-- The invariant of the scheduler of src/kernel/scheduler.c: its queues hold exactly the ready tasks.
use rtos_driver_framework.Base.{
  ℕ, ◌<◌, ◌≡◌, ◌≢◌, refl, inl, inr, some, List, [], ◌∷◌, ◌++◌, arith, ◌==◌, update, All-map, ap,
  sym, ◌∙◌, subst, Bool-cases, ==_refl,
}
use rtos_driver_framework.Kernel.Scheduler.{
  TaskState, ready, System, with_state, modify, num_priority_levels, max_tasks, scheduler_add_task,
  scheduler_remove_task,
}
use rtos_driver_framework.Kernel.Scheduler.Chain.{Chain-same, occurrences, occurrences-append}
use rtos_driver_framework.Kernel.Scheduler.Queues.{Queues, Frame, Member, member_of}
use rtos_driver_framework.Kernel.Scheduler.Add.{scheduler_add_task_lem}
use rtos_driver_framework.Kernel.Scheduler.Unlink.{without, without-gone, zero_of}
use rtos_driver_framework.Kernel.Scheduler.Remove.{scheduler_remove_task_lem}

-- The task `k` is in use.
abbrev pub InUse : System → ℕ → Type 0
InUse s k = (k < max_tasks) × ((s.task_pool k).task_id ≢ 0)

-- The task `k` stands in a queue just if it is ready.
abbrev pub Right : System → (ℕ → List ℕ) → ℕ → Type 0
Right s q k =
    (InUse s k → (s.task_pool k).state ≡ ready → occurrences k (q (s.task_pool k).priority) ≢ 0)
    × ((p : ℕ) → occurrences k (q p) ≢ 0 → (s.task_pool k).state ≡ ready)

-- The invariant but for the tasks that `P` leaves out.
pub record ValidOn (P : ℕ → Type 0) (s : System) (q : ℕ → List ℕ) : Type 0 where
  pub queues : Queues s q
  pub right : (k : ℕ) → P k → Right s q k
  pub levels : (k : ℕ) → InUse s k → (s.task_pool k).priority < num_priority_levels
  pub current : (c : ℕ) → s.current_tcb ≡ some c → InUse s c

abbrev pub IsValid : System → (ℕ → List ℕ) → Type 0
IsValid s q = ValidOn (λ _. Unit) s q

abbrev pub ValidBut : ℕ → System → (ℕ → List ℕ) → Type 0
ValidBut i s q = ValidOn (λ k. i ≢ k) s q

pub valid-But : (i : ℕ) (s : System) (q : ℕ → List ℕ) → IsValid s q → ValidBut i s q
valid-But i s q v = record {
  queues = v.queues;
  right = λ k ne. v.right k tt;
  levels = v.levels;
  current = v.current;
}

-- A task of another priority is not in the queue.
pub occurrences-other :
    (s : System) (q : ℕ → List ℕ) (p k : ℕ)
    → Queues s q
    → (s.task_pool k).priority ≢ p
    → occurrences k (q p) ≡ 0
occurrences-other s q p k v ne =
    zero_of (occurrences k (q p))
      (λ o. ne (member_of (Member s.task_pool p) k (q p) (v.members p) o).1)

pub but-IsValid :
    (i : ℕ) (s : System) (q : ℕ → List ℕ)
    → ValidBut i s q
    → (s.task_pool i).state ≢ ready
    → occurrences i (q (s.task_pool i).priority) ≡ 0
    → IsValid s q
but-IsValid i s q v off out = record {
  queues = v.queues;
  right = λ k u. elim (Bool-cases (i == k)) [
    | inl e ↦
        subst (Right s q) (ground arith) (λ used on. absurd (off on), λ p o. absurd (o (nowhere p)))
    | inr e ↦ v.right k (ground arith)
  ];
  levels = v.levels;
  current = v.current;
}
  where
    nowhere : (p : ℕ) → occurrences i (q p) ≡ 0
    nowhere p = elim (Bool-cases ((s.task_pool i).priority == p)) [
      | inl e ↦ subst (λ x. occurrences i (q x) ≡ 0) (ground arith) out
      | inr e ↦ occurrences-other s q p i v.queues (ground arith)
    ]

-- A new state for a task.
pub state-But :
    (i : ℕ) (x : TaskState) (s : System) (q : ℕ → List ℕ)
    → ValidBut i s q
    → ValidBut i (modify s i (with_state x)) q
state-But i x s q v = record {
  queues = record {
    chains = λ p.
        Chain-same s.task_pool i (with_state x (s.task_pool i)) (s.ready_lists p) (q p) refl
          (v.queues.chains p);
    members = λ p. All-map (λ k m. ground (arith, m)) (q p) (v.queues.members p);
    distinct = v.queues.distinct;
  };
  right = λ k ne. rw (there k ne) (v.right k ne);
  levels = λ k used. ground (arith, v.levels k);
  current = λ c e. ground (arith, v.current c e);
}
  where
    there : (k : ℕ) → i ≢ k → update s.task_pool i (with_state x (s.task_pool i)) k ≡ s.task_pool k
    there k ne = ground arith

-- Being queued rightly goes over to a state that has the same entry for the task and the same places.
Right-Frame :
    (s s' : System) (i k : ℕ) (q q' : ℕ → List ℕ)
    → i ≢ k
    → Frame s s' i
    → ((p : ℕ) → occurrences k (q' p) ≡ occurrences k (q p))
    → Right s q k
    → Right s' q' k
Right-Frame s s' i k q q' ne f same (on, off) = (
  λ used r o.
      on (used.0, λ z. used.1 (f.task_id k ∙ z)) (sym (f.state k ne) ∙ r)
        (sym (same (s.task_pool k).priority)
          ∙ ap (λ p. occurrences k (q' p)) (sym (f.priority k))
          ∙ o),
  λ p o. f.state k ne ∙ off p (λ z. o (same p ∙ z)),
)

occurrences-append_ne :
    (k i : ℕ) (is : List ℕ) → i ≢ k → occurrences k (is ++ (i ∷ [])) ≡ occurrences k is
occurrences-append_ne k i is ne = ground (arith, occurrences-append k i is)

occurrences-without_ne :
    (k i : ℕ) (is : List ℕ) → i ≢ k → occurrences k (without i is) ≡ occurrences k is
occurrences-without_ne k i [] ne = refl
occurrences-without_ne k i (j ∷ js) ne = ground (arith, occurrences-without_ne k i js ne)

appended : (i : ℕ) (is : List ℕ) → occurrences i (is ++ (i ∷ [])) ≢ 0
appended i is = ground (arith, occurrences-append i i is, ==_refl i)

-- The queues with one task more or less.
abbrev pub enqueue : (ℕ → List ℕ) → ℕ → ℕ → (ℕ → List ℕ)
enqueue q p i = update q p (q p ++ (i ∷ []))

abbrev pub dequeue : (ℕ → List ℕ) → ℕ → ℕ → (ℕ → List ℕ)
dequeue q p i = update q p (without i (q p))

InUse-Frame : (s s' : System) (i k : ℕ) → Frame s s' i → InUse s' k → InUse s k
InUse-Frame s s' i k f u = (u.0, λ z. u.1 (f.task_id k ∙ z))

pub InUse-keeps : (s s' : System) (i k : ℕ) → Frame s s' i → InUse s k → InUse s' k
InUse-keeps s s' i k f u = (u.0, λ z. u.1 (sym (f.task_id k) ∙ z))

-- A task other than `i` that is not ready keeps its block.
abbrev pub Calm : System → System → ℕ → Type 0
Calm s s' i = (k : ℕ) → i ≢ k → (s.task_pool k).state ≢ ready → s'.task_pool k ≡ s.task_pool k

Calm-of :
    (s s' : System) (q : ℕ → List ℕ) (i p : ℕ)
    → ValidBut i s q
    → ((k : ℕ) → i ≢ k → occurrences k (q p) ≡ 0 → s'.task_pool k ≡ s.task_pool k)
    → Calm s s' i
Calm-of s s' q i p v others k ne off =
    others k ne (zero_of (occurrences k (q p)) (λ o. off ((v.right k ne).1 p o)))

module _ (s : System) (q : ℕ → List ℕ) (i : ℕ) (v : ValidBut i s q) (used : InUse s i) where
  abbrev level : ℕ
  level = (s.task_pool i).priority

  pub add_valid :
      occurrences i (q level) ≡ 0
      → (s' : System) × (scheduler_add_task s (some i) ≡ some s')
        × (IsValid s' (enqueue q level i)
            × Frame s s' i
            × ((s'.task_pool i).state ≡ ready)
            × Calm s s' i)
  add_valid out =
      let (s', e, (queues, f, on, others)) =
        scheduler_add_task_lem s q i v.queues used.0 used.1 (v.levels i used) out in
      (
        s',
        e,
        (
          record {
            queues = queues;
            right = λ k u. elim (Bool-cases (i == k)) [
              | inl here ↦
                  subst (Right s' (enqueue q level i)) (ground arith)
                    (λ used' r o. there s' f o, λ p o. on)
              | inr ne ↦
                  Right-Frame s s' i k q (enqueue q level i) (ground arith) f
                    (λ p. ground (arith, occurrences-append_ne k i (q level)))
                    (v.right k (ground arith))
            ];
            levels = λ k u.
                subst (λ p. p < num_priority_levels) (sym (f.priority k))
                  (v.levels k (InUse-Frame s s' i k f u));
            current = λ c e'. InUse-keeps s s' i c f (v.current c (sym f.current ∙ e'));
          },
          f,
          on,
          Calm-of s s' q i level v others,
        ),
      )
    where
      there :
          (s' : System)
          → Frame s s' i
          → occurrences i (enqueue q level i (s'.task_pool i).priority) ≢ 0
      there s' f = rw (f.priority i, ==_refl level) (appended i (q level))

  pub remove_valid :
      (s' : System) × (scheduler_remove_task s (some i) ≡ some s')
      × (ValidBut i s' (dequeue q level i)
          × Frame s s' i
          × ((s'.task_pool i).state ≡ (s.task_pool i).state)
          × (occurrences i (dequeue q level i (s'.task_pool i).priority) ≡ 0)
          × Calm s s' i)
  remove_valid =
      let (s', e, (queues, f, same, others)) =
        scheduler_remove_task_lem s q i v.queues (v.levels i used) in
      (
        s',
        e,
        (
          record {
            queues = queues;
            right = λ k ne.
                Right-Frame s s' i k q (dequeue q level i) ne f
                  (λ p. ground (arith, occurrences-without_ne k i (q level) ne)) (v.right k ne);
            levels = λ k u.
                subst (λ p. p < num_priority_levels) (sym (f.priority k))
                  (v.levels k (InUse-Frame s s' i k f u));
            current = λ c e'. InUse-keeps s s' i c f (v.current c (sym f.current ∙ e'));
          },
          f,
          same,
          rw (f.priority i, ==_refl level) (without-gone i (q level)),
          Calm-of s s' q i level v others,
        ),
      )
