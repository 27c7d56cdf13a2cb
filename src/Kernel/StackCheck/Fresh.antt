-- ===== src/Kernel/StackCheck/Fresh.antt =====
-- What the stack check of src/kernel/memory.c says of a new task, and of words at the bottom of a stack.
use rtos_driver_framework.Base.{
  ℕ, zero, suc, ◌+◌, ◌≤◌, ◌<◌, ◌≡◌, ◌≢◌, ◌↔◌, refl, inl, inr, true, false, Option, some, List,
  arith, ◌==◌, ap, ◌∙◌, Bool-cases,
}
use rtos_driver_framework.Kernel.Scheduler.{System, num_priority_levels}
use rtos_driver_framework.Kernel.Scheduler.Invariant.{IsValid}
use rtos_driver_framework.Kernel.Task.{task_get_tcb}
use rtos_driver_framework.Kernel.Task.Slots.{new_tcb-stack}
use rtos_driver_framework.Kernel.Task.Create.{Numbered, Created}
use rtos_driver_framework.Kernel.StackCheck.{
  stack_canary, overwritten, check_words, memory_check_stack_overflow,
}

check_words_clean :
    (n i : ℕ) (stack : ℕ → ℕ)
    → ((k : ℕ) → i ≤ k → k < i + n → overwritten (stack k) ≡ false)
    → check_words n i stack ≡ false
unfolding check_words
check_words_clean zero i stack clean = refl
check_words_clean (suc n) i stack clean =
    rw (clean i (omega arith) (omega arith))
      (check_words_clean n (i + 1) stack (λ k l u. clean k (omega arith) (omega arith)))

check_words_found :
    (n i k : ℕ) (stack : ℕ → ℕ)
    → i ≤ k
    → k < i + n
    → overwritten (stack k) ≡ true
    → check_words n i stack ≡ true
unfolding check_words
check_words_found zero i k stack l u bad = absurd (omega arith)
check_words_found (suc n) i k stack l u bad = elim (Bool-cases (overwritten (stack i))) [
  | inl here ↦ rw here refl
  | inr fine ↦ rw fine (check_words_found n (i + 1) k stack (later fine) (omega arith) bad)
]
  where
    same_of : (i == k) ≡ true → i ≡ k
    same_of e = ground arith

    differ : overwritten (stack i) ≡ overwritten (stack k) → overwritten (stack i) ≢ false
    differ e fine = cc (e ∙ bad)

    later : overwritten (stack i) ≡ false → i + 1 ≤ k
    later fine = elim (Bool-cases (i == k)) [
      | inl same ↦ absurd (differ (ap (λ (j : ℕ). overwritten (stack j)) (same_of same)) fine)
      | inr other ↦ ground arith
    ]

check_words_only :
    (n i : ℕ) (stack : ℕ → ℕ)
    → check_words n i stack ≡ true
    → (k : ℕ) × (k < i + n) × (overwritten (stack k) ≡ true)
unfolding check_words
check_words_only zero i stack e = cc
check_words_only (suc n) i stack e = elim (Bool-cases (overwritten (stack i))) [
  | inl here ↦ (i, omega arith, here)
  | inr fine ↦
      let (k, u, bad) = check_words_only n (i + 1) stack (rw fine at e) in (k, omega arith, bad)
]

-- `memory_check_stack_overflow` of a task reports just those stacks of which one of the four lowest
-- words is neither the canary nor 0.
pub memory_check_stack_overflow_lem :
    (s : System) (id i : ℕ)
    → task_get_tcb s id ≡ some i
    → (memory_check_stack_overflow s id ≡ true) ↔ (
        (w : ℕ) × (w < 4)
        × ((s.task_pool i).stack w ≢ stack_canary)
        × ((s.task_pool i).stack w ≢ 0))
unfolding memory_check_stack_overflow
memory_check_stack_overflow_lem s id i found = (
  λ e.
      let (w, u, bad) =
        check_words_only 4 0 (s.task_pool i).stack (rw (found, memory_check_stack_overflow) at e) in
      (w, omega (arith, u), ground (arith, bad), ground (arith, bad)),
  λ (w, u, one, two).
      rw (found, memory_check_stack_overflow)
        (check_words_found 4 0 w (s.task_pool i).stack (omega arith) (omega (arith, u))
          (ground (arith, one, two))),
)

-- The stack check passes a task that `task_create` has just made: its first frame lies above the words
-- that are looked at.
pub memory_check_stack_overflow-task_create :
    (s : System) (q : ℕ → List ℕ) (function : ℕ) (name : Option (List ℕ)) (priority params : ℕ)
    (v : IsValid s q) (numbered : Numbered s) (in_range : priority < num_priority_levels) (i : ℕ)
    (s' : System)
    → Created s q function name priority params v numbered in_range i s'
    → memory_check_stack_overflow s' s.next_task_id ≡ false
unfolding memory_check_stack_overflow
memory_check_stack_overflow-task_create s q function name priority params v numbered in_range i s'
      c =
    rw (c.found, memory_check_stack_overflow)
      (check_words_clean 4 0 (s'.task_pool i).stack (λ k l u. ground (
        arith,
        c.stack k,
        new_tcb-stack function name priority params s.next_task_id k (omega (arith, u)),
      )))
