-- ===== src/Kernel/Task/Create.antt =====
-- `task_create` and `task_get_tcb` of src/kernel/task.c.
use rtos_driver_framework.Base.{
  ℕ, ◌+◌, ◌%◌, ◌<◌, ◌≡◌, ◌≢◌, refl, ◌⊎◌, inl, inr, true, false, not, ◌&&◌, Option, none, some, List,
  [], arith, leb, ◌==◌, ap, sym, ◌∙◌, subst, ==_refl, u32_mod, ok, no_memory,
}
use rtos_driver_framework.Kernel.Scheduler.{
  ready, Tcb, System, max_tasks, num_priority_levels, scheduler_add_task, scheduler_init,
}
use rtos_driver_framework.Kernel.Scheduler.Invariant.{InUse, IsValid, enqueue, add_valid}
use rtos_driver_framework.Kernel.Task.{
  is_deleted, free_tcb, new_tcb, task_init, task_create, task_get_tcb,
}
use rtos_driver_framework.Kernel.Task.Slots.{
  IsFree, free_tcb_lem, find_tcb_lem, free-not_queued, reset, elsewhere, reset-valid, new_tcb_lem,
}

-- The ids given so far are smaller than the next one, which is not 0.
pub record Numbered (s : System) : Type 0 where
  pub next : s.next_task_id ≢ 0
  pub below : (k : ℕ) → (s.task_pool k).task_id < s.next_task_id

module _ (s : System) (q : ℕ → List ℕ) (function : ℕ) (name : Option (List ℕ)) (priority params : ℕ)
    (v : IsValid s q) (numbered : Numbered s) (in_range : priority < num_priority_levels) where
  abbrev pub fresh : Tcb
  fresh = new_tcb function name priority params s.next_task_id

  abbrev next_id : ℕ
  next_id = (s.next_task_id + 1) % u32_mod

  -- A new task: the block `i`, which was not in use, at the end of the queue of the priority.
  pub record Created (i : ℕ) (s' : System) : Type 0 where
    pub result :
        task_create s (some function) name priority params ≡ some (ok, some s.next_task_id, s')
    pub valid : IsValid s' (enqueue q priority i)
    pub was_free : IsFree (s.task_pool i)
    pub found : task_get_tcb s' s.next_task_id ≡ some i
    pub level : (s'.task_pool i).priority ≡ priority
    pub on : (s'.task_pool i).state ≡ ready
    pub others : (k : ℕ) → i ≢ k → (s'.task_pool k).state ≡ (s.task_pool k).state
    pub count : s'.next_task_id ≡ next_id
    pub stack : (w : ℕ) → (s'.task_pool i).stack w ≡ fresh.stack w
    pub id : (s'.task_pool i).task_id ≡ s.next_task_id
    pub ids : (k : ℕ) → i ≢ k → (s'.task_pool k).task_id ≡ (s.task_pool k).task_id
    pub delayed : s'.delayed_list ≡ s.delayed_list
    pub agree : s.current_task ≡ s.current_tcb → s'.current_task ≡ s'.current_tcb

  abbrev started : ℕ → System
  started i = reset s i next_id fresh

  create_by :
      (i : ℕ) (s₂ : System)
      → free_tcb max_tasks 0 s.task_pool ≡ some i
      → scheduler_add_task (started i) (some i) ≡ some s₂
      → task_create s (some function) name priority params ≡ some (ok, some s.next_task_id, s₂)
  unfolding task_create
  create_by i s₂ e e₂ = rw (low, e, task_create, e₂) refl
    where
      low : leb num_priority_levels priority ≡ false
      low = ground arith

  test_at :
      (t : Tcb) (id : ℕ)
      → t.task_id ≡ id
      → t.state ≡ ready
      → ((t.task_id == id) && not (is_deleted t.state)) ≡ true
  test_at t id e r = ground (arith, r, e)

  created :
      (i : ℕ)
      → free_tcb max_tasks 0 s.task_pool ≡ some i
      → i < max_tasks
      → IsFree (s.task_pool i)
      → (s' : System) × Created i s'
  unfolding task_get_tcb
  created i e in_pool free =
      let (st, pr, id) = new_tcb_lem function name priority params s.next_task_id in
      let id_ne : fresh.task_id ≢ 0 = λ z. numbered.next (sym id ∙ z) in
      let v₁ =
        reset-valid s q i next_id fresh v free id_ne
          (subst (λ x. x < num_priority_levels) (sym pr) in_range) in
      let here : (started i).task_pool i ≡ fresh = rw (==_refl i) refl in
      let used : InUse (started i) i =
        (in_pool, λ z. id_ne (sym (ap (λ (t : Tcb). t.task_id) here) ∙ z)) in
      let level₁ : ((started i).task_pool i).priority ≡ priority =
        ap (λ (t : Tcb). t.priority) here ∙ pr in
      let (s₂, e₂, (v₂, f₂, on₂, calm₂)) =
        add_valid (started i) q i v₁ used
          (free-not_queued s q i ((started i).task_pool i).priority v free) in
      let id₂ : (s₂.task_pool i).task_id ≡ s.next_task_id =
        f₂.task_id i ∙ ap (λ (t : Tcb). t.task_id) here ∙ id in
      let there = elsewhere s i next_id fresh in
      (
        s₂,
        record {
          result = create_by i s₂ e e₂;
          valid = subst (λ x. IsValid s₂ (enqueue q x i)) level₁ v₂;
          was_free = free;
          found =
              find_tcb_lem max_tasks 0 i s₂.task_pool s.next_task_id (omega arith)
                (omega (arith, in_pool)) (test_at (s₂.task_pool i) s.next_task_id id₂ on₂)
                (λ j l u z. absurd (
                  omega (
                    arith,
                    numbered.below j,
                    ap (λ (t : Tcb). t.task_id) (there j (λ w. before i j u w)),
                    f₂.task_id j,
                    z,
                  )));
          level = f₂.priority i ∙ level₁;
          on = on₂;
          others = λ k ne. f₂.state k ne ∙ ap (λ (t : Tcb). t.state) (there k ne);
          count = f₂.ids;
          stack = λ w. f₂.stack i w ∙ ap (λ (t : Tcb). t.stack w) here;
          id = id₂;
          ids = λ k ne. f₂.task_id k ∙ ap (λ (t : Tcb). t.task_id) (there k ne);
          delayed = f₂.delayed;
          agree = λ e. f₂.task ∙ e ∙ sym f₂.current;
        },
      )
    where
      before : (i j : ℕ) → j < i → i ≢ j
      before i j u w = omega (arith, u, w)

  -- `task_create` for a priority below 32 ends. If no block is free, it returns the status for no
  -- memory and changes nothing. Otherwise a block that was not in use holds the new task, ready and at
  -- the end of the queue of its priority, with the next id; `task_get_tcb` finds the block by that id,
  -- the invariant holds, and the other tasks keep their states and ids. The ids given so far must be smaller
  -- than the next one, which must not be 0: the counter has not wrapped.
  pub task_create_lem :
      ((task_create s (some function) name priority params ≡ some (no_memory, none, s))
        × ((k : ℕ) → k < max_tasks → ¬ IsFree (s.task_pool k)))
      ⊎ ((i : ℕ) × (s' : System) × Created i s')
  unfolding task_create
  task_create_lem = elim (free_tcb_lem max_tasks 0 s.task_pool) [
    | inl (e, all) ↦ inl (
      rw (low, e, task_create) refl,
      λ k u free. cc (sym (all k (omega arith) (omega (arith, u))) ∙ free),
    )
    | inr (i, e, in_pool, free) ↦
        let (s', c) = created i e (omega (arith, in_pool)) free in inr (i, s', c)
  ]
    where
      low : leb num_priority_levels priority ≡ false
      low = ground arith

-- The state that `scheduler_init` and `task_init` set up is valid, with empty queues.
pub task_init-IsValid :
    (s : System)
    → IsValid (scheduler_init (task_init s)) (λ _. []) × Numbered (scheduler_init (task_init s))
unfolding scheduler_init task_init
task_init-IsValid s = (
  record {
    queues = record { chains = λ p. refl; members = λ p. tt; distinct = λ p k. omega arith };
    right = λ k u. (λ used. absurd (used.1 refl), λ p o. absurd (o refl));
    levels = λ k used. absurd (used.1 refl);
    current = λ c e. cc;
  },
  record { next = omega arith; below = λ k. omega arith },
)

pub task_init_lem :
    (s : System)
    → let s' = scheduler_init (task_init s) in
      (s'.next_task_id ≡ 1) × (s'.delayed_list ≡ none) × (s'.current_task ≡ s'.current_tcb)
unfolding scheduler_init task_init
task_init_lem s = (refl, refl, refl)
