-- ===== src/Kernel/Scheduler/RoundRobin.antt =====
-- How `scheduler_yield` of src/kernel/scheduler.c passes the processor on among tasks of one priority.
use rtos_driver_framework.Base.{
  ℕ, zero, suc, Option, length, append_assoc, subst, ◌>>=◌, ◌<◌, ◌≡◌, ◌≢◌, refl, true, some, List,
  [], ◌∷◌, ◌++◌, arith, ap, ◌∙◌, ==_refl,
}
use rtos_driver_framework.Kernel.Scheduler.{
  TaskState, ready, running, System, get_highest_priority_task, requeue, scheduler_yield,
}
use rtos_driver_framework.Kernel.Scheduler.Chain.{occurrences}
use rtos_driver_framework.Kernel.Scheduler.Unlink.{zero_of}
use rtos_driver_framework.Kernel.Scheduler.Invariant.{InUse, IsValid, enqueue}
use rtos_driver_framework.Kernel.Scheduler.Steps.{Head}
use rtos_driver_framework.Kernel.Scheduler.Schedule.{requeued, yield_by}
use rtos_driver_framework.Kernel.Scheduler.Turn.{first_chosen, schedule_switch, turned_queue}

-- The scheduler runs, the task `c` of priority `p` has the processor, the tasks `waiting` of its priority
-- wait in this order, and no task of a higher priority does.
pub record Turning (s : System) (q : ℕ → List ℕ) (p c : ℕ) (waiting : List ℕ) : Type 0 where
  pub valid : IsValid s q
  pub on : s.scheduler_running ≡ true
  pub current : s.current_tcb ≡ some c
  pub runs : (s.task_pool c).state ≡ running
  pub level : (s.task_pool c).priority ≡ p
  pub queue : q p ≡ waiting
  pub above : (p' : ℕ) → p' < p → q p' ≡ []

module _ (s : System) (q : ℕ → List ℕ) (a b : ℕ) (rest : List ℕ) (v : IsValid s q)
    (on : s.scheduler_running ≡ true) (cur : s.current_tcb ≡ some a)
    (run : (s.task_pool a).state ≡ running) (first : q (s.task_pool a).priority ≡ b ∷ rest)
    (above : (p : ℕ) → p < (s.task_pool a).priority → q p ≡ []) where
  abbrev p : ℕ
  p = (s.task_pool a).priority

  not_queued : occurrences a (q p) ≡ 0
  not_queued =
      zero_of (occurrences a (q p)) (λ o. not_both (s.task_pool a).state run ((v.right a tt).1 p o))
    where
      not_both : (x : TaskState) → x ≡ running → x ≢ ready
      not_both x e f = cc

  -- The task chosen once `a` is back in its queue.
  chosen :
      (s₁ : System) (v₁ : IsValid s₁ (enqueue q p a))
      → InUse s₁ a
      → (s₁.task_pool a).state ≡ ready
      → (s₁.task_pool a).priority ≡ p
      → (get_highest_priority_task s₁ ≡ some b) × Head s₁ (enqueue q p a) v₁ p b
  chosen s₁ v₁ used on_a level =
      first_chosen s₁ (enqueue q p a) v₁ p a b (rest ++ (a ∷ [])) used on_a level
        (rw (==_refl p, first) refl) (λ p' lt. ground (arith, above p'))

  turn :
      (s' : System) × (q' : ℕ → List ℕ) × (scheduler_yield s ≡ some s')
      × Turning s' q' p b (rest ++ (a ∷ []))
  turn =
      let (s₁, e₁, (v₁, st₁, same₁, on_a, states₁)) = requeued s q a v (v.current a cur) run in
      let used_a : InUse s₁ a = v₁.current a (same₁ ∙ cur) in
      let (e, head) = chosen s₁ v₁ used_a on_a (st₁.priority a) in
      let ne : a ≢ b = ground (arith, not_queued, ap (occurrences a) first) in
      let (s₂, e₂, (v₂, cur₂, run₂, st₂)) =
        schedule_switch s₁ (enqueue q p a) a b v₁ (same₁ ∙ cur) on_a ne e head.used head.on in
      (
        s₂,
        _,
        yield_by s s₁ s₂ on (ap (requeue s) cur ∙ e₁) e₂,
        record {
          valid = v₂;
          on = st₂.started ∙ st₁.started ∙ on;
          current = cur₂;
          runs = run₂;
          level = st₂.priority b ∙ head.level;
          queue =
              rw (st₁.priority a, head.level)
                (turned_queue q p a b rest first not_queued (v.queues.distinct p b));
          above = λ p' lt. ground (arith, above p', st₁.priority a, head.level);
        },
      )

  -- A running task that yields while tasks of its priority wait, and none of a higher priority, goes
  -- behind them, and the first of them becomes the running one.
  pub scheduler_yield-round_robin :
      (s' : System) × (q' : ℕ → List ℕ) × (scheduler_yield s ≡ some s')
      × (IsValid s' q'
          × (s'.current_tcb ≡ some b)
          × ((s'.task_pool b).state ≡ running)
          × (q' p ≡ rest ++ (a ∷ [])))
  scheduler_yield-round_robin =
      let (s', q', e, t) = turn in (s', q', e, (t.valid, t.current, t.runs, t.queue))

one_turn :
    (s : System) (q : ℕ → List ℕ) (p a b : ℕ) (rest : List ℕ)
    → Turning s q p a (b ∷ rest)
    → (s' : System) × (q' : ℕ → List ℕ) × (scheduler_yield s ≡ some s')
      × Turning s' q' p b (rest ++ (a ∷ []))
one_turn s q p a b rest t =
    let (s', q', e, t') =
      turn s q a b rest t.valid t.on t.current t.runs (ap q t.level ∙ t.queue)
        (λ p' lt. t.above p' (omega (arith, lt, t.level))) in
    (s', q', e, subst (λ x. Turning s' q' x b (rest ++ (a ∷ []))) t.level t')

-- A number of yields, each by the task that has the processor.
abbrev pub yields : ℕ → System → Option System
yields zero s = some s
yields (suc n) s = do s' ← scheduler_yield s; yields n s'

-- While the tasks of one priority only yield and no task of a higher priority is ready, every waiting
-- task gets the processor after as many yields as its place in the queue says, and the tasks that had
-- it before then wait behind the others, in the order of their turns.
pub yields_turn :
    (before after : List ℕ) (s : System) (q : ℕ → List ℕ) (p c d : ℕ)
    → Turning s q p c (before ++ (d ∷ after))
    → (s' : System) × (q' : ℕ → List ℕ) × (yields (suc (length before)) s ≡ some s')
      × Turning s' q' p d (after ++ (c ∷ before))
yields_turn [] after s q p c d t =
    let (s', q', e, t') = one_turn s q p c d after t in (s', q', rw e refl, t')
yields_turn (b ∷ bs) after s q p c d t =
    let (s₁, q₁, e₁, t₁) = one_turn s q p c b (bs ++ (d ∷ after)) t in
    let (s₂, q₂, e₂, t₂) =
      yields_turn bs (after ++ (c ∷ [])) s₁ q₁ p b d
        (subst (Turning s₁ q₁ p b) (append_assoc bs (d ∷ after) (c ∷ [])) t₁) in
    (s₂, q₂, rw e₁ e₂, subst (Turning s₂ q₂ p d) (append_assoc after (c ∷ []) (b ∷ bs)) t₂)
