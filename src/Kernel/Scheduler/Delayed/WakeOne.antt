-- ===== src/Kernel/Scheduler/Delayed/WakeOne.antt =====
-- One round of the loop of `process_delayed_tasks` of src/kernel/scheduler.c.
use rtos_driver_framework.Base.{
  ℕ, ◌≡◌, ◌≢◌, none, some, List, [], ◌∷◌, arith, leb, if◌then◌else◌, ap, sym, ◌∙◌, subst, ==_refl,
}
use rtos_driver_framework.Kernel.Scheduler.{Tcb, ready, System, modify, scheduler_add_task}
use rtos_driver_framework.Kernel.Scheduler.Chain.{Chain, occurrences, Chain-frame, Chain-update}
use rtos_driver_framework.Kernel.Scheduler.Queues.{Member, member_of, All-occurrences}
use rtos_driver_framework.Kernel.Scheduler.Unlink.{zero_of}
use rtos_driver_framework.Kernel.Scheduler.Invariant.{IsValid, ValidBut, enqueue, add_valid}
use rtos_driver_framework.Kernel.Scheduler.Delayed.{Waits, Delays, Sorted-frame}

-- The tasks at the head of a list whose wake time is at most `now`, and the others.
abbrev pub due : (ℕ → ℕ) → ℕ → List ℕ → List ℕ
due wake now [] = []
due wake now (j ∷ js) = let rest = due wake now js in if leb (wake j) now then j ∷ rest else []

abbrev pub later : (ℕ → ℕ) → ℕ → List ℕ → List ℕ
later wake now [] = []
later wake now (j ∷ js) = let rest = later wake now js in if leb (wake j) now then rest else j ∷ js

-- The tasks put at the ends of the queues of their priorities, one after the other.
abbrev pub enqueue_all : (ℕ → ℕ) → (ℕ → List ℕ) → List ℕ → (ℕ → List ℕ)
enqueue_all priority q [] = q
enqueue_all priority q (j ∷ js) = enqueue_all priority (enqueue q (priority j) j) js

-- The task `j` taken from the head of the delayed list.
abbrev pub taken : System → ℕ → System
taken s j =
    modify (record s { delayed_list = (s.task_pool j).next }) j
      (λ (t : Tcb). record t { state = ready; next = none })

-- What a step leaves alone, but for the states of tasks that wake.
pub record Quiet (s s' : System) : Type 0 where
  pub ticks : s'.system_tick_count ≡ s.system_tick_count
  pub started : s'.scheduler_running ≡ s.scheduler_running
  pub current : s'.current_tcb ≡ s.current_tcb
  pub task : s'.current_task ≡ s.current_task
  pub ids : s'.next_task_id ≡ s.next_task_id
  pub task_id : (k : ℕ) → (s'.task_pool k).task_id ≡ (s.task_pool k).task_id
  pub priority : (k : ℕ) → (s'.task_pool k).priority ≡ (s.task_pool k).priority

-- One task wakes.
pub record Wakes (s s' : System) (q : ℕ → List ℕ) (j : ℕ) (js : List ℕ) : Type 0 where
  pub valid : IsValid s' (enqueue q (s.task_pool j).priority j)
  pub delays : Delays s' js
  pub quiet : Quiet s s'
  pub on : (s'.task_pool j).state ≡ ready
  pub states : (k : ℕ) → j ≢ k → (s'.task_pool k).state ≡ (s.task_pool k).state
  pub blocks : (k : ℕ) → occurrences k js ≢ 0 → s'.task_pool k ≡ s.task_pool k

taken-But :
    (s : System) (q : ℕ → List ℕ) (j : ℕ)
    → IsValid s q
    → ((p : ℕ) → occurrences j (q p) ≡ 0)
    → ValidBut j (taken s j) q
taken-But s q j v out = record {
  queues = record {
    chains = λ p. Chain-update s.task_pool j _ (s.ready_lists p) (q p) (out p) (v.queues.chains p);
    members = λ p.
        All-occurrences (Member s.task_pool p) (Member (taken s j).task_pool p) (q p)
          (λ k o m.
            let same = elsewhere k (λ z. o (ap (λ x. occurrences x (q p)) (sym z) ∙ out p)) in
            rw same m)
          (v.queues.members p);
    distinct = v.queues.distinct;
  };
  right = λ k ne. rw (elsewhere k ne) (v.right k tt);
  levels = λ k used. ground (arith, v.levels k);
  current = λ c e. ground (arith, v.current c e);
}
  where
    elsewhere : (k : ℕ) → j ≢ k → (taken s j).task_pool k ≡ s.task_pool k
    elsewhere k ne = ground arith

pub wake_one :
    (s : System) (q : ℕ → List ℕ) (j : ℕ) (js : List ℕ)
    → IsValid s q
    → Delays s (j ∷ js)
    → (s' : System) × (scheduler_add_task (taken s j) (some j) ≡ some s') × Wakes s s' q j js
wake_one s q j js v d =
    let (used, waits) = d.members.0 in
    let nowhere : (p : ℕ) → occurrences j (q p) ≡ 0 =
      λ p. zero_of (occurrences j (q p)) (λ o. cc (sym waits ∙ (v.right j tt).1 p o)) in
    let here : ((taken s j).task_pool j).priority ≡ (s.task_pool j).priority =
      ground (arith, ==_refl j) in
    let (s', e, (v', f, on, calm)) =
      add_valid (taken s j) q j (taken-But s q j v nowhere) (ground (arith, used, ==_refl j))
        (nowhere ((taken s j).task_pool j).priority) in
    let gone : occurrences j js ≡ 0 = ground (arith, d.distinct j, ==_refl j) in
    let blocks : (k : ℕ) → occurrences k js ≢ 0 → s'.task_pool k ≡ s.task_pool k = λ k o.
      let ne : j ≢ k = λ z. o (ap (λ x. occurrences x js) (sym z) ∙ gone) in
      let same : (taken s j).task_pool k ≡ s.task_pool k = ground arith in
      let still = ap (λ (t : Tcb). t.state) same ∙ (member_of (Waits s) k js d.members.1 o).1 in
      calm k ne (λ r. cc (sym still ∙ r)) ∙ same in
    (
      s',
      e,
      record {
        valid = subst (λ p. IsValid s' (enqueue q p j)) here v';
        delays = record {
          chain =
              subst (λ h. Chain s'.task_pool h js) (sym f.delayed)
                (Chain-frame s.task_pool s'.task_pool (s.task_pool j).next js blocks d.chain.1);
          members =
              All-occurrences (Waits s) (Waits s') js (λ k o m. rw (blocks k o) m) d.members.1;
          distinct = λ k. omega (arith, d.distinct k);
          sorted =
              Sorted-frame s.task_pool s'.task_pool (s.task_pool j).wake_time 0 js (omega arith)
                (λ k o. ap (λ (t : Tcb). t.wake_time) (blocks k o)) d.sorted.1;
        };
        quiet = record {
          ticks = f.ticks;
          started = f.started;
          current = f.current;
          task = f.task;
          ids = f.ids;
          task_id = λ k. f.task_id k ∙ ground arith;
          priority = λ k. f.priority k ∙ ground arith;
        };
        on = on;
        states = λ k ne. f.state k ne ∙ ground arith;
        blocks = blocks;
      },
    )
