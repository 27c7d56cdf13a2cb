-- ===== src/Kernel/Task/Change.antt =====
-- `task_delete`, `task_suspend` and `task_resume` of src/kernel/task.c.
use rtos_driver_framework.Base.{
  ℕ, ◌≡◌, ◌≢◌, refl, some, List, arith, ap, sym, ◌∙◌, subst, ==_refl, ok,
}
use rtos_driver_framework.Kernel.Scheduler.{
  ready, suspended, deleted, is_ready, is_running, Tcb, System, modify, with_state,
}
use rtos_driver_framework.Kernel.Scheduler.Chain.{occurrences}
use rtos_driver_framework.Kernel.Scheduler.Unlink.{zero_of}
use rtos_driver_framework.Kernel.Scheduler.Invariant.{
  IsValid, valid-But, but-IsValid, state-But, enqueue, dequeue, add_valid, remove_valid,
}
use rtos_driver_framework.Kernel.Scheduler.Steps.{Kept, Kept-trans, Frame-Kept, Stable-Kept}
use rtos_driver_framework.Kernel.Scheduler.Switch.{state-Frame}
use rtos_driver_framework.Kernel.Task.{task_get_tcb, task_delete, task_suspend, task_resume}
use rtos_driver_framework.Kernel.Task.Found.{
  task_get_tcb-InUse, written, written-Frame, taken_out, yield_if_current_lem,
}

-- `task_suspend` of a task in use, with what it leaves alone.
pub suspend_keeps :
    (s : System) (q : ℕ → List ℕ) (id i : ℕ)
    → IsValid s q
    → id ≢ 0
    → task_get_tcb s id ≡ some i
    → (s' : System) × (q' : ℕ → List ℕ) × (task_suspend s id ≡ some (ok, s'))
      × (IsValid s' q' × ((s'.task_pool i).state ≡ suspended) × Kept s s')
unfolding task_suspend
suspend_keeps s q id i v ne found =
    let (used, live) = task_get_tcb-InUse s id i ne found in
    let written₁ = written s i (with_state suspended (s.task_pool i)) refl refl refl (λ w. refl) in
    let (s₁, e₁, (v₁, st₁, f₁)) =
      taken_out s i (with_state suspended (s.task_pool i)) refl refl refl (λ w. refl) q v used
        refl in
    let (s₂, q₂, e₂, (v₂, st₂)) = yield_if_current_lem s₁ _ i v₁ in
    let f₀ = written-Frame s i (with_state suspended (s.task_pool i)) refl refl refl (λ w. refl) in
    let kept₁ =
      Kept-trans s written₁ s₁ (Frame-Kept s written₁ i f₀) (Frame-Kept written₁ s₁ i f₁) in
    (
      s₂,
      q₂,
      rw (found, task_suspend, live, e₁) e₂,
      (
        v₂,
        ap (λ (t : Tcb). t.state) (st₂.asleep i (ap is_ready st₁) (ap is_running st₁)) ∙ st₁,
        Kept-trans s s₁ s₂ kept₁ (Stable-Kept s₁ s₂ st₂),
      ),
    )

-- A task in use, given by its id. `task_suspend` ends, returns the OK status, leaves the task
-- suspended and out of the queues and keeps the invariant, also when the task suspends itself.
pub task_suspend_lem :
    (s : System) (q : ℕ → List ℕ) (id i : ℕ)
    → IsValid s q
    → id ≢ 0
    → task_get_tcb s id ≡ some i
    → (s' : System) × (q' : ℕ → List ℕ) × (task_suspend s id ≡ some (ok, s'))
      × (IsValid s' q' × ((s'.task_pool i).state ≡ suspended))
task_suspend_lem s q id i v ne found =
    let (s', q', e, (v', st, kept)) = suspend_keeps s q id i v ne found in (s', q', e, (v', st))

-- `task_delete` of a task in use, with what it leaves alone.
pub delete_keeps :
    (s : System) (q : ℕ → List ℕ) (id i : ℕ)
    → IsValid s q
    → id ≢ 0
    → task_get_tcb s id ≡ some i
    → (s' : System) × (q' : ℕ → List ℕ) × (task_delete s id ≡ some (ok, s'))
      × (IsValid s' q' × ((s'.task_pool i).state ≡ deleted) × Kept s s')
unfolding task_delete
delete_keeps s q id i v ne found =
    let (used, live) = task_get_tcb-InUse s id i ne found in
    let (s₁, e₁, (v₁, f₁, same₁, out₁, calm₁)) = remove_valid s q i (valid-But i s q v) used in
    let s₂ = modify s₁ i (with_state deleted) in
    let state₂ : (s₂.task_pool i).state ≡ deleted = rw (==_refl i) refl in
    let out₂ : occurrences i (dequeue q (s.task_pool i).priority i (s₂.task_pool i).priority) ≡ 0 =
      rw (==_refl i) out₁ in
    let v₂ = but-IsValid i s₂ _ (state-But i deleted s₁ _ v₁) (λ r. cc (sym state₂ ∙ r)) out₂ in
    let (s₃, q₃, e₃, (v₃, st₃)) = yield_if_current_lem s₂ _ i v₂ in
    (
      s₃,
      q₃,
      rw (found, task_delete, e₁) e₃,
      (
        v₃,
        ap (λ (t : Tcb). t.state) (st₃.asleep i (ap is_ready state₂) (ap is_running state₂))
            ∙ state₂,
        Kept-trans s s₁ s₃ (Frame-Kept s s₁ i f₁) (
            Kept-trans s₁ s₂ s₃ (Frame-Kept s₁ s₂ i (state-Frame s₁ i deleted))
              (Stable-Kept s₂ s₃ st₃)),
      ),
    )

-- `task_delete` of a task in use ends, returns the OK status, leaves the task deleted and out of the
-- queues and keeps the invariant, also when the task deletes itself.
pub task_delete_lem :
    (s : System) (q : ℕ → List ℕ) (id i : ℕ)
    → IsValid s q
    → id ≢ 0
    → task_get_tcb s id ≡ some i
    → (s' : System) × (q' : ℕ → List ℕ) × (task_delete s id ≡ some (ok, s'))
      × (IsValid s' q' × ((s'.task_pool i).state ≡ deleted))
task_delete_lem s q id i v ne found =
    let (s', q', e, (v', st, kept)) = delete_keeps s q id i v ne found in (s', q', e, (v', st))

-- `task_resume` of a suspended task, with what it leaves alone.
pub resume_keeps :
    (s : System) (q : ℕ → List ℕ) (id i : ℕ)
    → IsValid s q
    → id ≢ 0
    → task_get_tcb s id ≡ some i
    → (s.task_pool i).state ≡ suspended
    → (s' : System) × (task_resume s id ≡ some (ok, s'))
      × (IsValid s' (enqueue q (s.task_pool i).priority i)
          × ((s'.task_pool i).state ≡ ready)
          × Kept s s')
unfolding task_resume
resume_keeps s q id i v ne found off =
    let (used, live) = task_get_tcb-InUse s id i ne found in
    let s₁ = modify s i (with_state ready) in
    let level : (s₁.task_pool i).priority ≡ (s.task_pool i).priority = rw (==_refl i) refl in
    let out : occurrences i (q (s₁.task_pool i).priority) ≡ 0 =
      zero_of _ (λ o. cc (sym off ∙ (v.right i tt).1 _ o)) in
    let (s₂, e₂, (v₂, f₂, on₂, calm₂)) =
      add_valid s₁ q i (state-But i ready s q (valid-But i s q v)) (ground (arith, used, ==_refl i))
        out in
    (
      s₂,
      rw (found, task_resume, off, e₂) refl,
      (
        subst (λ x. IsValid s₂ (enqueue q x i)) level v₂,
        on₂,
        Kept-trans s s₁ s₂ (Frame-Kept s s₁ i (state-Frame s i ready)) (Frame-Kept s₁ s₂ i f₂),
      ),
    )

-- `task_resume` of a suspended task ends, returns the OK status and puts the task, ready, at the end of
-- the queue of its priority; the invariant holds.
pub task_resume_lem :
    (s : System) (q : ℕ → List ℕ) (id i : ℕ)
    → IsValid s q
    → id ≢ 0
    → task_get_tcb s id ≡ some i
    → (s.task_pool i).state ≡ suspended
    → (s' : System) × (task_resume s id ≡ some (ok, s'))
      × (IsValid s' (enqueue q (s.task_pool i).priority i) × ((s'.task_pool i).state ≡ ready))
task_resume_lem s q id i v ne found off =
    let (s', e, (v', st, kept)) = resume_keeps s q id i v ne found off in (s', e, (v', st))
