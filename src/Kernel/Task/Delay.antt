-- ===== src/Kernel/Task/Delay.antt =====
-- `task_delay` of src/kernel/task.c: it ends, and nothing wakes the task.
use rtos_driver_framework.Base.{
  ℕ, ◌+◌, ◌%◌, ◌<◌, ◌≡◌, refl, none, some, List, arith, ap, ◌∙◌, u32_mod,
}
use rtos_driver_framework.Kernel.Scheduler.{
  Tcb, blocked, is_ready, is_running, System, modify, scheduler_remove_task, scheduler_yield,
  scheduler_get_tick_count,
}
use rtos_driver_framework.Kernel.Scheduler.Invariant.{InUse, IsValid}
use rtos_driver_framework.Kernel.Scheduler.Steps.{Kept, Kept-trans, Frame-Kept, Stable-Kept}
use rtos_driver_framework.Kernel.Scheduler.Schedule.{scheduler_yield_lem}
use rtos_driver_framework.Kernel.Scheduler.Tick.{ticks, ticks-blocked}
use rtos_driver_framework.Kernel.Task.Found.{written, written-Frame, taken_out}
use rtos_driver_framework.Kernel.Task.{task_yield, task_delay, delayed_tcb}

delay_by :
    (s : System) (c n : ℕ) (s₁ s₂ : System)
    → s.current_task ≡ some c
    → 0 < n
    → scheduler_remove_task
        (modify s c (delayed_tcb ((scheduler_get_tick_count s + n) % u32_mod)))
        (some c)
      ≡ some s₁
    → scheduler_yield s₁ ≡ some s₂
    → task_delay s n ≡ some s₂
unfolding task_delay task_yield
delay_by s c n s₁ s₂ cur pos e₁ e₂ = ground (arith, e₁, e₂)

-- `task_delay` of the current task for at least one tick ends, leaves the task blocked and out of the
-- queues and keeps the invariant.
pub task_delay_lem :
    (s : System) (q : ℕ → List ℕ) (c n : ℕ)
    → IsValid s q
    → s.current_task ≡ some c
    → InUse s c
    → 0 < n
    → (s' : System) × (q' : ℕ → List ℕ) × (task_delay s n ≡ some s')
      × (IsValid s' q' × ((s'.task_pool c).state ≡ blocked) × Kept s s')
task_delay_lem s q c n v cur used pos =
    let wake : ℕ = (scheduler_get_tick_count s + n) % u32_mod in
    let written₁ = written s c (delayed_tcb wake (s.task_pool c)) refl refl refl (λ w. refl) in
    let f₀ = written-Frame s c (delayed_tcb wake (s.task_pool c)) refl refl refl (λ w. refl) in
    let (s₁, e₁, (v₁, st₁, f₁)) =
      taken_out s c (delayed_tcb wake (s.task_pool c)) refl refl refl (λ w. refl) q v used refl in
    let (s₂, q₂, e₂, (v₂, st₂, top)) = scheduler_yield_lem s₁ _ v₁ in
    (
      s₂,
      q₂,
      delay_by s c n s₁ s₂ cur pos e₁ e₂,
      (
        v₂,
        ap (λ (t : Tcb). t.state) (st₂.asleep c (ap is_ready st₁) (ap is_running st₁)) ∙ st₁,
        Kept-trans s s₁ s₂
            (Kept-trans s written₁ s₁ (Frame-Kept s written₁ c f₀) (Frame-Kept written₁ s₁ c f₁))
            (Stable-Kept s₁ s₂ st₂),
      ),
    )

-- A delayed task never wakes: after `task_delay` of the current task, from a state with an empty
-- delayed list, any number of calls of `scheduler_tick` ends with the task still blocked.
pub task_delay-ticks :
    (s : System) (q : ℕ → List ℕ) (c n : ℕ)
    → IsValid s q
    → s.current_task ≡ some c
    → InUse s c
    → 0 < n
    → s.delayed_list ≡ none
    → (s' : System) × (task_delay s n ≡ some s')
      × ((m : ℕ) → (s'' : System) × (ticks m s' ≡ some s'') × ((s''.task_pool c).state ≡ blocked))
task_delay-ticks s q c n v cur used pos none_delayed =
    let (s', q', e, (v', b, same)) = task_delay_lem s q c n v cur used pos in
    (s', e, λ m. ticks-blocked m s' q' c v' (same.delayed ∙ none_delayed) b)
