-- ===== src/Hal/InterruptDispatcher/Tests.antt =====
-- Runs of the interrupt dispatcher of src/hal/interrupt_dispatcher.c.
use rtos_driver_framework.Base.{
  ◌≡◌, refl, false, none, some, List, [], ◌∷◌, ◌>>=◌, ok, error, invalid_param,
}
use rtos_driver_framework.Hal.InterruptDispatcher.{
  Dispatcher, no_entry, Code, irq_dispatch, irq_register, irq_unregister, Call, register,
  unregister, step, run,
}

abbrev cleared : Dispatcher
cleared = record { irq_handlers = λ _. no_entry; handler_count = 0; in_isr_context = false }

abbrev calls : List Call
calls =
    register 5 (some 4096) none ∷ register 300 (some 4096) none ∷ unregister 5 ∷ unregister 5 ∷ []

statuses :
    (run cleared calls).0
    ≡ (register 5 (some 4096) none, ok)
      ∷ (register 300 (some 4096) none, invalid_param)
      ∷ (unregister 5, ok)
      ∷ (unregister 5, error)
      ∷ []
unfolding run step irq_register irq_unregister
statuses = refl

-- Every handler registers itself for the next number, clears the flag and succeeds.
abbrev code : Code
code f irq_num context d =
    some (ok, record (irq_register d irq_num (some f) context).1 { in_isr_context = false })

abbrev one : Dispatcher
one = (irq_register cleared 5 (some 4096) (some 8)).1

dispatch_run : (d : Dispatcher) × (irq_dispatch code one 5 ≡ some (ok, d))
unfolding irq_dispatch irq_register
dispatch_run = (_, refl)
