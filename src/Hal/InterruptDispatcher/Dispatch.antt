-- ===== src/Hal/InterruptDispatcher/Dispatch.antt =====
-- `irq_dispatch` of src/hal/interrupt_dispatcher.c.
use rtos_driver_framework.Base.{
  ℕ, ◌≡◌, refl, true, false, Option, none, some, arith, leb, ap, ◌>>=◌, ==_refl, Status, ok, error,
}
use rtos_driver_framework.Hal.InterruptDispatcher.{
  max_irq_handlers, Dispatcher, Code, call_handler, irq_register, irq_unregister, irq_dispatch,
  irq_is_in_isr,
}

-- Whatever the handler does, also when it dispatches interrupts, registers handlers or writes the flag
-- itself, a dispatch that returns leaves the flag for the interrupt context as it found it.
pub irq_dispatch-is_in_isr :
    (code : Code) (d : Dispatcher) (irq_num : ℕ) (status : Status) (d' : Dispatcher)
    → irq_dispatch code d irq_num ≡ some (status, d')
    → irq_is_in_isr d' ≡ irq_is_in_isr d
unfolding irq_dispatch irq_is_in_isr
irq_dispatch-is_in_isr code d irq_num status d' e = ground arith

register_entry :
    (d : Dispatcher) (irq_num f : ℕ) (context : Option ℕ) (d' : Dispatcher)
    → irq_register d irq_num (some f) context ≡ (ok, d')
    → (leb max_irq_handlers irq_num ≡ false)
      × (d'.irq_handlers irq_num
          ≡ record { handler = some f; context = context; registered = true })
      × (d'.in_isr_context ≡ d.in_isr_context)
unfolding irq_register
register_entry d irq_num f context d' e = ground (arith, ==_refl irq_num)

-- A handler registered with success is the one that the next dispatch of its number runs, with the
-- context it was registered with; after `irq_unregister` a dispatch of the number is an error.
pub irq_dispatch-register :
    (code : Code) (d : Dispatcher) (irq_num : ℕ) (handler context : Option ℕ) (d' : Dispatcher)
    → irq_register d irq_num handler context ≡ (ok, d')
    → (irq_dispatch code d' irq_num ≡ (do
      (status, d'') ←
          call_handler code handler irq_num context (record d' { in_isr_context = true })
      some (status, record d'' { in_isr_context = d.in_isr_context })))
      × ((irq_unregister d' irq_num).0 ≡ ok)
      × (irq_dispatch code (irq_unregister d' irq_num).1 irq_num
          ≡ some (error, (irq_unregister d' irq_num).1))
unfolding irq_dispatch irq_register irq_unregister
irq_dispatch-register code d irq_num none context d' e = cc (ap (λ t. t.0) e)
irq_dispatch-register code d irq_num (some f) context d' e =
    let (inside, entry, flag) = register_entry d irq_num f context d' e in
    (
      rw (inside, entry, flag) refl,
      rw (inside, entry) refl,
      rw (inside, entry, irq_unregister, ==_refl irq_num) refl,
    )
