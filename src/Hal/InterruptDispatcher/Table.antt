-- ===== src/Hal/InterruptDispatcher/Table.antt =====
-- The handler table of src/hal/interrupt_dispatcher.c is a finite map from interrupt numbers to
-- handlers with their contexts, and its count of handlers is no count of them.
use rtos_driver_framework.Base.{
  ℕ, ◌+◌, ◌%◌, ◌≡◌, false, Option, none, some, List, [], ◌∷◌, arith, leb, if◌then◌else◌, update,
  u32_mod, ==_refl, ◌⊎◌, Status, ok, error, invalid_param,
}
use rtos_driver_framework.Hal.InterruptDispatcher.{
  max_irq_handlers, Dispatcher, IrqEntry, irq_dispatcher_init, irq_register, irq_unregister,
  irq_get_handler_count, Call, register, unregister, step, run,
}

-- The map that the table stands for.
abbrev pub Handlers : Type 0
Handlers = ℕ → Option (ℕ × Option ℕ)

abbrev pub handler_of : IrqEntry → Option (ℕ × Option ℕ)
handler_of e =
    if e.registered then (elim e.handler [ none ↦ none | some f ↦ some (f, e.context) ]) else none

abbrev pub handlers : Dispatcher → Handlers
handlers d irq_num = handler_of (d.irq_handlers irq_num)

-- An entry that is registered has a handler.
abbrev pub HasHandler : IrqEntry → Type 0
HasHandler e = (e.registered ≡ false) ⊎ ((f : ℕ) × (e.handler ≡ some f))

abbrev pub IsValid : Dispatcher → Type 0
IsValid d = (irq_num : ℕ) → HasHandler (d.irq_handlers irq_num)

-- What the two calls promise on the map.
abbrev pub spec_step : Handlers → Call → Status × Handlers
spec_step m (register irq_num none context) = (invalid_param, m)
spec_step m (register irq_num (some f) context) =
    if leb max_irq_handlers irq_num
    then (invalid_param, m)
    else (ok, update m irq_num (some (f, context)))
spec_step m (unregister irq_num) =
    if leb max_irq_handlers irq_num
    then (invalid_param, m)
    else (elim (m irq_num) [ none ↦ (error, m) | some h ↦ (ok, update m irq_num none) ])

abbrev pub spec_run : Handlers → List Call → List (Call × Status) × Handlers
spec_run m [] = ([], m)
spec_run m (c ∷ cs) =
    let (s, m') = spec_step m c in let (rs, end) = spec_run m' cs in ((c, s) ∷ rs, end)

-- The number of calls that unregister a handler with success.
abbrev removes : Call × Status → ℕ
removes (unregister i, ok) = 1
removes r = 0

step_count :
    (d : Dispatcher) (c : Call)
    → ((step d c).1.handler_count + removes (c, (step d c).0)) % u32_mod ≡ d.handler_count % u32_mod
unfolding step irq_register irq_unregister
step_count d (register i none c) = omega arith
step_count d (register i (some f) c) = ground (arith, ==_refl i)
step_count d (unregister i) = ground arith

abbrev pub unregistered : List (Call × Status) → ℕ
unregistered [] = 0
unregistered (r ∷ rs) = removes r + unregistered rs

run_count :
    (d : Dispatcher) (cs : List Call)
    → ((run d cs).1.handler_count + unregistered (run d cs).0) % u32_mod ≡ d.handler_count % u32_mod
unfolding run
run_count d [] = omega arith
run_count d (c ∷ cs) = omega (arith, step_count d c, run_count (step d c).1 cs)

-- After `irq_dispatcher_init` and any calls, the count that `irq_get_handler_count` returns is the
-- negation modulo 2^32 of the number of handlers unregistered so far: registering a handler never
-- counts it.
pub irq_get_handler_count-run :
    (d : Dispatcher) (cs : List Call)
    → let (rs, d') = run (irq_dispatcher_init d) cs in
      (irq_get_handler_count d' + unregistered rs) % u32_mod ≡ 0
unfolding irq_dispatcher_init irq_get_handler_count
irq_get_handler_count-run d cs = run_count (irq_dispatcher_init d) cs
