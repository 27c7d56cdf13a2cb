-- ===== src/Hal/InterruptDispatcher.antt =====
-- src/hal/interrupt_dispatcher.c. The handler table is a map from an interrupt number to its entry.
-- A function pointer is an address, and what the code there does is the parameter `code`: it gets the
-- interrupt number, the context and the state of the dispatcher, which it may change, and it gives its
-- status and the state; `none` where its own behaviour is undefined.
pub mod Table
pub mod Dispatch
mod Tests
use rtos_driver_framework.Base.{
  ℕ, ◌+◌, ◌-◌, ◌%◌, Bool, true, false, not, Option, none, some, List, [], ◌∷◌, leb, if◌then◌else◌,
  update, ◌>>=◌, u32_mod, Status, ok, error, invalid_param,
}

abbrev pub max_irq_handlers : ℕ
max_irq_handlers = 256

-- `irq_entry_t`.
pub record IrqEntry : Type 0 where
  pub handler : Option ℕ
  pub context : Option ℕ
  pub registered : Bool

-- The static variables.
pub record Dispatcher : Type 0 where
  pub irq_handlers : ℕ → IrqEntry
  pub handler_count : ℕ
  pub in_isr_context : Bool

abbrev pub no_entry : IrqEntry
no_entry = record { handler = none; context = none; registered = false }

pub irq_dispatcher_init : Dispatcher → Dispatcher
irq_dispatcher_init d = record {
  irq_handlers = λ _. no_entry;
  handler_count = 0;
  in_isr_context = false;
}

-- The entry is written before its flag is tested, so the test meets the flag set.
pub irq_register : Dispatcher → ℕ → Option ℕ → Option ℕ → Status × Dispatcher
irq_register d irq_num none context = (invalid_param, d)
irq_register d irq_num (some handler) context =
    if leb max_irq_handlers irq_num
    then (invalid_param, d)
    else (let entry : IrqEntry = record {
      handler = some handler;
      context = context;
      registered = true;
    } in
        let table = update d.irq_handlers irq_num entry in
        let d' = record d { irq_handlers = table } in
        if not (table irq_num).registered
        then (ok, record d' { handler_count = (d.handler_count + 1) % u32_mod })
        else (ok, d'))

pub irq_unregister : Dispatcher → ℕ → Status × Dispatcher
irq_unregister d irq_num =
    if leb max_irq_handlers irq_num
    then (invalid_param, d)
    else if not (d.irq_handlers irq_num).registered
    then (error, d)
    else (
      ok,
      record d {
        irq_handlers = update d.irq_handlers irq_num no_entry;
        handler_count = (d.handler_count + (u32_mod - 1)) % u32_mod;
      },
    )

-- What the code at an address does when it is called as a handler.
abbrev pub Code : Type 0
Code = ℕ → ℕ → Option ℕ → Dispatcher → Option (Status × Dispatcher)

-- A call through a pointer; one through NULL is undefined.
abbrev pub call_handler : Code → Option ℕ → ℕ → Option ℕ → Dispatcher → Option (Status × Dispatcher)
call_handler code none irq_num context d = none
call_handler code (some handler) irq_num context d = code handler irq_num context d

pub irq_dispatch : Code → Dispatcher → ℕ → Option (Status × Dispatcher)
irq_dispatch code d irq_num =
    if leb max_irq_handlers irq_num
    then some (invalid_param, d)
    else (let was_in_isr = d.in_isr_context in
        let d' = record d { in_isr_context = true } in
        let entry = d.irq_handlers irq_num in
        if not entry.registered
        then some (error, record d' { in_isr_context = was_in_isr })
        else (do
          (status, d'') ← call_handler code entry.handler irq_num entry.context d'
          some (status, record d'' { in_isr_context = was_in_isr })))

pub irq_is_in_isr : Dispatcher → Bool
irq_is_in_isr d = d.in_isr_context

pub irq_get_handler_count : Dispatcher → ℕ
irq_get_handler_count d = d.handler_count

-- The calls that change the table, and a sequence of them with the status that each returns.
pub data Call : Type 0 where
  register : ℕ → Option ℕ → Option ℕ → Call
  unregister : ℕ → Call

pub step : Dispatcher → Call → Status × Dispatcher
step d (register irq_num handler context) = irq_register d irq_num handler context
step d (unregister irq_num) = irq_unregister d irq_num

pub run : Dispatcher → List Call → List (Call × Status) × Dispatcher
run d [] = ([], d)
run d (c ∷ cs) = let (s, d') = step d c in let (rs, end) = run d' cs in ((c, s) ∷ rs, end)
