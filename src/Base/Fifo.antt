-- ===== src/Base/Fifo.antt =====
-- The specification of a bounded queue: what it holds, oldest first, at most `cap` of them.
use Prim.Native.Nat.{ℕ}
use mathlib.Core.Bool.{Bool, true, false}
use mathlib.Core.Option.{Option, none, some}
use mathlib.Core.List.{List, [], ◌∷◌, ◌++◌}
use rtos_driver_framework.Base.Tests.{leb, if◌then◌else◌}
use rtos_driver_framework.Base.Lists.{length}

module _ {ℓ} {A : Type ℓ} where
  abbrev pub offer : ℕ → List A → A → Bool × List A
  offer cap q x = if leb cap (length q) then (false, q) else (true, q ++ (x ∷ []))

  abbrev pub poll : List A → Option A × List A
  poll [] = (none, [])
  poll (x ∷ q) = (some x, q)
