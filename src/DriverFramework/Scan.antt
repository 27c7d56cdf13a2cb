-- ===== src/DriverFramework/Scan.antt =====
-- The device that a pass of `device_init_all` of src/driver_framework.c chooses.
use rtos_driver_framework.Base.{
  ℕ, suc, ◌+◌, ◌≤◌, ◌<◌, ◌≡◌, refl, ◌⊎◌, inl, inr, true, false, not, ◌&&◌, Option, some, List, [],
  ◌∷◌, arith, ltb, get_elem?, All, ap, ◌∙◌, Bool-cases,
}
use rtos_driver_framework.DriverFramework.{Device, next_device}

-- A device that is initialised, or of a priority of at least `m`.
abbrev pub Later : ℕ → Device → Type 0
Later m d = (d.initialized ≡ true) ⊎ (m ≤ d.init_priority)

pub Later-le : (m k : ℕ) (d : Device) → k ≤ m → Later m d → Later k d
Later-le m k d h (inl e) = inl e
Later-le m k d h (inr e) = inr (omega arith)

skipped : (m : ℕ) (d : Device) → (not d.initialized && ltb d.init_priority m) ≡ false → Later m d
skipped m d e = elim (Bool-cases d.initialized) [
  | inl done ↦ inl done
  | inr waiting ↦ inr (ground arith)
]

-- What the loop chooses among `ds` once it stands at position `i` with the bound `m`.
pub record Chosen (i m : ℕ) (ds : List Device) (r : Option (ℕ × Device)) : Type 0 where
  pub position : ℕ
  pub device : Device
  pub result : r ≡ some (i + position, device)
  pub stands : get_elem? ds position ≡ some device
  pub waiting : device.initialized ≡ false
  pub below : device.init_priority < m
  pub least : All (Later device.init_priority) ds

pub next_device_lem :
    (i m : ℕ) (next : Option (ℕ × Device)) (ds : List Device)
    → ((next_device i m next ds ≡ next) × All (Later m) ds)
      ⊎ Chosen i m ds (next_device i m next ds)
unfolding next_device
next_device_lem i m next [] = inl (refl, tt)
next_device_lem i m next (d ∷ ds) = elim (Bool-cases (not d.initialized && ltb d.init_priority m)) [
  | inl take ↦ rw take (elim (next_device_lem (i + 1) d.init_priority (some (i, d)) ds) [
    | inl (e, all) ↦ inr record {
      position = 0;
      device = d;
      result = e ∙ ap (λ k. some (k, d)) (omega arith);
      stands = refl;
      waiting = ground arith;
      below = ground arith;
      least = (inr (omega arith), all);
    }
    | inr c ↦ inr record {
      position = suc c.position;
      device = c.device;
      result = c.result ∙ ap (λ k. some (k, c.device)) (omega arith);
      stands = c.stands;
      waiting = c.waiting;
      below = ground (arith, c.below);
      least = (inr (ground (arith, c.below)), c.least);
    }
  ])
  | inr skip ↦ rw skip (elim (next_device_lem (i + 1) m next ds) [
    | inl (e, all) ↦ inl (e, (skipped m d skip, all))
    | inr c ↦ inr record {
      position = suc c.position;
      device = c.device;
      result = c.result ∙ ap (λ k. some (k, c.device)) (omega arith);
      stands = c.stands;
      waiting = c.waiting;
      below = c.below;
      least = (
        Later-le m c.device.init_priority d (ground (arith, c.below)) (skipped m d skip),
        c.least,
      );
    }
  ])
]
