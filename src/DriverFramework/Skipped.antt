-- ===== src/DriverFramework/Skipped.antt =====
-- The devices that `device_init_all` of src/driver_framework.c leaves out.
use mathlib.Core.Option.{some-injective}
use rtos_driver_framework.Base.{
  ℕ, zero, suc, ◌+◌, ◌≡◌, ◌≢◌, refl, inl, inr, none, some, List, [], ◌∷◌, arith, length, get_elem?,
  set, get_elem?-set_ne, ap, sym, ◌∙◌, Option-cases,
}
use rtos_driver_framework.DriverFramework.{
  Device, Driver, Framework, DeviceStatus, device_ok, device_not_found, next_device, driver_lookup,
  Code, Progress, finish_device, init_device, init_rounds, device_init_all,
}
use rtos_driver_framework.DriverFramework.Scan.{Chosen, next_device_lem}

module _ {ℓ} (W : Type ℓ) (code : Code W) (drivers : List Driver) (k : ℕ) (dev : Device) where
  set_elsewhere :
      (ds : List Device) (i : ℕ) (v : Device)
      → i ≢ k
      → get_elem? ds k ≡ some dev
      → get_elem? (set ds i v) k ≡ some dev
  set_elsewhere ds i v ne e = get_elem?-set_ne ds i k v ne ∙ e

  finish_keeps :
      (i : ℕ) (r : DeviceStatus × Device × W) (p : Progress W)
      → i ≢ k
      → get_elem? p.devices k ≡ some dev
      → get_elem? (finish_device W i r p).devices k ≡ some dev
  finish_keeps i (device_ok, d, w) p ne e = set_elsewhere p.devices i _ ne e
  finish_keeps i (s, d, w) p ne e = set_elsewhere p.devices i _ ne e

  init_device_keeps :
      (i : ℕ) (d : Device) (p : Progress W)
      → i ≢ k
      → get_elem? p.devices k ≡ some dev
      → get_elem? (init_device W code drivers i d p).devices k ≡ some dev
  unfolding init_device
  init_device_keeps i d p ne e = elim (Option-cases (driver_lookup drivers d.driver_name)) [
    | inl none_found ↦ rw (none_found, init_device) e
    | inr (j, found) ↦ elim (Option-cases (get_elem? drivers j)) [
      | inl out ↦ rw (found, init_device, out, init_device) e
      | inr (driver, stands) ↦
          rw (found, init_device, stands, init_device) (finish_keeps i _ p ne e)
    ]
  ]

  elsewhere :
      (p : Progress W) (c : Chosen 0 255 p.devices (next_device 0 255 none p.devices))
      → dev.init_priority ≡ 255
      → get_elem? p.devices k ≡ some dev
      → 0 + c.position ≢ k
  elsewhere p c pri e at =
      let here : c.position ≡ k = omega (arith, at) in
      let same = some-injective _ _ (sym c.stands ∙ ap (get_elem? p.devices) here ∙ e) in
      absurd (omega (arith, c.below, pri, ap (λ (d : Device). d.init_priority) same))

  rounds_keep :
      (n : ℕ) (p : Progress W)
      → dev.init_priority ≡ 255
      → get_elem? p.devices k ≡ some dev
      → get_elem? (init_rounds W code drivers n p).devices k ≡ some dev
  unfolding init_rounds
  rounds_keep zero p pri e = e
  rounds_keep (suc n) p pri e = elim (next_device_lem 0 255 none p.devices) [
    | inl (stop, later) ↦ rw (stop, init_rounds) e
    | inr c ↦
        rw (c.result, init_rounds)
          (rounds_keep n (init_device W code drivers (0 + c.position) c.device p) pri
            (init_device_keeps (0 + c.position) c.device p (elsewhere p c pri e) e))
  ]

-- A device of priority 255 is left as it is, whatever the drivers do.
pub device_init_all-last_priority {ℓ} :
    (W : Type ℓ) (code : Code W) (s : Framework) (w : W) (k : ℕ) (dev : Device)
    → dev.init_priority ≡ 255
    → get_elem? s.device_registry k ≡ some dev
    → get_elem? (device_init_all W code s w).1.device_registry k ≡ some dev
unfolding device_init_all
device_init_all-last_priority W code s w k dev pri e =
    rounds_keep W code s.driver_registry k dev (length s.device_registry)
      (record { status = device_ok; devices = s.device_registry; world = w; log = [] }) pri e

module _ {ℓ} (W : Type ℓ) (code : Code W) (drivers : List Driver) where
  missing :
      (i : ℕ) (dev : Device) (p : Progress W)
      → driver_lookup drivers dev.driver_name ≡ none
      → init_device W code drivers i dev p ≡ record p { status = device_not_found }
  unfolding init_device
  missing i dev p f = rw (f, init_device) refl

  one_round :
      (n : ℕ) (p : Progress W) (i : ℕ) (dev : Device)
      → next_device 0 255 none p.devices ≡ some (i, dev)
      → init_rounds W code drivers (suc n) p
        ≡ init_rounds W code drivers n (init_device W code drivers i dev p)
  unfolding init_rounds
  one_round n p i dev e = rw (e, init_rounds) refl

  rounds_blocked :
      (n : ℕ) (p : Progress W) (i : ℕ) (dev : Device)
      → next_device 0 255 none p.devices ≡ some (i, dev)
      → driver_lookup drivers dev.driver_name ≡ none
      → init_rounds W code drivers (suc n) p ≡ record p { status = device_not_found }
  unfolding init_rounds
  rounds_blocked zero p i dev e f = one_round 0 p i dev e ∙ missing i dev p f
  rounds_blocked (suc n) p i dev e f =
      one_round (suc n) p i dev e
      ∙ ap (init_rounds W code drivers (suc n)) (missing i dev p f)
      ∙ rounds_blocked n (record p { status = device_not_found }) i dev e f

  all_blocked :
      (ds : List Device) (w : W) (i : ℕ) (dev : Device)
      → next_device 0 255 none ds ≡ some (i, dev)
      → driver_lookup drivers dev.driver_name ≡ none
      → init_rounds W code drivers
          (length ds)
          (record { status = device_ok; devices = ds; world = w; log = [] })
        ≡ record { status = device_not_found; devices = ds; world = w; log = [] }
  unfolding next_device
  all_blocked [] w i dev e f = cc
  all_blocked (d ∷ ds) w i dev e f =
      rounds_blocked (length ds)
        (record { status = device_ok; devices = d ∷ ds; world = w; log = [] }) i dev e f

-- If no driver is registered for the device that is chosen first, every pass chooses it again:
-- `device_init_all` calls no driver, initialises no device and returns the status for a driver that is
-- not found, also when every other device could be initialised.
pub device_init_all-blocked {ℓ} :
    (W : Type ℓ) (code : Code W) (s : Framework) (w : W) (i : ℕ) (dev : Device)
    → next_device 0 255 none s.device_registry ≡ some (i, dev)
    → driver_lookup s.driver_registry dev.driver_name ≡ none
    → device_init_all W code s w ≡ (device_not_found, s, w, [])
unfolding device_init_all
device_init_all-blocked W code s w i dev e f =
    ap (λ (p : Progress W). (p.status, record s { device_registry = p.devices }, p.world, p.log))
      (all_blocked W code s.driver_registry s.device_registry w i dev e f)
