-- ===== src/DriverFramework/Rounds.antt =====
-- `device_init_all` of src/driver_framework.c: which devices it initialises, and in which order.
use rtos_driver_framework.Base.{
  ℕ, zero, suc, ◌+◌, ◌≤◌, ◌<◌, ◌≡◌, refl, ◌⊎◌, inl, inr, true, false, none, some, List, [], ◌∷◌,
  ◌++◌, append_assoc, append-nil, arith, length, get_elem?, set, All, All-map, All-set,
  All-get_elem?, sym, ◌∙◌, subst, if◌then◌else◌,
}
use rtos_driver_framework.DriverFramework.{
  Device, Driver, DeviceStatus, device_ok, next_device, driver_lookup, Code, call_init, Progress,
  finish_device, init_device, init_rounds,
}
use rtos_driver_framework.DriverFramework.Scan.{Later, Chosen, next_device_lem}

-- The number of devices that are not initialised.
abbrev pub waiting : List Device → ℕ
waiting [] = 0
waiting (d ∷ ds) = if d.initialized then waiting ds else suc (waiting ds)

-- Priorities that never fall.
abbrev pub Ascending : List Device → Type 0
Ascending [] = Unit
Ascending (d ∷ ds) = All (λ (e : Device). d.init_priority ≤ e.init_priority) ds × Ascending ds

waiting-set :
    (ds : List Device) (i : ℕ) (d v : Device)
    → get_elem? ds i ≡ some d
    → d.initialized ≡ false
    → v.initialized ≡ true
    → suc (waiting (set ds i v)) ≡ waiting ds
waiting-set [] i d v e w h = cc
waiting-set (x ∷ xs) zero d v e w h = ground (arith)
waiting-set (x ∷ xs) (suc i) d v e w h = ground (arith, waiting-set xs i d v)

waiting_zero : (ds : List Device) → waiting ds ≡ 0 → All (λ (d : Device). d.initialized ≡ true) ds
waiting_zero [] e = tt
waiting_zero (x ∷ xs) e = (ground arith, waiting_zero xs (ground arith))

none_waiting :
    (ds : List Device)
    → All (λ (d : Device). (d.initialized ≡ true) ⊎ (d.init_priority < 255)) ds
    → All (Later 255) ds
    → waiting ds ≡ 0
none_waiting [] all later = refl
none_waiting (x ∷ xs) (a, all) (l, later) = ground (arith, none_waiting xs all later)

module _ {ℓ} {W : Type ℓ} (code : Code W) (drivers : List Driver) where
  -- A driver is registered for the device, and its initialisation succeeds on it in every world and
  -- keeps its priority.
  pub record Works (d : Device) : Type ℓ where
    pub position : ℕ
    pub driver : Driver
    pub found : driver_lookup drivers d.driver_name ≡ some position
    pub stands : get_elem? drivers position ≡ some driver
    pub succeeds : (w : W) → (call_init W code driver.init d w).0 ≡ device_ok
    pub keeps : (w : W) → (call_init W code driver.init d w).1.init_priority ≡ d.init_priority

  -- A device that need not or can be initialised.
  abbrev pub Can : Device → Type ℓ
  Can d = (d.initialized ≡ true) ⊎ ((d.init_priority < 255) × Works d)

  finish_with :
      (i : ℕ) (r : DeviceStatus × Device × W) (p : Progress W)
      → r.0 ≡ device_ok
      → finish_device W i r p ≡ record p {
        devices = set p.devices i (record r.1 { initialized = true });
        world = r.2;
        log = p.log ++ (record r.1 { initialized = true } ∷ []);
      }
  finish_with i (device_ok, d, w) p e = refl
  finish_with i (r, d, w) p e = cc

  -- What a pass does for a device that works.
  module _ (i : ℕ) (d : Device) (p : Progress W) (works : Works d) where
    abbrev result : DeviceStatus × Device × W
    result = call_init W code works.driver.init d p.world

    abbrev left : Device
    left = record result.1 { initialized = true }

    abbrev after : Progress W
    after = record p {
      devices = set p.devices i left;
      world = result.2;
      log = p.log ++ (left ∷ []);
    }

    init_device_works : init_device W code drivers i d p ≡ after
    unfolding init_device
    init_device_works =
        rw
          (
            works.found,
            init_device,
            works.stands,
            init_device,
            finish_with i (call_init W code works.driver.init d p.world) p (works.succeeds p.world),
          )
          refl

  -- The rounds that are left, when there are enough of them.
  pub record Finished (n : ℕ) (p q : Progress W) : Type ℓ where
    pub status : q.status ≡ p.status
    pub all : All (λ (d : Device). d.initialized ≡ true) q.devices
    pub fresh : List Device
    pub logged : q.log ≡ p.log ++ fresh
    pub ascending : Ascending fresh
    pub all_later :
        (m : ℕ) → All (Later m) p.devices → All (λ (d : Device). m ≤ d.init_priority) fresh
    pub counted : length fresh ≡ waiting p.devices

  finished : (n : ℕ) (p : Progress W) → waiting p.devices ≡ 0 → Finished n p p
  finished n p none_left = record {
    status = refl;
    all = waiting_zero p.devices none_left;
    fresh = [];
    logged = sym (append-nil p.log);
    ascending = tt;
    all_later = λ m later. tt;
    counted = sym none_left;
  }

  -- One more pass before the rounds that are left.
  pass :
      (n : ℕ) (p q : Progress W) (c : Chosen 0 255 p.devices (next_device 0 255 none p.devices))
      (works : Works c.device)
      → Finished n (after c.position c.device p works) q
      → Finished (suc n) p q
  pass n p q c works f =
      let d : Device = c.device in
      let lf : Device = left c.position d p works in
      let kept : lf.init_priority ≡ d.init_priority = works.keeps p.world in
      let later =
        f.all_later d.init_priority
          (All-set (Later d.init_priority) p.devices c.position lf c.least (inl refl)) in
      record {
        status = f.status;
        all = f.all;
        fresh = lf ∷ f.fresh;
        logged = f.logged ∙ append_assoc p.log (lf ∷ []) f.fresh;
        ascending = (
          subst (λ k. All (λ (e : Device). k ≤ e.init_priority) f.fresh) (sym kept) later,
          f.ascending,
        );
        all_later = λ m all.
            let at_d = All-get_elem? (Later m) p.devices c.position d all c.stands in
            (
              ground (arith, at_d, kept, c.waiting),
              f.all_later m (All-set (Later m) p.devices c.position lf all (inl refl)),
            );
        counted =
            ground
              (arith, f.counted, waiting-set p.devices c.position d lf c.stands c.waiting refl);
      }

  Can-waiting : (ds : List Device) → All Can ds → All (Later 255) ds → waiting ds ≡ 0
  Can-waiting ds can later = none_waiting ds (All-map below ds can) later
    where
      below : (d : Device) → Can d → (d.initialized ≡ true) ⊎ (d.init_priority < 255)
      below d (inl e) = inl e
      below d (inr (lt, works)) = inr lt

  Can-Works : (d : Device) → Can d → d.initialized ≡ false → Works d
  Can-Works d (inl e) w = cc
  Can-Works d (inr (lt, works)) w = works

  pub rounds_lem :
      (n : ℕ) (p : Progress W)
      → All Can p.devices
      → waiting p.devices ≤ n
      → Finished n p (init_rounds W code drivers n p)
  unfolding init_rounds
  rounds_lem zero p can enough = finished 0 p (omega arith)
  rounds_lem (suc n) p can enough = elim (next_device_lem 0 255 none p.devices) [
    | inl (e, later) ↦ rw (e, init_rounds) (finished (suc n) p (Can-waiting p.devices can later))
    | inr c ↦
        let works =
          Can-Works c.device (All-get_elem? Can p.devices c.position c.device can c.stands)
            c.waiting in
        let p' = after c.position c.device p works in
        let lf = left c.position c.device p works in
        let can' = All-set Can p.devices c.position lf can (inl refl) in
        let one = waiting-set p.devices c.position c.device lf c.stands c.waiting refl in
        let at : 0 + c.position ≡ c.position = omega arith in
        rw (c.result, init_rounds, at, init_device_works c.position c.device p works)
          (pass n p (init_rounds W code drivers n p') c works
            (rounds_lem n p' can' (omega (arith, one, enough))))
  ]
