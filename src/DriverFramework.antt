-- ===== src/DriverFramework.antt =====
-- src/driver_framework.c. The two registries are the used parts of the static arrays, in order, and
-- an entry is named by its position. A string is the list of its characters; `none` is NULL. What the
-- code of a driver's `init` does is the parameter `code`: from the address of the function, the device
-- and a world of type `W` it gives its status, the device as it leaves it and the world. The log lines
-- that tell which device has been initialised are the output of `device_init_all`.
pub mod Table
pub mod Registry
pub mod Scan
pub mod Rounds
pub mod Skipped
pub mod Builtin
mod Tests
use rtos_driver_framework.Base.{
  ℕ, zero, suc, ◌+◌, Bool, true, false, not, ◌&&◌, Option, none, some, List, [], ◌∷◌, ◌++◌, length,
  get_elem?, set, leb, ltb, ◌==◌, if◌then◌else◌,
}

-- `device_status_t`.
pub data DeviceStatus : Type 0 where
  device_ok device_error device_not_found device_already_initialized device_invalid_param :
      DeviceStatus

abbrev pub Name : Type 0
Name = List ℕ

-- `strcmp` gives 0.
abbrev pub same : Name → Name → Bool
same [] [] = true
same [] (y ∷ ys) = false
same (x ∷ xs) [] = false
same (x ∷ xs) (y ∷ ys) = (x == y) && same xs ys

-- The comparison with the name of an entry. No entry has the name NULL.
abbrev pub named : Name → Option Name → Bool
named a none = false
named a (some b) = same b a

-- `device_t`; the two data pointers are addresses.
pub record Device : Type 0 where
  pub name : Option Name
  pub id : ℕ
  pub driver_name : Option Name
  pub platform_data : Option ℕ
  pub driver_data : Option ℕ
  pub init_priority : ℕ
  pub initialized : Bool

-- `driver_t`; the callbacks are addresses.
pub record Driver : Type 0 where
  pub name : Option Name
  pub init : Option ℕ
  pub deinit : Option ℕ

abbrev pub max_drivers : ℕ
max_drivers = 16

abbrev pub max_devices : ℕ
max_devices = 32

-- The static variables.
pub record Framework : Type 0 where
  pub driver_registry : List Driver
  pub device_registry : List Device

-- A loop that returns the first entry that passes a test, or else goes to the end.
abbrev pub find_from {ℓ} : {A : Type ℓ} → ℕ → (A → Bool) → List A → Option ℕ
find_from i test [] = none
find_from i test (x ∷ xs) = if test x then some i else find_from (i + 1) test xs

abbrev pub is_driver : Name → Driver → Bool
is_driver name d = named name d.name

abbrev pub is_device : Name → Device → Bool
is_device name d = named name d.name

pub driver_register : Framework → Option Driver → DeviceStatus × Framework
driver_register s none = (device_invalid_param, s)
driver_register s (some driver) = elim driver.name [
  | none ↦ (device_invalid_param, s)
  | some name ↦ elim (find_from 0 (is_driver name) s.driver_registry) [
    | some i ↦ (device_already_initialized, s)
    | none ↦
        if leb max_drivers (length s.driver_registry)
        then (device_error, s)
        else (device_ok, record s { driver_registry = s.driver_registry ++ (driver ∷ []) })
  ]
]

-- On the driver registry.
pub driver_lookup : List Driver → Option Name → Option ℕ
driver_lookup registry none = none
driver_lookup registry (some name) = find_from 0 (is_driver name) registry

pub device_register : Framework → Option Device → DeviceStatus × Framework
device_register s none = (device_invalid_param, s)
device_register s (some dev) = elim dev.name [
  | none ↦ (device_invalid_param, s)
  | some name ↦ elim dev.driver_name [
    | none ↦ (device_invalid_param, s)
    | some driver_name ↦ elim (find_from 0 (is_device name) s.device_registry) [
      | some i ↦ (device_already_initialized, s)
      | none ↦
          if leb max_devices (length s.device_registry)
          then (device_error, s)
          else (device_ok, record s { device_registry = s.device_registry ++ (dev ∷ []) })
    ]
  ]
]

pub device_get_by_name : Framework → Option Name → Option ℕ
device_get_by_name s none = none
device_get_by_name s (some name) = find_from 0 (is_device name) s.device_registry

pub device_get_by_driver_and_id : Framework → Option Name → ℕ → Option ℕ
device_get_by_driver_and_id s none id = none
device_get_by_driver_and_id s (some driver_name) id =
    find_from 0 (λ (d : Device). named driver_name d.driver_name && (d.id == id)) s.device_registry

pub device_get_count : Framework → ℕ
device_get_count s = length s.device_registry

-- The inner loop of `device_init_all`: the uninitialised device of the smallest priority below
-- `min_priority`, the first of them, with its position, or the choice so far.
pub next_device : ℕ → ℕ → Option (ℕ × Device) → List Device → Option (ℕ × Device)
next_device i min_priority next [] = next
next_device i min_priority next (d ∷ ds) =
    let take = not d.initialized && ltb d.init_priority min_priority in
    next_device (i + 1) (if take then d.init_priority else min_priority)
      (if take then some (i, d) else next) ds

module _ {ℓ} (W : Type ℓ) where
  abbrev pub Code : Type ℓ
  Code = ℕ → Device → W → DeviceStatus × Device × W

  -- The call of `driver->init` if there is one.
  abbrev pub call_init : Code → Option ℕ → Device → W → DeviceStatus × Device × W
  call_init code none dev w = (device_ok, dev, w)
  call_init code (some f) dev w = code f dev w

  -- What a pass of the outer loop leaves: the status so far, the devices, the world and the log.
  pub record Progress : Type ℓ where
    pub status : DeviceStatus
    pub devices : List Device
    pub world : W
    pub log : List Device

  -- A call of `init` that has returned.
  abbrev pub finish_device : ℕ → DeviceStatus × Device × W → Progress → Progress
  finish_device i (device_ok, dev', w) p = record p {
    devices = set p.devices i (record dev' { initialized = true });
    world = w;
    log = p.log ++ (record dev' { initialized = true } ∷ []);
  }
  finish_device i (s, dev', w) p = record p {
    status = s;
    devices = set p.devices i dev';
    world = w;
  }

  -- One pass of the outer loop for the device chosen. The position that the lookup gives is in range.
  pub init_device : Code → List Driver → ℕ → Device → Progress → Progress
  init_device code drivers i dev p = elim (driver_lookup drivers dev.driver_name) [
    | none ↦ record p { status = device_not_found }
    | some k ↦ elim (get_elem? drivers k) [
      | none ↦ p
      | some driver ↦ finish_device i (call_init code driver.init dev p.world) p
    ]
  ]

  -- The passes of the outer loop that are left.
  pub init_rounds : Code → List Driver → ℕ → Progress → Progress
  init_rounds code drivers zero p = p
  init_rounds code drivers (suc n) p = elim (next_device 0 255 none p.devices) [
    | none ↦ p
    | some (i, dev) ↦ init_rounds code drivers n (init_device code drivers i dev p)
  ]

  pub device_init_all : Code → Framework → W → DeviceStatus × Framework × W × List Device
  device_init_all code s w =
      let p =
        init_rounds code s.driver_registry (length s.device_registry)
          (record { status = device_ok; devices = s.device_registry; world = w; log = [] }) in
      (p.status, record s { device_registry = p.devices }, p.world, p.log)

pub device_framework_init : Framework → Framework
device_framework_init s = record { driver_registry = []; device_registry = [] }

-- "uart_driver", "i2c_driver" and "spi_driver".
abbrev pub uart_driver : Name
uart_driver = 117 ∷ 97 ∷ 114 ∷ 116 ∷ 95 ∷ 100 ∷ 114 ∷ 105 ∷ 118 ∷ 101 ∷ 114 ∷ []

abbrev pub i2c_driver : Name
i2c_driver = 105 ∷ 50 ∷ 99 ∷ 95 ∷ 100 ∷ 114 ∷ 105 ∷ 118 ∷ 101 ∷ 114 ∷ []

abbrev pub spi_driver : Name
spi_driver = 115 ∷ 112 ∷ 105 ∷ 95 ∷ 100 ∷ 114 ∷ 105 ∷ 118 ∷ 101 ∷ 114 ∷ []

-- The drivers that come with the framework; `uart`, `i2c` and `spi` are the addresses of their `init`
-- functions.
pub device_register_builtin_drivers : ℕ → ℕ → ℕ → Framework → Framework
device_register_builtin_drivers uart i2c spi s =
    let s₁ =
      (driver_register s
        (some (record { name = some uart_driver; init = some uart; deinit = none }))).1 in
    let s₂ =
      (driver_register s₁
        (some (record { name = some i2c_driver; init = some i2c; deinit = none }))).1 in
    (driver_register s₂
      (some (record { name = some spi_driver; init = some spi; deinit = none }))).1

-- A sequence of registrations.
pub data Registration : Type 0 where
  driver_entry : Option Driver → Registration
  device_entry : Option Device → Registration

abbrev pub register_all : Framework → List Registration → Framework
register_all s [] = s
register_all s (driver_entry d ∷ rs) = register_all (driver_register s d).1 rs
register_all s (device_entry d ∷ rs) = register_all (device_register s d).1 rs
