-- ===== src/DriverFramework/Registry.antt =====
-- The two registries of src/driver_framework.c are bounded tables in which a name leads to its entry.
use rtos_driver_framework.Base.{
  ◌≤◌, ◌≡◌, inl, inr, false, Option, none, some, List, [], ◌∷◌, ◌++◌, arith, leb, if◌then◌else◌,
  length, length-append, subst, Bool-cases, Option-cases,
}
use rtos_driver_framework.DriverFramework.Table.{IsTable, append-IsTable}
use rtos_driver_framework.DriverFramework.{
  device_framework_init, Registration, driver_entry, device_entry, register_all, Name, Device,
  Driver, Framework, DeviceStatus, device_ok, device_error, max_drivers, max_devices, find_from,
  is_driver, is_device, driver_register, device_register,
}

abbrev pub device_name : Device → Option Name
device_name d = d.name

abbrev pub driver_name_of : Driver → Option Name
driver_name_of d = d.name

pub record IsValid (s : Framework) : Type 0 where
  pub drivers : IsTable driver_name_of s.driver_registry
  pub devices : IsTable device_name s.device_registry
  pub driver_bound : length s.driver_registry ≤ max_drivers
  pub device_bound : length s.device_registry ≤ max_devices

module _ (s : Framework) (v : IsValid s) where
  more_devices :
      (dev : Device) (n : Name)
      → dev.name ≡ some n
      → find_from 0 (is_device n) s.device_registry ≡ none
      → leb max_devices (length s.device_registry) ≡ false
      → IsValid (record s { device_registry = s.device_registry ++ (dev ∷ []) })
  more_devices dev n e f room = record {
    drivers = v.drivers;
    devices = append-IsTable device_name s.device_registry dev n v.devices e f;
    driver_bound = v.driver_bound;
    device_bound = ground (arith, length-append s.device_registry (dev ∷ []));
  }

  more_drivers :
      (driver : Driver) (n : Name)
      → driver.name ≡ some n
      → find_from 0 (is_driver n) s.driver_registry ≡ none
      → leb max_drivers (length s.driver_registry) ≡ false
      → IsValid (record s { driver_registry = s.driver_registry ++ (driver ∷ []) })
  more_drivers driver n e f room = record {
    drivers = append-IsTable driver_name_of s.driver_registry driver n v.drivers e f;
    devices = v.devices;
    driver_bound = ground (arith, length-append s.driver_registry (driver ∷ []));
    device_bound = v.device_bound;
  }

  device_outcome :
      (dev : Device) (n d : Name)
      → dev.name ≡ some n
      → dev.driver_name ≡ some d
      → find_from 0 (is_device n) s.device_registry ≡ none
      → (if leb max_devices (length s.device_registry)
          then (device_error, s)
          else (device_ok, record s { device_registry = s.device_registry ++ (dev ∷ []) }))
        ≡ device_register s (some dev)
  unfolding device_register
  device_outcome dev n d en ed f = ground (arith, f)

  driver_outcome :
      (driver : Driver) (n : Name)
      → driver.name ≡ some n
      → find_from 0 (is_driver n) s.driver_registry ≡ none
      → (if leb max_drivers (length s.driver_registry)
          then (device_error, s)
          else (device_ok, record s { driver_registry = s.driver_registry ++ (driver ∷ []) }))
        ≡ driver_register s (some driver)
  unfolding driver_register
  driver_outcome driver n en f = ground (arith, f)

  pub device_register-IsValid : (dev : Option Device) → IsValid (device_register s dev).1
  unfolding device_register
  device_register-IsValid none = v
  device_register-IsValid (some dev) = elim (Option-cases dev.name) [
    | inl e ↦ rw (e, device_register) v
    | inr (n, en) ↦ elim (Option-cases dev.driver_name) [
      | inl e ↦ rw (en, device_register, e, device_register) v
      | inr (d, ed) ↦ elim (Option-cases (find_from 0 (is_device n) s.device_registry)) [
        | inr (i, f) ↦ rw (en, device_register, ed, device_register, f, device_register) v
        | inl f ↦
            subst (λ (t : DeviceStatus × Framework). IsValid t.1) (device_outcome dev n d en ed f)
              (elim (Bool-cases (leb max_devices (length s.device_registry))) [
                | inl full ↦ rw full v
                | inr room ↦ rw room (more_devices dev n en f room)
              ])
      ]
    ]
  ]

  pub driver_register-IsValid : (driver : Option Driver) → IsValid (driver_register s driver).1
  unfolding driver_register
  driver_register-IsValid none = v
  driver_register-IsValid (some driver) = elim (Option-cases driver.name) [
    | inl e ↦ rw (e, driver_register) v
    | inr (n, en) ↦ elim (Option-cases (find_from 0 (is_driver n) s.driver_registry)) [
      | inr (i, f) ↦ rw (en, driver_register, f, driver_register) v
      | inl f ↦
          subst (λ (t : DeviceStatus × Framework). IsValid t.1) (driver_outcome driver n en f)
            (elim (Bool-cases (leb max_drivers (length s.driver_registry))) [
              | inl full ↦ rw full v
              | inr room ↦ rw room (more_drivers driver n en f room)
            ])
    ]
  ]

-- From the state that `device_framework_init` sets up, any sequence of registrations keeps both
-- registries within their bounds, and in each of them the name of every entry leads to that entry.
pub register_all-IsValid :
    (s : Framework) (rs : List Registration) → IsValid (register_all (device_framework_init s) rs)
unfolding device_framework_init
register_all-IsValid s rs =
    all rs (record { driver_registry = []; device_registry = [] })
      (record {
        drivers = λ i x e. cc;
        devices = λ i x e. cc;
        driver_bound = omega arith;
        device_bound = omega arith;
      })
  where
    all : (rs : List Registration) (s : Framework) → IsValid s → IsValid (register_all s rs)
    all [] s v = v
    all (driver_entry d ∷ rs) s v = all rs (driver_register s d).1 (driver_register-IsValid s v d)
    all (device_entry d ∷ rs) s v = all rs (device_register s d).1 (device_register-IsValid s v d)
