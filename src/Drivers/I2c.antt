-- ===== src/Drivers/I2c.antt =====
-- src/drivers/i2c_driver.c. The array `i2c_instances` is a map from an instance number to its handle, and a
-- handle is named by that number. A buffer is a pointer to a list of bytes, and `none` is NULL. The
-- address of the slave is only printed, and is left out with all that is printed. A result `none` outside
-- stands for an access through NULL or behind the end of a buffer.
pub mod Transfer
pub mod Interleaving
pub mod Open
mod Tests
use rtos_driver_framework.Base.{
  ℕ, zero, suc, ◌+◌, ◌%◌, Bool, true, false, not, ◌||◌, Option, none, some, List, [], ◌∷◌, length,
  get_elem?, set, leb, ◌==◌, if◌then◌else◌, update, ◌>>=◌, Status, ok, busy, invalid_param,
}
use rtos_driver_framework.DriverFramework.{
  DeviceStatus, device_ok, device_error, device_invalid_param, Device,
}

pub data I2cSpeed : Type 0 where
  i2c_speed_standard i2c_speed_fast i2c_speed_fast_plus : I2cSpeed

pub data I2cAddrMode : Type 0 where
  i2c_addr_7bit i2c_addr_10bit : I2cAddrMode

-- `i2c_config_t`.
pub record I2cConfig : Type 0 where
  pub speed : I2cSpeed
  pub addr_mode : I2cAddrMode
  pub enable_dma : Bool
  pub timeout_ms : ℕ

-- `struct i2c_handle`; `in_use` is its flag `busy`.
pub record I2cHandle : Type 0 where
  pub i2c_id : ℕ
  pub config : I2cConfig
  pub initialized : Bool
  pub in_use : Bool

abbrev pub max_i2c_instances : ℕ
max_i2c_instances = 4

-- `i2c_instances`.
abbrev pub I2cs : Type 0
I2cs = ℕ → I2cHandle

abbrev pub opened : ℕ → I2cConfig → I2cHandle
opened i2c_id config = record {
  i2c_id = i2c_id;
  config = config;
  initialized = true;
  in_use = false;
}

pub i2c_init : I2cs → ℕ → Option I2cConfig → Option ℕ × I2cs
i2c_init s i2c_id none = (none, s)
i2c_init s i2c_id (some config) =
    if leb max_i2c_instances i2c_id
    then (none, s)
    else if (s i2c_id).initialized
    then (some i2c_id, s)
    else (some i2c_id, update s i2c_id (opened i2c_id config))

pub i2c_deinit : Option I2cHandle → Status × Option I2cHandle
i2c_deinit none = (invalid_param, none)
i2c_deinit (some i2c) =
    if not i2c.initialized
    then (invalid_param, some i2c)
    else (ok, some (record i2c { initialized = false }))

-- `i2c->busy = true` and `i2c->busy = false` around the wait of a transfer.
abbrev pub start_transfer : I2cHandle → I2cHandle
start_transfer i2c = record i2c { in_use = true }

abbrev pub end_transfer : I2cHandle → I2cHandle
end_transfer i2c = record i2c { in_use = false }

-- Whether `len` bytes can be read through a pointer.
abbrev pub readable : Option (List ℕ) → ℕ → Bool
readable none len = len == 0
readable (some bytes) len = leb len (length bytes)

-- The loop `buffer[i] = base + i` with `n` rounds left.
pub fill : ℕ → ℕ → ℕ → List ℕ → Option (List ℕ)
fill base i zero buffer = some buffer
fill base i (suc n) [] = none
fill base i (suc n) (y ∷ buffer) = do
  rest ← fill base (i + 1) n buffer
  some ((base + i) % 256 ∷ rest)

pub fill_at : ℕ → ℕ → Option (List ℕ) → Option (Option (List ℕ))
unfolding fill
fill_at base zero none = some none
fill_at base (suc n) none = none
fill_at base n (some buffer) = do filled ← fill base 0 n buffer; some (some filled)

-- `i2c_master_write` behind its test of the parameters.
abbrev pub write_started : I2cHandle → List ℕ → ℕ → Option (Status × Option I2cHandle)
write_started i2c bytes len =
    if i2c.in_use
    then some (busy, some i2c)
    else if leb len (length bytes)
    then some (ok, some (end_transfer (start_transfer i2c)))
    else none

pub i2c_master_write : Option I2cHandle → Option (List ℕ) → ℕ → Option (Status × Option I2cHandle)
i2c_master_write none bytes len = some (invalid_param, none)
i2c_master_write (some i2c) none len = some (invalid_param, some i2c)
i2c_master_write (some i2c) (some bytes) len =
    if not i2c.initialized || (len == 0)
    then some (invalid_param, some i2c)
    else write_started i2c bytes len

-- What a call that reads returns: the status, the handle and the buffer.
abbrev pub Received : Type 0
Received = Option (Status × Option I2cHandle × Option (List ℕ))

pub i2c_master_read : Option I2cHandle → Option (List ℕ) → ℕ → Received
i2c_master_read none buffer len = some (invalid_param, none, buffer)
i2c_master_read (some i2c) none len = some (invalid_param, some i2c, none)
i2c_master_read (some i2c) (some buffer) len =
    if not i2c.initialized || (len == 0)
    then some (invalid_param, some i2c, some buffer)
    else if i2c.in_use
    then some (busy, some i2c, some buffer)
    else (do
      filled ← fill_at 0xaa len (some buffer)
      some (ok, some (end_transfer (start_transfer i2c)), filled))

pub i2c_master_write_read : Option I2cHandle → Option (List ℕ) → ℕ → Option (List ℕ) → ℕ → Received
i2c_master_write_read none write_data write_len read_buffer read_len =
    some (invalid_param, none, read_buffer)
i2c_master_write_read (some i2c) write_data write_len read_buffer read_len =
    if not i2c.initialized
    then some (invalid_param, some i2c, read_buffer)
    else if i2c.in_use
    then some (busy, some i2c, read_buffer)
    else if not (readable write_data write_len)
    then none
    else (do
      filled ← fill_at 0xbb read_len read_buffer
      some (ok, some (end_transfer (start_transfer i2c)), filled))

pub i2c_write_register : Option I2cHandle → ℕ → ℕ → Option (Status × Option I2cHandle)
unfolding i2c_master_write
i2c_write_register i2c reg_addr value = i2c_master_write i2c (some (reg_addr ∷ value ∷ [])) 2

pub i2c_read_register : Option I2cHandle → ℕ → Option (List ℕ) → Received
unfolding i2c_master_write_read
i2c_read_register i2c reg_addr value = i2c_master_write_read i2c (some (reg_addr ∷ [])) 1 value 1

pub i2c_read_registers : Option I2cHandle → ℕ → Option (List ℕ) → ℕ → Received
unfolding i2c_master_write_read
i2c_read_registers i2c reg_addr buffer len =
    i2c_master_write_read i2c (some (reg_addr ∷ [])) 1 buffer len

-- The simulated slaves.
abbrev pub answers : ℕ → Bool
answers addr = (addr == 0x50) || (addr == 0x68) || (addr == 0x77)

-- The loop of `i2c_scan_bus` from the address `addr` on, with `n` rounds left.
pub scan_addresses : ℕ → ℕ → List ℕ → ℕ → Option (List ℕ × ℕ)
scan_addresses zero addr found count = some (found, count)
scan_addresses (suc n) addr found count = elim (answers addr) [
  | false ↦ scan_addresses n (addr + 1) found count
  | true ↦ elim (get_elem? found count) [
    | none ↦ none
    | some old ↦ scan_addresses n (addr + 1) (set found count addr) (count + 1)
  ]
]

-- The status, and what stands behind the two pointers.
pub i2c_scan_bus :
    Option I2cHandle → Option (List ℕ) → Option ℕ → Option (Status × Option (List ℕ) × Option ℕ)
unfolding scan_addresses
i2c_scan_bus none found_devices count = some (invalid_param, found_devices, count)
i2c_scan_bus (some i2c) none count = some (invalid_param, none, count)
i2c_scan_bus (some i2c) (some found) none = some (invalid_param, some found, none)
i2c_scan_bus (some i2c) (some found) (some count) =
    if not i2c.initialized then some (invalid_param, some found, some count) else (do
      (found', count') ← scan_addresses 117 0x03 found 0
      some (ok, some found', some count'))

-- The callback of the driver framework. `config_at` gives the configuration that stands at an address;
-- the handle that is stored stands for its address.
pub driver_i2c_init : (ℕ → I2cConfig) → I2cs → Option Device → DeviceStatus × Option Device × I2cs
driver_i2c_init config_at s none = (device_invalid_param, none, s)
driver_i2c_init config_at s (some dev) = elim dev.platform_data [
  | none ↦ (device_invalid_param, some dev, s)
  | some address ↦
      let (handle, s') = i2c_init s dev.id (some (config_at address)) in
      elim handle [
        | none ↦ (device_error, some dev, s')
        | some i ↦ (device_ok, some (record dev { driver_data = some i }), s')
      ]
]
