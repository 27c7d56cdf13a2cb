-- ===== src/Drivers/Spi.antt =====
-- src/drivers/spi_driver.c. The array `spi_instances` is a map from an instance number to its handle, and
-- a handle is named by that number. A buffer is a pointer to a list of bytes, and `none` is NULL. What is
-- printed is left out. A result `none` outside stands for an access behind the end of a buffer.
pub mod Transfer
pub mod Ends
pub mod Open
mod Tests
use Prim.Native.Nat.{bit_xor}
use rtos_driver_framework.Base.{
  ℕ, zero, suc, ◌+◌, Bool, true, false, not, Option, none, some, List, [], ◌∷◌, replicate, leb,
  ◌==◌, if◌then◌else◌, update, ◌>>=◌, Status, ok, invalid_param,
}
use rtos_driver_framework.DriverFramework.{
  DeviceStatus, device_ok, device_error, device_invalid_param, Device,
}

pub data SpiMode : Type 0 where
  spi_mode_0 spi_mode_1 spi_mode_2 spi_mode_3 : SpiMode

pub data SpiSpeed : Type 0 where
  spi_speed_low spi_speed_medium spi_speed_high spi_speed_very_high : SpiSpeed

-- `spi_config_t`.
pub record SpiConfig : Type 0 where
  pub mode : SpiMode
  pub speed : SpiSpeed
  pub enable_dma : Bool

-- `struct spi_handle`.
pub record SpiHandle : Type 0 where
  pub spi_id : ℕ
  pub config : SpiConfig
  pub initialized : Bool
  pub busy : Bool

abbrev pub max_spi_instances : ℕ
max_spi_instances = 4

-- `spi_instances`.
abbrev pub Spis : Type 0
Spis = ℕ → SpiHandle

abbrev pub opened : ℕ → SpiConfig → SpiHandle
opened spi_id config = record { spi_id = spi_id; config = config; initialized = true; busy = false }

pub spi_init : Spis → ℕ → Option SpiConfig → Option ℕ × Spis
spi_init s spi_id none = (none, s)
spi_init s spi_id (some config) =
    if leb max_spi_instances spi_id
    then (none, s)
    else if (s spi_id).initialized
    then (some spi_id, s)
    else (some spi_id, update s spi_id (opened spi_id config))

pub spi_deinit : Option SpiHandle → Status × Option SpiHandle
spi_deinit none = (invalid_param, none)
spi_deinit (some spi) =
    if not spi.initialized
    then (invalid_param, some spi)
    else (ok, some (record spi { initialized = false }))

-- The loop of `spi_transfer`: the bytes received are those sent with their bits turned.
pub loop_back : ℕ → List ℕ → List ℕ → Option (List ℕ)
loop_back zero tx_data rx_data = some rx_data
loop_back (suc n) [] rx_data = none
loop_back (suc n) (x ∷ tx_data) [] = none
loop_back (suc n) (x ∷ tx_data) (y ∷ rx_data) = do
  rest ← loop_back n tx_data rx_data
  some (bit_xor x 0xff ∷ rest)

-- `spi_transfer` behind its test for NULL.
pub transfer_bytes : SpiHandle → List ℕ → List ℕ → ℕ → Option (Status × List ℕ)
transfer_bytes spi tx_data rx_data zero = some (invalid_param, rx_data)
transfer_bytes spi tx_data rx_data (suc n) =
    if not spi.initialized
    then some (invalid_param, rx_data)
    else (do received ← loop_back (suc n) tx_data rx_data; some (ok, received))

-- The status and what stands in the receive buffer.
pub spi_transfer :
    Option SpiHandle → Option (List ℕ) → Option (List ℕ) → ℕ → Option (Status × Option (List ℕ))
spi_transfer none tx_data rx_data len = some (invalid_param, rx_data)
spi_transfer (some spi) none rx_data len = some (invalid_param, rx_data)
spi_transfer (some spi) (some tx_data) none len = some (invalid_param, none)
spi_transfer (some spi) (some tx_data) (some rx_data) len = do
  (status, received) ← transfer_bytes spi tx_data rx_data len
  some (status, some received)

-- `dummy` is what stands on the stack where `dummy_rx` comes to lie.
pub spi_write : List ℕ → Option SpiHandle → Option (List ℕ) → ℕ → Option Status
spi_write dummy spi bytes len = do
  (status, received) ← spi_transfer spi bytes (some dummy) len
  some status

-- `dummy_tx`: the initialiser gives the first byte, and C fills up with zeros.
abbrev pub dummy_tx : List ℕ
dummy_tx = 0xff ∷ replicate 255 0

pub spi_read : Option SpiHandle → Option (List ℕ) → ℕ → Option (Status × Option (List ℕ))
spi_read spi buffer len = spi_transfer spi (some dummy_tx) buffer len

-- The callback of the driver framework. `config_at` gives the configuration that stands at an address;
-- the handle that is stored stands for its address.
pub driver_spi_init : (ℕ → SpiConfig) → Spis → Option Device → DeviceStatus × Option Device × Spis
driver_spi_init config_at s none = (device_invalid_param, none, s)
driver_spi_init config_at s (some dev) = elim dev.platform_data [
  | none ↦ (device_invalid_param, some dev, s)
  | some address ↦
      let (handle, s') = spi_init s dev.id (some (config_at address)) in
      elim handle [
        | none ↦ (device_error, some dev, s')
        | some i ↦ (device_ok, some (record dev { driver_data = some i }), s')
      ]
]
