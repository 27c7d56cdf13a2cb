-- ===== src/Drivers/Uart.antt =====
-- src/drivers/uart_driver.c. The array `uart_instances` is a map from an instance number to its
-- handle, and a handle is named by that number; `none` is NULL. The calls that allocate or free take
-- and give the heap of src/kernel/memory.c. Bytes written to the log are left out.
pub mod Write
pub mod Read
pub mod Lifecycle
pub mod Full
mod Tests
use rtos_driver_framework.Base.{
  ℕ, zero, suc, ◌+◌, ◌-◌, Bool, true, false, not, ◌&&◌, ◌||◌, Option, none, some, List, [], ◌∷◌,
  leb, ◌==◌, if◌then◌else◌, update, ◌>>=◌, Status, ok, error, busy, not_ready, invalid_param,
}
use rtos_driver_framework.Kernel.Memory.{Heap}
use rtos_driver_framework.DriverFramework.{
  DeviceStatus, device_ok, device_error, device_invalid_param, Device,
}
use rtos_driver_framework.Drivers.CircularBuffer.{
  CircularBuffer, circ_buf_init, circ_buf_deinit, circ_buf_put, circ_buf_get, circ_buf_available,
  circ_buf_flush,
}

pub data UartParity : Type 0 where
  parity_none parity_even parity_odd : UartParity

pub data UartStopBits : Type 0 where
  stop_bits_1 stop_bits_2 : UartStopBits

-- `uart_config_t`; the baud rate and the data bits are the numbers that the enumerations stand for.
pub record UartConfig : Type 0 where
  pub baud_rate : ℕ
  pub parity : UartParity
  pub stop_bits : UartStopBits
  pub data_bits : ℕ
  pub enable_dma : Bool
  pub enable_interrupts : Bool
  pub rx_buffer_size : ℕ
  pub tx_buffer_size : ℕ

-- A function pointer and its user data, as addresses; `none` is NULL.
abbrev pub Callback : Type 0
Callback = Option ℕ

-- `struct uart_handle`.
pub record UartHandle : Type 0 where
  pub uart_id : ℕ
  pub config : UartConfig
  pub rx_buffer : CircularBuffer
  pub tx_buffer : CircularBuffer
  pub rx_callback : Callback
  pub rx_callback_data : Option ℕ
  pub tx_callback : Callback
  pub tx_callback_data : Option ℕ
  pub initialized : Bool
  pub tx_busy : Bool

abbrev pub max_uart_instances : ℕ
max_uart_instances = 4

-- The static array of handles, with the heap.
pub record Uarts : Type 0 where
  pub instances : ℕ → UartHandle
  pub heap : Heap

abbrev pub zero_buffer : CircularBuffer
zero_buffer = record { buffer = none; cells = λ _. 0; size = 0; head = 0; tail = 0; count = 0 }

-- The handle after `memset`, with its number and configuration.
abbrev pub fresh : ℕ → UartConfig → UartHandle
fresh uart_id config = record {
  uart_id = uart_id;
  config = config;
  rx_buffer = zero_buffer;
  tx_buffer = zero_buffer;
  rx_callback = none;
  rx_callback_data = none;
  tx_callback = none;
  tx_callback_data = none;
  initialized = false;
  tx_busy = false;
}

abbrev pub is_null : CircularBuffer → Bool
is_null cb = elim cb.buffer [ none ↦ true | some _ ↦ false ]

-- `uart_init` once the buffers are set up: the handle is kept, or the buffers are given back.
pub finish_init :
    Uarts → ℕ → UartConfig → CircularBuffer → CircularBuffer → Heap → Option (Option ℕ × Uarts)
finish_init s uart_id config rx tx h =
    let uart = record (fresh uart_id config) { rx_buffer = rx; tx_buffer = tx } in
    if is_null rx || is_null tx
    then (do
      (rx', h') ← circ_buf_deinit h rx
      (tx', h'') ← circ_buf_deinit h' tx
      some (
        none,
        record {
          instances = update s.instances uart_id (record uart { rx_buffer = rx'; tx_buffer = tx' });
          heap = h'';
        },
      ))
    else some (
      some uart_id,
      record {
        instances =
            update s.instances uart_id (record uart { initialized = true; tx_busy = false });
        heap = h;
      },
    )

-- `none` outside as for `rtos_free`.
pub uart_init : Uarts → ℕ → Option UartConfig → Option (Option ℕ × Uarts)
uart_init s uart_id none = some (none, s)
uart_init s uart_id (some config) =
    if leb max_uart_instances uart_id
    then some (none, s)
    else if (s.instances uart_id).initialized
    then some (some uart_id, s)
    else (let (rx, h) = circ_buf_init s.heap config.rx_buffer_size in
        let (tx, h') = circ_buf_init h config.tx_buffer_size in
        finish_init s uart_id config rx tx h')

-- `none` as for `rtos_free`.
pub uart_deinit : Heap → Option UartHandle → Option (Status × Option UartHandle × Heap)
uart_deinit h none = some (invalid_param, none, h)
uart_deinit h (some uart) = if not uart.initialized then some (invalid_param, some uart, h) else (do
  (rx, h') ← circ_buf_deinit h uart.rx_buffer
  (tx, h'') ← circ_buf_deinit h' uart.tx_buffer
  some (ok, some (record uart { rx_buffer = rx; tx_buffer = tx; initialized = false }), h''))

-- The first loop of `uart_write`: the bytes go to the transmit buffer until it is full.
pub put_all : CircularBuffer → List ℕ → Bool × CircularBuffer
put_all cb [] = (true, cb)
put_all cb (x ∷ xs) =
    let (done, cb') = circ_buf_put cb x in
    elim done [ true ↦ put_all cb' xs | false ↦ (false, cb') ]

-- What a call hands to a callback: the function and its user data.
abbrev pub Notice : Type 0
Notice = Option (ℕ × Option ℕ)

abbrev pub notify : Callback → Option ℕ → Notice
notify none user = none
notify (some f) user = some (f, user)

-- `uart_write` with a handle that is no NULL; `data` is the `len` bytes at its pointer. The call of
-- the transmit callback is its last step, and is given as a notice.
pub write_bytes : UartHandle → Option (List ℕ) → Status × Notice × UartHandle
write_bytes uart none = (invalid_param, none, uart)
write_bytes uart (some []) = (invalid_param, none, uart)
write_bytes uart (some (x ∷ xs)) =
    if not uart.initialized
    then (invalid_param, none, uart)
    else (let (done, tx) = put_all uart.tx_buffer (x ∷ xs) in
        if done
        then (ok, notify uart.tx_callback uart.tx_callback_data, record uart { tx_buffer = tx })
        else (busy, none, record uart { tx_buffer = tx }))

pub uart_write : Option UartHandle → Option (List ℕ) → Status × Notice × Option UartHandle
uart_write none bytes = (invalid_param, none, none)
uart_write (some uart) bytes = let (s, n, uart') = write_bytes uart bytes in (s, n, some uart')

-- The loop of `uart_read`: at most `len` bytes, until the buffer is empty.
pub get_all : CircularBuffer → ℕ → List ℕ × CircularBuffer
get_all cb zero = ([], cb)
get_all cb (suc len) =
    let (byte, cb') = circ_buf_get cb in
    elim byte [ none ↦ ([], cb') | some x ↦ let (xs, cb'') = get_all cb' len in (x ∷ xs, cb'') ]

-- `uart_read` with pointers that are no NULL: the bytes read, whose number goes to `bytes_read`.
pub read_bytes : UartHandle → ℕ → Status × List ℕ × UartHandle
read_bytes uart len =
    if not uart.initialized
    then (invalid_param, [], uart)
    else (let (xs, rx) = get_all uart.rx_buffer len in (ok, xs, record uart { rx_buffer = rx }))

-- `to` tells whether both pointers for the result are set.
pub uart_read : Option UartHandle → Bool → ℕ → Status × List ℕ × Option UartHandle
uart_read none to len = (invalid_param, [], none)
uart_read (some uart) false len = (invalid_param, [], some uart)
uart_read (some uart) true len = let (s, xs, uart') = read_bytes uart len in (s, xs, some uart')

-- `uart_write_dma` sets `tx_busy`, sends, and clears it; the bytes go out past the buffer.
pub uart_write_dma : Option UartHandle → Option (List ℕ) → Status × Option UartHandle
uart_write_dma none bytes = (invalid_param, none)
uart_write_dma (some uart) none = (invalid_param, some uart)
uart_write_dma (some uart) (some []) = (invalid_param, some uart)
uart_write_dma (some uart) (some (x ∷ xs)) =
    if not uart.initialized
    then (invalid_param, some uart)
    else if not uart.config.enable_dma
    then (not_ready, some uart)
    else if uart.tx_busy
    then (busy, some uart)
    else (ok, some (record (record uart { tx_busy = true }) { tx_busy = false }))

pub uart_available : Option UartHandle → ℕ
uart_available none = 0
uart_available (some uart) = if not uart.initialized then 0 else circ_buf_available uart.rx_buffer

pub uart_flush : Option UartHandle → Status × Option UartHandle
uart_flush none = (invalid_param, none)
uart_flush (some uart) = if not uart.initialized then (invalid_param, some uart) else (
  ok,
  some (record uart {
    rx_buffer = circ_buf_flush uart.rx_buffer;
    tx_buffer = circ_buf_flush uart.tx_buffer;
  }),
)

pub uart_set_callback : Option UartHandle → Callback → Option ℕ → Status × Option UartHandle
uart_set_callback none callback user_data = (invalid_param, none)
uart_set_callback (some uart) callback user_data =
    if not uart.initialized
    then (invalid_param, some uart)
    else (ok, some (record uart { rx_callback = callback; rx_callback_data = user_data }))

-- The simulated handler checks the instance and changes nothing.
pub uart_irq_handler : Uarts → ℕ → Uarts
uart_irq_handler s uart_id =
    if leb max_uart_instances uart_id
    then s
    else if not (s.instances uart_id).initialized
    then s
    else s

-- The calls on an open handle other than `uart_flush` and `uart_deinit`, and a sequence of them with
-- the status that each returns.
pub data Call : Type 0 where
  write : List ℕ → Call
  write_dma : List ℕ → Call
  read : ℕ → Call
  set_callback : Callback → Option ℕ → Call

-- A call that gets a handle gives one back.
abbrev kept : UartHandle → Status × Option UartHandle → Status × UartHandle
kept uart (s, none) = (s, uart)
kept uart (s, some uart') = (s, uart')

pub step : UartHandle → Call → Status × UartHandle
unfolding uart_write_dma uart_set_callback
step uart (write xs) = let (s, n, uart') = write_bytes uart (some xs) in (s, uart')
step uart (write_dma xs) = kept uart (uart_write_dma (some uart) (some xs))
step uart (read len) = let (s, xs, uart') = read_bytes uart len in (s, uart')
step uart (set_callback f user) = kept uart (uart_set_callback (some uart) f user)

pub run : UartHandle → List Call → List (Call × Status) × UartHandle
run uart [] = ([], uart)
run uart (c ∷ cs) =
    let (s, uart') = step uart c in let (rs, end) = run uart' cs in ((c, s) ∷ rs, end)

-- The callback of the driver framework. `config_at` gives the configuration that stands at an address;
-- the handle that is stored stands for its address. `none` as for `rtos_free`.
pub driver_uart_init :
    (ℕ → UartConfig) → Uarts → Option Device → Option (DeviceStatus × Option Device × Uarts)
driver_uart_init config_at s none = some (device_invalid_param, none, s)
driver_uart_init config_at s (some dev) = elim dev.platform_data [
  | none ↦ some (device_invalid_param, some dev, s)
  | some address ↦ do
    (handle, s') ← uart_init s dev.id (some (config_at address))
    elim handle [
      | none ↦ some (device_error, some dev, s')
      | some i ↦ some (device_ok, some (record dev { driver_data = some i }), s')
    ]
]
