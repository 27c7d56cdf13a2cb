-- ===== src/Drivers/Uart/Tests.antt =====
-- Runs of the UART driver of src/drivers/uart_driver.c.
use rtos_driver_framework.Base.{
  ◌≡◌, refl, true, false, none, some, [], ◌∷◌, ◌++◌, arith, leb, take, if◌then◌else◌, ok, busy,
}
use rtos_driver_framework.Kernel.Memory.{
  zero_heap, memory_init, rtos_malloc, align_size, find_best_fit, best_fit_loop, take_block,
  split_block, mark, block_at,
}
use rtos_driver_framework.Kernel.Memory.Invariant.{memory_init-IsValid}
use rtos_driver_framework.Drivers.CircularBuffer.{CircularBuffer, circ_buf_init}
use rtos_driver_framework.Drivers.CircularBuffer.Fifo
use rtos_driver_framework.Drivers.CircularBuffer.Fifo.{contents}
use rtos_driver_framework.Drivers.Uart.{
  UartConfig, parity_none, stop_bits_1, UartHandle, Uarts, fresh, notify, uart_init, write_bytes,
  driver_uart_init, finish_init,
}
use rtos_driver_framework.DriverFramework.{Device, device_ok}
use rtos_driver_framework.Drivers.Uart.Lifecycle.{IsValid, Outcome, uart_init_lem}
use rtos_driver_framework.Drivers.Uart.Write.{room, write_bytes_lem}

abbrev config : UartConfig
config = record {
  baud_rate = 115200;
  parity = parity_none;
  stop_bits = stop_bits_1;
  data_bits = 8;
  enable_dma = false;
  enable_interrupts = true;
  rx_buffer_size = 64;
  tx_buffer_size = 64;
}

abbrev closed : Uarts
closed = record { instances = λ i. fresh i config; heap = memory_init zero_heap }

closed-IsValid : IsValid closed
closed-IsValid = record { heap_valid = memory_init-IsValid zero_heap refl; ready = λ i e. cc }

uart_init_lem_example : Outcome closed 0 config (uart_init closed 0 (some config))
uart_init_lem_example =
    uart_init_lem closed 0 config closed-IsValid (omega arith) (omega arith) (omega arith) refl

-- A buffer of four bytes that holds 7 and 9, from its last cell on.
abbrev half_full : CircularBuffer
half_full = record {
  buffer = some 32;
  cells = λ i. if leb 3 i then 7 else 9;
  size = 4;
  head = 1;
  tail = 3;
  count = 2;
}

half_full-IsValid : Fifo.IsValid half_full
half_full-IsValid = record {
  tail_in = omega arith;
  count_in = omega arith;
  head_at = refl;
  small = omega arith;
}

abbrev uart : UartHandle
uart = record (fresh 0 config) { rx_buffer = half_full; tx_buffer = half_full; initialized = true }

write_bytes_lem_example :
    let (s, n, uart') = write_bytes uart (some (1 ∷ 2 ∷ 3 ∷ [])) in
    let fits = leb 3 (room half_full) in
    (s ≡ (if fits then ok else busy))
    × (n ≡ (if fits then notify none none else none))
    × (contents uart'.tx_buffer ≡ contents half_full ++ take (room half_full) (1 ∷ 2 ∷ 3 ∷ []))
    × Fifo.IsValid uart'.tx_buffer
    × (uart'.rx_buffer ≡ half_full)
write_bytes_lem_example = write_bytes_lem uart 1 (2 ∷ 3 ∷ []) refl half_full-IsValid

abbrev device : Device
device = record {
  name = none;
  id = 1;
  driver_name = none;
  platform_data = some 4096;
  driver_data = none;
  init_priority = 10;
  initialized = false;
}

-- The callback opens instance 1 and stores its handle in the device.
driver_uart_init_run :
    (s : Uarts) × (driver_uart_init (λ _. config) closed (some device)
      ≡ some (device_ok, some (record device { driver_data = some 1 }), s))
unfolding driver_uart_init uart_init finish_init circ_buf_init memory_init rtos_malloc align_size
    find_best_fit best_fit_loop take_block split_block mark block_at
driver_uart_init_run = (_, refl)
