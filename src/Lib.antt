-- ===== src/Lib.antt =====
-- Verification of the RTOS driver framework: a small real-time kernel in C with its allocator, its
-- scheduler, its IPC objects, an interrupt dispatcher and device drivers.
--
-- The program's parts and the files that model them. A pointer is a position or an offset and NULL is
-- `none`; a call that changes static variables takes and gives the record of them; a result `none`
-- of a call stands for undefined behaviour or for a loop that does not end, as each file says.
--
-- - Kernel.Memory: the heap of src/kernel/memory.c (memory_init, rtos_malloc, rtos_free, rtos_calloc,
--   rtos_realloc, memory_get_stats) on the list of block headers. Blocks, Merge and BestFit treat the
--   list, Invariant, Allocation, Release, Stats and Report the calls.
-- - Kernel.Pool: the fixed-size block pools of the same file; Bitmap, Calls and Lifecycle.
-- - Kernel.Scheduler: src/kernel/scheduler.c on the task control blocks and their `next` pointers.
--   Chain and Queues say which queues the pointers stand for, Add and Remove treat the two list
--   operations (Unlink the loop of the second), Invariant, Steps, Switch and Schedule the decision,
--   Tick the tick handler, Delayed the delayed list (Point and Insert, WakeOne and Wake, Ticks), Turn,
--   RoundRobin and Alone tasks of one priority. Spec is the decision on queues, without pointers, and
--   Refinement compares the code with it.
-- - Kernel.Task: src/kernel/task.c on the same state; Slots and Create, Found and Change, Delay, and
--   Refused for the calls that return an error.
-- - Kernel.Run: sequences of calls of the two files from the state that the initialisers set up.
-- - Kernel.StackCheck: memory_check_stack_overflow of src/kernel/memory.c; Fresh treats new tasks.
-- - Ipc.Mutex (Holder), Ipc.Semaphore (Counting) and Ipc.MessageQueue (Slots, Fifo, and Lifecycle for
--   the memory it takes): the files of src/ipc, which allocate from the heap.
-- - Hal.InterruptDispatcher: src/hal/interrupt_dispatcher.c; Table and Dispatch.
-- - Hal.SysTick: the tick of src/hal/arm_cortex_m4.c, which calls the scheduler; Counts.
-- - Drivers.CircularBuffer and Drivers.Uart: src/drivers/uart_driver.c with its buffers; the handles
--   own two buffers each, which come from the heap and go back to it.
-- - Drivers.Spi: src/drivers/spi_driver.c; Transfer, Open, and Ends for the calls with a buffer on the
--   stack.
-- - Drivers.I2c: src/drivers/i2c_driver.c; Transfer, Open, and Interleaving for transfers of several
--   tasks, as a step relation on a handle that splits a transfer at its wait.
-- - Drivers.Builtin: the three drivers as the code that the framework calls; Buses.
-- - Bootloader: src/bootloader/bootloader.c; Shift treats the bits of a register, Division compares the
--   checksum with long division of polynomials over the field of two elements, Burst its errors.
-- - DriverFramework: src/driver_framework.c; Table and Registry treat the registries, Scan and Rounds
--   the initialisation of the devices, Skipped the devices that it leaves out, and Builtin the registry
--   of the drivers that come with it.
-- - Base: names, lists, bits, exclusive or, windows of ring buffers and the specification of a bounded
--   queue.
-- - A module Tests beside a component holds runs of its code and uses of its theorems.
--
-- Bounds. `size_t` has 64 bits, `uint32_t` 32, with their wrap written out; a block header has 32
-- bytes, as in the 64-bit Windows build. The loops along `next` pointers in the scheduler have fuel
-- for 16 blocks, the size of the task pool: the invariant bounds every list by that. Every other loop
-- recurses on a list or on the count that the code runs through.
--
-- Not modelled: the log and the calls that only print (bootloader_init, bootloader_jump_to_app,
-- memory_print_stats, irq_print_handlers, device_print_registry, context_switch), the registers, the
-- exception entries and the assembly of the target board (the rest of src/hal/arm_cortex_m4.c, and
-- src/hal/stm32f429_startup.c), the demo and the test program. The percentage that memory_get_stats
-- computes in doubles is a parameter.
pub mod Base
pub mod Kernel
pub mod Hal
pub mod Ipc
pub mod Drivers
pub mod DriverFramework
pub mod Bootloader
