-- ===== src/Hal.antt =====
-- src/hal: the interrupt dispatcher.
pub mod InterruptDispatcher
pub mod SysTick
