-- ===== src/Kernel.antt =====
-- The kernel: heap and pools (src/kernel/memory.c), scheduler and tasks.
pub mod Memory
pub mod Pool
pub mod Scheduler
pub mod Task
pub mod StackCheck
pub mod Run
