-- ===== src/Ipc.antt =====
-- Inter-process communication (src/ipc): mutexes, semaphores and message queues. A handle is the
-- record that the code keeps behind a heap pointer; the calls that make and destroy one also give
-- the pointer and the heap.
pub mod Mutex
pub mod Semaphore
pub mod MessageQueue
