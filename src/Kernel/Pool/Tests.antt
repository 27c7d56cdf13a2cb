-- ===== src/Kernel/Pool/Tests.antt =====
-- Runs of the block pools of src/kernel/memory.c.
use rtos_driver_framework.Base.{ℕ, ◌+◌, ◌*◌, ◌<◌, ◌≡◌, refl, some, arith, size_mod, ok}
use rtos_driver_framework.Kernel.Memory.{
  Heap, zero_heap, memory_init, align_size, find_best_fit, best_fit_loop, block_at, mark,
  split_block, take_block, rtos_malloc,
}
use rtos_driver_framework.Base.Bits.{test_bit}
use rtos_driver_framework.Kernel.Pool.{
  MemoryPool, empty_pool, is_free, find_free, mark_used, alloc_block, memory_pool_create,
  make_bitmap, memory_pool_free,
}
use rtos_driver_framework.Kernel.Pool.Calls.{IsValid}
use rtos_driver_framework.Kernel.Pool.Lifecycle.{memory_pool_create-IsValid, free-alloc}

-- Three blocks of ten bytes.
create_run :
    (pool : MemoryPool) × (h : Heap) × (memory_pool_create (memory_init zero_heap) empty_pool 10 3
      ≡ some (ok, pool, h))
unfolding memory_pool_create make_bitmap memory_init rtos_malloc align_size find_best_fit
    best_fit_loop take_block split_block mark block_at
create_run = (_, _, refl)

abbrev three : MemoryPool
three = create_run.0

three-IsValid : IsValid three
three-IsValid =
    (memory_pool_create-IsValid (memory_init zero_heap) empty_pool 10 3 three create_run.1
      (omega arith) (omega arith) create_run.2).0

alloc_run : (pool : MemoryPool) × (alloc_block three ≡ (some 32, pool))
unfolding create_run alloc_block is_free test_bit find_free mark_used memory_pool_create make_bitmap
    memory_init rtos_malloc align_size find_best_fit best_fit_loop take_block split_block mark
    block_at
alloc_run = (_, refl)

start_run : three.pool_start ≡ some 32
unfolding create_run
start_run = refl

in_room : 32 + three.num_blocks * three.block_size < size_mod
unfolding create_run
in_room = ground arith

free-alloc_example :
    (pool : MemoryPool) × (memory_pool_free (some alloc_run.0) (some 32) ≡ some (ok, some pool))
    × IsValid pool
    × (pool.free_blocks ≡ three.free_blocks)
    × ((j : ℕ) → is_free pool.bitmap j ≡ is_free three.bitmap j)
free-alloc_example = free-alloc three 32 32 alloc_run.0 three-IsValid start_run in_room alloc_run.1
