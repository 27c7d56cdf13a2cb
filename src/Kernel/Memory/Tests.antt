-- ===== src/Kernel/Memory/Tests.antt =====
-- Runs of the allocator of src/kernel/memory.c on small heaps.
use rtos_driver_framework.Base.{
  ◌↔◌, ℕ, ◌+◌, ◌≤◌, ◌<◌, ◌≡◌, refl, ◌⊎◌, true, false, none, some, List, [], ◌∷◌, arith,
}
use rtos_driver_framework.Kernel.Memory.{
  MemoryStats, memory_get_stats, Block, Heap, zero_heap, header_size, memory_magic, memory_init,
  align_size, find_best_fit, best_fit_loop, block_at, mark, split_block, merge_from,
  merge_free_blocks, take_block, rtos_malloc, header_of, free_block, rtos_free,
}
use rtos_driver_framework.Kernel.Memory.BestFit.{Fits, AtLeast, NoFit}
use rtos_driver_framework.Kernel.Memory.Report.{rtos_malloc-memory_get_stats}
use rtos_driver_framework.Kernel.Memory.Invariant.{
  IsValid, memory_init-IsValid, rtos_malloc-IsValid, rtos_free-IsValid,
}
use rtos_driver_framework.Kernel.Memory.Allocation.{rtos_malloc_lem, rtos_malloc_others}
use rtos_driver_framework.Kernel.Memory.Release.{rtos_free-rtos_malloc}
use rtos_driver_framework.Kernel.Memory.Stats.{rtos_malloc_wraps}

abbrev start : Heap
start = memory_init zero_heap

start-IsValid : IsValid start
start-IsValid = memory_init-IsValid zero_heap refl

-- The heap after a first request of 100 bytes.
abbrev one : Heap
one = (rtos_malloc start 100).1

malloc_run : rtos_malloc start 100 ≡ (some 32, one)
unfolding memory_init rtos_malloc align_size find_best_fit best_fit_loop take_block split_block mark
    block_at
malloc_run = refl

one-IsValid : IsValid one
one-IsValid = rtos_malloc-IsValid start-IsValid 100

rtos_malloc-IsValid_example : IsValid (rtos_malloc start 100).1
rtos_malloc-IsValid_example = rtos_malloc-IsValid start-IsValid 100

free_run : (h : Heap) × (rtos_free one (some 32) ≡ some h)
unfolding memory_init rtos_malloc align_size find_best_fit best_fit_loop take_block split_block mark
    block_at rtos_free header_of free_block merge_free_blocks merge_from
free_run = (_, refl)

abbrev freed : Heap
freed = free_run.0

header_run : (b : Block) × (header_of one.blocks 32 ≡ some b)
unfolding memory_init rtos_malloc align_size find_best_fit best_fit_loop take_block split_block mark
    block_at header_of
header_run = (_, refl)

rtos_free-IsValid_example : (h : Heap) × (rtos_free one (some 32) ≡ some h) × IsValid h
rtos_free-IsValid_example =
    rtos_free-IsValid one-IsValid (some 32) (λ q e. ground (arith, header_run.1))

rtos_malloc_lem_example :
    (b c : Block) × (header_of start.blocks 32 ≡ some b)
    × Fits (align_size 100) b
    × AtLeast b.size (align_size 100) start.blocks
    × (header_of one.blocks 32 ≡ some c)
    × (c.is_free ≡ false)
    × (align_size 100 ≤ c.size)
    × (c.size ≤ b.size)
rtos_malloc_lem_example = rtos_malloc_lem start-IsValid 100 32 malloc_run

-- The heap after a second request.
abbrev two : Heap
two = (rtos_malloc one 8).1

second_run : rtos_malloc one 8 ≡ (some 164, two)
unfolding memory_init rtos_malloc align_size find_best_fit best_fit_loop take_block split_block mark
    block_at
second_run = refl

abbrev first_header : Block
first_header = record { addr = 0; size = 100; is_free = false; magic = memory_magic }

first_header_run : header_of one.blocks 32 ≡ some first_header
unfolding memory_init rtos_malloc align_size find_best_fit best_fit_loop take_block split_block mark
    block_at header_of
first_header_run = refl

rtos_malloc_others_example :
    (header_of two.blocks 32 ≡ some first_header)
    × ((c : Block)
        → header_of two.blocks 164 ≡ some c
        → (164 + c.size + header_size ≤ 32) ⊎ (32 + first_header.size + header_size ≤ 164))
rtos_malloc_others_example =
    rtos_malloc_others one-IsValid 8 164 second_run 32 first_header first_header_run (omega arith)

rtos_free-rtos_malloc_example :
    (h : Heap) × (rtos_free one (some 32) ≡ some h)
    × (h.blocks ≡ start.blocks)
    × (h.stats.used_heap_size ≡ start.stats.used_heap_size)
    × (h.stats.free_heap_size ≡ start.stats.free_heap_size)
rtos_free-rtos_malloc_example = rtos_free-rtos_malloc start 100 32 one start-IsValid malloc_run

-- Two free blocks around an allocated one.
abbrev three_blocks : List Block
three_blocks =
    record { addr = 0; size = 96; is_free = true; magic = memory_magic }
    ∷ record { addr = 128; size = 32; is_free = false; magic = memory_magic }
    ∷ record { addr = 192; size = 65312; is_free = true; magic = memory_magic }
    ∷ []

best_fit_run : find_best_fit three_blocks 64 ≡ some 0
unfolding find_best_fit best_fit_loop
best_fit_run = refl

start_fits : ¬ NoFit 0 start.blocks
unfolding memory_init
start_fits = ground arith

rtos_malloc_wraps_example :
    (p : ℕ) × (h : Heap) × (rtos_malloc start 18446744073709551615 ≡ (some p, h))
    × ((c : Block) → header_of h.blocks p ≡ some c → c.size < 18446744073709551615)
rtos_malloc_wraps_example =
    rtos_malloc_wraps start 18446744073709551615 start-IsValid (omega arith) (omega arith)
      start_fits

abbrev third : ℕ → ℕ → ℕ
third largest total = 33

rtos_malloc-memory_get_stats_example :
    (report : MemoryStats) × (memory_get_stats third one (some one.stats) ≡ some report)
    × (((rtos_malloc one 70000).0 ≡ none) ↔ (report.largest_free_block < align_size 70000))
rtos_malloc-memory_get_stats_example =
    rtos_malloc-memory_get_stats third one one.stats 70000 one-IsValid (omega arith) (omega arith)
