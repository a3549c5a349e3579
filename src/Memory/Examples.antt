-- ===== src/Memory/Examples.antt =====
-- The theorems about src/freelib/kalloc.c at small heaps, and runs there.
use peanut_kernel.Common.{◌≡◌, ◌≤◌, ◌+◌, ◌^◌, refl, true, false, List, [], ◌∷◌, arith, replicate}
use peanut_kernel.Memory.{
  Block, Memory, heap_start, heap_end, block_header, round_16, kalloc_large, kalloc, kfree,
}
use peanut_kernel.Memory.Heap.{IsGiven, kalloc_large-IsGiven}
use peanut_kernel.Memory.Overlap.{IsInside, started, kalloc-IsInside}

-- A block in use between a free one and the heap's end.
abbrev blocks : List Block
blocks = record { size = 4096; is_free = true } ∷ record { size = 2048; is_free = false } ∷ []

abbrev memory : Memory
memory = record {
  kernel_end = 0x200005;
  heap = blocks;
  page_bump = 0x201000;
  free_lists = replicate 6 [];
  slots = [];
}

reuses : ((kalloc 4000 memory).0 ≡ 0x200028) × ((kalloc 5000 memory).0 ≡ 0x201858)
unfolding kalloc
reuses = (refl, refl)

-- What is freed is given again.
freed : (kalloc 2048 (kalloc 4096 (kfree 0x201040 memory)).1).0 ≡ 0x201040
unfolding kalloc kfree
freed = refl

heap_low : heap_end (heap_start memory) blocks + block_header + 5000 + 15 ≤ 2 ^ 64
unfolding heap_start round_16
heap_low = omega arith

kalloc_large-IsGiven_example :
    IsGiven 5000
      (heap_start memory)
      blocks
      ((kalloc_large 5000 memory).0, (kalloc_large 5000 memory).1.heap)
kalloc_large-IsGiven_example =
    kalloc_large-IsGiven 5000 memory (omega arith) (omega arith) refl heap_low

kalloc-IsInside_example :
    IsInside (kalloc 32 (started memory)).0 32 (kalloc 8192 (kalloc 32 (started memory)).1).0 8192
kalloc-IsInside_example = kalloc-IsInside memory 8192 (omega arith) (omega arith)
