-- ===== src/Tests/Sweeping.antt =====
-- A run of the garbage collector's sweep in src/vmmem.c.
use unlambda.Base.{refl, true, false, List, [], ◌∷◌, arith}
use unlambda.Base.Run.{Returns}
use unlambda.Heap.Reclaim.{Reclaimed, collect_unreachable_vmm_blocks-Reclaimed}
use unlambda.Heap.Blocks.{code, free, used, Block, block}
use unlambda.Heap.Collect.{IsMarked, Collected, collect_unmarked_blocks-Collected}
use unlambda.Memory.Bytes.{read64, write64, read_bytes, write_bytes, bytes_of, number_of}
use unlambda.Memory.Collect.{Gc, collect_unmarked_blocks, collect_unreachable_vmm_blocks}
use unlambda.Memory.State.{write_free_block}
use unlambda.Tests.Heaps.{small_heap, small_heap-IsHeap}

abbrev gc : Gc
gc = record { memory = small_heap; errors = [] }

abbrev blocks : List Block
blocks = block (used code) true 16 ∷ block free false 160 ∷ []

small_heap-IsMarked : IsMarked small_heap blocks
unfolding read64 write64 read_bytes write_bytes bytes_of number_of write_free_block
small_heap-IsMarked = record {
  heads = (refl, omega arith, (refl, omega arith, refl));
  some_block = tt;
  program = ground arith;
  limited = ground arith;
  small = ground arith;
  placed = ground arith;
}

collect_unmarked_blocks-Collected_example :
    Returns (collect_unmarked_blocks gc) (Collected gc blocks)
collect_unmarked_blocks-Collected_example =
    collect_unmarked_blocks-Collected gc blocks small_heap-IsMarked

collect_unreachable_vmm_blocks-Reclaimed_example :
    Returns (collect_unreachable_vmm_blocks small_heap [] []) (Reclaimed small_heap)
collect_unreachable_vmm_blocks-Reclaimed_example =
    collect_unreachable_vmm_blocks-Reclaimed small_heap blocks small_heap-IsHeap tt
