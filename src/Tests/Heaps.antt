-- ===== src/Tests/Heaps.antt =====
-- Runs of the definitions for src/vmmem.c.
use unlambda.Base.{ℕ, ◌≡◌, refl, ◌⊎◌, true, false, Option, none, List, [], ◌∷◌, arith}
use unlambda.Base.Run.{done}
use unlambda.Memory.Allocate.{find_free_block_with_size, allocate_vmm_code_block}
use unlambda.Memory.Bytes.{read64, write64, read_bytes, write_bytes, bytes_of, number_of}
use unlambda.Memory.Header.{header}
use unlambda.Memory.State.{VmMemory, ok, not_enough_memory, set_vmm_status, write_free_block}
use unlambda.Heap.Blocks.{code, free, used, Block, block, IsHeap}
use unlambda.Heap.Find.{NoFit, Search, find_free_block_with_size-Search}
use unlambda.Heap.FirstFit.{Allocated, allocate_vmm_code_block-Allocated}

-- A memory of 256 bytes with the program in the first 64, then a code block of 16 bytes, and a free
-- block.
abbrev pub small_heap : VmMemory
small_heap = record {
  base = 4096;
  bytes = write64 (write_free_block (λ x. 0) 88 160 0) 64 (header true 1 16);
  size = 256;
  max_size = 1024;
  heap_start = 64;
  bytes_free = 160;
  first_free = 88;
  status = ok;
}

abbrev pub blocks : List Block
blocks = block (used code) true 16 ∷ block free false 160 ∷ []

pub small_heap-IsHeap : IsHeap small_heap blocks
unfolding read64 write64 read_bytes write_bytes bytes_of number_of write_free_block
small_heap-IsHeap = record {
  tiled = (refl, ground arith, (refl, ground arith, refl, refl));
  first = refl;
  count = refl;
  program = ground arith;
  limited = ground arith;
  small = ground arith;
  placed = ground arith;
}

find_free_block_with_size-Search_example :
    (r : Option ℕ × Option ℕ) × (find_free_block_with_size small_heap 24 ≡ done r)
    × ((NoFit 24 blocks × (r.0 ≡ none)) ⊎ Search 24 64 blocks none r)
find_free_block_with_size-Search_example =
    find_free_block_with_size-Search small_heap blocks 24 small_heap-IsHeap

allocate_vmm_code_block-Allocated_example :
    (NoFit 24 blocks
      × (allocate_vmm_code_block small_heap 17
          ≡ done (set_vmm_status small_heap not_enough_memory, none)))
    ⊎ Allocated small_heap blocks 24 (allocate_vmm_code_block small_heap 17)
allocate_vmm_code_block-Allocated_example =
    allocate_vmm_code_block-Allocated small_heap blocks 17 small_heap-IsHeap (ground arith)
      (ground arith)
