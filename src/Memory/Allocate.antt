-- ===== src/Memory/Allocate.antt =====
-- Allocation in src/vmmem.c: first fit on the free list, with the rest of a block split off.
use unlambda.Base.{
  ℕ, zero, suc, ◌+◌, ◌-◌, ◌*◌, true, false, ◌||◌, Option, none, some, ltb, leb, ◌==◌, if◌then◌else◌,
  replicate, sub64,
}
use unlambda.Base.Run.{Run, done, unfinished, ◌>>=◌, ◌>>◌, assert}
use unlambda.Memory.Bytes.{Bytes, write_bytes, write32, write64}
use unlambda.Memory.Header.{
  get_vmm_block_size, set_vmm_block_size, set_vmm_block_type, code_block_type, state_block_type,
}
use unlambda.Memory.State.{
  VmMemory, invalid_argument, not_enough_memory, set_vmm_status, word_at, put_word, align_to_8,
  first_free_block_in_vmm, next_free_block_in_vmm, write_free_block,
}

-- The loop of `findFreeBlockWithSize`: the block found, and the free block before it.
unfoldable pub find_free : ℕ → VmMemory → ℕ → Option ℕ → Option ℕ → Run (Option ℕ × Option ℕ)
find_free zero m size block prev = unfinished
find_free (suc fuel) m size none prev = done (none, prev)
find_free (suc fuel) m size (some p) prev = elim (leb size (get_vmm_block_size (word_at m p))) [
  | true ↦ done (some p, prev)
  | false ↦ find_free fuel m size (next_free_block_in_vmm m (some p)) (some p)
]

-- A free block takes up at least a byte of the memory, so its size is fuel enough.
unfoldable pub find_free_block_with_size : VmMemory → ℕ → Run (Option ℕ × Option ℕ)
find_free_block_with_size m size =
    if ltb m.bytes_free size
    then done (none, none)
    else find_free (suc m.size) m size (first_free_block_in_vmm m) none

abbrev pub min_free_block_size : ℕ
min_free_block_size = 16

-- `prev->next = next`, or `memory->firstFree = next` where there is no `prev`
abbrev pub set_link : Bytes → Option ℕ → ℕ → Bytes
set_link f none next = f
set_link f (some p) next = write64 f (p + 8) next

abbrev pub set_first : ℕ → Option ℕ → ℕ → ℕ
set_first first none next = next
set_first first (some p) next = first

abbrev pub set_next : VmMemory → Option ℕ → ℕ → VmMemory
set_next m prev next = record m {
  bytes = set_link m.bytes prev next;
  first_free = set_first m.first_free prev next;
}

-- Without a free block before it, the block is the first on the list.
abbrev assert_first : VmMemory → Option ℕ → ℕ → Run (Unit {0})
assert_first m none p = assert (m.first_free == p)
assert_first m (some q) p = done tt

-- The part of `splitFreeBlock` that hands out the whole block.
unfoldable pub take_whole_block : VmMemory → ℕ → Option ℕ → VmMemory
take_whole_block m p prev =
    let m₁ = set_next m prev (word_at m (p + 8)) in
    record m₁ { bytes_free = sub64 m₁.bytes_free (get_vmm_block_size (word_at m₁ p)) }

-- The part that makes a free block of what remains.
unfoldable pub take_part_of_block : VmMemory → ℕ → Option ℕ → ℕ → ℕ → VmMemory
take_part_of_block m p prev size remaining =
    let new_free_block = p + size + 8 in
    let m₁ = record m {
      bytes = write_free_block m.bytes new_free_block (remaining - 8) (word_at m (p + 8));
    } in
    let m₂ = set_next m₁ prev new_free_block in
    let m₃ = put_word m₂ p (set_vmm_block_size (word_at m₂ p) size) in
    record m₃ { bytes_free = sub64 m₃.bytes_free (size + 8) }

unfoldable pub split_free_block : VmMemory → ℕ → Option ℕ → ℕ → Run (VmMemory × ℕ)
split_free_block m p prev size =
    let remaining = sub64 (get_vmm_block_size (word_at m p)) size in
    assert_first m prev p
    >> (if ltb remaining min_free_block_size
        then done (take_whole_block m p prev, p)
        else done (take_part_of_block m p prev size remaining, p))

unfoldable pub allocate_block : VmMemory → ℕ → Run (VmMemory × Option ℕ)
allocate_block m size = do
  (block, prev) ← find_free_block_with_size m size
  elim block [
    | none ↦ done (set_vmm_status m not_enough_memory, none)
    | some p ↦ do (m', q) ← split_free_block m p prev size; done (m', some q)
  ]

abbrev pub max_block_size : ℕ
max_block_size = 0x00FF_FFFF_FFFF_FFF8

unfoldable pub allocate_vmm_code_block : VmMemory → ℕ → Run (VmMemory × Option ℕ)
allocate_vmm_code_block m size =
    if (size == 0) || ltb max_block_size size
    then done (set_vmm_status m invalid_argument, none)
    else (do
      (m₁, block) ← allocate_block m (align_to_8 size)
      elim block [
        | none ↦ done (m₁, none)
        | some p ↦ done (put_word m₁ p (set_vmm_block_type (word_at m₁ p) code_block_type), some p)
      ])

-- The guard is eight PANIC instructions; the two sizes are 32-bit fields behind it.
unfoldable pub allocate_vmm_state_block : VmMemory → ℕ → ℕ → Run (VmMemory × Option ℕ)
allocate_vmm_state_block m call_stack_size address_stack_size = do
  (m₁, block) ← allocate_block m (16 * call_stack_size + 8 * address_stack_size + 16)
  elim block [
    | none ↦ done (m₁, none)
    | some p ↦
        let m₂ = put_word m₁ p (set_vmm_block_type (word_at m₁ p) state_block_type) in
        let guarded = write_bytes m₂.bytes (p + 8) (replicate 8 0) in
        let sized =
          write32 (write32 guarded (p + 16) call_stack_size) (p + 20) address_stack_size in
        done (record m₂ { bytes = sized }, some p)
  ]
