-- ===== src/Heap/FirstFit.antt =====
-- `allocateVmmCodeBlock` of src/vmmem.c as first fit on the list of blocks.
use unlambda.Base.{
  ℕ, ◌+◌, ◌-◌, ◌*◌, ◌/◌, ◌%◌, ◌^◌, ◌≤◌, ◌<◌, ◌≡◌, ◌∙◌, ap, ◌⊎◌, inl, inr, List, Option, none, some,
  arith, add64,
}
use unlambda.Base.Bits.{bit_and_at, bit_and-ones, bit_and-zero}
use unlambda.Base.Run.{Run, done}
use unlambda.Memory.Allocate.{
  find_free_block_with_size, allocate_block, allocate_vmm_code_block, max_block_size,
}
use unlambda.Memory.State.{VmMemory, not_enough_memory, set_vmm_status, align_to_8}
use unlambda.Heap.Blocks.{code, Block, span, IsHeap}
use unlambda.Heap.Find.{NoFit, Fit, Search, find_free_block_with_size-Search}
use unlambda.Heap.Allocate.{taken, typed, Taken, served, served_heap, split_free_block-served}

-- A block of `size` bytes or, where fewer than 16 would remain, the whole block: the result of a
-- request for `size` bytes for code.
abbrev pub Allocated : VmMemory → List Block → ℕ → Run (VmMemory × Option ℕ) → Type 0
Allocated m bs size r =
    (w : Fit size bs) × (m' : VmMemory) × (r ≡ done (m', some (m.heap_start + span w.before)))
    × Taken m m' w.before (taken code size w.mark w.room) w.after

module _ (m : VmMemory) (bs : List Block) (size : ℕ) (h : IsHeap m bs) (big : 8 ≤ size) where
  -- `allocateBlock` leaves the memory alone, or takes the first block with room.
  abbrev pub Served : Run (VmMemory × Option ℕ) → Type 0
  Served r =
      (NoFit size bs × (r ≡ done (set_vmm_status m not_enough_memory, none)))
      ⊎ ((w : Fit size bs) × (r
            ≡ done (served m bs size code h w big, some (m.heap_start + span w.before))))

  after_lookup :
      (r : Option ℕ × Option ℕ)
      → find_free_block_with_size m size ≡ done r
      → (NoFit size bs × (r.0 ≡ none)) ⊎ Search size m.heap_start bs none r
      → Served (allocate_block m size)
  unfolding allocate_block
  after_lookup (none, q) run (inl (full, e)) = inl (full, ground (arith, run))
  after_lookup (some p, q) run (inl (full, e)) = absurd cc
  after_lookup r run (inr (inl (full, e))) = inl (full, ground (arith, run ∙ ap done e))
  after_lookup r run (inr (inr (w, e))) =
      inr (w, ground (arith, run ∙ ap done e, split_free_block-served m bs size code h w big))

  pub allocate_block-Served : Served (allocate_block m size)
  allocate_block-Served =
      let (r, run, found) = find_free_block_with_size-Search m bs size h in after_lookup r run found

pub align_to_8_lem : (v : ℕ) → v + 7 < 2 ^ 64 → align_to_8 v ≡ (v + 7) / 8 * 8
unfolding align_to_8
align_to_8_lem v small =
    let sum : add64 v 7 ≡ v + 7 = omega arith in
    rw sum (
      bit_and_at 3 ((v + 7) / 8) ((v + 7) % 8) (2 ^ 61 - 1) 0 (omega arith) (omega arith)
        (omega arith) (omega arith)
      ∙ omega (arith, bit_and-ones 61 ((v + 7) / 8) (omega arith), bit_and-zero ((v + 7) % 8)))

-- Allocation of a code block of 1 to 2 ^ 56 - 8 bytes in a well-formed heap, with `n` the size
-- rounded up to a multiple of 8, does one of two things. If no free block has `n` bytes, it returns
-- NULL and changes only the status. Otherwise it takes the first free block with `n` bytes and
-- returns its address: the blocks in use keep their bytes, nothing outside the heap is written, the
-- rest of the block becomes a free block if it has 16 bytes or more, and the heap that results is
-- well-formed. No assertion fails and the search ends.
pub allocate_vmm_code_block-Allocated :
    (m : VmMemory) (bs : List Block) (size : ℕ)
    → IsHeap m bs
    → 0 < size
    → size ≤ max_block_size
    → (NoFit ((size + 7) / 8 * 8) bs
        × (allocate_vmm_code_block m size ≡ done (set_vmm_status m not_enough_memory, none)))
      ⊎ Allocated m bs ((size + 7) / 8 * 8) (allocate_vmm_code_block m size)
unfolding allocate_vmm_code_block
allocate_vmm_code_block-Allocated m bs size h pos fits =
    let aligned = align_to_8_lem size (omega arith) in
    let big : 8 ≤ (size + 7) / 8 * 8 = omega arith in
    elim (allocate_block-Served m bs ((size + 7) / 8 * 8) h big) [
      | inl (full, e) ↦ inl (full, ground (arith, aligned, e))
      | inr (w, e) ↦
          let n = (size + 7) / 8 * 8 in
          let p = m.heap_start + span w.before in
          inr (
            w,
            typed (served m bs n code h w big) p code,
            ground (arith, aligned, e),
            served_heap m bs n code h w big,
          )
    ]
