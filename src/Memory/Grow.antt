-- ===== src/Memory/Grow.antt =====
-- `createVmMemory`, `increaseVmmSize` and `reserveVmMemoryForProgram` of src/vmmem.c.
use unlambda.Base.{
  ℕ, zero, suc, ◌+◌, ◌-◌, true, false, not, ◌||◌, Option, none, some, ltb, leb, ◌==◌, if◌then◌else◌,
  sub64, add64, mul64, Return, success, failure,
}
use unlambda.Base.Host.{Host}
use unlambda.Base.Run.{Run, done, unfinished, ◌>>=◌}
use unlambda.Memory.Bytes.{Bytes}
use unlambda.Memory.Header.{
  get_vmm_block_size, set_vmm_block_size, get_vmm_block_type, free_block_type,
}
use unlambda.Memory.State.{
  VmMemory, ok, max_size_exceeded, size_increase_failed, not_enough_memory, heap_in_use,
  set_vmm_status, clear_vmm_status, vmm_heap_size, word_at, put_word, align_to_8,
  next_heap_block_in_vmm, first_free_block_in_vmm, next_free_block_in_vmm, write_free_block,
}

-- `fresh` is what `malloc` leaves in the new block, and `impl_size` is `sizeof(VmMemoryImpl)`.
unfoldable pub create_vm_memory : Host → Bytes → ℕ → ℕ → ℕ → Option VmMemory
create_vm_memory host fresh impl_size initial_size max_size =
    if ltb initial_size 16 || ltb max_size initial_size
    then none
    else elim (host.malloc impl_size) [
      | none ↦ none
      | some _ ↦ elim (host.malloc initial_size) [
        | none ↦ none
        | some p ↦ some (record {
          base = p;
          bytes = write_free_block fresh 0 (initial_size - 8) 0;
          size = initial_size;
          max_size = max_size;
          heap_start = 0;
          bytes_free = initial_size - 8;
          first_free = 0;
          status = ok;
        })
      ]
    ]

-- The loop that follows the free list to its end.
unfoldable pub last_free : ℕ → VmMemory → ℕ → Run ℕ
last_free zero m p = unfinished
last_free (suc fuel) m p = elim (next_free_block_in_vmm m (some p)) [
  | none ↦ done p
  | some q ↦ last_free fuel m q
]

-- A free block over the new bytes, whose header is taken off the free count.
unfoldable pub add_free_block : VmMemory → ℕ → VmMemory
add_free_block m current = record m {
  bytes = write_free_block m.bytes current (sub64 (sub64 m.size current) 8) 0;
  bytes_free = sub64 m.bytes_free 8;
}

unfoldable pub increase_vmm_size : Host → VmMemory → Run (VmMemory × Return)
increase_vmm_size host m =
    let m₀ = clear_vmm_status m in
    let current = m.size in
    let doubled = mul64 current 2 in
    let new_size = if ltb doubled current || ltb m.max_size doubled then m.max_size else doubled in
    if leb m.max_size current
    then done (set_vmm_status m₀ max_size_exceeded, failure)
    else elim (host.realloc m.base new_size) [
      | none ↦ done (set_vmm_status m₀ size_increase_failed, failure)
      | some base ↦
          let m₁ = record m₀ {
            base = base;
            size = new_size;
            bytes_free = add64 m.bytes_free (sub64 new_size current);
          } in
          elim (first_free_block_in_vmm m₁) [
            | none ↦ done (record (add_free_block m₁ current) { first_free = current }, success)
            | some p ↦ do
              q ← last_free (suc m₁.size) m₁ p
              let joined = put_word m₁ q (
                  set_vmm_block_size (word_at m₁ q)
                    (get_vmm_block_size (word_at m₁ q) + sub64 new_size current))
              let linked = put_word (add_free_block m₁ current) (q + 8) current
              elim (next_heap_block_in_vmm m₁ q) [
                | none ↦ done (linked, success)
                | some r ↦ if r == current then done (joined, success) else done (linked, success)
              ]
          ]
    ]

-- The loop of `reserveVmMemoryForProgram`.
unfoldable pub reserve_loop : ℕ → Host → VmMemory → ℕ → Run (VmMemory × Return)
reserve_loop zero host m aligned = unfinished
reserve_loop (suc fuel) host m aligned = elim (ltb m.size aligned) [
  | false ↦ done (m, success)
  | true ↦ do
    (m₁, code) ← increase_vmm_size host m
    elim code [
      | success ↦ reserve_loop fuel host m₁ aligned
      | failure ↦ elim m₁.status [
        | max_size_exceeded ↦ done (set_vmm_status m₁ not_enough_memory, failure)
        | _ ↦ done (m₁, failure)
      ]
    ]
]

-- The last part: the heap starts behind the program, or is given up if no block fits.
unfoldable pub place_heap : VmMemory → ℕ → VmMemory
place_heap m aligned =
    let free = sub64 (sub64 m.size aligned) 8 in
    if leb 16 (sub64 m.size aligned)
    then record m {
      heap_start = aligned;
      bytes_free = free;
      first_free = aligned;
      bytes = write_free_block m.bytes aligned free 0;
    }
    else record m { heap_start = m.size; bytes_free = 0; first_free = 0 }

unfoldable pub reserve_vm_memory_for_program : Host → VmMemory → ℕ → Run (VmMemory × Return)
reserve_vm_memory_for_program host m size =
    let aligned = align_to_8 size in
    let m₀ = clear_vmm_status m in
    let head = word_at m m.heap_start in
    if not (get_vmm_block_type head == free_block_type)
      || not (get_vmm_block_size head == sub64 (vmm_heap_size m) 8)
    then done (set_vmm_status m₀ heap_in_use, failure)
    else (do
      (m₁, code) ← reserve_loop (suc m.max_size) host m₀ aligned
      elim code [ failure ↦ done (m₁, failure) | success ↦ done (place_heap m₁ aligned, success) ])
