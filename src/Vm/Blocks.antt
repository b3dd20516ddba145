-- ===== src/Vm/Blocks.antt =====
-- `allocateCodeBlock` and `allocateVmStateBlock` of src/vm.c: allocate, else collect garbage and
-- allocate again, else enlarge the memory until the allocation succeeds or the limit is reached.
-- The two functions differ only in the allocation that they repeat, which is a parameter here.
use unlambda.Base.{
  ℕ, zero, suc, true, false, Option, none, some, List, [], ◌∷◌, ◌++◌, ltb, success, failure,
}
use unlambda.Base.Host.{Host}
use unlambda.Base.Run.{Run, done, null_dereference, unfinished, ◌>>=◌, ◌>>◌}
use unlambda.Memory.Allocate.{allocate_vmm_code_block, allocate_vmm_state_block}
use unlambda.Memory.Bytes.{words_of}
use unlambda.Memory.Collect.{
  GcError, push_operand_invalid, free_count_differs, collect_unreachable_vmm_blocks,
}
use unlambda.Memory.Grow.{increase_vmm_size}
use unlambda.Memory.State.{VmMemory}
use unlambda.Vm.State.{Vm, out_of_memory, set_vm_status}

-- The first word of each frame of the call stack, as `p += 2` reads them.
unfoldable pub every_other : List ℕ → List ℕ
every_other [] = []
every_other (x ∷ []) = x ∷ []
every_other (x ∷ y ∷ rest) = x ∷ every_other rest

abbrev pub Allocation : Type 0
Allocation = VmMemory → Run (VmMemory × Option ℕ)

-- The `while` loop; a memory that grows reaches its limit within the fuel.
unfoldable pub grow_until : ℕ → Host → Vm → Option ℕ → Allocation → Run (Vm × Option ℕ)
grow_until fuel host vm (some p) alloc = done (vm, some p)
grow_until zero host vm none alloc = unfinished
grow_until (suc fuel) host vm none alloc = elim (ltb vm.memory.size vm.memory.max_size) [
  | false ↦ done (set_vm_status vm out_of_memory, none)
  | true ↦ do
    (m, code) ← increase_vmm_size host vm.memory
    elim code [
      | failure ↦ done (set_vm_status (record vm { memory = m }) out_of_memory, none)
      | success ↦ do
        (m', block) ← alloc m
        grow_until fuel host (record vm { memory = m' }) block alloc
    ]
]

-- The message names the block, which is read; two kinds of error come with NULL for it.
unfoldable pub handle_gc_error : GcError → Run (Unit {0})
handle_gc_error (push_operand_invalid address) = null_dereference
handle_gc_error (free_count_differs expected found) = null_dereference
handle_gc_error _ = done tt

unfoldable pub handle_gc_errors : List GcError → Run (Unit {0})
handle_gc_errors [] = done tt
handle_gc_errors (e ∷ es) = handle_gc_error e >> handle_gc_errors es

unfoldable pub allocate_or_collect : Host → Vm → Allocation → Run (Vm × Option ℕ)
allocate_or_collect host vm alloc = do
  (m₁, first) ← alloc vm.memory
  elim first [
    | some p ↦ done (record vm { memory = m₁ }, some p)
    | none ↦ do
      g ←
          collect_unreachable_vmm_blocks m₁ (every_other (words_of vm.call_stack.bytes))
            (words_of vm.address_stack.bytes)
      handle_gc_errors g.errors
      (m₂, second) ← alloc g.memory
      grow_until (suc m₂.max_size) host
          (record vm { memory = m₂; gc_errors = vm.gc_errors ++ g.errors }) second alloc
  ]

unfoldable pub allocate_code_block : Host → Vm → ℕ → Run (Vm × Option ℕ)
allocate_code_block host vm size = allocate_or_collect host vm (λ m. allocate_vmm_code_block m size)

unfoldable pub allocate_vm_state_block : Host → Vm → ℕ → ℕ → Run (Vm × Option ℕ)
allocate_vm_state_block host vm call_stack_size address_stack_size =
    allocate_or_collect host vm (λ m. allocate_vmm_state_block m call_stack_size address_stack_size)
