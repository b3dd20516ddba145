-- ===== src/Vm/Continuations.antt =====
-- The instructions SAVE and RESTORE of src/vm.c, which copy both stacks to the heap and back.
use unlambda.Base.{
  ℕ, ◌+◌, ◌-◌, ◌*◌, ◌/◌, Bool, true, false, not, none, some, List, ◌==◌, ltb, if◌then◌else◌, take,
  length, slice, Return, success, failure, sub64, add64, u32,
}
use unlambda.Base.Host.{Host}
use unlambda.Base.Run.{Run, done, ◌>>=◌, from_option}
use unlambda.Memory.Bytes.{write_bytes, read_bytes, read32}
use unlambda.Memory.Header.{get_vmm_block_type, state_block_type}
use unlambda.Memory.State.{vmm_address_for_ptr, ptr_to_vmm_address, word_at}
use unlambda.Stack.{stack_size, push_stack, set_stack}
use unlambda.Vm.Blocks.{allocate_vm_state_block}
use unlambda.Vm.State.{
  Vm, VmStatus, address_stack_underflow, address_stack_overflow, illegal_address, fatal, fail,
  advance, addresses, push_failure, pop_address_from_vm_stack, assert_push,
}

-- The copies of the call stack and of the address stack without its top, behind the block's header,
-- guard and sizes.
unfoldable pub save_stacks : Vm → ℕ → ℕ → Vm
save_stacks vm p skip =
    let calls = vm.call_stack.bytes in
    let kept = take (stack_size vm.address_stack - 8 * skip) vm.address_stack.bytes in
    let m = vm.memory in
    let saved = write_bytes (write_bytes m.bytes (p + 24) calls) (p + 24 + length calls) kept in
    record vm { memory = record m { bytes = saved } }

unfoldable pub execute_save_instruction : Host → Vm → Run (Vm × Return)
execute_save_instruction host vm =
    let skip = vm.memory.bytes (vm.pc + 1) in
    let size = stack_size vm.address_stack in
    if ltb size (8 * skip)
    then fail vm address_stack_underflow
    else if size == vm.address_stack.max_size
    then fail vm address_stack_overflow
    else (do
      (vm₁, block) ←
          allocate_vm_state_block host vm (u32 (stack_size vm.call_stack / 16))
            (u32 (size / 8 - skip))
      elim block [
        | none ↦ done (vm₁, failure)
        | some p ↦ do
          let vm₂ = save_stacks vm₁ p skip
          vm₃ ← assert_push host vm₂ (add64 (vmm_address_for_ptr vm₂.memory p) 8)
          done (advance vm₃ 2, success)
      ])

-- The end of RESTORE: the saved part of the old stack goes on top of the restored one.
unfoldable pub push_saved : Host → Vm → List ℕ → Run (Vm × Return)
push_saved host vm saved = if length saved == 0 then done (advance vm 2, success) else (do
  (s, code) ← from_option (push_stack host vm.address_stack (some saved) (length saved))
  let vm' = record vm { address_stack = s }
  elim code [
    | success ↦ done (advance vm' 2, success)
    | failure ↦ push_failure vm' addresses s.status
  ])

-- The middle part: both stacks are replaced by those of the block at `p`. The products are of
-- type uint32_t.
unfoldable pub restore_stacks : Host → Vm → ℕ → List ℕ → Run (Vm × Return)
restore_stacks host vm p saved = do
  let f = vm.memory.bytes
  let call_size = u32 (16 * read32 f (p + 16))
  let address_size = u32 (8 * read32 f (p + 20))
  (calls, code) ←
      from_option (set_stack host vm.call_stack (read_bytes f (p + 24) call_size) call_size)
  let vm₁ = record vm { call_stack = calls }
  elim code [
    | failure ↦ fail vm₁ fatal
    | success ↦ do
      (kept, code') ← from_option (
          set_stack host vm.address_stack (read_bytes f (p + 24 + call_size) address_size)
            address_size)
      let vm₂ = record vm₁ { address_stack = kept }
      elim code' [ failure ↦ fail vm₂ fatal | success ↦ push_saved host vm₂ saved ]
  ]

-- The popped address goes back onto the stack, and the instruction fails.
unfoldable pub put_back : Host → Vm → ℕ → VmStatus → Run (Vm × Return)
put_back host vm addr code = do vm' ← assert_push host vm addr; fail vm' code

-- The tests on the block at `p`, with `addr` already popped and `save` words to keep.
unfoldable pub restore_from : Host → Vm → ℕ → ℕ → ℕ → Run (Vm × Return)
restore_from host vm addr p save =
    let size = stack_size vm.address_stack in
    let to_save = 8 * save in
    let saved = slice (size - to_save) to_save vm.address_stack.bytes in
    let restored = u32 (8 * read32 vm.memory.bytes (p + 20)) in
    let unbuffered : Bool = elim (host.malloc to_save) [
      | none ↦ not (save == 0)
      | some _ ↦ false
    ] in
    if not (get_vmm_block_type (word_at vm.memory p) == state_block_type)
    then put_back host vm addr fatal
    else if ltb size to_save
    then put_back host vm addr address_stack_underflow
    else if unbuffered
    then fail vm fatal
    else if ltb vm.address_stack.max_size (restored + to_save)
    then put_back host vm addr address_stack_overflow
    else restore_stacks host vm p saved

unfoldable pub execute_restore_instruction : Host → Vm → Run (Vm × Return)
execute_restore_instruction host vm = do
  let save = vm.memory.bytes (vm.pc + 1)
  (vm₁, code, addr) ← pop_address_from_vm_stack vm addresses true
  elim code [
    | failure ↦ done (vm₁, failure)
    | success ↦ elim (ptr_to_vmm_address vm₁.memory (sub64 addr 8)) [
      | none ↦ put_back host vm₁ addr illegal_address
      | some p ↦ restore_from host vm₁ addr p save
    ]
  ]
