-- ===== src/Vm/Step.antt =====
-- `stepVm` of src/vm.c and the instructions that move addresses and control.
use unlambda.Base.{
  ℕ, zero, suc, ◌+◌, true, none, some, [], ◌∷◌, ◌++◌, ◌==◌, ltb, if◌then◌else◌, Return, success,
  failure, add64,
}
use unlambda.Base.Host.{Host}
use unlambda.Base.Run.{Run, done, assertion_failed, ◌>>=◌, from_option}
use unlambda.Instructions.Op
use unlambda.Memory.State.{is_valid_vmm_address, ptr_to_vmm_address, word_at}
use unlambda.Stack.{
  StackStatus, stack_overflow, allocation_failed, stack_underflow, swap_stack_top, dup_stack_top,
}
use unlambda.Vm.Continuations.{execute_save_instruction, execute_restore_instruction}
use unlambda.Vm.Functions.{
  execute_mkk_instruction, execute_mks0_instruction, execute_mks1_instruction,
  execute_mks2_instruction, execute_mkd_instruction, execute_mkc_instruction,
}
use unlambda.Vm.State.{
  no_program, ready, halted, panicked, Vm, vm_halted, vm_panic, illegal_instruction,
  illegal_address, address_stack_underflow, address_stack_overflow, no_program_loaded, fatal,
  set_vm_status, fail, advance, calls, addresses, push_address_to_vm_stack,
  pop_address_from_vm_stack, assert_push,
}

-- The step has found the program counter valid, so that its pointer is not NULL.
unfoldable pub execute_push_instruction : Host → Vm → Run (Vm × Return)
execute_push_instruction host vm =
    if ltb vm.memory.size (vm.pc + 9) then fail vm illegal_address else (do
      (vm', code) ← push_address_to_vm_stack host vm addresses (word_at vm.memory (vm.pc + 1))
      elim code [ success ↦ done (advance vm' 9, success) | failure ↦ done (vm', failure) ])

unfoldable pub execute_pop_instruction : Vm → Run (Vm × Return)
execute_pop_instruction vm = do
  (vm', code, _) ← pop_address_from_vm_stack vm addresses true
  elim code [ success ↦ done (advance vm' 1, success) | failure ↦ done (vm', failure) ]

unfoldable pub execute_swap_instruction : Host → Vm → Run (Vm × Return)
execute_swap_instruction host vm =
    let (s, code) = swap_stack_top host vm.address_stack 8 in
    let vm' = record vm { address_stack = s } in
    elim code [
      | success ↦ done (advance vm' 1, success)
      | failure ↦ elim s.status [
        | stack_underflow ↦ fail vm' address_stack_underflow
        | _ ↦ assertion_failed
      ]
    ]

-- How DUP reports a failure of the stack.
unfoldable pub dup_failure : Vm → StackStatus → Run (Vm × Return)
dup_failure vm stack_underflow = fail vm address_stack_underflow
dup_failure vm stack_overflow = fail vm address_stack_overflow
dup_failure vm allocation_failed = fail vm fatal
dup_failure vm _ = assertion_failed

unfoldable pub execute_dup_instruction : Host → Vm → Run (Vm × Return)
execute_dup_instruction host vm = do
  (s, code) ← from_option (dup_stack_top host vm.address_stack 8)
  let vm' = record vm { address_stack = s }
  elim code [ success ↦ done (advance vm' 1, success) | failure ↦ dup_failure vm' s.status ]

-- PCALL past its tests: two words go onto the call stack. If either push fails, the target goes
-- back onto the address stack.
unfoldable pub enter : Host → Vm → ℕ → Run (Vm × Return)
enter host vm target = do
  (vm₁, first) ← push_address_to_vm_stack host vm calls target
  elim first [
    | failure ↦ do vm' ← assert_push host vm₁ target; done (vm', failure)
    | success ↦ do
      (vm₂, second) ← push_address_to_vm_stack host vm₁ calls (add64 vm₁.pc 1)
      elim second [
        | failure ↦ do vm' ← assert_push host vm₂ target; done (vm', failure)
        | success ↦ done (record vm₂ { pc = target }, success)
      ]
  ]

unfoldable pub execute_pcall_instruction : Host → Vm → Run (Vm × Return)
execute_pcall_instruction host vm = do
  (vm₁, code, target) ← pop_address_from_vm_stack vm addresses true
  elim code [
    | failure ↦ done (vm₁, failure)
    | success ↦ if is_valid_vmm_address vm₁.memory target then enter host vm₁ target else (do
      vm' ← assert_push host (set_vm_status vm₁ illegal_address) target
      done (vm', failure))
  ]

unfoldable pub execute_return_instruction : Vm → Run (Vm × Return)
execute_return_instruction vm = do
  (vm₁, first, target) ← pop_address_from_vm_stack vm calls true
  elim first [
    | failure ↦ done (vm₁, failure)
    | success ↦ do
      (vm₂, second, block) ← pop_address_from_vm_stack vm₁ calls true
      elim second [
        | failure ↦ done (vm₂, failure)
        | success ↦ done (record vm₂ { pc = target }, success)
      ]
  ]

unfoldable pub execute_print_instruction : Vm → Run (Vm × Return)
execute_print_instruction vm =
    done
      (advance (record vm { output = vm.output ++ (vm.memory.bytes (vm.pc + 1) ∷ []) }) 2, success)

-- The `switch` on the operation code.
unfoldable pub dispatch : Host → Vm → ℕ → Run (Vm × Return)
dispatch host vm op =
    if op == Op.push
    then execute_push_instruction host vm
    else if op == Op.pop
    then execute_pop_instruction vm
    else if op == Op.swap
    then execute_swap_instruction host vm
    else if op == Op.dup
    then execute_dup_instruction host vm
    else if op == Op.pcall
    then execute_pcall_instruction host vm
    else if op == Op.ret
    then execute_return_instruction vm
    else if op == Op.mkk
    then execute_mkk_instruction host vm
    else if op == Op.mks0
    then execute_mks0_instruction host vm
    else if op == Op.mks1
    then execute_mks1_instruction host vm
    else if op == Op.mks2
    then execute_mks2_instruction host vm
    else if op == Op.mkd
    then execute_mkd_instruction host vm
    else if op == Op.mkc
    then execute_mkc_instruction host vm
    else if op == Op.save
    then execute_save_instruction host vm
    else if op == Op.restore
    then execute_restore_instruction host vm
    else if op == Op.print
    then execute_print_instruction vm
    else if op == Op.halt
    then fail (record vm { state = halted }) vm_halted
    else if op == Op.panic
    then fail (record vm { state = panicked }) vm_panic
    else fail vm illegal_instruction

unfoldable pub execute_next_instruction : Host → Vm → Run (Vm × Return)
execute_next_instruction host vm = elim (ptr_to_vmm_address vm.memory vm.pc) [
  | none ↦ fail vm fatal
  | some p ↦ dispatch host vm (vm.memory.bytes p)
]

unfoldable pub step_vm : Host → Vm → Run (Vm × Return)
step_vm host vm = elim vm.state [
  | no_program ↦ fail vm no_program_loaded
  | ready ↦ execute_next_instruction host vm
  | halted ↦ fail vm vm_halted
  | panicked ↦ fail vm vm_panic
]

-- A client's loop: steps until one fails, or the count is used up.
unfoldable pub run_vm : ℕ → Host → Vm → Run (Vm × Return)
run_vm zero host vm = done (vm, success)
run_vm (suc n) host vm = do
  (vm', code) ← step_vm host vm
  elim code [ failure ↦ done (vm', failure) | success ↦ run_vm n host vm' ]
