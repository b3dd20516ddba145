-- ===== src/Vm/State.antt =====
-- `UnlambdaVmImpl` of src/vm.c, its status, and its two stacks. The symbol table and the logger
-- play no part in execution and are left out.
use unlambda.Base.{
  ℕ, ◌-◌, Bool, false, ◌||◌, Option, none, some, List, ltb, if◌then◌else◌, Return, success, failure,
  add64, mul64, slice,
}
use unlambda.Base.Host.{Host}
use unlambda.Base.Run.{Run, done, assertion_failed, ◌>>=◌, from_option}
use unlambda.Stack.{
  Stack, StackStatus, stack_overflow, allocation_failed, stack_underflow, stack_size, push_stack,
  pop_stack,
}
use unlambda.Memory.Bytes.{bytes_of, number_of}
use unlambda.Memory.Collect.{GcError}
use unlambda.Memory.State.{VmMemory, is_valid_vmm_address}

-- The VmState... constants; the machine sets no other value.
pub data VmState : Type 0 where
  no_program ready halted panicked : VmState

-- `statusCode`: 0 and the Vm...Error constants. The message says the same in words.
pub data VmStatus : Type 0 where
  ok program_already_loaded out_of_memory vm_halted vm_panic illegal_instruction : VmStatus
  illegal_address call_stack_underflow call_stack_overflow address_stack_underflow : VmStatus
  address_stack_overflow no_program_loaded fatal illegal_argument io_error : VmStatus
  bad_program_image : VmStatus

-- `output` is what PRINT has written, and `gc_errors` what the error handler has been told.
pub record Vm : Type 0 where
  pub call_stack : Stack
  pub address_stack : Stack
  pub memory : VmMemory
  pub state : VmState
  pub pc : ℕ
  pub status : VmStatus
  pub output : List ℕ
  pub gc_errors : List GcError

abbrev pub set_vm_status : Vm → VmStatus → Vm
set_vm_status vm code = record vm { status = code }

abbrev pub fail : Vm → VmStatus → Run (Vm × Return)
fail vm code = done (set_vm_status vm code, failure)

-- `++vm->pc`, and the jumps over operands
abbrev pub advance : Vm → ℕ → Vm
advance vm n = record vm { pc = add64 vm.pc n }

unfoldable pub set_vm_pc : Vm → ℕ → Vm × Return
set_vm_pc vm address =
    if is_valid_vmm_address vm.memory address
    then (record vm { pc = address; status = ok }, success)
    else (set_vm_status vm illegal_argument, failure)

-- The two stacks, and the status codes that go with each.
pub data Which : Type 0 where
  calls addresses : Which

abbrev pub stack_of : Vm → Which → Stack
stack_of vm calls = vm.call_stack
stack_of vm addresses = vm.address_stack

abbrev pub put_stack : Vm → Which → Stack → Vm
put_stack vm calls s = record vm { call_stack = s }
put_stack vm addresses s = record vm { address_stack = s }

abbrev pub overflow_of : Which → VmStatus
overflow_of calls = call_stack_overflow
overflow_of addresses = address_stack_overflow

abbrev pub underflow_of : Which → VmStatus
underflow_of calls = call_stack_underflow
underflow_of addresses = address_stack_underflow

-- The status after a push that failed: overflow, or a failed allocation, which is asserted.
unfoldable pub push_failure : Vm → Which → StackStatus → Run (Vm × Return)
push_failure vm which stack_overflow = fail vm (overflow_of which)
push_failure vm which allocation_failed = fail vm fatal
push_failure vm which _ = assertion_failed

unfoldable pub push_address_to_vm_stack : Host → Vm → Which → ℕ → Run (Vm × Return)
push_address_to_vm_stack host vm which addr = do
  (s, code) ← from_option (push_stack host (stack_of vm which) (some (bytes_of 8 addr)) 8)
  let vm' = put_stack vm which s
  elim code [ success ↦ done (vm', success) | failure ↦ push_failure vm' which s.status ]

-- What is popped stands third; it is 0 where nothing is.
unfoldable pub pop_address_from_vm_stack : Vm → Which → Bool → Run (Vm × Return × ℕ)
pop_address_from_vm_stack vm which wanted =
    let (s, code, content) = pop_stack (stack_of vm which) wanted 8 in
    let vm' = put_stack vm which s in
    elim code [
      | success ↦ done (vm', success, elim content [ none ↦ 0 | some bytes ↦ number_of bytes ])
      | failure ↦ elim s.status [
        | stack_underflow ↦ done (set_vm_status vm' (underflow_of which), failure, 0)
        | _ ↦ assertion_failed
      ]
    ]

-- `*value` where there is one: the word `depth` words below the top of the address stack.
unfoldable pub read_from_address_stack_top : Vm → ℕ → Option ℕ
read_from_address_stack_top vm depth =
    let offset = mul64 (add64 depth 1) 8 in
    let size = stack_size vm.address_stack in
    if ltb offset (add64 depth 1) || ltb size offset
    then none
    else some (number_of (slice (size - offset) 8 vm.address_stack.bytes))

-- `assert(!pushToAddressStack(…))` and `assert(!popFromAddressStack(…))`
unfoldable pub assert_push : Host → Vm → ℕ → Run Vm
assert_push host vm addr = do
  (vm', code) ← push_address_to_vm_stack host vm addresses addr
  elim code [ success ↦ done vm' | failure ↦ assertion_failed ]

unfoldable pub assert_pop : Vm → Run Vm
assert_pop vm = do
  (vm', code, _) ← pop_address_from_vm_stack vm addresses false
  elim code [ success ↦ done vm' | failure ↦ assertion_failed ]
