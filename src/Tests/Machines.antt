-- ===== src/Tests/Machines.antt =====
-- Runs of the definitions for src/vm.c.
use unlambda.Base.{◌≡◌, refl, [], ◌++◌, success, arith, add64, slice}
use unlambda.Base.Run.{done, Returns}
use unlambda.Memory.Bytes.{bytes_of}
use unlambda.Stack
use unlambda.Stack.{Stack, stack_underflow}
use unlambda.Stack.Grow.{IsValid}
use unlambda.Vm.State.{Vm, ready, ok, calls, push_address_to_vm_stack, pop_address_from_vm_stack}
use unlambda.Memory.Bytes.{number_of}
use unlambda.Memory.State.{is_valid_vmm_address}
use unlambda.Stack.{push_stack, pop_stack}
use unlambda.Vm.Step.{enter, execute_pcall_instruction, execute_return_instruction}
use unlambda.Vm.Words.{WordPushed, push_address_to_vm_stack-WordPushed}
use unlambda.Vm.Call.{Called, execute_pcall_instruction-Called}
use unlambda.Vm.Return.{execute_return_instruction-execute_pcall_instruction}
use unlambda.Base.{◌<◌, ◌^◌}
use unlambda.Memory.Bytes.{read64, write64, read_bytes, write_bytes}
use unlambda.Memory.State.{word_at, write_free_block}
use unlambda.Vm.Step.{execute_push_instruction, execute_pop_instruction}
use unlambda.Vm.Transfer.{
  OperandPushed, execute_push_instruction-OperandPushed,
  execute_pop_instruction-execute_push_instruction,
}
use unlambda.Tests.Stacks.{host, host-IsHost}
use unlambda.Tests.Heaps.{small_heap}

abbrev empty_stack : Stack
empty_stack = record { base = 4096; bytes = []; allocated = 16; max_size = 64; status = Stack.ok }

-- A machine at address 8 whose address stack holds the address 72.
abbrev machine : Vm
machine = record {
  call_stack = empty_stack;
  address_stack = record empty_stack { bytes = bytes_of 8 72 };
  memory = small_heap;
  state = ready;
  pc = 8;
  status = ok;
  output = [];
  gc_errors = [];
}

addresses-IsValid : IsValid machine.address_stack
unfolding bytes_of
addresses-IsValid = ground arith

calls-IsValid : IsValid empty_stack
calls-IsValid = ground arith

push_address_to_vm_stack-WordPushed_example :
    Returns (push_address_to_vm_stack host machine calls 72) (WordPushed machine calls 72)
push_address_to_vm_stack-WordPushed_example =
    push_address_to_vm_stack-WordPushed host machine calls 72 host-IsHost calls-IsValid

execute_pcall_instruction-Called_example :
    Returns (execute_pcall_instruction host machine) (Called machine [] 72)
execute_pcall_instruction-Called_example =
    execute_pcall_instruction-Called host machine [] 72 refl (ground arith) host-IsHost
      calls-IsValid addresses-IsValid

abbrev called : Vm
called = record machine {
  call_stack = record empty_stack { bytes = bytes_of 8 72 ++ bytes_of 8 9 };
  address_stack = empty_stack;
  pc = 72;
}

machine-called : execute_pcall_instruction host machine ≡ done (called, success)
unfolding execute_pcall_instruction enter push_address_to_vm_stack pop_address_from_vm_stack
    push_stack pop_stack is_valid_vmm_address bytes_of number_of slice
machine-called = refl

execute_return_instruction-execute_pcall_instruction_example :
    (frames : Stack) × (frames.bytes ≡ [])
    × (execute_return_instruction called
        ≡ done (
          record machine { call_stack = frames; address_stack = empty_stack; pc = add64 8 1 },
          success,
        ))
execute_return_instruction-execute_pcall_instruction_example =
    execute_return_instruction-execute_pcall_instruction host machine called [] 72 refl
      (ground arith) host-IsHost calls-IsValid addresses-IsValid machine-called

-- A machine at address 72, where the operand of a PUSH is 72.
abbrev pushing : Vm
pushing = record machine {
  memory = record small_heap { bytes = write64 small_heap.bytes 73 72 };
  pc = 72;
}

execute_push_instruction-OperandPushed_example :
    Returns (execute_push_instruction host pushing) (OperandPushed pushing)
execute_push_instruction-OperandPushed_example =
    execute_push_instruction-OperandPushed host pushing host-IsHost addresses-IsValid

abbrev pushed : Vm
pushed = record pushing {
  address_stack = record empty_stack { bytes = bytes_of 8 72 ++ bytes_of 8 72 };
  pc = 81;
}

pushing-pushed : execute_push_instruction host pushing ≡ done (pushed, success)
unfolding execute_push_instruction push_address_to_vm_stack push_stack bytes_of number_of read64
    write64 read_bytes write_bytes write_free_block
pushing-pushed = refl

operand-word : word_at pushing.memory 73 < 2 ^ 64
unfolding bytes_of number_of read64 write64 read_bytes write_bytes write_free_block
operand-word = ground arith

execute_pop_instruction-execute_push_instruction_example :
    (t : Stack) × (t.bytes ≡ bytes_of 8 72)
    × (execute_pop_instruction pushed
        ≡ done (record pushing { address_stack = t; pc = add64 (add64 72 9) 1 }, success))
execute_pop_instruction-execute_push_instruction_example =
    execute_pop_instruction-execute_push_instruction host pushing pushed host-IsHost
      addresses-IsValid operand-word pushing-pushed
