-- ===== src/Vm/Create.antt =====
-- What `createUnlambdaVM` of src/vm.c makes.
use unlambda.Base.{◌≡◌, []}
use unlambda.Base.Host.{Host}
use unlambda.Heap.Blank.{IsBlank}
use unlambda.Memory.Bytes.{Bytes}
use unlambda.Memory.State.{VmMemory}
use unlambda.Vm.State.{ok, no_program}
use unlambda.Symbols.{SymbolTable}
use unlambda.Symbols.Table.{IsTable}
use unlambda.Stack.{Stack}
use unlambda.Stack.Grow.{IsValid}
use unlambda.Vm.Load.{Machine}

-- A machine as it is created.
abbrev pub IsCreated : Machine → Type 0
IsCreated t =
    IsValid t.vm.call_stack
    × (t.vm.call_stack.bytes ≡ [])
    × IsValid t.vm.address_stack
    × (t.vm.address_stack.bytes ≡ [])
    × IsBlank t.vm.memory
    × IsTable t.symbols
    × (t.symbols.symbols ≡ [])
    × (t.vm.state ≡ no_program)

abbrev pub created_machine : Stack → Stack → VmMemory → SymbolTable → Machine
created_machine call_stack address_stack memory symbols = record {
  vm = record {
    call_stack = call_stack;
    address_stack = address_stack;
    memory = memory;
    state = no_program;
    pc = 0;
    status = ok;
    output = [];
    gc_errors = [];
  };
  symbols = symbols;
  program_name = [];
}
