-- ===== src/Tests/Loading.antt =====
-- Runs of the definitions for the loading of programs in src/vm.c and src/vmmem.c.
use unlambda.Base.{ℕ, refl, [], ◌∷◌, arith}
use unlambda.Base.Run.{Returns}
use unlambda.Heap.Blank.{IsBlank, created_memory, created_memory-IsBlank}
use unlambda.Memory.Bytes.{Bytes}
use unlambda.Memory.State.{VmMemory}
use unlambda.Stack.{Stack, StackStatus}
use unlambda.Symbols.Edits.{created}
use unlambda.Vm.Load.{Machine, Sizes, load_vm_program_from_memory}
use unlambda.Vm.Create.{created_machine}
use unlambda.Vm.Program.{Loaded, load_vm_program_from_memory-Loaded}
use unlambda.Tests.Stacks.{host, host-IsHost}

abbrev pub zeros : Bytes
zeros x = 0

abbrev sizes : Sizes
sizes = record { machine = 100; stack = 40; memory = 72; symbol_table = 72; link = 24 }

abbrev pub empty_stack : ℕ → Stack
empty_stack size = record {
  base = 4096;
  bytes = [];
  allocated = size;
  max_size = size;
  status = StackStatus.ok;
}

abbrev pub memory : VmMemory
memory = created_memory 4096 zeros 64 1024

memory-IsBlank : IsBlank memory
memory-IsBlank =
    created_memory-IsBlank 4096 zeros 64 1024 (omega arith) (omega arith) (omega arith)
      (omega arith)

abbrev pub machine : Machine
machine = created_machine (empty_stack 160) (empty_stack 80) memory (created 268435456 4096)

load_vm_program_from_memory-Loaded_example :
    Returns
      (load_vm_program_from_memory host machine (65 ∷ []) (1 ∷ 2 ∷ 3 ∷ []))
      (Loaded machine (65 ∷ []) (1 ∷ 2 ∷ 3 ∷ []) 8)
load_vm_program_from_memory-Loaded_example =
    load_vm_program_from_memory-Loaded host machine (65 ∷ []) (1 ∷ 2 ∷ 3 ∷ []) host-IsHost
      memory-IsBlank refl (omega arith) (omega arith)
