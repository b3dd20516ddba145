-- ===== src/Vm/Load.antt =====
-- Creation of a machine and loading of a program into it: `createUnlambdaVM`, `loadProgramIntoVm` and
-- `loadVmProgramFromMemory` of src/vm.c.
use unlambda.Base.{
  ℕ, ◌-◌, ◌*◌, Bool, Option, none, some, List, [], length, replicate, ltb, leb, ◌==◌, if◌then◌else◌,
  Return, success, failure, u32,
}
use unlambda.Base.Host.{Host}
use unlambda.Base.Run.{Run, done, ◌>>=◌, ◌>>◌, assert}
use unlambda.Files.{Files}
use unlambda.Image.{load_vm_program_image}
use unlambda.Image
use unlambda.Instructions.Op
use unlambda.Memory.Bytes.{Bytes, write_bytes}
use unlambda.Memory.Grow.{create_vm_memory, reserve_vm_memory_for_program}
use unlambda.Memory.State.{VmMemory, not_enough_memory}
use unlambda.Stack.{create_stack}
use unlambda.Symbols.{SymbolTable, create_symbol_table}
use unlambda.Vm.State.{
  Vm, VmStatus, no_program, ready, ok, program_already_loaded, out_of_memory, fatal,
  illegal_argument, io_error, bad_program_image, set_vm_status, set_vm_pc,
}

-- The machine with what only loading and the debugger use.
pub record Machine : Type 0 where
  pub vm : Vm
  pub symbols : SymbolTable
  pub program_name : List ℕ

-- The sizes of the structures that `malloc` is asked for.
pub record Sizes : Type 0 where
  pub machine : ℕ
  pub stack : ℕ
  pub memory : ℕ
  pub symbol_table : ℕ
  pub link : ℕ

abbrev pub initial_stack_size : ℕ → ℕ
initial_stack_size max_size = if leb 1024 max_size then 1024 else max_size

abbrev pub max_symbol_table_size : ℕ
max_symbol_table_size = 256 * 1024 * 1024

-- The sizes of the stacks are products of 32-bit numbers; `fresh` is what is in the new memory.
unfoldable pub create_unlambda_vm : Host → Sizes → Bytes → ℕ → ℕ → ℕ → ℕ → Option Machine
create_unlambda_vm host sizes fresh max_calls max_addresses initial_memory max_memory =
    elim (host.malloc sizes.machine) [
      | none ↦ none
      | some _ ↦
          elim (create_stack host sizes.stack (u32 (16 * initial_stack_size max_calls))
            (u32 (16 * max_calls))) [
              | none ↦ none
              | some call_stack ↦
                  elim (create_stack host sizes.stack (u32 (8 * initial_stack_size max_addresses))
                    (u32 (8 * max_addresses))) [
                      | none ↦ none
                      | some address_stack ↦
                          elim (create_vm_memory host fresh sizes.memory initial_memory
                            max_memory) [
                              | none ↦ none
                              | some memory ↦
                                  elim (create_symbol_table host sizes.symbol_table
                                    max_symbol_table_size) [
                                      | none ↦ none
                                      | some symbols ↦ some (record {
                                        vm = record {
                                          call_stack = call_stack;
                                          address_stack = address_stack;
                                          memory = memory;
                                          state = no_program;
                                          pc = 0;
                                          status = ok;
                                          output = [];
                                          gc_errors = [];
                                        };
                                        symbols = symbols;
                                        program_name = [];
                                      })
                                    ]
                            ]
                    ]
            ]
    ]

abbrev refuse : Machine → Machine × Return
refuse t = (record t { vm = set_vm_status t.vm program_already_loaded }, failure)

abbrev put_memory : Machine → VmMemory → Machine
put_memory t m = record t { vm = record t.vm { memory = m } }

abbrev failed_load : {W : Type 0} → W → Machine → VmStatus → Run (W × Machine × Return)
failed_load w t code = done (w, record t { vm = set_vm_status t.vm code }, failure)

-- The start address is tested behind the change of state. `VmImageFormatError`, which it sets as a
-- status of the machine, has the value of `VmOutOfMemoryError`.
unfoldable pub load_program_into_vm :
    (fs : Files)
    → Host
    → Sizes
    → fs.World
    → Bytes
    → Machine
    → Bool
    → Run (fs.World × Machine × Return)
load_program_into_vm fs host sizes w stale t with_symbols = elim t.vm.state [
  | no_program ↦ do
    l ← load_vm_program_image fs host sizes.link w stale t.vm.memory t.symbols with_symbols
    let t' : Machine = record t { vm = record t.vm { memory = l.memory }; symbols = l.symbols }
    elim l.result [
      | Image.ok ↦
          let (vm', code) = set_vm_pc (record t'.vm { state = ready }) l.start_address in
          elim code [
            | success ↦ done (l.world, record t' { vm = vm' }, success)
            | failure ↦ failed_load l.world (record t' { vm = vm' }) out_of_memory
          ]
      | Image.illegal_argument ↦ failed_load l.world t' fatal
      | Image.program_already_loaded ↦ failed_load l.world t' program_already_loaded
      | Image.io_error ↦ failed_load l.world t' io_error
      | Image.format_error ↦ failed_load l.world t' bad_program_image
      | Image.out_of_memory ↦ failed_load l.world t' bad_program_image
    ]
  | _ ↦ let (t', code) = refuse t in done (w, t', code)
]

-- The end of `loadVmProgramFromMemory`: the program, and HALT instructions up to the heap.
unfoldable pub store_program : Machine → List ℕ → List ℕ → Run (Machine × Return)
store_program t name program =
    let m = t.vm.memory in
    let rest = m.heap_start - length program in
    let copied = write_bytes m.bytes 0 program in
    assert (leb (length program) m.heap_start)
    >> done (
      record t {
        vm = record t.vm {
          memory = record m {
            bytes = write_bytes copied (length program) (replicate rest Op.halt);
          };
          state = ready;
        };
        program_name = name;
      },
      success,
    )

-- `strdup` is taken to succeed.
unfoldable pub load_vm_program_from_memory :
    Host → Machine → List ℕ → List ℕ → Run (Machine × Return)
load_vm_program_from_memory host t name program = elim t.vm.state [
  | no_program ↦
      if t.vm.memory.heap_start == 0
      then (do
        (m, code) ← reserve_vm_memory_for_program host t.vm.memory (length program)
        let t' = put_memory t m
        elim code [
          | success ↦ store_program t' name program
          | failure ↦ elim m.status [
            | not_enough_memory ↦
                done (record t' { vm = set_vm_status t'.vm out_of_memory }, failure)
            | _ ↦ done (record t' { vm = set_vm_status t'.vm fatal }, failure)
          ]
        ])
      else if ltb t.vm.memory.heap_start (length program)
      then done (record t { vm = set_vm_status t.vm illegal_argument }, failure)
      else store_program t name program
  | _ ↦ done (refuse t)
]
