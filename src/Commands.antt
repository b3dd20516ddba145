-- ===== src/Commands.antt =====
-- src/dbgcmd.h and src/dbgcmd.c: the commands of the debugger, and how they are printed.
pub mod Print
pub mod State
pub mod Scan
pub mod Number
pub mod Decimal
pub mod Outcome
pub mod Always
pub mod Valid
pub mod Address
pub mod Arguments
pub mod Parse
pub mod Writing
pub mod Complete
pub mod Total
pub mod Reading
pub mod Printable
pub mod Numeric
pub mod RoundTrip
pub mod Printed
use unlambda.Base.{ℕ, Option, none, some, List, take}
use unlambda.Base.Host.{Host}
use unlambda.Base.Text.{Text, strdup}

-- `DEBUG_CMD_..._ERROR`, from 0 (no error) down to -5.
pub data ErrorCode : Type 0 where
  no_error syntax_error invalid_arg_error missing_arg_error : ErrorCode
  unknown_cmd_error out_of_memory_error : ErrorCode

-- `DebugCommandImpl`: the code with its member of the union. A name is absent where the pointer is
-- NULL.
pub data DebugCommand : Type 0 where
  disassemble dump_bytes : ℕ → ℕ → DebugCommand
  write_bytes : ℕ → ℕ → List ℕ → DebugCommand
  dump_address_stack modify_address_stack : ℕ → ℕ → DebugCommand
  push_address_stack : ℕ → DebugCommand
  pop_address_stack : DebugCommand
  dump_call_stack : ℕ → ℕ → DebugCommand
  modify_call_stack : ℕ → ℕ → ℕ → DebugCommand
  push_call_stack : ℕ → ℕ → DebugCommand
  pop_call_stack list_breakpoints : DebugCommand
  add_breakpoint remove_breakpoint run_program : ℕ → DebugCommand
  run_until_return single_step_into single_step_over : DebugCommand
  heap_dump : Option Text → DebugCommand
  quit_vm show_help : DebugCommand
  lookup_symbol : Option Text → DebugCommand
  command_error : ErrorCode → Text → DebugCommand

-- The allocator, and the sizes of `DebugCommandImpl` and `ArrayImpl`.
pub record Platform : Type 0 where
  pub host : Host
  pub command_size : ℕ
  pub array_size : ℕ

unfoldable pub create_debug_command : Platform → DebugCommand → Option DebugCommand
create_debug_command pf cmd = elim (pf.host.malloc pf.command_size) [
  | none ↦ none
  | some _ ↦ some cmd
]

abbrev pub create_disassemble_command : Platform → ℕ → ℕ → Option DebugCommand
create_disassemble_command pf address lines = create_debug_command pf (disassemble address lines)

abbrev pub create_dump_bytes_command : Platform → ℕ → ℕ → Option DebugCommand
create_dump_bytes_command pf address n = create_debug_command pf (dump_bytes address n)

unfoldable pub create_write_bytes_command : Platform → ℕ → ℕ → List ℕ → Option DebugCommand
create_write_bytes_command pf address n bytes = elim (pf.host.malloc n) [
  | none ↦ none
  | some _ ↦ create_debug_command pf (write_bytes address n (take n bytes))
]

abbrev pub create_dump_address_stack_command : Platform → ℕ → ℕ → Option DebugCommand
create_dump_address_stack_command pf depth count =
    create_debug_command pf (dump_address_stack depth count)

abbrev pub create_modify_address_stack_command : Platform → ℕ → ℕ → Option DebugCommand
create_modify_address_stack_command pf depth address =
    create_debug_command pf (modify_address_stack depth address)

abbrev pub create_push_address_stack_command : Platform → ℕ → Option DebugCommand
create_push_address_stack_command pf address = create_debug_command pf (push_address_stack address)

abbrev pub create_pop_address_stack_command : Platform → Option DebugCommand
create_pop_address_stack_command pf = create_debug_command pf pop_address_stack

abbrev pub create_dump_call_stack_command : Platform → ℕ → ℕ → Option DebugCommand
create_dump_call_stack_command pf depth count =
    create_debug_command pf (dump_call_stack depth count)

abbrev pub create_modify_call_stack_command : Platform → ℕ → ℕ → ℕ → Option DebugCommand
create_modify_call_stack_command pf depth block return =
    create_debug_command pf (modify_call_stack depth block return)

abbrev pub create_push_call_stack_command : Platform → ℕ → ℕ → Option DebugCommand
create_push_call_stack_command pf block return =
    create_debug_command pf (push_call_stack block return)

abbrev pub create_pop_call_stack_command : Platform → Option DebugCommand
create_pop_call_stack_command pf = create_debug_command pf pop_call_stack

abbrev pub create_list_breakpoints_command : Platform → Option DebugCommand
create_list_breakpoints_command pf = create_debug_command pf list_breakpoints

abbrev pub create_add_breakpoint_command : Platform → ℕ → Option DebugCommand
create_add_breakpoint_command pf address = create_debug_command pf (add_breakpoint address)

abbrev pub create_remove_breakpoint_command : Platform → ℕ → Option DebugCommand
create_remove_breakpoint_command pf address = create_debug_command pf (remove_breakpoint address)

abbrev pub create_run_command : Platform → ℕ → Option DebugCommand
create_run_command pf address = create_debug_command pf (run_program address)

abbrev pub create_run_until_return_command : Platform → Option DebugCommand
create_run_until_return_command pf = create_debug_command pf run_until_return

abbrev pub create_single_step_into_command : Platform → Option DebugCommand
create_single_step_into_command pf = create_debug_command pf single_step_into

abbrev pub create_single_step_over_command : Platform → Option DebugCommand
create_single_step_over_command pf = create_debug_command pf single_step_over

unfoldable pub create_heap_dump_command : Platform → Option Text → Option DebugCommand
create_heap_dump_command pf none = create_debug_command pf (heap_dump none)
create_heap_dump_command pf (some filename) = elim (strdup pf.host filename) [
  | none ↦ none
  | some copy ↦ create_debug_command pf (heap_dump (some copy))
]

abbrev pub create_quit_vm_command : Platform → Option DebugCommand
create_quit_vm_command pf = create_debug_command pf quit_vm

abbrev pub create_show_help_command : Platform → Option DebugCommand
create_show_help_command pf = create_debug_command pf show_help

abbrev pub create_lookup_symbol_command : Platform → Text → Option DebugCommand
create_lookup_symbol_command pf name = create_debug_command pf (lookup_symbol (strdup pf.host name))

unfoldable pub create_command_parse_error : Platform → ErrorCode → Text → Option DebugCommand
create_command_parse_error pf code details = elim (strdup pf.host details) [
  | none ↦ none
  | some copy ↦ create_debug_command pf (command_error code copy)
]
