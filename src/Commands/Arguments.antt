-- ===== src/Commands/Arguments.antt =====
-- The parsers of src/dbgcmd.c for the commands whose arguments are numbers and addresses.
use unlambda.Base.{ℕ, Bool, true, false, Option, if◌then◌else◌}
use unlambda.Base.Run.{Run, done, ◌>>=◌}
use unlambda.Base.Text.{Text, codes}
use unlambda.Commands.{
  DebugCommand, Platform, create_disassemble_command, create_dump_bytes_command,
  create_dump_address_stack_command, create_modify_address_stack_command,
  create_push_address_stack_command, create_pop_address_stack_command,
  create_dump_call_stack_command, create_modify_call_stack_command, create_push_call_stack_command,
  create_pop_call_stack_command, create_list_breakpoints_command, create_add_breakpoint_command,
  create_remove_breakpoint_command, create_run_command, create_run_until_return_command,
  create_single_step_into_command, create_single_step_over_command, create_quit_vm_command,
  create_show_help_command,
}
use unlambda.Commands.Scan.{
  parse_next_uint64, parse_next_uint64_with_default, parse_next_uint32_with_default,
  parse_next_address, parse_next_address_with_default, check_no_more_arguments,
  make_parse_error_from_state, check_argument_parsed,
}
use unlambda.Commands.State.{ParserState}

abbrev pub Answer : Type 0
Answer = Run (Option DebugCommand)

abbrev pub get_vm_pc : ParserState → ℕ
get_vm_pc s = s.vm.vm.pc

-- An argument is read and checked, before the parser goes on with it.
unfoldable pub after_check : Platform → ℕ → (ℕ → ParserState → Answer) → ParserState × Bool → Answer
after_check pf value rest (s, true) = make_parse_error_from_state pf s
after_check pf value rest (s, false) = rest value s

unfoldable pub argument : Platform → Text → ParserState × ℕ → (ℕ → ParserState → Answer) → Answer
argument pf name (s, value) rest =
    check_argument_parsed pf.host s name >>= after_check pf value rest

-- The same for an address, the reading of which may end the program.
abbrev pub address_argument :
    Platform → Text → Run (ParserState × ℕ) → (ℕ → ParserState → Answer) → Answer
address_argument pf name read rest = read >>= λ r. argument pf name r rest

-- The command, unless there are more arguments.
unfoldable pub no_more_arguments : Platform → ParserState → Option DebugCommand → Answer
no_more_arguments pf s cmd =
    let (s', more) = check_no_more_arguments pf.host s in
    if more then make_parse_error_from_state pf s' else done cmd

abbrev pub CommandParser : Type 0
CommandParser = Platform → ParserState → Answer

unfoldable pub parse_disassemble_cmd : CommandParser
parse_disassemble_cmd pf s =
    address_argument pf (codes "address") (parse_next_address_with_default pf.host s (get_vm_pc s))
      λ address s₁.
        argument pf (codes "number of lines") (parse_next_uint32_with_default pf.host s₁ 10)
          λ lines s₂. no_more_arguments pf s₂ (create_disassemble_command pf address lines)

unfoldable pub parse_dump_bytes_cmd : CommandParser
parse_dump_bytes_cmd pf s =
    address_argument pf (codes "address") (parse_next_address pf.host s) λ address s₁.
      argument pf (codes "number of bytes") (parse_next_uint32_with_default pf.host s₁ 256)
        λ count s₂. no_more_arguments pf s₂ (create_dump_bytes_command pf address count)

unfoldable pub parse_dump_addr_stack_cmd : CommandParser
parse_dump_addr_stack_cmd pf s =
    argument pf (codes "depth") (parse_next_uint64_with_default pf.host s 0) λ depth s₁.
      argument pf (codes "frame count") (parse_next_uint64_with_default pf.host s₁ 16)
        λ count s₂. no_more_arguments pf s₂ (create_dump_address_stack_command pf depth count)

unfoldable pub parse_modify_addr_stack_cmd : CommandParser
parse_modify_addr_stack_cmd pf s =
    argument pf (codes "depth") (parse_next_uint64 pf.host s) λ depth s₁.
      address_argument pf (codes "address") (parse_next_address pf.host s₁)
        λ address s₂. no_more_arguments pf s₂ (create_modify_address_stack_command pf depth address)

unfoldable pub parse_push_address_cmd : CommandParser
parse_push_address_cmd pf s =
    address_argument pf (codes "address") (parse_next_address pf.host s)
      λ address s₁. no_more_arguments pf s₁ (create_push_address_stack_command pf address)

unfoldable pub parse_pop_address_cmd : CommandParser
parse_pop_address_cmd pf s = no_more_arguments pf s (create_pop_address_stack_command pf)

unfoldable pub parse_dump_call_stack_cmd : CommandParser
parse_dump_call_stack_cmd pf s =
    argument pf (codes "depth") (parse_next_uint64_with_default pf.host s 0) λ depth s₁.
      argument pf (codes "frame count") (parse_next_uint64_with_default pf.host s₁ 16)
        λ count s₂. no_more_arguments pf s₂ (create_dump_call_stack_command pf depth count)

unfoldable pub parse_modify_call_stack_cmd : CommandParser
parse_modify_call_stack_cmd pf s =
    argument pf (codes "depth") (parse_next_uint64 pf.host s) λ depth s₁.
      address_argument pf (codes "block address") (parse_next_address pf.host s₁) λ block s₂.
        address_argument pf (codes "return address") (parse_next_address pf.host s₂)
          λ back s₃. no_more_arguments pf s₃ (create_modify_call_stack_command pf depth block back)

unfoldable pub parse_push_call_frame_cmd : CommandParser
parse_push_call_frame_cmd pf s =
    address_argument pf (codes "block address") (parse_next_address pf.host s) λ block s₁.
      address_argument pf (codes "return address") (parse_next_address pf.host s₁)
        λ back s₂. no_more_arguments pf s₂ (create_push_call_stack_command pf block back)

unfoldable pub parse_pop_call_frame_cmd : CommandParser
parse_pop_call_frame_cmd pf s = no_more_arguments pf s (create_pop_call_stack_command pf)

unfoldable pub parse_list_breakpoints_cmd : CommandParser
parse_list_breakpoints_cmd pf s = no_more_arguments pf s (create_list_breakpoints_command pf)

unfoldable pub parse_add_breakpoint_cmd : CommandParser
parse_add_breakpoint_cmd pf s =
    address_argument pf (codes "address") (parse_next_address_with_default pf.host s (get_vm_pc s))
      λ address s₁. no_more_arguments pf s₁ (create_add_breakpoint_command pf address)

unfoldable pub parse_remove_breakpoint_cmd : CommandParser
parse_remove_breakpoint_cmd pf s =
    address_argument pf (codes "address") (parse_next_address_with_default pf.host s (get_vm_pc s))
      λ address s₁. no_more_arguments pf s₁ (create_remove_breakpoint_command pf address)

unfoldable pub parse_run_program_cmd : CommandParser
parse_run_program_cmd pf s =
    address_argument pf (codes "address") (parse_next_address_with_default pf.host s (get_vm_pc s))
      λ address s₁. no_more_arguments pf s₁ (create_run_command pf address)

unfoldable pub parse_run_until_return_cmd : CommandParser
parse_run_until_return_cmd pf s = no_more_arguments pf s (create_run_until_return_command pf)

unfoldable pub parse_single_step_into_cmd : CommandParser
parse_single_step_into_cmd pf s = no_more_arguments pf s (create_single_step_into_command pf)

unfoldable pub parse_single_step_over_cmd : CommandParser
parse_single_step_over_cmd pf s = no_more_arguments pf s (create_single_step_over_command pf)

unfoldable pub parse_quit_vm_cmd : CommandParser
parse_quit_vm_cmd pf s = no_more_arguments pf s (create_quit_vm_command pf)

unfoldable pub parse_show_help_cmd : CommandParser
parse_show_help_cmd pf s = no_more_arguments pf s (create_show_help_command pf)
