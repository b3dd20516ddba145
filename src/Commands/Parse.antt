-- ===== src/Commands/Parse.antt =====
-- `parseDebugCommand` of src/dbgcmd.c, and the parsers for the remaining commands.
use unlambda.Base.{
  ℕ, zero, suc, Bool, true, false, not, Option, none, some, List, [], ◌∷◌, length, get_elem?, take,
  ◌+◌, ◌-◌, ltb, ◌==◌, if◌then◌else◌, Return, success, failure,
}
use unlambda.Base.Run.{
  Run, done, null_dereference, assertion_failed, unfinished, ◌>>=◌, ◌>>◌, assert,
}
use unlambda.Base.Text.{Text, codes, first_char, take_while, drop_while}
use unlambda.Array.{
  Array, ArrayStatus, sequence_too_long, array_size, create_array, append_to_array,
}
use unlambda.Commands.{
  ErrorCode, no_error, invalid_arg_error, missing_arg_error, out_of_memory_error, DebugCommand,
  Platform, create_write_bytes_command, create_heap_dump_command, create_lookup_symbol_command,
}
use unlambda.Commands.Scan.{
  parse_next_byte, is_symbol_start, is_symbol_char, parse_next_address, check_no_more_arguments,
  make_parse_error_from_state, check_argument_parsed,
}
use unlambda.Commands.State.{
  CommandCode, no_command, bad_command, numbered, ParserState, init_parser_state, is_blank,
  ends_word, skip_blanks, set_parse_error, has_error, parse_command_text,
}
use unlambda.Vm.Load.{Machine}
use unlambda.Commands.Arguments.{
  Answer, address_argument, CommandParser, parse_disassemble_cmd, parse_dump_bytes_cmd,
  parse_dump_addr_stack_cmd, parse_modify_addr_stack_cmd, parse_push_address_cmd,
  parse_pop_address_cmd, parse_dump_call_stack_cmd, parse_modify_call_stack_cmd,
  parse_push_call_frame_cmd, parse_pop_call_frame_cmd, parse_list_breakpoints_cmd,
  parse_add_breakpoint_cmd, parse_remove_breakpoint_cmd, parse_run_program_cmd,
  parse_run_until_return_cmd, parse_single_step_into_cmd, parse_single_step_over_cmd,
  parse_quit_vm_cmd, parse_show_help_cmd,
}

abbrev pub max_data_length : ℕ
max_data_length = 65536

-- Why a byte could not be stored.
unfoldable pub report_full : ArrayStatus → Platform → ParserState → ParserState
report_full sequence_too_long pf s =
    set_parse_error pf.host s invalid_arg_error (codes "Too many values to write")
report_full _ pf s = set_parse_error pf.host s out_of_memory_error (codes "Out of memory")

-- The loop over the bytes to write: the array and where the loop ends, or that a byte could not be
-- stored. At a newline a byte is read as 0 and `p` stays, until the array is full.
unfoldable pub collect_bytes :
    ℕ → Platform → Array → ParserState × ℕ → Run (Array × ParserState × Return)
collect_bytes zero pf a (s, v) = unfinished
collect_bytes (suc fuel) pf a (s, v) = elim (has_error s.error_code) [
  | true ↦ done (a, s, success)
  | false ↦ append_to_array pf.host a (some (v ∷ [])) 1 >>= λ (b, code). elim code [
    | failure ↦ done (b, report_full b.status pf s, failure)
    | success ↦ collect_bytes fuel pf b (parse_next_byte pf.host s)
  ]
]

-- An error other than the end of the arguments.
abbrev pub reject_bytes : Platform → ParserState → Answer
reject_bytes pf s = do
  (s', _) ← check_argument_parsed pf.host s (codes "bytes to write")
  make_parse_error_from_state pf s'

-- The end of the arguments shows as an argument that is missing.
unfoldable pub write_bytes_up_to : ErrorCode → Platform → ℕ → Array → ParserState → Answer
write_bytes_up_to missing_arg_error pf address a s =
    if array_size a == 0
    then make_parse_error_from_state pf
        (set_parse_error pf.host s missing_arg_error (codes "Bytes to write are missing"))
    else done (create_write_bytes_command pf address (array_size a) a.bytes)
write_bytes_up_to _ pf address a s = reject_bytes pf s

abbrev pub write_collected : Platform → ℕ → Array × ParserState × Return → Answer
write_collected pf address (a, s, failure) = make_parse_error_from_state pf s
write_collected pf address (a, s, success) = write_bytes_up_to s.error_code pf address a s

-- Without an array (it is not tested that there is one), the first byte or its absence leads to
-- NULL, while an error of another kind is reported.
unfoldable pub write_uncollected : ErrorCode → Platform → ParserState → Answer
write_uncollected no_error pf s = null_dereference
write_uncollected missing_arg_error pf s = null_dereference
write_uncollected _ pf s = reject_bytes pf s

unfoldable pub parse_write_bytes_cmd : CommandParser
parse_write_bytes_cmd pf s =
    address_argument pf (codes "address") (parse_next_address pf.host s) λ address s₁. do
      made ← create_array pf.host pf.array_size [] max_data_length
      elim made [
        | none ↦ (let s₂ = (parse_next_byte pf.host s₁).0 in write_uncollected s₂.error_code pf s₂)
        | some a ↦
            collect_bytes (max_data_length + 2) pf a (parse_next_byte pf.host s₁)
            >>= write_collected pf address
      ]

abbrev pub is_filename_char : ℕ → Bool
is_filename_char c = not (is_blank c)

-- The name reaches to the next blank, over newlines too. The result of its `malloc` is not tested.
unfoldable pub parse_heap_dump_cmd : CommandParser
parse_heap_dump_cmd pf state =
    let s = skip_blanks state in
    let name = take_while is_filename_char s.p in
    let (s', more) =
      check_no_more_arguments pf.host (record s { p = drop_while is_filename_char s.p }) in
    if first_char s.p == 0
    then done (create_heap_dump_command pf none)
    else if more
    then make_parse_error_from_state pf s'
    else assert (ltb 0 (length name)) >> elim (pf.host.malloc (length name + 1)) [
      | none ↦ null_dereference
      | some _ ↦ done (create_heap_dump_command pf (some name))
    ]

-- The name of the symbol is what lies between its start and `p`, which `checkNoMoreArguments` has
-- moved on: blanks and newlines behind the name belong to it.
unfoldable pub parse_lookup_symbol_cmd : CommandParser
parse_lookup_symbol_cmd pf state =
    let s = skip_blanks state in
    let c = first_char s.p in
    let s₁ = record s { p = drop_while is_symbol_char s.p } in
    let (s₂, more) = check_no_more_arguments pf.host s₁ in
    let name = take (length s.p - length s₂.p) s.p in
    let refuse = λ (t : ParserState).
      make_parse_error_from_state pf
        (set_parse_error pf.host t invalid_arg_error (codes "Invalid symbol name")) in
    if c == 0
    then make_parse_error_from_state pf
        (set_parse_error pf.host s missing_arg_error (codes "Symbol name missing"))
    else if not (is_symbol_start c)
    then refuse s
    else assert (ltb (length s₁.p) (length s.p))
      >> (if not (ends_word (first_char s₁.p))
          then refuse s₁
          else if more
          then make_parse_error_from_state pf s₂
          else elim (pf.host.malloc (length name + 1)) [
            | none ↦ null_dereference
            | some _ ↦ done (create_lookup_symbol_command pf name)
          ])

-- By code, from 0 on, where the pointer is NULL.
abbrev pub command_parsers : List CommandParser
command_parsers =
    (λ pf s. null_dereference)
    ∷ parse_disassemble_cmd
    ∷ parse_dump_bytes_cmd
    ∷ parse_write_bytes_cmd
    ∷ parse_dump_addr_stack_cmd
    ∷ parse_modify_addr_stack_cmd
    ∷ parse_push_address_cmd
    ∷ parse_pop_address_cmd
    ∷ parse_dump_call_stack_cmd
    ∷ parse_modify_call_stack_cmd
    ∷ parse_push_call_frame_cmd
    ∷ parse_pop_call_frame_cmd
    ∷ parse_list_breakpoints_cmd
    ∷ parse_add_breakpoint_cmd
    ∷ parse_remove_breakpoint_cmd
    ∷ parse_run_program_cmd
    ∷ parse_run_until_return_cmd
    ∷ parse_single_step_into_cmd
    ∷ parse_single_step_over_cmd
    ∷ parse_heap_dump_cmd
    ∷ parse_quit_vm_cmd
    ∷ parse_show_help_cmd
    ∷ parse_lookup_symbol_cmd
    ∷ []

-- `assert(cmd)`
abbrev pub assert_command : Option DebugCommand → Answer
assert_command none = assertion_failed
assert_command (some cmd) = done (some cmd)

unfoldable pub parse_arguments : Platform → ParserState → ℕ → Answer
parse_arguments pf s code = elim (get_elem? command_parsers code) [
  | none ↦ assertion_failed
  | some parser ↦ parser pf s >>= assert_command
]

-- What is done with the code of the command.
unfoldable pub parse_with_code : Platform → ParserState × CommandCode → Answer
parse_with_code pf (s, no_command) = done none
parse_with_code pf (s, bad_command) = make_parse_error_from_state pf s
parse_with_code pf (s, numbered code) = assert (ltb 0 code) >> parse_arguments pf s code

-- The result is `none` where the line is blank.
unfoldable pub parse_debug_command : Platform → Machine → Text → Answer
parse_debug_command pf vm text =
    parse_command_text pf.host (init_parser_state vm text) >>= parse_with_code pf
