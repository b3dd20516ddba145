-- ===== src/Commands/Print.antt =====
-- `sprintDebugCommand` and `printDebugCommand` of src/dbgcmd.c.
use unlambda.Base.{ℕ, ◌+◌, ◌*◌, none, some, List, [], ◌∷◌, ◌++◌, length, get_or}
use unlambda.Base.Host.{Host}
use unlambda.Base.Text.{Text, codes, decimal, snprintf}
use unlambda.Commands.{
  ErrorCode, no_error, syntax_error, invalid_arg_error, missing_arg_error, unknown_cmd_error,
  out_of_memory_error, DebugCommand, disassemble, dump_bytes, write_bytes, dump_address_stack,
  modify_address_stack, push_address_stack, pop_address_stack, dump_call_stack, modify_call_stack,
  push_call_stack, pop_call_stack, list_breakpoints, add_breakpoint, remove_breakpoint, run_program,
  run_until_return, single_step_into, single_step_over, heap_dump, quit_vm, show_help,
  lookup_symbol, command_error,
}

abbrev pub command_names : List Text
command_names =
    codes ""
    ∷ codes "l"
    ∷ codes "d"
    ∷ codes "w"
    ∷ codes "as"
    ∷ codes "was"
    ∷ codes "pas"
    ∷ codes "ppas"
    ∷ codes "cs"
    ∷ codes "wcs"
    ∷ codes "pcs"
    ∷ codes "ppcs"
    ∷ codes "b"
    ∷ codes "ba"
    ∷ codes "bd"
    ∷ codes "r"
    ∷ codes "rr"
    ∷ codes "s"
    ∷ codes "ss"
    ∷ codes "hd"
    ∷ codes "q"
    ∷ codes "h"
    ∷ codes "sym"
    ∷ []

-- The `..._CMD` constants; the code of a parse error is -1, which is no index.
abbrev pub command_code : DebugCommand → ℕ
command_code (disassemble _ _) = 1
command_code (dump_bytes _ _) = 2
command_code (write_bytes _ _ _) = 3
command_code (dump_address_stack _ _) = 4
command_code (modify_address_stack _ _) = 5
command_code (push_address_stack _) = 6
command_code pop_address_stack = 7
command_code (dump_call_stack _ _) = 8
command_code (modify_call_stack _ _ _) = 9
command_code (push_call_stack _ _) = 10
command_code pop_call_stack = 11
command_code list_breakpoints = 12
command_code (add_breakpoint _) = 13
command_code (remove_breakpoint _) = 14
command_code (run_program _) = 15
command_code run_until_return = 16
command_code single_step_into = 17
command_code single_step_over = 18
command_code (heap_dump _) = 19
command_code quit_vm = 20
command_code show_help = 21
command_code (lookup_symbol _) = 22
command_code (command_error _ _) = 0

abbrev pub name_of : DebugCommand → Text
name_of cmd = get_or command_names (command_code cmd) []

-- The numbers behind a name, each after a space.
abbrev pub with_numbers : Text → List ℕ → Text
with_numbers name [] = name
with_numbers name (n ∷ ns) = with_numbers (name ++ b' ' ∷ decimal n) ns

-- `%PRId32` of an error code
abbrev pub error_number : ErrorCode → Text
error_number no_error = codes "0"
error_number syntax_error = codes "-1"
error_number invalid_arg_error = codes "-2"
error_number missing_arg_error = codes "-3"
error_number unknown_cmd_error = codes "-4"
error_number out_of_memory_error = codes "-5"

-- The text that the format of each case describes. There is no case for WRITE_BYTES_CMD, which
-- falls under `default`.
unfoldable pub command_text : DebugCommand → Text
command_text (disassemble a n) = with_numbers (codes "l") (a ∷ n ∷ [])
command_text (dump_bytes a n) = with_numbers (codes "d") (a ∷ n ∷ [])
command_text (dump_address_stack d n) = with_numbers (codes "as") (d ∷ n ∷ [])
command_text (dump_call_stack d n) = with_numbers (codes "cs") (d ∷ n ∷ [])
command_text (modify_address_stack d a) = with_numbers (codes "was") (d ∷ a ∷ [])
command_text (push_address_stack a) = with_numbers (codes "pas") (a ∷ [])
command_text (modify_call_stack d b r) = with_numbers (codes "wcs") (d ∷ b ∷ r ∷ [])
command_text (push_call_stack b r) = with_numbers (codes "pcs") (b ∷ r ∷ [])
command_text (add_breakpoint a) = with_numbers (codes "ba") (a ∷ [])
command_text (remove_breakpoint a) = with_numbers (codes "bd") (a ∷ [])
command_text (run_program a) = with_numbers (codes "r") (a ∷ [])
command_text (heap_dump none) = codes "hd"
command_text (heap_dump (some name)) = codes "hd " ++ name
command_text (lookup_symbol none) = codes "sym **MISSING**"
command_text (lookup_symbol (some name)) = codes "sym " ++ name
command_text (command_error code details) =
    codes "PARSE_ERROR " ++ error_number code ++ b'/' ∷ details
command_text (write_bytes a n bytes) = codes "COMMAND WITH UNKNOWN CODE 3"
command_text cmd = name_of cmd

-- What stands in the buffer, and the length that is returned.
unfoldable pub sprint_debug_command : DebugCommand → ℕ → Text × ℕ
sprint_debug_command cmd buffer_size =
    (snprintf buffer_size (command_text cmd), length (command_text cmd))

-- `msgLength`
abbrev pub message_length : DebugCommand → ℕ
message_length (write_bytes a n bytes) = 35 + 4 * n
message_length (heap_dump none) = 2
message_length (heap_dump (some name)) = 2 + (length name + 1)
message_length (command_error code details) = 25 + length details
message_length (lookup_symbol none) = 16
message_length (lookup_symbol (some name)) = 4 + length name
message_length cmd = 71

-- The text that is written. The buffer has one byte more than the size that is passed on.
unfoldable pub print_debug_command : Host → DebugCommand → Text
print_debug_command host cmd =
    let n = message_length cmd in
    elim (host.malloc (n + 1)) [
      | none ↦
          codes "FAILED TO ALLOCATE BUFFER of size "
          ++ decimal (n + 1)
          ++ codes " IN printDebugCommand()"
      | some _ ↦ (sprint_debug_command cmd n).0
    ]
