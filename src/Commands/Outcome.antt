-- ===== src/Commands/Outcome.antt =====
-- What the parsers of src/dbgcmd.c return for the commands whose arguments are numbers and addresses.
use unlambda.Base.Digits.{All}
use unlambda.Base.{
  ℕ, ◌^◌, ◌≤◌, ◌<◌, ◌≡◌, refl, inl, inr, Bool, true, false, Option, some, ◌∷◌, length, ltb, ◌==◌,
  Bool-cases,
}
use unlambda.Base.Run.{Run, Returns, >>=-Returns}
use unlambda.Base.Text.{Text, first_char, drop_while, snprintf}
use unlambda.Commands.{
  ErrorCode, no_error, syntax_error, invalid_arg_error, missing_arg_error, unknown_cmd_error,
  out_of_memory_error, DebugCommand, disassemble, dump_bytes, write_bytes, dump_address_stack,
  modify_address_stack, push_address_stack, dump_call_stack, modify_call_stack, push_call_stack,
  add_breakpoint, remove_breakpoint, run_program, heap_dump, lookup_symbol, command_error, Platform,
  create_debug_command, create_command_parse_error,
}
use unlambda.Commands.State.{ParserState, is_blank, set_parse_error, has_error}
use unlambda.Commands.Scan.{
  is_symbol_start, check_no_more_arguments, argument_message, argument_checked,
  make_parse_error_from_state,
}
use unlambda.Commands.Arguments.{Answer, after_check, argument, address_argument, no_more_arguments}
use unlambda.Commands.Valid.{
  Supplies, IsExplained, IsParserState, IsRead, strdup_total, set_parse_error-IsParserState,
}
use unlambda.Vm.Load.{Machine}

abbrev pub is_byte : ℕ → Bool
is_byte b = ltb b 256

abbrev pub IsWord : ℕ → Type 0
IsWord n = n < 2 ^ 64

-- The arguments are in the range of their types, there is something to write and at most 65536 bytes
-- of it, and names are there.
abbrev pub IsCommand : DebugCommand → Type 0
IsCommand (disassemble address lines) = IsWord address × (lines < 2 ^ 32)
IsCommand (dump_bytes address count) = IsWord address × (count < 2 ^ 32)
IsCommand (write_bytes address count bytes) =
    IsWord address × (count ≡ length bytes) × (0 < count) × (count ≤ 65536) × All is_byte bytes
IsCommand (dump_address_stack depth count) = IsWord depth × IsWord count
IsCommand (modify_address_stack depth address) = IsWord depth × IsWord address
IsCommand (push_address_stack address) = IsWord address
IsCommand (dump_call_stack depth count) = IsWord depth × IsWord count
IsCommand (modify_call_stack depth block back) = IsWord depth × IsWord block × IsWord back
IsCommand (push_call_stack block back) = IsWord block × IsWord back
IsCommand (add_breakpoint address) = IsWord address
IsCommand (remove_breakpoint address) = IsWord address
IsCommand (run_program address) = IsWord address
IsCommand (heap_dump (some name)) = 0 < length name
IsCommand (lookup_symbol name) =
    (c : ℕ) × (cs : Text) × (name ≡ some (c ∷ cs)) × (is_symbol_start c ≡ true)
IsCommand (command_error code details) = has_error code ≡ true
IsCommand _ = Unit

abbrev pub IsAnswer : Option DebugCommand → Type 0
IsAnswer o = (cmd : DebugCommand) × (o ≡ some cmd) × IsCommand cmd

abbrev pub Answers : Answer → Type 0
Answers r = Returns r IsAnswer

module _ (pf : Platform) (m : Machine) (supply : Supplies pf.host) where
  pub create_debug_command-some : (cmd : DebugCommand) → create_debug_command pf cmd ≡ some cmd
  unfolding create_debug_command
  create_debug_command-some cmd = rw (create_debug_command, (supply pf.command_size).1) refl

  pub created : (cmd : DebugCommand) → IsCommand cmd → IsAnswer (create_debug_command pf cmd)
  created cmd ok = (cmd, create_debug_command-some cmd, ok)

  error_created :
      (code : ErrorCode) (text : Text)
      → has_error code ≡ true
      → IsAnswer (create_command_parse_error pf code text)
  unfolding create_command_parse_error
  error_created code text e =
      let cmd = command_error code text in
      (
        cmd,
        rw (create_command_parse_error, strdup_total pf.host m supply text)
            (create_debug_command-some cmd),
        e,
      )

  details_of :
      (code : ErrorCode) (details : Option Text)
      → has_error code ≡ true
      → IsExplained code details
      → (text : Text) × (details ≡ some text)
  details_of no_error details e x = cc
  details_of syntax_error details e x = x
  details_of invalid_arg_error details e x = x
  details_of missing_arg_error details e x = x
  details_of unknown_cmd_error details e x = x
  details_of out_of_memory_error details e x = x

  pub make_parse_error_from_state-Answers :
      (s : ParserState)
      → IsParserState m s
      → has_error s.error_code ≡ true
      → Answers (make_parse_error_from_state pf s)
  unfolding make_parse_error_from_state
  make_parse_error_from_state-Answers s v e =
      let (text, d) = details_of s.error_code s.error_details e v.explained in
      (
        create_command_parse_error pf s.error_code text,
        rw (e, d) refl,
        error_created s.error_code text e,
      )

  pub refusal-Answers :
      (s : ParserState) (code : ErrorCode) (msg : Text)
      → s.vm ≡ m
      → has_error code ≡ true
      → Answers (make_parse_error_from_state pf (set_parse_error pf.host s code msg))
  unfolding set_parse_error
  refusal-Answers s code msg same e =
      make_parse_error_from_state-Answers (set_parse_error pf.host s code msg)
        (set_parse_error-IsParserState pf.host m supply s code msg same) e

  -- What checking leaves: an error, if it says so.
  abbrev pub IsChecked : ParserState × Bool → Type 0
  IsChecked (s, bad) = IsParserState m s × (bad ≡ true → has_error s.error_code ≡ true)

  reported :
      (s : ParserState) (code : ErrorCode) (msg : Text)
      → s.vm ≡ m
      → has_error code ≡ true
      → IsChecked (set_parse_error pf.host s code msg, true)
  unfolding set_parse_error
  reported s code msg same e =
      (set_parse_error-IsParserState pf.host m supply s code msg same, λ _. e)

  pub argument_checked-IsChecked :
      (code : ErrorCode) (s : ParserState) (name : Text)
      → IsExplained code s.error_details
      → IsParserState m s
      → Returns (argument_checked code pf.host s name) (λ r. IsChecked r × (r.1 ≡ has_error code))
  unfolding argument_checked
  argument_checked-IsChecked no_error s name x v = ((s, false), refl, ((v, λ e. absurd cc), refl))
  argument_checked-IsChecked missing_arg_error s name x v =
      (_, refl, (reported s missing_arg_error _ v.same_vm refl, refl))
  argument_checked-IsChecked unknown_cmd_error s name x v =
      (_, refl, (reported s unknown_cmd_error _ v.same_vm refl, refl))
  argument_checked-IsChecked syntax_error s name (text, d) v = (
    _,
    rw d refl,
    (
      reported s syntax_error (snprintf 200 (argument_message syntax_error name text)) v.same_vm
          refl,
      refl,
    ),
  )
  argument_checked-IsChecked invalid_arg_error s name (text, d) v = (
    _,
    rw d refl,
    (
      reported s invalid_arg_error (snprintf 200 (argument_message invalid_arg_error name text))
          v.same_vm refl,
      refl,
    ),
  )
  argument_checked-IsChecked out_of_memory_error s name (text, d) v = (
    _,
    rw d refl,
    (
      reported s out_of_memory_error (snprintf 200 (argument_message out_of_memory_error name text))
          v.same_vm refl,
      refl,
    ),
  )

  module _ (rest : ℕ → ParserState → Answer) (bound : ℕ)
      (answers : (k : ℕ) (s : ParserState)
        → k < bound
        → IsParserState m s
        → Answers (rest k s)) where
    after_check-Answers :
        (k : ℕ) (checked : ParserState × Bool)
        → k < bound
        → IsChecked checked
        → Answers (after_check pf k rest checked)
    unfolding after_check
    after_check-Answers k (s, true) small (v, e) = make_parse_error_from_state-Answers s v (e refl)
    after_check-Answers k (s, false) small (v, e) = answers k s small v

    pub argument-Answers :
        (name : Text) (r : ParserState × ℕ) → IsRead m bound r → Answers (argument pf name r rest)
    unfolding argument
    argument-Answers name (s, k) (v, small) =
        >>=-Returns (argument_checked-IsChecked s.error_code s name v.explained v)
          λ checked (good, _). after_check-Answers k checked small good

    pub address_argument-Answers :
        (name : Text) (r : Run (ParserState × ℕ))
        → Returns r (IsRead m bound)
        → Answers (address_argument pf name r rest)
    address_argument-Answers name r read = >>=-Returns read (argument-Answers name)

  pub check_no_more_arguments-IsChecked :
      (s : ParserState) → IsParserState m s → IsChecked (check_no_more_arguments pf.host s)
  unfolding check_no_more_arguments
  check_no_more_arguments-IsChecked s v =
      let p = drop_while (λ c. c == b'\n') (drop_while is_blank s.p) in
      elim (Bool-cases (first_char p == 0)) [
        | inl e ↦ rw e (record { same_vm = v.same_vm; explained = v.explained }, λ e. absurd (cc))
        | inr e ↦ rw e (reported (record s { p = p }) syntax_error _ v.same_vm refl)
      ]

  pub no_more_arguments-Answers :
      (s : ParserState) (cmd : DebugCommand)
      → IsParserState m s
      → IsCommand cmd
      → Answers (no_more_arguments pf s (create_debug_command pf cmd))
  unfolding no_more_arguments
  no_more_arguments-Answers s cmd v ok =
      let (v', bad) = check_no_more_arguments-IsChecked s v in
      let (s', more) = check_no_more_arguments pf.host s in
      elim (Bool-cases more) [
        | inl e ↦ rw e (make_parse_error_from_state-Answers s' v' (bad e))
        | inr e ↦ (_, rw e refl, created cmd ok)
      ]
