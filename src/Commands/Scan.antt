-- ===== src/Commands/Scan.antt =====
-- The functions of src/dbgcmd.c that read one argument, and what is done about errors.
use unlambda.Base.{
  ℕ, ◌+◌, ◌-◌, ◌^◌, ◌/◌, ◌%◌, Bool, true, false, ◌&&◌, ◌||◌, Option, none, some, [], ◌∷◌, ◌++◌,
  drop, length, ltb, ◌==◌, if◌then◌else◌, add64, sub64, mul64,
}
use unlambda.Base.Host.{Host}
use unlambda.Base.Run.{Run, done, null_dereference, assertion_failed, ◌>>=◌, ◌>>◌, assert}
use unlambda.Base.Text.{
  Text, codes, is_digit, is_alpha, is_alnum, first_char, take_while, drop_while, snprintf,
}
use unlambda.Commands.{
  ErrorCode, no_error, syntax_error, invalid_arg_error, missing_arg_error, unknown_cmd_error,
  out_of_memory_error, DebugCommand, Platform, create_command_parse_error,
}
use unlambda.Symbols.{find_symbol}
use unlambda.Commands.State.{ParserState, ends_word, skip_blanks, set_parse_error, has_error}

-- The test for overflow compares the character, not the digit that it stands for.
abbrev pub is_too_large : ℕ → ℕ → Bool
is_too_large result c =
    ltb ((2 ^ 64 - 1) / 10) result || ((result == (2 ^ 64 - 1) / 10) && ltb ((2 ^ 64 - 1) % 10) c)

-- The loop over the digits: the number, unless it is too large, and where the loop ends.
unfoldable pub scan_digits : ℕ → Text → Option ℕ × Text
scan_digits result [] = (some result, [])
scan_digits result (c ∷ cs) =
    let more = scan_digits (add64 (mul64 result 10) (c - b'0')) cs in
    if is_digit c
    then (if is_too_large result c then (none, c ∷ cs) else more)
    else (some result, c ∷ cs)

-- How the number's text must end.
unfoldable pub check_number : Host → ParserState → Option ℕ → ParserState × ℕ
check_number host s none =
    (set_parse_error host s invalid_arg_error (codes "Value is too large"), 0)
check_number host s (some result) =
    if ends_word (first_char s.p)
    then (s, result)
    else (set_parse_error host s invalid_arg_error (codes "Value is not a number"), 0)

unfoldable pub parse_next_uint64 : Host → ParserState → ParserState × ℕ
parse_next_uint64 host state =
    let s = skip_blanks state in
    let (result, rest) = scan_digits 0 s.p in
    if first_char s.p == 0
    then (set_parse_error host s missing_arg_error (codes "Argument missing"), 0)
    else check_number host (record s { p = rest }) result

unfoldable pub parse_next_uint64_with_default : Host → ParserState → ℕ → ParserState × ℕ
parse_next_uint64_with_default host state value =
    let s = skip_blanks state in
    if first_char s.p == 0 then (s, value) else parse_next_uint64 host s

-- A number with a limit: what `parseNextByte` and the two functions on uint32_t do with it.
unfoldable pub check_limit : Host → ℕ → ParserState × ℕ → ParserState × ℕ
check_limit host limit (s, result) =
    if ltb limit result
    then (set_parse_error host s invalid_arg_error (codes "Value is too large"), 0)
    else (s, result)

abbrev pub parse_next_byte : Host → ParserState → ParserState × ℕ
parse_next_byte host s = check_limit host 255 (parse_next_uint64 host s)

abbrev pub parse_next_uint32 : Host → ParserState → ParserState × ℕ
parse_next_uint32 host s = check_limit host 0xFFFFFFFF (parse_next_uint64 host s)

abbrev pub parse_next_uint32_with_default : Host → ParserState → ℕ → ParserState × ℕ
parse_next_uint32_with_default host s value =
    check_limit host 0xFFFFFFFF (parse_next_uint64_with_default host s value)

-- `%s` of the details
abbrev pub print_details : ParserState → Run Text
print_details s = elim s.error_details [ none ↦ null_dereference | some text ↦ done text ]

abbrev pub invalid_displacement : Host → ParserState → Run (ParserState × ℕ)
invalid_displacement host s = do
  details ← print_details s
  let message = snprintf 200 (codes "Invalid displacement (" ++ details ++ codes ")")
  done (set_parse_error host s invalid_arg_error message, 0)

-- What follows the reading of a displacement, by the error code.
unfoldable pub displaced : ErrorCode → Host → ParserState → ℕ → Run (ParserState × ℕ)
displaced missing_arg_error host s address =
    done (set_parse_error host s invalid_arg_error (codes "Missing displacement value"), 0)
displaced no_error host s address = done (s, address)
displaced _ host s address = invalid_displacement host s

abbrev pub displace : Host → (ℕ → ℕ) → ParserState × ℕ → Run (ParserState × ℕ)
displace host add (s, displacement) = displaced s.error_code host s (add displacement)

-- What may follow a symbol: a displacement, or the end of the argument.
unfoldable pub parse_displacement : Host → ParserState → ℕ → Run (ParserState × ℕ)
parse_displacement host s address =
    let c = first_char s.p in
    let s' = record s { p = drop 1 s.p } in
    if c == b'+'
    then displace host (add64 address) (parse_next_uint64 host s')
    else if c == b'-'
    then displace host (sub64 address) (parse_next_uint64 host s')
    else if ends_word c
    then done (s, address)
    else done (set_parse_error host s syntax_error (codes "Syntax error"), 0)

abbrev pub is_symbol_start : ℕ → Bool
is_symbol_start c = is_alpha c || (c == b'_')

abbrev pub is_symbol_char : ℕ → Bool
is_symbol_char c = is_alnum c || (c == b'_')

-- A symbol with what may follow it. The result of `malloc` is not tested.
unfoldable pub parse_symbol : Host → ParserState → Run (ParserState × ℕ)
parse_symbol host state =
    let name = take_while is_symbol_char state.p in
    let s = record state { p = drop_while is_symbol_char state.p } in
    assert (ltb 0 (length name)) >> elim (host.malloc (length name + 1)) [
      | none ↦ null_dereference
      | some _ ↦ elim (find_symbol s.vm.symbols name) [
        | none ↦
            let message = snprintf 200 (codes "Unknown symbol \"" ++ name ++ codes "\"") in
            done (set_parse_error host s invalid_arg_error message, 0)
        | some symbol ↦ parse_displacement host s symbol.address
      ]
    ]

unfoldable pub parse_next_address : Host → ParserState → Run (ParserState × ℕ)
parse_next_address host state =
    let s = skip_blanks state in
    let c = first_char s.p in
    if c == 0
    then done (set_parse_error host s missing_arg_error (codes "Argument missing"), 0)
    else if is_digit c
    then done (parse_next_uint64 host s)
    else if is_symbol_start c
    then parse_symbol host s
    else done (set_parse_error host s syntax_error (codes "Syntax error"), 0)

unfoldable pub parse_next_address_with_default : Host → ParserState → ℕ → Run (ParserState × ℕ)
parse_next_address_with_default host state value =
    let s = skip_blanks state in
    if first_char s.p == 0 then done (s, value) else parse_next_address host s

-- Whether there are more arguments: blanks, then newlines, are passed over.
unfoldable pub check_no_more_arguments : Host → ParserState → ParserState × Bool
check_no_more_arguments host state =
    let s = skip_blanks state in
    let s' = record s { p = drop_while (λ c. c == b'\n') s.p } in
    if first_char s'.p == 0
    then (s', false)
    else (set_parse_error host s' syntax_error (codes "Too many arguments"), true)

unfoldable pub make_parse_error_from_state : Platform → ParserState → Run (Option DebugCommand)
make_parse_error_from_state pf s = assert (has_error s.error_code) >> elim s.error_details [
  | none ↦ assertion_failed
  | some details ↦ done (create_command_parse_error pf s.error_code details)
]

-- The message about an argument.
unfoldable pub argument_message : ErrorCode → Text → Text → Text
argument_message missing_arg_error name details =
    codes "Required argument \"" ++ name ++ codes "\" is missing"
argument_message unknown_cmd_error name details =
    codes "Received an \"Unknown command\" errorparsing the \""
    ++ name
    ++ codes "\", argument.  How did this happen???"
argument_message out_of_memory_error name details =
    codes "Ran out of memory parsing \"" ++ name ++ codes "\" (" ++ details ++ codes ")"
argument_message _ name details = codes "Invalid " ++ name ++ codes " (" ++ details ++ codes ")"

-- The code is kept: the one that is stored over it is overwritten by the one from before.
abbrev pub report_argument : Host → ParserState → ErrorCode → Text → Text → Run (ParserState × Bool)
report_argument host s code name details =
    done (set_parse_error host s code (snprintf 200 (argument_message code name details)), true)

-- Whether reading an argument failed, by the error code.
unfoldable pub argument_checked : ErrorCode → Host → ParserState → Text → Run (ParserState × Bool)
argument_checked no_error host s name = done (s, false)
argument_checked missing_arg_error host s name = report_argument host s missing_arg_error name []
argument_checked unknown_cmd_error host s name = report_argument host s unknown_cmd_error name []
argument_checked code host s name = print_details s >>= report_argument host s code name

abbrev pub check_argument_parsed : Host → ParserState → Text → Run (ParserState × Bool)
check_argument_parsed host s name = argument_checked s.error_code host s name
