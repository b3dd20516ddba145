-- ===== src/Commands/State.antt =====
-- The parser state of src/dbgcmd.c, and the recognition of the command's name.
use unlambda.Base.{
  ℕ, ◌+◌, Bool, true, false, ◌||◌, Option, none, some, List, [], ◌∷◌, ◌++◌, length, ◌==◌,
  if◌then◌else◌,
}
use unlambda.Base.Host.{Host}
use unlambda.Base.Run.{Run, done, ◌>>◌, assert}
use unlambda.Base.Text.{Text, codes, is_alnum, first_char, take_while, drop_while, snprintf, strdup}
use unlambda.Commands.{ErrorCode, no_error, syntax_error, unknown_cmd_error, out_of_memory_error}
use unlambda.Commands.Print.{command_names}
use unlambda.Symbols.{same_name}
use unlambda.Vm.Load.{Machine}

-- `cmdCode`: 0, -1, or a command's code.
pub data CommandCode : Type 0 where
  no_command bad_command : CommandCode
  numbered : ℕ → CommandCode

-- `p` is the text from the pointer on; the start of the text is not used after initialisation.
pub record ParserState : Type 0 where
  pub vm : Machine
  pub p : Text
  pub cmd_code : CommandCode
  pub cmd_text : Option Text
  pub error_code : ErrorCode
  pub error_details : Option Text

abbrev pub init_parser_state : Machine → Text → ParserState
init_parser_state vm text = record {
  vm = vm;
  p = text;
  cmd_code = no_command;
  cmd_text = none;
  error_code = no_error;
  error_details = none;
}

abbrev pub is_blank : ℕ → Bool
is_blank c = (c == b' ') || (c == b'\t')

-- The end of the text, a blank or a newline.
abbrev pub ends_word : ℕ → Bool
ends_word c = (c == 0) || (is_blank c || (c == b'\n'))

-- The function returns the character that it stops at, which is the first one of `p`.
abbrev pub skip_blanks : ParserState → ParserState
skip_blanks s = record s { p = drop_while is_blank s.p }

unfoldable pub set_parse_error : Host → ParserState → ErrorCode → Text → ParserState
set_parse_error host s code msg = record s { error_code = code; error_details = strdup host msg }

abbrev pub clear_parse_error : ParserState → ParserState
clear_parse_error s = record s { error_code = no_error; error_details = none }

abbrev pub has_error : ErrorCode → Bool
has_error no_error = false
has_error _ = true

-- The linear search, from a position in the list of names on.
unfoldable pub find_command : Text → ℕ → List Text → Option ℕ
find_command word i [] = none
find_command word i (name ∷ names) =
    let later = find_command word (i + 1) names in if same_name word name then some i else later

abbrev pub unknown_command_message : Text → Text
unknown_command_message word =
    snprintf 200
      (codes "Unknown command \"" ++ word ++ codes "\".  Use h to print a list of commands")

-- The search for the word that has been copied to `cmdText`.
unfoldable pub look_up_command : Host → ParserState → Text → ParserState × CommandCode
look_up_command host s word = elim (find_command word 0 command_names) [
  | none ↦
      let s' = set_parse_error host s unknown_cmd_error (unknown_command_message word) in
      (record s' { cmd_code = bad_command }, bad_command)
  | some i ↦
      let s' = record s { cmd_code = numbered i } in
      if ends_word (first_char s.p)
      then (s', numbered i)
      else (set_parse_error host s' syntax_error (codes "Syntax error"), bad_command)
]

abbrev pub is_unset : CommandCode → Bool
is_unset no_command = true
is_unset _ = false

abbrev pub is_null {ℓ} : {A : Type ℓ} → Option A → Bool
is_null none = true
is_null (some _) = false

unfoldable pub parse_command_text : Host → ParserState → Run (ParserState × CommandCode)
parse_command_text host state =
    assert (is_unset state.cmd_code)
    >> (assert (is_null state.cmd_text)
        >> (let s = skip_blanks state in
            let word = take_while is_alnum s.p in
            let s' = record s { p = drop_while is_alnum s.p } in
            if first_char s.p == 0
            then done (s, no_command)
            else if length word == 0
            then done (set_parse_error host s' syntax_error (codes "Syntax error"), bad_command)
            else elim (host.malloc (length word + 1)) [
              | none ↦ done (
                set_parse_error host s' out_of_memory_error
                    (codes "Could not allocate memory for command text"),
                bad_command,
              )
              | some _ ↦ done (look_up_command host (record s' { cmd_text = some word }) word)
            ]))
