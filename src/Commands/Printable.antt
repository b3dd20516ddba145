-- ===== src/Commands/Printable.antt =====
-- The commands of src/dbgcmd.c that are read back when they have been printed.
use unlambda.Base.Digits.{All, all, all→All}
use unlambda.Base.{
  ℕ, ◌^◌, ◌<◌, ◌≡◌, refl, true, false, none, some, List, [], ◌∷◌, get_elem?, ◌==◌, ltb, ◌∙◌, ap,
}
use unlambda.Base.Run.{done}
use unlambda.Base.Text.{Text, first_char, is_alnum}
use unlambda.Commands.{
  DebugCommand, disassemble, dump_bytes, write_bytes, dump_address_stack, modify_address_stack,
  push_address_stack, dump_call_stack, modify_call_stack, push_call_stack, add_breakpoint,
  remove_breakpoint, run_program, heap_dump, lookup_symbol, command_error, Platform,
}
use unlambda.Commands.Arguments.{CommandParser}
use unlambda.Commands.Number.{refused_from}
use unlambda.Commands.Parse.{is_filename_char, parse_debug_command, command_parsers}
use unlambda.Commands.Print.{command_text, with_numbers, command_names}
use unlambda.Commands.Reading.{numbers, with_numbers-numbers, reading, parse_debug_command-named}
use unlambda.Commands.Scan.{is_symbol_char, is_symbol_start}
use unlambda.Commands.State.{ends_word, find_command}
use unlambda.Commands.Valid.{Supplies}
use unlambda.Vm.Load.{Machine}

abbrev pub IsSmall : ℕ → Type 0
IsSmall n = n < refused_from

-- The commands that are read back: the numbers are below 18446744073709551610 (32-bit ones below
-- 2^32), a file name is not empty and has no blanks, and a symbol's name is one. Writing bytes has no
-- printed form, and errors are not commands.
abbrev pub IsPrintable : DebugCommand → Type 0
IsPrintable (disassemble a n) = IsSmall a × (n < 2 ^ 32)
IsPrintable (dump_bytes a n) = IsSmall a × (n < 2 ^ 32)
IsPrintable (dump_address_stack d n) = IsSmall d × IsSmall n
IsPrintable (modify_address_stack d a) = IsSmall d × IsSmall a
IsPrintable (push_address_stack a) = IsSmall a
IsPrintable (dump_call_stack d n) = IsSmall d × IsSmall n
IsPrintable (modify_call_stack d b r) = IsSmall d × IsSmall b × IsSmall r
IsPrintable (push_call_stack b r) = IsSmall b × IsSmall r
IsPrintable (add_breakpoint a) = IsSmall a
IsPrintable (remove_breakpoint a) = IsSmall a
IsPrintable (run_program a) = IsSmall a
IsPrintable (heap_dump (some name)) = All is_filename_char name × ((first_char name == 0) ≡ false)
IsPrintable (lookup_symbol (some name)) =
    All is_symbol_char name × (is_symbol_start (first_char name) ≡ true)
IsPrintable (lookup_symbol none) = ⊥
IsPrintable (write_bytes a n bytes) = ⊥
IsPrintable (command_error code details) = ⊥
IsPrintable _ = Unit

ends_word-numbers : (ns : List ℕ) → ends_word (first_char (numbers ns)) ≡ true
ends_word-numbers [] = refl
ends_word-numbers (n ∷ ns) = refl

-- What is printed is read back.
abbrev pub ReadsBack : Platform → Machine → DebugCommand → Type 0
ReadsBack pf m cmd = parse_debug_command pf m (command_text cmd) ≡ done (some cmd)

module _ (pf : Platform) (m : Machine) (supply : Supplies pf.host) where
  -- A name with numbers is read back, if the parser for it reads them.
  pub from_numbers :
      (c : ℕ) (cs : Text) (ns : List ℕ) (code : ℕ) (parser : CommandParser) (cmd : DebugCommand)
      → all is_alnum (c ∷ cs) ≡ true
      → find_command (c ∷ cs) 0 command_names ≡ some code
      → ltb 0 code ≡ true
      → get_elem? command_parsers code ≡ some parser
      → parser pf (reading pf m supply code (c ∷ cs) (numbers ns)) ≡ done (some cmd)
      → parse_debug_command pf m (with_numbers (c ∷ cs) ns) ≡ done (some cmd)
  from_numbers c cs ns code parser cmd chars found pos there run =
      ap (parse_debug_command pf m) (with_numbers-numbers (c ∷ cs) ns)
      ∙ parse_debug_command-named pf m supply c cs (numbers ns) code parser cmd
          (all→All is_alnum (c ∷ cs) chars) (ends_word-numbers ns) found pos there run
