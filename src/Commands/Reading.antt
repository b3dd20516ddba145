-- ===== src/Commands/Reading.antt =====
-- How a number or a name that is printed is read as an argument of a command of src/dbgcmd.c.
use unlambda.Base.Digits.{All, drop_while-append, take_while-append, is_digit-decimal}
use unlambda.Base.{
  ℕ, ◌+◌, ◌^◌, ◌<◌, ◌≡◌, refl, true, false, some, List, [], ◌∷◌, ◌++◌, append_assoc, append-nil,
  length, get_elem?, ltb, ◌==◌, arith, ◌∙◌, sym, ap,
}
use unlambda.Base.Run.{done}
use unlambda.Base.Text.{Text, is_alnum, first_char, decimal, drop_while}
use unlambda.Commands.{DebugCommand, Platform, create_debug_command}
use unlambda.Commands.Arguments.{
  Answer, CommandParser, argument, address_argument, no_more_arguments, after_check,
}
use unlambda.Commands.Decimal.{parse_next_uint64-decimal}
use unlambda.Commands.Number.{refused_from}
use unlambda.Commands.Outcome.{create_debug_command-some}
use unlambda.Commands.Parse.{command_parsers, parse_arguments, parse_with_code, parse_debug_command}
use unlambda.Commands.Print.{command_names, with_numbers}
use unlambda.Commands.Scan.{
  parse_next_uint64, parse_next_uint64_with_default, parse_next_address,
  parse_next_address_with_default, parse_next_uint32_with_default, check_limit, argument_checked,
  check_no_more_arguments,
}
use unlambda.Commands.State.{
  ParserState, numbered, is_blank, ends_word, init_parser_state, find_command, look_up_command,
  parse_command_text,
}
use unlambda.Commands.Valid.{Supplies}
use unlambda.Vm.Load.{Machine}

-- The numbers of a command as they are printed.
abbrev pub numbers : List ℕ → Text
numbers [] = []
numbers (n ∷ ns) = b' ' ∷ (decimal n ++ numbers ns)

pub with_numbers-numbers : (name : Text) (ns : List ℕ) → with_numbers name ns ≡ name ++ numbers ns
with_numbers-numbers name [] = sym (append-nil name)
with_numbers-numbers name (n ∷ ns) =
    with_numbers-numbers (name ++ b' ' ∷ decimal n) ns
    ∙ append_assoc name (b' ' ∷ decimal n) (numbers ns)

module _ (pf : Platform) (m : Machine) (supply : Supplies pf.host) where
  -- The state in which the arguments of a command are read.
  abbrev pub reading : ℕ → Text → Text → ParserState
  reading code name p = record (init_parser_state m p) {
    cmd_code = numbered code;
    cmd_text = some name;
  }

  module _ (code : ℕ) (name : Text) where
    abbrev here : Text → ParserState
    here = reading code name

    module _ (n : ℕ) (rest : Text) (small : n < refused_from)
        (end : ends_word (first_char rest) ≡ true) where
      abbrev written : Text
      written = decimal n ++ rest

      number_read :
          (blanks : Text)
          → All is_blank blanks
          → parse_next_uint64 pf.host (here (blanks ++ written)) ≡ (here rest, n)
      number_read blanks blank =
          parse_next_uint64-decimal pf.host (here (blanks ++ written)) blanks n rest refl blank
            small end

      no_blank : is_blank (first_char written) ≡ false
      no_blank = let digit = is_digit-decimal n rest (omega arith) in ground arith

      some_char : (first_char written == 0) ≡ false
      some_char = let digit = is_digit-decimal n rest (omega arith) in ground arith

      skipped : drop_while is_blank (b' ' ∷ written) ≡ written
      skipped = drop_while-append is_blank (b' ' ∷ []) written (refl, tt) no_blank

      not_skipped : drop_while is_blank written ≡ written
      not_skipped = drop_while-append is_blank [] written tt no_blank

      default_read :
          (k : ℕ)
          → parse_next_uint64_with_default pf.host (here (b' ' ∷ written)) k ≡ (here rest, n)
      unfolding parse_next_uint64_with_default
      default_read k = rw (skipped, some_char) (number_read [] tt)

      address_read : parse_next_address pf.host (here (b' ' ∷ written)) ≡ done (here rest, n)
      unfolding parse_next_address
      address_read =
          rw (skipped, some_char, is_digit-decimal n rest (omega arith))
            (ap done (number_read [] tt))

      address_default_read :
          (k : ℕ)
          → parse_next_address_with_default pf.host (here (b' ' ∷ written)) k ≡ done (here rest, n)
      unfolding parse_next_address_with_default parse_next_address
      address_default_read k =
          rw (skipped, some_char, not_skipped, some_char, is_digit-decimal n rest (omega arith))
            (ap done (number_read [] tt))

      module _ (label : Text) (next : ℕ → ParserState → Answer) where
        unfolding_argument :
            {r : ParserState × ℕ}
            → r ≡ (here rest, n)
            → argument pf label r next ≡ next n (here rest)
        unfolding argument argument_checked after_check
        unfolding_argument e = rw e refl

        pub number_argument :
            argument pf label (parse_next_uint64 pf.host (here (b' ' ∷ written))) next
            ≡ next n (here rest)
        number_argument = unfolding_argument (number_read (b' ' ∷ []) (refl, tt))

        pub default_argument :
            (k : ℕ)
            → argument pf label
                (parse_next_uint64_with_default pf.host (here (b' ' ∷ written)) k)
                next
              ≡ next n (here rest)
        default_argument k = unfolding_argument (default_read k)

        pub short_argument :
            (k : ℕ)
            → n < 2 ^ 32
            → argument pf label
                (parse_next_uint32_with_default pf.host (here (b' ' ∷ written)) k)
                next
              ≡ next n (here rest)
        unfolding check_limit
        short_argument k short =
            let fits : ltb 0xFFFFFFFF n ≡ false = ground arith in
            unfolding_argument (rw (default_read k, fits) refl)

        pub location_argument :
            address_argument pf label (parse_next_address pf.host (here (b' ' ∷ written))) next
            ≡ next n (here rest)
        location_argument = rw address_read (unfolding_argument refl)

        pub location_default_argument :
            (k : ℕ)
            → address_argument pf label
                (parse_next_address_with_default pf.host (here (b' ' ∷ written)) k)
                next
              ≡ next n (here rest)
        location_default_argument k = rw (address_default_read k) (unfolding_argument refl)

    pub no_more_arguments-some :
        (cmd : DebugCommand)
        → no_more_arguments pf (here []) (create_debug_command pf cmd) ≡ done (some cmd)
    unfolding no_more_arguments check_no_more_arguments drop_while
    no_more_arguments-some cmd = ap done (create_debug_command-some pf m supply cmd)

  is_alnum-ends_word : (c : ℕ) → ends_word c ≡ true → is_alnum c ≡ false
  is_alnum-ends_word c e = ground arith

  -- The name is found in the list, and the text behind it is left.
  parse_command_text-numbered :
      (c : ℕ) (cs tail : Text) (code : ℕ)
      → All is_alnum (c ∷ cs)
      → ends_word (first_char tail) ≡ true
      → find_command (c ∷ cs) 0 command_names ≡ some code
      → parse_command_text pf.host (init_parser_state m ((c ∷ cs) ++ tail))
        ≡ done (reading code (c ∷ cs) tail, numbered code)
  unfolding parse_command_text look_up_command
  parse_command_text-numbered c cs tail code chars end found =
      let name = c ∷ cs in
      let letter = chars.0 in
      let some_char : (c == 0) ≡ false = ground arith in
      let no_blank : is_blank c ≡ false = ground arith in
      let longer : (length name == 0) ≡ false = ground arith in
      let skip = drop_while-append is_blank [] (name ++ tail) tt no_blank in
      let stop = is_alnum-ends_word (first_char tail) end in
      let word = take_while-append is_alnum name tail chars stop in
      let rest = drop_while-append is_alnum name tail chars stop in
      let known : look_up_command pf.host
            (record (init_parser_state m tail) { cmd_text = some name }) name
          ≡ (reading code name tail, numbered code) =
        rw (look_up_command, found, end) refl in
      rw (skip, some_char, word, longer, (supply (length name + 1)).1, skip, rest, word, known) refl

  -- The parser for the name is given the rest.
  pub parse_debug_command-named :
      (c : ℕ) (cs tail : Text) (code : ℕ) (parser : CommandParser) (cmd : DebugCommand)
      → All is_alnum (c ∷ cs)
      → ends_word (first_char tail) ≡ true
      → find_command (c ∷ cs) 0 command_names ≡ some code
      → ltb 0 code ≡ true
      → get_elem? command_parsers code ≡ some parser
      → parser pf (reading code (c ∷ cs) tail) ≡ done (some cmd)
      → parse_debug_command pf m ((c ∷ cs) ++ tail) ≡ done (some cmd)
  unfolding parse_debug_command parse_with_code parse_arguments
  parse_debug_command-named c cs tail code parser cmd chars end found pos there run =
      rw (parse_command_text-numbered c cs tail code chars end found, pos, there, run) refl
