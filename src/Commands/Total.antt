-- ===== src/Commands/Total.antt =====
-- `parseDebugCommand` of src/dbgcmd.c always returns.
use unlambda.Base.{
  ℕ, ◌+◌, ◌≤◌, ◌<◌, ◌≡◌, refl, ◌⊎◌, inl, inr, Bool, true, false, Option, none, some, List, [], ◌∷◌,
  length, drop, get_elem?, get_elem?-get_or, ◌==◌, arith, lt→ltb, Bool-cases, subst, sym,
  Option-cases,
}
use unlambda.Base.Run.{Returns, >>=-Returns}
use unlambda.Base.Text.{Text, codes, first_char, take_while, drop_while, is_alnum}
use unlambda.Commands.{syntax_error, unknown_cmd_error, DebugCommand, Platform}
use unlambda.Commands.Print.{command_names}
use unlambda.Commands.State.{
  CommandCode, no_command, bad_command, numbered, ParserState, init_parser_state, has_error,
  is_blank, ends_word, set_parse_error, unknown_command_message, find_command, look_up_command,
  parse_command_text,
}
use unlambda.Commands.Parse.{
  parse_heap_dump_cmd, command_parsers, parse_arguments, parse_with_code, parse_debug_command,
}
use unlambda.Commands.Outcome.{IsAnswer, Answers, make_parse_error_from_state-Answers}
use unlambda.Commands.Valid.{Supplies, IsContext, IsParserState, set_parse_error-IsParserState}
use unlambda.Commands.Complete.{command_parsers-AlwaysAnswers}
use unlambda.Symbols.{same_name}
use unlambda.Vm.Load.{Machine}

-- There is nothing behind the blanks.
abbrev pub is_blank_line : Text → Bool
is_blank_line text = first_char (drop_while is_blank text) == 0

-- What the parser returns: nothing for a blank line, and otherwise a command.
abbrev pub IsReply : Text → Option DebugCommand → Type 0
IsReply text o =
    ((is_blank_line text ≡ true) × (o ≡ none)) ⊎ ((is_blank_line text ≡ false) × IsAnswer o)

module _ (pf : Platform) (m : Machine) (supply : Supplies pf.host) (ctx : IsContext m) where
  find_command-bounds :
      (word : Text) (i : ℕ) (names : List Text) (k : ℕ)
      → find_command word i names ≡ some k
      → (i ≤ k) × (k < i + length names)
  unfolding find_command
  find_command-bounds word i [] k e = cc
  find_command-bounds word i (name ∷ names) k e = elim (Bool-cases (same_name word name)) [
    | inl same ↦ ground (arith, rw same at e)
    | inr other ↦
        let (low, high) = find_command-bounds word (i + 1) names k (rw other at e) in
        (omega arith, omega arith)
  ]

  find_command-position :
      (word : Text) (k : ℕ)
      → (length word == 0) ≡ false
      → find_command word 0 command_names ≡ some k
      → (0 < k) × (k < 23)
  unfolding find_command same_name
  find_command-position [] k some_word e = absurd (ground arith)
  find_command-position (c ∷ cs) k some_word e =
      let (low, high) = find_command-bounds (c ∷ cs) 1 (drop 1 command_names) k e in
      (omega arith, omega arith)

  abbrev IsFailed : ParserState → Type 0
  IsFailed s = IsParserState m s × (has_error s.error_code ≡ true)

  -- What is known about the name of a command, by the code that is returned and whether the line is
  -- blank.
  abbrev IsNamed : Bool → ParserState × CommandCode → Type 0
  IsNamed blank (s, no_command) = blank ≡ true
  IsNamed blank (s, bad_command) = IsFailed s × (blank ≡ false)
  IsNamed blank (s, numbered k) = IsParserState m s × (0 < k) × (k < 23) × (blank ≡ false)

  look_up_command-IsNamed :
      (s : ParserState) (word : Text)
      → (length word == 0) ≡ false
      → IsParserState m s
      → IsNamed false (look_up_command pf.host s word)
  unfolding look_up_command set_parse_error
  look_up_command-IsNamed s word some_word v =
      elim (Option-cases (find_command word 0 command_names)) [
        | inl e ↦
            let s' = set_parse_error pf.host s unknown_cmd_error (unknown_command_message word) in
            let failed =
              set_parse_error-IsParserState pf.host m supply s unknown_cmd_error
                (unknown_command_message word) v.same_vm in
            named (record s' { cmd_code = bad_command }, bad_command) (rw (look_up_command, e) refl)
              ((record { same_vm = failed.same_vm; explained = failed.explained }, refl), refl)
        | inr (k, e) ↦
            let s' = record s { cmd_code = numbered k } in
            elim (Bool-cases (ends_word (first_char s.p))) [
              | inl end ↦
                  named (s', numbered k) (rw (look_up_command, e, end) refl)
                    (let (low, high) = find_command-position word k some_word e in
                      (record { same_vm = v.same_vm; explained = v.explained }, low, high, refl))
              | inr f ↦
                  named
                    (set_parse_error pf.host s' syntax_error (codes "Syntax error"), bad_command)
                    (rw (look_up_command, e, f) refl)
                    (
                      (
                        set_parse_error-IsParserState pf.host m supply s' syntax_error _ v.same_vm,
                        refl,
                      ),
                      refl,
                    )
            ]
      ]
    where
      named :
          (r : ParserState × CommandCode)
          → look_up_command pf.host s word ≡ r
          → IsNamed false r
          → IsNamed false (look_up_command pf.host s word)
      named r e h = subst (λ (q : ParserState × CommandCode). IsNamed false q) (sym e) h

  parse_command_text-IsNamed :
      (text : Text)
      → Returns
          (parse_command_text pf.host (init_parser_state m text))
          (IsNamed (is_blank_line text))
  unfolding parse_command_text set_parse_error
  parse_command_text-IsNamed text =
      let p = drop_while is_blank text in
      let s = init_parser_state m (drop_while is_alnum p) in
      let word = take_while is_alnum p in
      let v : IsParserState m s = record { same_vm = refl; explained = tt } in
      elim (Bool-cases (is_blank_line text)) [
        | inl e ↦ ((init_parser_state m p, no_command), rw e refl, e)
        | inr e ↦ elim (Bool-cases (length word == 0)) [
          | inl f ↦ (
            (set_parse_error pf.host s syntax_error (codes "Syntax error"), bad_command),
            rw (e, f) refl,
            ((set_parse_error-IsParserState pf.host m supply s syntax_error _ refl, refl), e),
          )
          | inr f ↦
              let s' = record s { cmd_text = some word } in
              let v' : IsParserState m s' = record { same_vm = refl; explained = tt } in
              let named = look_up_command-IsNamed s' word f v' in
              (
                look_up_command pf.host s' word,
                rw (e, f, (supply (length word + 1)).1) refl,
                rw e named,
              )
        ]
      ]

  parse_arguments-Answers :
      (s : ParserState) (k : ℕ)
      → IsParserState m s
      → 0 < k
      → k < 23
      → Answers (parse_arguments pf s k)
  unfolding parse_arguments
  parse_arguments-Answers s k v pos small = elim (Option-cases (get_elem? command_parsers k)) [
    | inl e ↦
        let there = get_elem?-get_or command_parsers k parse_heap_dump_cmd (omega arith) in
        absurd (cc (e, there))
    | inr (parser, e) ↦ rw e (
        >>=-Returns (command_parsers-AlwaysAnswers pf m supply ctx k parser pos e s v)
          λ o (cmd, made, ok). (o, rw made refl, (cmd, made, ok)))
  ]

  parse_with_code-IsReply :
      (text : Text) (r : ParserState × CommandCode)
      → IsNamed (is_blank_line text) r
      → Returns (parse_with_code pf r) (IsReply text)
  unfolding parse_with_code
  parse_with_code-IsReply text (s, no_command) e = (none, refl, inl (e, refl))
  parse_with_code-IsReply text (s, bad_command) ((v, failed), e) =
      let (o, run, answer) = make_parse_error_from_state-Answers pf m supply s v failed in
      (o, run, inr (e, answer))
  parse_with_code-IsReply text (s, numbered k) (v, pos, small, e) =
      let (o, run, answer) = parse_arguments-Answers s k v pos small in
      (o, rw (lt→ltb 0 k pos) run, inr (e, answer))

  -- Where the allocator refuses nothing, and the program counter and the addresses of the symbols are
  -- machine words, the parser returns for every text, without a failed assertion or the use of NULL:
  -- nothing for a blank line, and otherwise a command, an error included, whose arguments are in the
  -- range of their types, with 1 to 65536 bytes to write.
  pub parse_debug_command-IsReply :
      (text : Text) → Returns (parse_debug_command pf m text) (IsReply text)
  unfolding parse_debug_command
  parse_debug_command-IsReply text =
      >>=-Returns (parse_command_text-IsNamed text) (parse_with_code-IsReply text)
