-- ===== src/Commands/Complete.antt =====
-- Every parser that `parseDebugCommand` of src/dbgcmd.c selects from always answers.
use unlambda.Base.{
  ℕ, zero, suc, ◌+◌, ◌-◌, ◌≤◌, ◌<◌, ◌≡◌, refl, inl, inr, Bool, true, false, not, Option, none, some,
  List, [], ◌∷◌, length, take, drop, get_elem?, ltb, ◌==◌, arith, Bool-cases, subst, sym, ap, ◌∙◌,
}
use unlambda.Base.Host.{Host}
use unlambda.Base.Run.{done}
use unlambda.Base.Text.{take_while_pos, split_first, Text, first_char, take_while, drop_while}
use unlambda.Commands.{
  ErrorCode, invalid_arg_error, missing_arg_error, heap_dump, lookup_symbol, Platform,
  create_heap_dump_command,
}
use unlambda.Commands.State.{ParserState, has_error, is_blank, ends_word, set_parse_error}
use unlambda.Commands.Scan.{is_symbol_start, is_symbol_char, check_no_more_arguments}
use unlambda.Commands.Arguments.{CommandParser}
use unlambda.Commands.Parse.{
  is_filename_char, parse_heap_dump_cmd, parse_lookup_symbol_cmd, command_parsers,
}
use unlambda.Commands.Outcome.{
  created, create_debug_command-some, check_no_more_arguments-IsChecked,
  make_parse_error_from_state-Answers, refusal-Answers,
}
use unlambda.Commands.Always.{AlwaysAnswers}
use unlambda.Commands.Always
use unlambda.Commands.Writing.{parse_write_bytes_cmd-AlwaysAnswers}
use unlambda.Commands.Valid.{Supplies, IsContext, IsParserState, strdup_total}
use unlambda.Vm.Load.{Machine}

drop_while-stop :
    (f : ℕ → Bool) (p : Text) {c : ℕ} {cs : Text} → drop_while f p ≡ c ∷ cs → f c ≡ false
unfolding drop_while
drop_while-stop f [] e = cc
drop_while-stop f (d ∷ ds) e = elim (Bool-cases (f d)) [
  | inl pass ↦ drop_while-stop f ds (rw pass at e)
  | inr stop ↦ ground (arith, stop, rw stop at e)
]

length-drop_while : (f : ℕ → Bool) (p : Text) → length (drop_while f p) ≤ length p
unfolding drop_while
length-drop_while f [] = omega arith
length-drop_while f (c ∷ cs) = ground (arith, length-drop_while f cs)

length-drop_while_lt :
    (f : ℕ → Bool) (c : ℕ) (cs : Text)
    → f c ≡ true
    → length (drop_while f (c ∷ cs)) < length (c ∷ cs)
unfolding drop_while
length-drop_while_lt f c cs h = rw h (omega (arith, length-drop_while f cs))

length-check_no_more_arguments :
    (host : Host) (s : ParserState) → length (check_no_more_arguments host s).0.p ≤ length s.p
unfolding check_no_more_arguments set_parse_error
length-check_no_more_arguments host s =
    let p = drop_while is_blank s.p in
    ground (arith, length-drop_while (λ c. c == b'\n') p, length-drop_while is_blank s.p)

-- Each parser of a list answers.
infixr 4 ◌also◌
data AllAnswer (pf : Platform) (m : Machine) : List CommandParser → Type 0 where
  nil : AllAnswer pf m []
  ◌also◌ :
      {parser : CommandParser} {parsers : List CommandParser}
      → AlwaysAnswers pf m parser
      → AllAnswer pf m parsers
      → AllAnswer pf m (parser ∷ parsers)

abbrev AnswersIf : Platform → Machine → Option CommandParser → Type 0
AnswersIf pf m none = Unit
AnswersIf pf m (some parser) = AlwaysAnswers pf m parser

module _ (pf : Platform) (m : Machine) (supply : Supplies pf.host) (ctx : IsContext m) where
  moved : (s : ParserState) (p : Text) → IsParserState m s → IsParserState m (record s { p = p })
  moved s p v = record { same_vm = v.same_vm; explained = v.explained }

  parse_heap_dump_cmd-AlwaysAnswers : AlwaysAnswers pf m parse_heap_dump_cmd
  unfolding parse_heap_dump_cmd create_heap_dump_command
  parse_heap_dump_cmd-AlwaysAnswers s v =
      let p = drop_while is_blank s.p in
      let s' = record s { p = drop_while is_filename_char p } in
      let name = take_while is_filename_char p in
      let (v₁, bad) =
        check_no_more_arguments-IsChecked pf m supply s'
          (moved s (drop_while is_filename_char p) v) in
      let (s₁, more) = check_no_more_arguments pf.host s' in
      elim (Bool-cases (first_char p == 0)) [
        | inl e ↦ (_, rw e refl, created pf m supply (heap_dump none) tt)
        | inr e ↦ elim (Bool-cases more) [
          | inl over ↦
              rw (e, over) (make_parse_error_from_state-Answers pf m supply s₁ v₁ (bad over))
          | inr end ↦
              let (c, cs, shape) = split_first p e in
              let no_blank : is_filename_char c ≡ true =
                ap not (drop_while-stop is_blank s.p shape) in
              let some_name : ltb 0 (length name) ≡ true =
                rw shape (take_while_pos is_filename_char c cs no_blank) in
              (
                some (heap_dump (some name)),
                rw
                    (
                      e,
                      end,
                      some_name,
                      (supply (length name + 1)).1,
                      create_heap_dump_command,
                      strdup_total pf.host m supply name,
                    )
                    (ap done (create_debug_command-some pf m supply (heap_dump (some name)))),
                (heap_dump (some name), refl, ground (arith, some_name)),
              )
        ]
      ]

  take_some : (n c : ℕ) (cs : Text) → 0 < n → (ds : Text) × (take n (c ∷ cs) ≡ c ∷ ds)
  take_some zero c cs h = absurd (omega arith)
  take_some (suc n) c cs h = (take n cs, refl)

  parse_lookup_symbol_cmd-AlwaysAnswers : AlwaysAnswers pf m parse_lookup_symbol_cmd
  unfolding parse_lookup_symbol_cmd
  parse_lookup_symbol_cmd-AlwaysAnswers s v =
      let p = drop_while is_blank s.p in
      let c = first_char p in
      let s₁ = record s { p = drop_while is_symbol_char p } in
      let (v₂, bad) =
        check_no_more_arguments-IsChecked pf m supply s₁
          (moved s (drop_while is_symbol_char p) v) in
      let (s₂, more) = check_no_more_arguments pf.host s₁ in
      let refuse = λ (t : Text) (code : ErrorCode) (e : has_error code ≡ true) (msg : Text).
        refusal-Answers pf m supply (record s { p = t }) code msg v.same_vm e in
      elim (Bool-cases (c == 0)) [
        | inl e ↦ rw e (refuse p missing_arg_error refl _)
        | inr e ↦ elim (Bool-cases (is_symbol_start c)) [
          | inr f ↦ rw (e, f) (refuse p invalid_arg_error refl _)
          | inl f ↦
              let (d, ds, shape) = split_first p e in
              let start : is_symbol_start d ≡ true =
                ap is_symbol_start (sym (ap first_char shape)) ∙ f in
              let symbol : is_symbol_char d ≡ true = ground (arith, start) in
              let rest : length s₁.p < length p =
                rw shape (length-drop_while_lt is_symbol_char d ds symbol) in
              let shorter = length-check_no_more_arguments pf.host s₁ in
              let moved_on : ltb (length s₁.p) (length p) ≡ true = ground (arith, rest) in
              let (es, begun) = take_some (length p - length s₂.p) d ds (omega arith) in
              elim (Bool-cases (ends_word (first_char s₁.p))) [
                | inr g ↦ rw (e, f, moved_on, g) (refuse s₁.p invalid_arg_error refl _)
                | inl g ↦ elim (Bool-cases more) [
                  | inl over ↦
                      rw (e, f, moved_on, g, over)
                        (make_parse_error_from_state-Answers pf m supply s₂ v₂ (bad over))
                  | inr end ↦
                      let name = take (length p - length s₂.p) p in
                      let named : name ≡ d ∷ es =
                        ap (take (length p - length s₂.p)) shape ∙ begun in
                      let cmd = lookup_symbol (some name) in
                      (
                        some cmd,
                        rw
                            (
                              e,
                              f,
                              moved_on,
                              g,
                              end,
                              (supply (length name + 1)).1,
                              strdup_total pf.host m supply name,
                            )
                            (ap done (create_debug_command-some pf m supply cmd)),
                        (cmd, refl, (d, es, ap some named, start)),
                      )
                ]
              ]
        ]
      ]

  one_of_them :
      {parsers : List CommandParser} (i : ℕ) (parser : CommandParser)
      → AllAnswer pf m parsers
      → get_elem? parsers i ≡ some parser
      → AlwaysAnswers pf m parser
  one_of_them i parser nil e = cc
  one_of_them zero parser (here also more) e =
      subst (λ (o : Option CommandParser). AnswersIf pf m o) e here
  one_of_them (suc i) parser (here also more) e = one_of_them i parser more e

  pub command_parsers-AlwaysAnswers :
      (code : ℕ) (parser : CommandParser)
      → 0 < code
      → get_elem? command_parsers code ≡ some parser
      → AlwaysAnswers pf m parser
  command_parsers-AlwaysAnswers zero parser pos e = absurd (omega arith)
  command_parsers-AlwaysAnswers (suc i) parser pos e = one_of_them i parser all e
    where
      all : AllAnswer pf m (drop 1 command_parsers)
      all =
          Always.parse_disassemble_cmd-AlwaysAnswers pf m supply ctx
          also Always.parse_dump_bytes_cmd-AlwaysAnswers pf m supply ctx
          also parse_write_bytes_cmd-AlwaysAnswers pf m supply ctx
          also Always.parse_dump_addr_stack_cmd-AlwaysAnswers pf m supply ctx
          also Always.parse_modify_addr_stack_cmd-AlwaysAnswers pf m supply ctx
          also Always.parse_push_address_cmd-AlwaysAnswers pf m supply ctx
          also Always.parse_pop_address_cmd-AlwaysAnswers pf m supply ctx
          also Always.parse_dump_call_stack_cmd-AlwaysAnswers pf m supply ctx
          also Always.parse_modify_call_stack_cmd-AlwaysAnswers pf m supply ctx
          also Always.parse_push_call_frame_cmd-AlwaysAnswers pf m supply ctx
          also Always.parse_pop_call_frame_cmd-AlwaysAnswers pf m supply ctx
          also Always.parse_list_breakpoints_cmd-AlwaysAnswers pf m supply ctx
          also Always.parse_add_breakpoint_cmd-AlwaysAnswers pf m supply ctx
          also Always.parse_remove_breakpoint_cmd-AlwaysAnswers pf m supply ctx
          also Always.parse_run_program_cmd-AlwaysAnswers pf m supply ctx
          also Always.parse_run_until_return_cmd-AlwaysAnswers pf m supply ctx
          also Always.parse_single_step_into_cmd-AlwaysAnswers pf m supply ctx
          also Always.parse_single_step_over_cmd-AlwaysAnswers pf m supply ctx
          also parse_heap_dump_cmd-AlwaysAnswers
          also Always.parse_quit_vm_cmd-AlwaysAnswers pf m supply ctx
          also Always.parse_show_help_cmd-AlwaysAnswers pf m supply ctx
          also parse_lookup_symbol_cmd-AlwaysAnswers
          also nil
