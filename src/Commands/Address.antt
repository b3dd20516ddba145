-- ===== src/Commands/Address.antt =====
-- Reading an address with the functions of src/dbgcmd.c.
use unlambda.Base.{
  ℕ, ◌+◌, ◌^◌, ◌<◌, ◌≡◌, refl, subst, ap, sym, ◌∙◌, inl, inr, true, some, ◌∷◌, ◌++◌, length, drop,
  ltb, ◌==◌, arith, Bool-cases, Option-cases, add64, sub64,
}
use unlambda.Base.Host.{Host}
use unlambda.Base.Run.{Run, Returns}
use unlambda.Base.Text.{
  take_while_pos, split_first, Text, codes, is_digit, first_char, take_while, drop_while, snprintf,
}
use unlambda.Commands.{
  ErrorCode, no_error, syntax_error, invalid_arg_error, missing_arg_error, unknown_cmd_error,
  out_of_memory_error,
}
use unlambda.Commands.State.{ParserState, is_blank, ends_word, set_parse_error}
use unlambda.Commands.Scan.{
  parse_next_uint64, displaced, displace, invalid_displacement, parse_displacement, is_symbol_char,
  is_symbol_start, parse_symbol, parse_next_address, parse_next_address_with_default,
}
use unlambda.Symbols.{find_symbol}
use unlambda.Vm.Load.{Machine}
use unlambda.Commands.Valid.{
  Supplies, IsContext, IsExplained, IsParserState, IsRead, refused-IsRead, moved,
  parse_next_uint64-IsRead,
}

module _ (host : Host) (m : Machine) (supply : Supplies host) where
  -- The result of a reading that ends the program only where the code does.
  abbrev pub Reads : Run (ParserState × ℕ) → Type 0
  Reads r = Returns r (IsRead m (2 ^ 64))

  invalid_displacement-Reads :
      (s : ParserState)
      → s.vm ≡ m
      → (text : Text) × (s.error_details ≡ some text)
      → Reads (invalid_displacement host s)
  invalid_displacement-Reads s same (text, d) =
      let message = snprintf 200 (codes "Invalid displacement (" ++ text ++ codes ")") in
      let refused =
        refused-IsRead host m supply s invalid_arg_error message (2 ^ 64) same (omega arith) in
      ((set_parse_error host s invalid_arg_error message, 0), rw d refl, refused)

  displaced-Reads :
      (code : ErrorCode) (s : ParserState) (address : ℕ)
      → IsExplained code s.error_details
      → IsParserState m s
      → address < 2 ^ 64
      → Reads (displaced code host s address)
  unfolding displaced
  displaced-Reads no_error s address x v small = ((s, address), refl, (v, small))
  displaced-Reads missing_arg_error s address x v small = (
    (set_parse_error host s invalid_arg_error (codes "Missing displacement value"), 0),
    refl,
    refused-IsRead host m supply s invalid_arg_error _ (2 ^ 64) v.same_vm (omega arith),
  )
  displaced-Reads syntax_error s address x v small = invalid_displacement-Reads s v.same_vm x
  displaced-Reads invalid_arg_error s address x v small = invalid_displacement-Reads s v.same_vm x
  displaced-Reads unknown_cmd_error s address x v small = invalid_displacement-Reads s v.same_vm x
  displaced-Reads out_of_memory_error s address x v small = invalid_displacement-Reads s v.same_vm x

  displace-Reads :
      (r : ParserState × ℕ) (add : ℕ → ℕ)
      → IsRead m (2 ^ 64) r
      → ((n : ℕ) → add n < 2 ^ 64)
      → Reads (displace host add r)
  displace-Reads (s, k) add (v, _) small =
      displaced-Reads s.error_code s (add k) v.explained v (small k)

  parse_displacement-Reads :
      (s : ParserState) (address : ℕ)
      → IsParserState m s
      → address < 2 ^ 64
      → Reads (parse_displacement host s address)
  unfolding parse_displacement
  parse_displacement-Reads s address v small =
      let c = first_char s.p in
      let number =
        parse_next_uint64-IsRead host m supply (record s { p = drop 1 s.p })
          (moved host m supply s (drop 1 s.p) v) in
      elim (Bool-cases (c == b'+')) [
        | inl plus ↦ rw plus (displace-Reads _ (add64 address) number λ n. omega arith)
        | inr e ↦ elim (Bool-cases (c == b'-')) [
          | inl minus ↦ rw (e, minus) (displace-Reads _ (sub64 address) number λ n. omega arith)
          | inr f ↦ elim (Bool-cases (ends_word c)) [
            | inl end ↦ ((s, address), rw (e, f, end) refl, (v, small))
            | inr g ↦ (
              (set_parse_error host s syntax_error (codes "Syntax error"), 0),
              rw (e, f, g) refl,
              refused-IsRead host m supply s _ _ (2 ^ 64) v.same_vm (omega arith),
            )
          ]
        ]
      ]

  parse_symbol-Reads :
      (s : ParserState) (c : ℕ) (cs : Text)
      → IsContext m
      → IsParserState m s
      → s.p ≡ c ∷ cs
      → is_symbol_start c ≡ true
      → Reads (parse_symbol host s)
  unfolding parse_symbol
  parse_symbol-Reads s c cs ctx v shape start =
      let name = take_while is_symbol_char s.p in
      let s' = record s { p = drop_while is_symbol_char s.p } in
      let v' = moved host m supply s (drop_while is_symbol_char s.p) v in
      let some_name : ltb 0 (length name) ≡ true =
        rw shape (take_while_pos is_symbol_char c cs (ground (arith, start))) in
      let room = (supply (length name + 1)).1 in
      elim (Option-cases (find_symbol s.vm.symbols name)) [
        | inl e ↦ (
          (
            set_parse_error host s' invalid_arg_error
                (snprintf 200 (codes "Unknown symbol \"" ++ name ++ codes "\"")),
            0,
          ),
          rw (some_name, room, e) refl,
          refused-IsRead host m supply s' _ _ (2 ^ 64) v.same_vm (omega arith),
        )
        | inr (symbol, e) ↦
            let word =
              ctx.symbol_word name symbol
                (subst (λ (k : Machine). find_symbol k.symbols name ≡ some symbol) v.same_vm e) in
            rw (some_name, room, e) (parse_displacement-Reads s' symbol.address v' word)
      ]

  pub parse_next_address-Reads :
      (s : ParserState) → IsContext m → IsParserState m s → Reads (parse_next_address host s)
  unfolding parse_next_address
  parse_next_address-Reads s ctx v =
      let p = drop_while is_blank s.p in
      let s' = record s { p = p } in
      let v' = moved host m supply s p v in
      elim (Bool-cases (first_char p == 0)) [
        | inl e ↦ (
          (set_parse_error host s' missing_arg_error (codes "Argument missing"), 0),
          rw e refl,
          refused-IsRead host m supply s' _ _ (2 ^ 64) v.same_vm (omega arith),
        )
        | inr e ↦ elim (Bool-cases (is_digit (first_char p))) [
          | inl digit ↦ (
            parse_next_uint64 host s',
            rw (e, digit) refl,
            parse_next_uint64-IsRead host m supply s' v',
          )
          | inr f ↦ elim (Bool-cases (is_symbol_start (first_char p))) [
            | inl start ↦
                let (c, cs, shape) = split_first p e in
                rw (e, f, start)
                  (parse_symbol-Reads s' c cs ctx v' shape
                    (ap is_symbol_start (sym (ap first_char shape)) ∙ start))
            | inr g ↦ (
              (set_parse_error host s' syntax_error (codes "Syntax error"), 0),
              rw (e, f, g) refl,
              refused-IsRead host m supply s' _ _ (2 ^ 64) v.same_vm (omega arith),
            )
          ]
        ]
      ]

  pub parse_next_address_with_default-Reads :
      (s : ParserState) (value : ℕ)
      → IsContext m
      → IsParserState m s
      → value < 2 ^ 64
      → Reads (parse_next_address_with_default host s value)
  unfolding parse_next_address_with_default
  parse_next_address_with_default-Reads s value ctx v small =
      let p = drop_while is_blank s.p in
      elim (Bool-cases (first_char p == 0)) [
        | inl e ↦ ((record s { p = p }, value), rw e refl, (moved host m supply s p v, small))
        | inr e ↦
            rw e (parse_next_address-Reads (record s { p = p }) ctx (moved host m supply s p v))
      ]
