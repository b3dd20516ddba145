-- ===== src/Commands/Valid.antt =====
-- What the functions of src/dbgcmd.c that read an argument leave of the parser state.
use unlambda.Base.{
  ℕ, suc, ◌+◌, ◌-◌, ◌^◌, ◌<◌, ◌≡◌, refl, inl, inr, Option, none, some, List, [], ◌∷◌, length, ltb,
  ◌==◌, arith, Bool-cases, add64, mul64,
}
use unlambda.Base.Host.{Host}
use unlambda.Base.Text.{Text, first_char, drop_while, strdup}
use unlambda.Commands.{
  ErrorCode, no_error, syntax_error, invalid_arg_error, missing_arg_error, unknown_cmd_error,
  out_of_memory_error,
}
use unlambda.Commands.State.{ParserState, is_blank, ends_word, set_parse_error}
use unlambda.Commands.Scan.{
  scan_digits, check_number, parse_next_uint64, parse_next_uint64_with_default, check_limit,
}
use unlambda.Symbols.{Symbol, find_symbol}
use unlambda.Vm.Load.{Machine}

-- The allocator refuses nothing.
abbrev pub Supplies : Host → Type 0
Supplies host = (n : ℕ) → (p : ℕ) × (host.malloc n ≡ some p)

-- The addresses that a command may take from the machine are machine words.
pub record IsContext (m : Machine) : Type 0 where
  pub pc_word : m.vm.pc < 2 ^ 64
  pub symbol_word :
      (name : List ℕ) (symbol : Symbol)
      → find_symbol m.symbols name ≡ some symbol
      → symbol.address < 2 ^ 64

-- An error comes with its details.
abbrev pub IsExplained : ErrorCode → Option Text → Type 0
IsExplained no_error details = Unit
IsExplained _ details = (text : Text) × (details ≡ some text)

pub record IsParserState (m : Machine) (s : ParserState) : Type 0 where
  pub same_vm : s.vm ≡ m
  pub explained : IsExplained s.error_code s.error_details

-- What a function that reads a number hands back.
abbrev pub IsRead : Machine → ℕ → ParserState × ℕ → Type 0
IsRead m bound (s, value) = IsParserState m s × (value < bound)

module _ (host : Host) (m : Machine) (supply : Supplies host) where
  pub strdup_total : (text : Text) → strdup host text ≡ some text
  unfolding strdup
  strdup_total text = rw (strdup, (supply (length text + 1)).1) refl

  strdup-IsExplained : (code : ErrorCode) (msg : Text) → IsExplained code (strdup host msg)
  strdup-IsExplained no_error msg = tt
  strdup-IsExplained syntax_error msg = (msg, strdup_total msg)
  strdup-IsExplained invalid_arg_error msg = (msg, strdup_total msg)
  strdup-IsExplained missing_arg_error msg = (msg, strdup_total msg)
  strdup-IsExplained unknown_cmd_error msg = (msg, strdup_total msg)
  strdup-IsExplained out_of_memory_error msg = (msg, strdup_total msg)

  pub set_parse_error-IsParserState :
      (s : ParserState) (code : ErrorCode) (msg : Text)
      → s.vm ≡ m
      → IsParserState m (set_parse_error host s code msg)
  unfolding set_parse_error
  set_parse_error-IsParserState s code msg same = record {
    same_vm = same;
    explained = strdup-IsExplained code msg;
  }

  pub refused-IsRead :
      (s : ParserState) (code : ErrorCode) (msg : Text) (k : ℕ)
      → s.vm ≡ m
      → 0 < k
      → IsRead m k (set_parse_error host s code msg, 0)
  refused-IsRead s code msg k same pos = (set_parse_error-IsParserState s code msg same, pos)

  pub moved :
      (s : ParserState) (p : Text) → IsParserState m s → IsParserState m (record s { p = p })
  moved s p v = record { same_vm = v.same_vm; explained = v.explained }

  scan_digits-lt : (p : Text) (n k : ℕ) → n < 2 ^ 64 → (scan_digits n p).0 ≡ some k → k < 2 ^ 64
  unfolding scan_digits
  scan_digits-lt [] n k small e = ground arith
  scan_digits-lt (c ∷ cs) n k small e =
      let next = add64 (mul64 n 10) (c - b'0') in
      ground (arith, scan_digits-lt cs next k (omega arith))

  check_number-IsRead :
      (s : ParserState) (r : Option ℕ)
      → IsParserState m s
      → ((k : ℕ) → r ≡ some k → k < 2 ^ 64)
      → IsRead m (2 ^ 64) (check_number host s r)
  unfolding check_number
  check_number-IsRead s none v small = refused-IsRead s _ _ (2 ^ 64) v.same_vm (omega arith)
  check_number-IsRead s (some k) v small = elim (Bool-cases (ends_word (first_char s.p))) [
    | inl e ↦ rw e (v, small k refl)
    | inr e ↦ rw e (refused-IsRead s _ _ (2 ^ 64) v.same_vm (omega arith))
  ]

  pub parse_next_uint64-IsRead :
      (s : ParserState) → IsParserState m s → IsRead m (2 ^ 64) (parse_next_uint64 host s)
  unfolding parse_next_uint64
  parse_next_uint64-IsRead s v =
      let p = drop_while is_blank s.p in
      elim (Bool-cases (first_char p == 0)) [
        | inl e ↦ rw e (refused-IsRead (record s { p = p }) _ _ (2 ^ 64) v.same_vm (omega arith))
        | inr e ↦ rw e (
            check_number-IsRead (record s { p = (scan_digits 0 p).1 }) (scan_digits 0 p).0
              (moved s (scan_digits 0 p).1 v) λ k. scan_digits-lt p 0 k (omega arith))
      ]

  pub parse_next_uint64_with_default-IsRead :
      (s : ParserState) (value : ℕ)
      → IsParserState m s
      → value < 2 ^ 64
      → IsRead m (2 ^ 64) (parse_next_uint64_with_default host s value)
  unfolding parse_next_uint64_with_default
  parse_next_uint64_with_default-IsRead s value v small =
      let p = drop_while is_blank s.p in
      elim (Bool-cases (first_char p == 0)) [
        | inl e ↦ rw e (moved s p v, small)
        | inr e ↦ rw e (parse_next_uint64-IsRead (record s { p = p }) (moved s p v))
      ]

  pub check_limit-IsRead :
      (limit : ℕ) (r : ParserState × ℕ)
      → IsRead m (2 ^ 64) r
      → IsRead m (suc limit) (check_limit host limit r)
  unfolding check_limit
  check_limit-IsRead limit (s, k) (v, small) = elim (Bool-cases (ltb limit k)) [
    | inl e ↦ rw e (refused-IsRead s _ _ (suc limit) v.same_vm (omega arith))
    | inr e ↦ rw e (v, ground arith)
  ]
