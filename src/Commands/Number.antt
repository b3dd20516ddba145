-- ===== src/Commands/Number.antt =====
-- What `parseNextUInt64` of src/dbgcmd.c makes of a text.
use unlambda.Base.Digits.{All, value_from, le-value_from, drop_while-append}
use unlambda.Base.{
  ℕ, ◌+◌, ◌-◌, ◌*◌, ◌≤◌, ◌<◌, ◌≡◌, refl, ◌⊎◌, inl, inr, true, false, none, some, [], ◌∷◌, ◌++◌, ltb,
  ◌==◌, arith, Bool-cases,
}
use unlambda.Base.Host.{Host}
use unlambda.Base.Text.{Text, is_digit, first_char, drop_while}
use unlambda.Commands.{invalid_arg_error}
use unlambda.Commands.State.{ParserState, is_blank, ends_word, set_parse_error}
use unlambda.Commands.Scan.{is_too_large, scan_digits, check_number, parse_next_uint64}

-- The first number that is refused: the last decimal that the test for overflow lets through ends
-- below it, six short of 2^64.
abbrev pub refused_from : ℕ
refused_from = 18446744073709551610

-- The digits are read exactly, up to where they end, if the number is below the limit.
pub scan_digits-value_from :
    (ds rest : Text) (n : ℕ)
    → All is_digit ds
    → is_digit (first_char rest) ≡ false
    → value_from n ds < refused_from
    → scan_digits n (ds ++ rest) ≡ (some (value_from n ds), rest)
unfolding scan_digits
scan_digits-value_from [] [] n _ _ _ = refl
scan_digits-value_from [] (c ∷ cs) n _ stop _ = ground (arith, stop)
scan_digits-value_from (c ∷ ds) rest n (here, more) stop fits =
    let m = n * 10 + (c - b'0') in
    ground (arith, here, le-value_from ds m, scan_digits-value_from ds rest m more stop fits)

-- And not at all from the limit on.
pub scan_digits-none :
    (ds rest : Text) (n : ℕ)
    → All is_digit ds
    → n < refused_from
    → refused_from ≤ value_from n ds
    → (scan_digits n (ds ++ rest)).0 ≡ none
unfolding scan_digits
scan_digits-none [] rest n _ small large = absurd (omega arith)
scan_digits-none (c ∷ ds) rest n (here, more) small large = elim (Bool-cases (is_too_large n c)) [
  | inl over ↦ ground (arith, here)
  | inr under ↦
      let m = n * 10 + (c - b'0') in
      ground (arith, here, scan_digits-none ds rest m more (ground arith) large)
]

is_digit-ends_word : (c : ℕ) → ends_word c ≡ true → is_digit c ≡ false
is_digit-ends_word c h = ground arith

is_blank-is_digit : (c : ℕ) → is_digit c ≡ true → is_blank c ≡ false
is_blank-is_digit c h = ground arith

ne_zero-is_digit : (c : ℕ) → is_digit c ≡ true → (c == 0) ≡ false
ne_zero-is_digit c h = ground arith

-- A number behind blanks, one or more digits up to a blank, a newline or the end, is read exactly,
-- and the pointer stands behind it, if it is below 18446744073709551610; from there on, which is six
-- short of 2^64, it is refused as an invalid argument.
pub parse_next_uint64-value_from :
    (host : Host) (s : ParserState) (blanks : Text) (c : ℕ) (ds rest : Text)
    → s.p ≡ blanks ++ ((c ∷ ds) ++ rest)
    → All is_blank blanks
    → All is_digit (c ∷ ds)
    → ends_word (first_char rest) ≡ true
    → ((value_from 0 (c ∷ ds) < refused_from)
        × (parse_next_uint64 host s ≡ (record s { p = rest }, value_from 0 (c ∷ ds))))
      ⊎ ((refused_from ≤ value_from 0 (c ∷ ds))
          × ((parse_next_uint64 host s).0.error_code ≡ invalid_arg_error)
          × ((parse_next_uint64 host s).1 ≡ 0))
unfolding parse_next_uint64 check_number set_parse_error
parse_next_uint64-value_from host s blanks c ds rest shape blank digits end =
    let skipped : drop_while is_blank s.p ≡ (c ∷ ds) ++ rest =
      rw shape (
        drop_while-append is_blank blanks ((c ∷ ds) ++ rest) blank
          (is_blank-is_digit c digits.0)) in
    let some_char = ne_zero-is_digit c digits.0 in
    elim (Bool-cases (ltb (value_from 0 (c ∷ ds)) refused_from)) [
      | inl fits ↦
          let scanned =
            scan_digits-value_from (c ∷ ds) rest 0 digits (is_digit-ends_word (first_char rest) end)
              (ground arith) in
          inl (ground arith, rw (skipped, some_char, scanned, end) refl)
      | inr over ↦
          let large : refused_from ≤ value_from 0 (c ∷ ds) = ground arith in
          let scanned = scan_digits-none (c ∷ ds) rest 0 digits (omega arith) large in
          inr (large, rw (skipped, some_char, scanned) refl, rw (skipped, some_char, scanned) refl)
    ]
