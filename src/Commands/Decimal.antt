-- ===== src/Commands/Decimal.antt =====
-- A number that is printed in decimal is read back by `parseNextUInt64` of src/dbgcmd.c.
use unlambda.Base.Digits.{decimal-Printed, All}
use unlambda.Base.{ℕ, ◌<◌, ◌≡◌, inl, inr, true, ◌++◌, arith, ◌∙◌, ap}
use unlambda.Base.Host.{Host}
use unlambda.Base.Text.{Text, first_char, decimal}
use unlambda.Commands.Number.{refused_from, parse_next_uint64-value_from}
use unlambda.Commands.Scan.{parse_next_uint64}
use unlambda.Commands.State.{ParserState, is_blank, ends_word}

-- A number in decimal behind blanks is read back, up to what ends the word.
pub parse_next_uint64-decimal :
    (host : Host) (s : ParserState) (blanks : Text) (n : ℕ) (rest : Text)
    → s.p ≡ blanks ++ (decimal n ++ rest)
    → All is_blank blanks
    → n < refused_from
    → ends_word (first_char rest) ≡ true
    → parse_next_uint64 host s ≡ (record s { p = rest }, n)
parse_next_uint64-decimal host s blanks n rest shape blank small end =
    let d = decimal-Printed n (omega arith) in
    let text = shape ∙ ap (λ ds. blanks ++ (ds ++ rest)) d.shape in
    elim (parse_next_uint64-value_from host s blanks d.first d.others rest text blank d.digits
      end) [
        | inl (_, run) ↦ run ∙ ap (λ k. (record s { p = rest }, k)) d.value
        | inr (large, _, _) ↦ absurd (omega (arith, large, d.value, small))
      ]
