-- ===== src/Assembler/Operand.antt =====
-- Operands that are printed are read back by `parseAddress` of src/asm.c.
use unlambda.Base.{
  ℕ, ◌+◌, ◌-◌, ◌*◌, ◌^◌, ◌≤◌, ◌<◌, ◌≡◌, refl, ◌⊎◌, inl, inr, true, false, ◌||◌, Option, none, some,
  [], ◌∷◌, ◌++◌, ltb, ◌==◌, arith, Bool-cases,
}
use unlambda.Base.Text.{Text, is_alpha, is_digit, first_char, codes, drop_while}
use unlambda.Base.Digits.{All, value_from, le-value_from, drop_while-append}
use unlambda.Assembler.{TypedAsmValue, uint64_value, symbol_and_offset}
use unlambda.Assembler.Scan.{
  parsed, column_of, create_parse_error, is_space, is_name_char, read_digits, number_read,
  parse_uint64_operand,
}

-- The digits are read exactly, up to where they end, if the number fits 64 bits.
read_digits-value_from :
    (ds rest : Text) (n : ℕ)
    → All is_digit ds
    → is_digit (first_char rest) ≡ false
    → value_from n ds < 2 ^ 64
    → read_digits n (ds ++ rest) ≡ (some (value_from n ds), rest)
unfolding read_digits
read_digits-value_from [] [] n _ _ _ = refl
read_digits-value_from [] (c ∷ cs) n _ stop _ = ground (arith, stop)
read_digits-value_from (c ∷ ds) rest n (here, more) stop fits =
    let m = n * 10 + (c - b'0') in
    ground (arith, here, le-value_from ds m, read_digits-value_from ds rest m more stop fits)

-- And refused otherwise.
read_digits-none :
    (ds rest : Text) (n : ℕ)
    → All is_digit ds
    → n < 2 ^ 64
    → 2 ^ 64 ≤ value_from n ds
    → (read_digits n (ds ++ rest)).0 ≡ none
unfolding read_digits
read_digits-none [] rest n _ small large = absurd (omega arith)
read_digits-none (c ∷ ds) rest n (here, more) small large =
    let m = n * 10 + (c - b'0') in
    elim (Bool-cases (ltb m (2 ^ 64))) [
      | inl fits ↦ ground (arith, here, read_digits-none ds rest m more (ground arith) large)
      | inr over ↦ ground (arith, here)
    ]

number_read-none :
    (column : ℕ) (r : Option ℕ × Text)
    → r.0 ≡ none
    → number_read column r ≡ create_parse_error (codes "Value is too large") column
unfolding number_read
number_read-none column (none, p) e = refl
number_read-none column (some k, p) e = cc

-- A number behind white space, one or more digits up to what is no digit, is read exactly if it is
-- below 2^64, and otherwise refused as too large, with the column at which it starts.
pub parse_uint64_operand-value_from :
    (text start spaces : Text) (c : ℕ) (ds rest : Text)
    → start ≡ spaces ++ ((c ∷ ds) ++ rest)
    → All is_space spaces
    → All is_digit (c ∷ ds)
    → is_digit (first_char rest) ≡ false
    → ((value_from 0 (c ∷ ds) < 2 ^ 64)
        × (parse_uint64_operand text start ≡ parsed (rest, value_from 0 (c ∷ ds))))
      ⊎ ((2 ^ 64 ≤ value_from 0 (c ∷ ds))
          × (parse_uint64_operand text start
              ≡ create_parse_error
                  (codes "Value is too large")
                  (column_of text ((c ∷ ds) ++ rest))))
unfolding parse_uint64_operand number_read
parse_uint64_operand-value_from text start spaces c ds rest shape space digits stop =
    let digit = digits.0 in
    let no_space : is_space c ≡ false = ground arith in
    let some_char : ((c == 0) || (c == b'\n')) ≡ false = ground arith in
    let skipped : drop_while is_space start ≡ (c ∷ ds) ++ rest =
      rw shape (drop_while-append is_space spaces ((c ∷ ds) ++ rest) space no_space) in
    elim (Bool-cases (ltb (value_from 0 (c ∷ ds)) (2 ^ 64))) [
      | inl fits ↦
          let read = read_digits-value_from (c ∷ ds) rest 0 digits stop (ground arith) in
          inl (ground arith, rw (skipped, some_char, digit, read, number_read) refl)
      | inr over ↦
          let large : 2 ^ 64 ≤ value_from 0 (c ∷ ds) = ground arith in
          let none_read = read_digits-none (c ∷ ds) rest 0 digits (omega arith) large in
          inr (
            large,
            rw (skipped, some_char, digit)
                (number_read-none (column_of text ((c ∷ ds) ++ rest))
                  (read_digits 0 ((c ∷ ds) ++ rest)) none_read),
          )
    ]

-- The values that an operand can have.
abbrev pub IsWritable : TypedAsmValue → Type 0
IsWritable (uint64_value n) = n < 2 ^ 64
IsWritable (symbol_and_offset name offset) =
    (is_alpha (first_char name) ≡ true) × All is_name_char name × (offset < 2 ^ 64)
IsWritable _ = ⊥
