-- ===== src/Assembler/Ensures.antt =====
-- What the operand parsers of src/asm.c return, for each kind of operand.
use unlambda.Base.{
  ℕ, ◌-◌, ◌^◌, ◌<◌, ◌≡◌, refl, sym, ap, ◌∙◌, inl, inr, Bool, true, false, not, ◌||◌, Option, none,
  some, [], ◌∷◌, length, drop, ltb, ◌==◌, arith, Bool-cases, add64, mul64, if◌then◌else◌,
}
use unlambda.Base.Text.{
  take_while_pos, split_first, Text, is_alpha, is_digit, first_char, take_while,
}
use unlambda.Assembler.{TypedAsmValue, empty_value, uint64_value, symbol_and_offset}
use unlambda.Assembler.Scan.{
  AsmParseError, Parsed, parsed, refused, ◌>>=◌, column_of, create_parse_error, skip_whitespace,
  is_name_char, read_symbol, read_digits, number_read, parse_uint64_operand, parse_offset,
  parse_address, parse_hex_char_escape, parse_escape_sequence, parse_literal, close_literal,
  is_hex_digit, parse_character_operand, check_for_comment,
}
use unlambda.Assembler.Parse.{parse_byte_operand, parse_operand}
use unlambda.Instructions.Op

-- The run is not aborted, and a result has the property.
pub data Ensures {ℓ κ} {A : Type ℓ} (P : A → Type κ) : Parsed A → Type (ℓ ⊔ κ) where
  holds : {a : A} → P a → Ensures P (parsed a)
  rejected : {e : AsmParseError} → Ensures P (refused e)

pub Ensures->>= {ℓ κ} :
    {A B : Type ℓ} {P : A → Type κ} {Q : B → Type κ} {r : Parsed A} {f : A → Parsed B}
    → Ensures P r
    → ((a : A) → P a → Ensures Q (f a))
    → Ensures Q (r >>= f)
Ensures->>= (holds p) next = next _ p
Ensures->>= rejected next = rejected

pub Ensures-if {ℓ κ} :
    {A : Type ℓ} {P : A → Type κ} {r s : Parsed A} (b : Bool)
    → (b ≡ true → Ensures P r)
    → (b ≡ false → Ensures P s)
    → Ensures P (if b then r else s)
Ensures-if true h k = h refl
Ensures-if false h k = k refl

-- The operand is one of the kind that the instruction takes.
abbrev pub IsAddress : TypedAsmValue → Type 0
IsAddress (uint64_value n) = n < 2 ^ 64
IsAddress (symbol_and_offset name offset) = (0 < length name) × (offset < 2 ^ 64)
IsAddress _ = ⊥

abbrev pub IsByte : TypedAsmValue → Type 0
IsByte (uint64_value n) = n < 256
IsByte _ = ⊥

abbrev pub IsOperand : ℕ → TypedAsmValue → Type 0
IsOperand opcode operand =
    if opcode == Op.push
    then IsAddress operand
    else if (opcode == Op.save) || (opcode == Op.restore)
    then IsByte operand
    else if opcode == Op.print
    then IsByte operand
    else operand ≡ empty_value

read_symbol-Ensures :
    (p : Text)
    → ltb 0 (length (take_while is_name_char p)) ≡ true
    → Ensures (λ (r : Text × Text). 0 < length r.1) (read_symbol p)
unfolding read_symbol
read_symbol-Ensures p h = rw (read_symbol, h) (holds (ground (arith, h)))

read_digits-lt : (p : Text) (v k : ℕ) → v < 2 ^ 64 → (read_digits v p).0 ≡ some k → k < 2 ^ 64
unfolding read_digits
read_digits-lt [] v k small e = ground arith
read_digits-lt (c ∷ cs) v k small e =
    let next = add64 (mul64 v 10) (c - b'0') in
    ground (arith, read_digits-lt cs next k (omega arith))

number_read-Ensures :
    (column : ℕ) (r : Option ℕ × Text)
    → ((k : ℕ) → r.0 ≡ some k → k < 2 ^ 64)
    → Ensures (λ (q : Text × ℕ). q.1 < 2 ^ 64) (number_read column r)
unfolding number_read create_parse_error
number_read-Ensures column (none, p) small = rejected
number_read-Ensures column (some k, p) small = holds (small k refl)

parse_uint64_operand-Ensures :
    (text start : Text) → Ensures (λ (r : Text × ℕ). r.1 < 2 ^ 64) (parse_uint64_operand text start)
unfolding parse_uint64_operand create_parse_error
parse_uint64_operand-Ensures text start =
    let p = skip_whitespace start in
    Ensures-if ((first_char p == 0) || (first_char p == b'\n')) (λ _. rejected)
      λ _.
        Ensures-if (not (is_digit (first_char p))) (λ _. rejected)
          λ _.
            number_read-Ensures (column_of text p) (read_digits 0 p)
              λ k. read_digits-lt p 0 k (omega arith)

-- Where a letter stands, a name is read.
pub named :
    (p : Text)
    → is_alpha (first_char p) ≡ true
    → Ensures (λ (r : Text × Text). 0 < length r.1) (read_symbol p)
named p h =
    let (c, cs, shape) = split_first p (ground (arith, h)) in
    let letter : is_name_char c ≡ true =
      ground (arith, ap is_alpha (sym (ap first_char shape)) ∙ h) in
    read_symbol-Ensures p (rw shape (take_while_pos is_name_char c cs letter))

abbrev OfAddress : Text × TypedAsmValue → Type 0
OfAddress (p, operand) = IsAddress operand

parse_offset-Ensures :
    (text name p : Text) → 0 < length name → Ensures OfAddress (parse_offset text name p)
unfolding parse_offset create_parse_error
parse_offset-Ensures text name p some_name =
    let c = first_char p in
    Ensures-if ((c == 0) || (c == b'#')) (λ _. holds (some_name, omega arith))
      λ _.
        Ensures-if ((c == b'+') || (c == b'-'))
          (λ _.
            Ensures->>= (parse_uint64_operand-Ensures text (skip_whitespace (drop 1 p)))
              λ r small. holds (some_name, ground (arith, small)))
          λ _. rejected

pub parse_address-Ensures : (text start : Text) → Ensures OfAddress (parse_address text start)
unfolding parse_address create_parse_error
parse_address-Ensures text start =
    let p = skip_whitespace start in
    let c = first_char p in
    Ensures-if ((c == 0) || (c == b'#')) (λ _. rejected)
      λ _.
        Ensures-if (is_digit c)
          (λ _. Ensures->>= (parse_uint64_operand-Ensures text p) λ r small. holds small)
          λ _.
            Ensures-if (not (is_alpha c)) (λ _. rejected)
              λ h.
                Ensures->>= (named p (ground (arith, h)))
                  λ r some_name. parse_offset-Ensures text r.1 (skip_whitespace r.0) some_name

abbrev OfByte : Text × ℕ → Type 0
OfByte (p, v) = v < 256

parse_hex_char_escape-Ensures :
    (column : ℕ) (start : Text) → Ensures OfByte (parse_hex_char_escape column start)
unfolding parse_hex_char_escape create_parse_error
parse_hex_char_escape-Ensures column start =
    let c = first_char start in
    let d = first_char (drop 1 start) in
    Ensures-if (not (is_hex_digit c) || not (is_hex_digit d)) (λ _. rejected)
      λ _. holds (omega arith)

parse_escape_sequence-Ensures :
    (column : ℕ) (start : Text) → Ensures OfByte (parse_escape_sequence column start)
unfolding parse_escape_sequence create_parse_error
parse_escape_sequence-Ensures column start =
    let c = first_char start in
    Ensures-if (c == b'n') (λ _. holds (omega arith))
      λ _.
        Ensures-if (c == b't') (λ _. holds (omega arith))
          λ _.
            Ensures-if (c == b'r') (λ _. holds (omega arith))
              λ _.
                Ensures-if (c == b'\'') (λ _. holds (omega arith))
                  λ _.
                    Ensures-if (c == b'\\') (λ _. holds (omega arith))
                      λ _.
                        Ensures-if (not (c == b'x')) (λ _. rejected)
                          λ _. parse_hex_char_escape-Ensures column (drop 1 start)

parse_literal-Ensures : (column : ℕ) (p : Text) → Ensures OfByte (parse_literal column p)
unfolding parse_literal create_parse_error
parse_literal-Ensures column p =
    let c = first_char p in
    Ensures-if ((c == 0) || ((c == b'\n') || (c == b'\''))) (λ _. rejected)
      λ _.
        Ensures-if (not (c == b'\\')) (λ _. holds (omega arith))
          λ _. parse_escape_sequence-Ensures column (drop 1 p)

parse_character_operand-Ensures :
    (text start : Text) → Ensures OfByte (parse_character_operand text start)
unfolding parse_character_operand close_literal create_parse_error
parse_character_operand-Ensures text start =
    let p = skip_whitespace start in
    let c = first_char p in
    Ensures-if ((c == 0) || (c == b'\n')) (λ _. rejected)
      λ _.
        Ensures-if (not (c == b'\'')) (λ _. rejected)
          λ _.
            Ensures->>= (parse_literal-Ensures (column_of text p) (drop 1 p))
              λ r small. Ensures-if (not (first_char r.0 == b'\'')) (λ _. rejected) λ _. holds small

parse_byte_operand-Ensures :
    (text start : Text)
    → Ensures (λ (r : Text × TypedAsmValue). IsByte r.1) (parse_byte_operand text start)
unfolding parse_byte_operand create_parse_error
parse_byte_operand-Ensures text start =
    Ensures->>= (parse_uint64_operand-Ensures text start)
      λ r small. Ensures-if (ltb 255 r.1) (λ _. rejected) λ h. holds (ground (arith, h))

pub parse_operand-Ensures :
    (opcode : ℕ) (text start : Text)
    → Ensures (λ (r : Text × TypedAsmValue). IsOperand opcode r.1) (parse_operand opcode text start)
unfolding parse_operand
parse_operand-Ensures opcode text start = elim (Bool-cases (opcode == Op.push)) [
  | inl e ↦ rw e (parse_address-Ensures text start)
  | inr e ↦ elim (Bool-cases ((opcode == Op.save) || (opcode == Op.restore))) [
    | inl f ↦ rw (e, f) (parse_byte_operand-Ensures text start)
    | inr f ↦ elim (Bool-cases (opcode == Op.print)) [
      | inl g ↦
          rw (e, f, g)
            (Ensures->>= (parse_character_operand-Ensures text start) λ r small. holds small)
      | inr g ↦ rw (e, f, g) (holds refl)
    ]
  ]
]

pub check_for_comment-Ensures :
    (text start : Text) → Ensures (λ (r : Option Text). Unit {0}) (check_for_comment text start)
unfolding check_for_comment create_parse_error
check_for_comment-Ensures text start =
    let c = first_char (skip_whitespace start) in
    Ensures-if (c == b'#') (λ _. holds tt)
      λ _. Ensures-if (not (c == 0)) (λ _. rejected) λ _. holds tt
