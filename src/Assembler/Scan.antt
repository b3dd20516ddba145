-- ===== src/Assembler/Scan.antt =====
-- The operands of an assembler line, as src/asm.c reads them. A pointer into the text is the rest of
-- the text from there, and its column what stands before it.
use unlambda.Base.{
  ℕ, ◌-◌, ◌*◌, ◌/◌, ◌%◌, ◌^◌, Bool, true, false, not, ◌&&◌, ◌||◌, Option, none, some, [], ◌∷◌,
  length, drop, ltb, leb, ◌==◌, if◌then◌else◌, u32, add64, sub64, mul64,
}
use unlambda.Base.Text.{
  Text, codes, is_digit, is_alpha, is_alnum, first_char, take_while, drop_while,
}
use unlambda.Assembler.{TypedAsmValue, uint64_value, symbol_and_offset}
use Prim.Native.Nat.{bit_and, bit_or}

pub record AsmParseError : Type 0 where
  pub column : ℕ
  pub message : Text

-- What a parser returns: a result, the error that is stored, or a failed assertion.
pub data Parsed {ℓ} (A : Type ℓ) : Type ℓ where
  parsed : A → Parsed A
  refused : AsmParseError → Parsed A
  aborted : Parsed A

infixl 5 ◌>>=◌
abbrev pub ◌>>=◌ {ℓ κ} : {A : Type ℓ} {B : Type κ} → Parsed A → (A → Parsed B) → Parsed B
parsed a >>= f = f a
refused e >>= f = refused e
aborted >>= f = aborted

-- `p - text`
abbrev pub column_of : Text → Text → ℕ
column_of text p = length text - length p

unfoldable pub create_parse_error {ℓ} : {A : Type ℓ} → Text → ℕ → Parsed A
create_parse_error message column = refused (record { column = u32 column; message = message })

abbrev pub is_space : ℕ → Bool
is_space c = (c == b' ') || (leb 9 c && leb c 13)

abbrev pub skip_whitespace : Text → Text
skip_whitespace p = drop_while is_space p

abbrev pub is_name_char : ℕ → Bool
is_name_char c = is_alnum c || (c == b'_')

-- The pointer behind the name, and the name.
unfoldable pub read_symbol : Text → Parsed (Text × Text)
read_symbol p =
    let name = take_while is_name_char p in
    let rest = drop_while is_name_char p in
    elim (ltb 0 (length name)) [ true ↦ parsed (rest, name) | false ↦ aborted ]

-- The loop over the digits: the value, unless it is too large, and where the loop ends.
unfoldable pub read_digits : ℕ → Text → Option ℕ × Text
read_digits v [] = (some v, [])
read_digits v (c ∷ cs) =
    let d = c - b'0' in
    let more = read_digits (add64 (mul64 v 10) d) cs in
    let top = (2 ^ 64 - 1) / 10 in
    if is_digit c
    then (if ltb top v || ((v == top) && ltb ((2 ^ 64 - 1) % 10) d) then (none, c ∷ cs) else more)
    else (some v, c ∷ cs)

unfoldable pub number_read : ℕ → Option ℕ × Text → Parsed (Text × ℕ)
number_read column (none, p) = create_parse_error (codes "Value is too large") column
number_read column (some v, p) = parsed (p, v)

unfoldable pub parse_uint64_operand : Text → Text → Parsed (Text × ℕ)
parse_uint64_operand text start =
    let p = skip_whitespace start in
    let c = first_char p in
    if (c == 0) || (c == b'\n')
    then create_parse_error (codes "Operand missing") (column_of text p)
    else if not (is_digit c)
    then create_parse_error (codes "Operand must be an integer") (column_of text p)
    else number_read (column_of text p) (read_digits 0 p)

-- The offset behind a symbol, if there is one.
unfoldable pub parse_offset : Text → Text → Text → Parsed (Text × TypedAsmValue)
parse_offset text name p =
    let c = first_char p in
    if (c == 0) || (c == b'#')
    then parsed (p, symbol_and_offset name 0)
    else if (c == b'+') || (c == b'-')
    then (do
      (rest, offset) ← parse_uint64_operand text (skip_whitespace (drop 1 p))
      parsed (rest, symbol_and_offset name (if c == b'-' then sub64 0 offset else offset)))
    else create_parse_error (codes "Syntax error") (column_of text p)

-- Where an operand is neither a number nor a name, the function ends without a result; the callers
-- look at the error first.
unfoldable pub parse_address : Text → Text → Parsed (Text × TypedAsmValue)
parse_address text start =
    let p = skip_whitespace start in
    let c = first_char p in
    if (c == 0) || (c == b'#')
    then create_parse_error (codes "Operand missing") (column_of text p)
    else if is_digit c
    then (do (rest, v) ← parse_uint64_operand text p; parsed (rest, uint64_value v))
    else if not (is_alpha c)
    then create_parse_error (codes "Syntax error") (column_of text p)
    else do (rest, name) ← read_symbol p; parse_offset text name (skip_whitespace rest)

abbrev pub is_hex_digit : ℕ → Bool
is_hex_digit c = is_digit c || ((leb b'A' c && leb c b'F') || (leb b'a' c && leb c b'f'))

-- `c &= ~48`, in eight bits
abbrev pub hex_digit_to_dec : ℕ → ℕ
hex_digit_to_dec c = let d = bit_and c 207 in if ltb d 10 then d else d - 55

unfoldable pub parse_hex_char_escape : ℕ → Text → Parsed (Text × ℕ)
parse_hex_char_escape literal_start start =
    let c = first_char start in
    let d = first_char (drop 1 start) in
    if not (is_hex_digit c) || not (is_hex_digit d)
    then create_parse_error (codes "Invalid character literal (Invalid hex escape sequence)")
        literal_start
    else parsed (drop 2 start, bit_or (hex_digit_to_dec c * 2 ^ 4) (hex_digit_to_dec d) % 2 ^ 8)

unfoldable pub parse_escape_sequence : ℕ → Text → Parsed (Text × ℕ)
parse_escape_sequence literal_start start =
    let c = first_char start in
    let behind = drop 1 start in
    if c == b'n'
    then parsed (behind, b'\n')
    else if c == b't'
    then parsed (behind, b'\t')
    else if c == b'r'
    then parsed (behind, b'\r')
    else if c == b'\''
    then parsed (behind, b'\'')
    else if c == b'\\'
    then parsed (behind, b'\\')
    else if not (c == b'x')
    then create_parse_error (codes "Invalid character literal (Unknown escape sequence)")
        literal_start
    else parse_hex_char_escape literal_start behind

-- `p` is behind the opening quote.
unfoldable pub parse_literal : ℕ → Text → Parsed (Text × ℕ)
parse_literal literal_start p =
    let c = first_char p in
    if (c == 0) || ((c == b'\n') || (c == b'\''))
    then create_parse_error (codes "Invalid character literal (literal is empty)") literal_start
    else if not (c == b'\\')
    then parsed (drop 1 p, c % 2 ^ 8)
    else parse_escape_sequence literal_start (drop 1 p)

-- The closing quote.
unfoldable pub close_literal : ℕ → Text × ℕ → Parsed (Text × ℕ)
close_literal literal_start (p, value) =
    if not (first_char p == b'\'')
    then create_parse_error (codes "Invalid character literal (Closing \"'\" missing)")
        literal_start
    else parsed (drop 1 p, value)

unfoldable pub parse_character_operand : Text → Text → Parsed (Text × ℕ)
parse_character_operand text start =
    let p = skip_whitespace start in
    let c = first_char p in
    if (c == 0) || (c == b'\n')
    then create_parse_error (codes "Operand missing") (column_of text p)
    else if not (c == b'\'')
    then create_parse_error (codes "Invalid character literal (must start with \"'\")")
        (column_of text p)
    else parse_literal (column_of text p) (drop 1 p) >>= close_literal (column_of text p)

-- The comment, if there is one.
unfoldable pub check_for_comment : Text → Text → Parsed (Option Text)
check_for_comment text start =
    let p = skip_whitespace start in
    let c = first_char p in
    if c == b'#'
    then parsed (some (drop 1 p))
    else if not (c == 0)
    then create_parse_error (codes "Syntax error") (column_of text p)
    else parsed none
