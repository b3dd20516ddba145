-- ===== src/Assembler/Parse.antt =====
-- `parseAssemblyLine` of src/asm.c.
use unlambda.Base.{
  ℕ, ◌+◌, ◌-◌, Bool, true, false, not, ◌&&◌, ◌||◌, Option, none, some, List, [], ◌∷◌, drop, ltb,
  leb, ◌==◌, if◌then◌else◌,
}
use unlambda.Base.Text.{Text, codes, is_alpha, first_char}
use unlambda.Assembler.{
  TypedAsmValue, empty_value, uint64_value, AssemblyLine, empty_line, instruction, directive, label,
  symbol_assignment, create_asm_line,
}
use unlambda.Assembler.Scan.{
  Parsed, parsed, ◌>>=◌, column_of, create_parse_error, is_space, skip_whitespace, read_symbol,
  parse_uint64_operand, parse_address, parse_character_operand, check_for_comment,
}
use unlambda.Instructions.{instruction_names}
use unlambda.Instructions.Op

-- `!strcasecmp(a, b)`, in the C locale
abbrev pub lower_case : ℕ → ℕ
lower_case c = if leb b'A' c && leb c b'Z' then c + 32 else c

unfoldable pub same_in_lower_case : Text → Text → Bool
same_in_lower_case [] [] = true
same_in_lower_case [] (d ∷ ds) = false
same_in_lower_case (c ∷ cs) [] = false
same_in_lower_case (c ∷ cs) (d ∷ ds) = (lower_case c == lower_case d) && same_in_lower_case cs ds

-- The loop over the codes, from the first one of the names on.
unfoldable pub find_opcode : Text → ℕ → List Text → Option ℕ
find_opcode text opc [] = none
find_opcode text opc (name ∷ names) =
    let later = find_opcode text (opc + 1) names in
    if same_in_lower_case text name then some opc else later

-- The operand of SAVE and RESTORE.
unfoldable pub parse_byte_operand : Text → Text → Parsed (Text × TypedAsmValue)
parse_byte_operand text start = parse_uint64_operand text start >>= λ (p, v).
    if ltb 255 v
    then create_parse_error (codes "Operand must be in the range 0-255") (column_of text start)
    else parsed (p, uint64_value v)

unfoldable pub parse_operand : ℕ → Text → Text → Parsed (Text × TypedAsmValue)
parse_operand opcode text start =
    if opcode == Op.push
    then parse_address text start
    else if (opcode == Op.save) || (opcode == Op.restore)
    then parse_byte_operand text start
    else if opcode == Op.print
    then (do (p, v) ← parse_character_operand text start; parsed (p, uint64_value v))
    else parsed (start, empty_value)

unfoldable pub parse_instruction : Text → ℕ → ℕ → ℕ → Text → ℕ → Parsed AssemblyLine
parse_instruction text address line column start opcode = do
  (p, operand) ← parse_operand opcode text start
  comment ← check_for_comment text p
  parsed (create_asm_line address line column (instruction opcode operand) comment)

abbrev pub start_address_directive : ℕ
start_address_directive = 1

-- The directive whose name has been read.
unfoldable pub parse_named_directive : Text → ℕ → ℕ → Text → Text × Text → Parsed AssemblyLine
parse_named_directive text address line start (p, name) =
    if same_in_lower_case name (codes "start")
    then (do
      (q, operand) ← parse_address text (skip_whitespace p)
      comment ← check_for_comment text q
      parsed (
          create_asm_line address line (column_of text start - 1)
            (directive start_address_directive operand) comment))
    else create_parse_error (codes "Unknown directive") (column_of text start)

unfoldable pub parse_directive : Text → ℕ → ℕ → Text → Parsed AssemblyLine
parse_directive text address line start =
    let c = first_char start in
    if is_space c || (c == b'#')
    then create_parse_error (codes "Directive name missing") (column_of text start)
    else if not (is_alpha c)
    then create_parse_error (codes "Syntax error") (column_of text start)
    else read_symbol start >>= parse_named_directive text address line start

unfoldable pub parse_label : Text → ℕ → ℕ → ℕ → Text → Text → Parsed AssemblyLine
parse_label text address line column start name = do
  comment ← check_for_comment text start
  parsed (create_asm_line address line column (label name) comment)

-- Its call is commented out.
unfoldable pub parse_symbol_assignment : Text → ℕ → ℕ → ℕ → Text → Text → Parsed AssemblyLine
parse_symbol_assignment text address line column start name = do
  (p, operand) ← parse_address text start
  comment ← check_for_comment text p
  parsed (create_asm_line address line column (symbol_assignment name operand) comment)

-- The statement whose first word has been read.
unfoldable pub parse_statement : Text → ℕ → ℕ → ℕ → Text × Text → Parsed AssemblyLine
parse_statement text address line column (rest, name) =
    let p = skip_whitespace rest in
    elim (find_opcode name 0 instruction_names) [
      | some opcode ↦ parse_instruction text address line column p opcode
      | none ↦
          if first_char p == b':'
          then parse_label text address line column (drop 1 p) name
          else create_parse_error (codes "Invalid instruction") column
    ]

unfoldable pub parse_assembly_line : Text → ℕ → ℕ → Parsed AssemblyLine
parse_assembly_line text address line =
    let p = skip_whitespace text in
    let c = first_char p in
    if c == 0
    then parsed (create_asm_line address line 0 empty_line none)
    else if c == b'#'
    then parsed (create_asm_line address line (column_of text p) empty_line (some (drop 1 p)))
    else if c == b'.'
    then parse_directive text address line (drop 1 p)
    else if not (is_alpha c)
    then create_parse_error (codes "Syntax error") (column_of text p)
    else read_symbol p >>= parse_statement text address line (column_of text p)
