-- ===== src/Assembler/Line.antt =====
-- What `parseAssemblyLine` of src/asm.c returns.
use unlambda.Base.{
  ℕ, ◌+◌, ◌-◌, ◌^◌, ◌<◌, ◌≡◌, refl, inl, inr, not, ◌||◌, Option, none, some, List, [], ◌∷◌, length,
  drop, ◌==◌, arith, Bool-cases, Option-cases,
}
use unlambda.Base.Text.{Text, codes, is_alpha, first_char}
use unlambda.Assembler.{
  AssemblyLineData, AssemblyLine, empty_line, instruction, directive, label, symbol_assignment,
  create_asm_line,
}
use unlambda.Assembler.Scan.{Parsed, column_of, create_parse_error, is_space, skip_whitespace}
use unlambda.Assembler.Parse.{
  same_in_lower_case, find_opcode, parse_instruction, start_address_directive,
  parse_named_directive, parse_directive, parse_label, parse_statement, parse_assembly_line,
}
use unlambda.Instructions.{instruction_names}
use unlambda.Assembler.Ensures.{
  Ensures, holds, rejected, Ensures->>=, Ensures-if, IsAddress, IsOperand, named,
  parse_address-Ensures, parse_operand-Ensures, check_for_comment-Ensures,
}

abbrev pub IsData : AssemblyLineData → Type 0
IsData empty_line = Unit
IsData (instruction opcode operand) = (opcode < 17) × IsOperand opcode operand
IsData (directive code operand) = (code ≡ start_address_directive) × IsAddress operand
IsData (label name) = 0 < length name
IsData (symbol_assignment name operand) = ⊥

-- The line has the address and the number that were given, and its data fit its kind.
abbrev pub IsLine : ℕ → ℕ → AssemblyLine → Type 0
IsLine address line l =
    (l.address ≡ address) × (l.line ≡ line) × (l.column < 2 ^ 16) × IsData l.value

module _ (text : Text) (at line : ℕ) where
  abbrev Lines : Parsed AssemblyLine → Type 0
  Lines r = Ensures (IsLine at line) r

  created :
      (column : ℕ) (content : AssemblyLineData) (comment : Option Text)
      → IsData content
      → IsLine at line (create_asm_line at line column content comment)
  unfolding create_asm_line
  created column content comment h = (refl, refl, omega arith, h)

  parse_instruction-Lines :
      (column : ℕ) (start : Text) (opcode : ℕ)
      → opcode < 17
      → Lines (parse_instruction text at line column start opcode)
  unfolding parse_instruction
  parse_instruction-Lines column start opcode known =
      Ensures->>= (parse_operand-Ensures opcode text start) λ r good.
        Ensures->>= (check_for_comment-Ensures text r.0)
          λ comment _. holds (created column (instruction opcode r.1) comment (known, good))

  parse_label-Lines :
      (column : ℕ) (start name : Text)
      → 0 < length name
      → Lines (parse_label text at line column start name)
  unfolding parse_label
  parse_label-Lines column start name some_name =
      Ensures->>= (check_for_comment-Ensures text start)
        λ comment _. holds (created column (label name) comment some_name)

  parse_directive-Lines : (start : Text) → Lines (parse_directive text at line start)
  unfolding parse_directive parse_named_directive create_parse_error
  parse_directive-Lines start =
      let c = first_char start in
      Ensures-if (is_space c || (c == b'#')) (λ _. rejected)
        λ _.
          Ensures-if (not (is_alpha c)) (λ _. rejected)
            λ h. Ensures->>= (named start (ground (arith, h))) λ r _.
              Ensures-if (same_in_lower_case r.1 (codes "start"))
                (λ _. Ensures->>= (parse_address-Ensures text (skip_whitespace r.0)) λ q good.
                  Ensures->>= (check_for_comment-Ensures text q.0) λ comment _. holds (
                    created (column_of text start - 1) (directive start_address_directive q.1)
                      comment (refl, good)))
                λ _. rejected

  find_opcode-lt :
      (name : Text) (opc : ℕ) (names : List Text) (k : ℕ)
      → find_opcode name opc names ≡ some k
      → k < opc + length names
  unfolding find_opcode
  find_opcode-lt name opc [] k e = cc
  find_opcode-lt name opc (n ∷ ns) k e = elim (Bool-cases (same_in_lower_case name n)) [
    | inl same ↦ ground (arith, rw same at e)
    | inr other ↦ omega (arith, find_opcode-lt name (opc + 1) ns k (rw other at e))
  ]

  parse_statement-Lines :
      (column : ℕ) (r : Text × Text)
      → 0 < length r.1
      → Lines (parse_statement text at line column r)
  unfolding parse_statement create_parse_error
  parse_statement-Lines column (rest, name) some_name =
      let p = skip_whitespace rest in
      elim (Option-cases (find_opcode name 0 instruction_names)) [
        | inl e ↦
            rw (parse_statement, e)
              (Ensures-if (first_char p == b':')
                (λ _. parse_label-Lines column (drop 1 p) name some_name) λ _. rejected)
        | inr (k, e) ↦
            rw (parse_statement, e)
              (parse_instruction-Lines column p k
                (omega (arith, find_opcode-lt name 0 instruction_names k e)))
      ]

  -- Every text is parsed without a failed assertion: the result is an error, or a line with the given
  -- address and number, a column of 16 bits, and data that fit its kind: PUSH and the directive have
  -- a 64-bit number or a name with a 64-bit offset, SAVE, RESTORE and PRINT a byte, and the other
  -- instructions nothing; a label has a name.
  pub parse_assembly_line-IsLine : Ensures (IsLine at line) (parse_assembly_line text at line)
  unfolding parse_assembly_line create_parse_error
  parse_assembly_line-IsLine =
      let p = skip_whitespace text in
      let c = first_char p in
      Ensures-if (c == 0) (λ _. holds (created 0 empty_line none tt))
        λ _.
          Ensures-if (c == b'#')
            (λ _. holds (created (column_of text p) empty_line (some (drop 1 p)) tt))
            λ _.
              Ensures-if (c == b'.') (λ _. parse_directive-Lines (drop 1 p))
                λ _.
                  Ensures-if (not (is_alpha c)) (λ _. rejected)
                    λ h.
                      Ensures->>= (named p (ground (arith, h)))
                        (parse_statement-Lines (column_of text p))
