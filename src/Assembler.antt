-- ===== src/Assembler.antt =====
-- src/asm.c: the values of operands, and the lines of an assembler program. The allocator is taken to
-- succeed here, as most of its results are not tested.
pub mod Scan
pub mod Parse
pub mod Ensures
pub mod Line
pub mod Operand
use unlambda.Base.{
  ℕ, ◌-◌, ◌^◌, ◌%◌, Bool, Option, none, some, List, ltb, if◌then◌else◌, add64, ◌++◌, [], ◌∷◌,
}
use unlambda.Base.Text.{Text, codes, decimal, snprintf}
use unlambda.Symbols.{Symbol, SymbolTable, find_symbol}

-- `TypedAsmValue`. An offset, an int64_t, is its 64-bit word.
pub data TypedAsmValue : Type 0 where
  empty_value : TypedAsmValue
  uint64_value : ℕ → TypedAsmValue
  symbol_and_offset : Text → ℕ → TypedAsmValue
  string_value : Text → TypedAsmValue

-- `%PRId64`, behind a name: a sign stands before the number.
unfoldable pub signed_decimal : ℕ → Text
signed_decimal n = if ltb n (2 ^ 63) then b'+' ∷ decimal n else b'-' ∷ decimal (2 ^ 64 - n)

-- What `printAsmValue` and `sprintAsmValue` write.
unfoldable pub value_text : TypedAsmValue → Text
value_text empty_value = []
value_text (uint64_value n) = decimal n
value_text (symbol_and_offset name offset) = name ++ signed_decimal offset
value_text (string_value text) = text

pub data Resolved : Type 0 where
  resolved : ℕ → Resolved
  unresolved : Text → Resolved

unfoldable pub resolve_symbol : SymbolTable → Text → ℕ → Resolved
resolve_symbol symtab name offset = elim (find_symbol symtab name) [
  | none ↦
      unresolved (snprintf 200 (codes "Cannot resolve unknown symbol \"" ++ name ++ codes "\""))
  | some sym ↦ resolved (add64 sym.address offset)
]

unfoldable pub resolve_asm_value_to_address : TypedAsmValue → SymbolTable → Resolved
resolve_asm_value_to_address empty_value symtab =
    unresolved (codes "Cannot resolve value of type NONE to address")
resolve_asm_value_to_address (uint64_value n) symtab = resolved n
resolve_asm_value_to_address (symbol_and_offset name offset) symtab =
    resolve_symbol symtab name offset
resolve_asm_value_to_address (string_value name) symtab = resolve_symbol symtab name 0

-- The member of the union that the type selects.
pub data AssemblyLineData : Type 0 where
  empty_line : AssemblyLineData
  instruction directive : ℕ → TypedAsmValue → AssemblyLineData
  label : Text → AssemblyLineData
  symbol_assignment : Text → TypedAsmValue → AssemblyLineData

pub record AssemblyLine : Type 0 where
  pub line : ℕ
  pub column : ℕ
  pub address : ℕ
  pub comment : Option Text
  pub value : AssemblyLineData

-- The column is a uint16_t.
unfoldable pub create_asm_line : ℕ → ℕ → ℕ → AssemblyLineData → Option Text → AssemblyLine
create_asm_line address line column value comment = record {
  line = line;
  column = column % 2 ^ 16;
  address = address;
  comment = comment;
  value = value;
}
