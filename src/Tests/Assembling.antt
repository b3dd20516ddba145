-- ===== src/Tests/Assembling.antt =====
-- Tests of the modules on the assembler.
use unlambda.Base.{◌^◌, ◌<◌, ◌≤◌, ◌≡◌, refl, ◌⊎◌, []}
use unlambda.Base.Text.{Text, codes}
use unlambda.Assembler.Ensures.{Ensures}
use unlambda.Assembler.Line.{IsLine, parse_assembly_line-IsLine}
use unlambda.Assembler.Operand.{parse_uint64_operand-value_from}
use unlambda.Assembler.Parse.{parse_assembly_line}
use unlambda.Assembler.Scan.{
  parsed, column_of, create_parse_error, parse_uint64_operand, hex_digit_to_dec,
}

abbrev save_line : Text
save_line = codes "  save 12 # both stacks"

parse_assembly_line-IsLine_example : Ensures (IsLine 100 7) (parse_assembly_line save_line 100 7)
parse_assembly_line-IsLine_example = parse_assembly_line-IsLine save_line 100 7

parse_uint64_operand-value_from_example :
    ((407 < 2 ^ 64) × (parse_uint64_operand [] (codes " 407+") ≡ parsed (codes "+", 407)))
    ⊎ ((2 ^ 64 ≤ 407)
        × (parse_uint64_operand [] (codes " 407+")
            ≡ create_parse_error (codes "Value is too large") (column_of [] (codes "407+"))))
parse_uint64_operand-value_from_example =
    parse_uint64_operand-value_from [] (codes " 407+") (codes " ") b'4' (codes "07") (codes "+")
      refl (refl, tt) (refl, (refl, (refl, tt))) refl

hex_digits :
    (hex_digit_to_dec b'0' ≡ 0)
    × (hex_digit_to_dec b'9' ≡ 9)
    × (hex_digit_to_dec b'A' ≡ 10)
    × (hex_digit_to_dec b'f' ≡ 15)
hex_digits = (refl, refl, refl, refl)
