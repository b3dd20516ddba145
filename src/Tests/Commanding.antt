-- ===== src/Tests/Commanding.antt =====
-- Tests of the modules on the commands of the debugger.
use unlambda.Base.{
  ℕ, ◌%◌, ◌<◌, ◌≤◌, ◌^◌, ◌≡◌, refl, ◌⊎◌, inl, inr, Option, some, none, List, [], ◌∷◌, Bool-cases,
  arith, ap,
}
use unlambda.Base.Host.{Host}
use unlambda.Base.Run.{done, Returns}
use unlambda.Base.Text.{digits_of, codes}
use unlambda.Commands.{Platform, invalid_arg_error, modify_call_stack}
use unlambda.Commands.Number.{refused_from, parse_next_uint64-value_from}
use unlambda.Commands.Parse.{parse_debug_command}
use unlambda.Commands.Print.{command_text, sprint_debug_command, print_debug_command}
use unlambda.Commands.Printed.{parse_debug_command-print_debug_command}
use unlambda.Commands.RoundTrip.{parse_debug_command-sprint_debug_command}
use unlambda.Commands.Scan.{parse_next_uint64}
use unlambda.Commands.State.{ParserState, init_parser_state}
use unlambda.Commands.Total.{IsReply, parse_debug_command-IsReply}
use unlambda.Commands.Valid.{Supplies, IsContext}
use unlambda.Symbols.{
  Symbol, SymbolTable, find_symbol, find_symbol_by_name, walk_bucket, hash_name, same_name,
}
use unlambda.Symbols as Symbols
use unlambda.Tests.Loading.{machine}
use unlambda.Vm.Load.{Machine}

abbrev pub host : Host
host = record { malloc = λ n. some 4096; realloc = λ p n. some 4096 }

abbrev platform : Platform
platform = record { host = host; command_size = 32; array_size = 48 }

pub host-Supplies : Supplies host
host-Supplies n = (4096, refl)

abbrev main_symbol : Symbol
main_symbol = record { name = codes "main"; address = 16 }

-- A table of one bucket.
abbrev table : SymbolTable
table = record {
  max_size = 4096;
  num_buckets_index = 0;
  buckets = (main_symbol ∷ []) ∷ [];
  list_start = 4096;
  symbols = main_symbol ∷ [];
  list_capacity = 16;
  status = Symbols.ok;
}

abbrev debugged : Machine
debugged = record machine { symbols = table }

abbrev address_of : Option Symbol → ℕ
address_of none = 0
address_of (some symbol) = symbol.address

found_address :
    (name : List ℕ) (symbol : Symbol)
    → find_symbol table name ≡ some symbol
    → symbol.address < 2 ^ 64
unfolding find_symbol find_symbol_by_name walk_bucket
found_address name symbol e =
    let first : hash_name name % 1 ≡ 0 = omega arith in
    let chosen = rw (first, first) at e in
    elim (Bool-cases (same_name name (codes "main"))) [
      | inl same ↦ omega (arith, ap address_of (rw same at chosen))
      | inr other ↦ absurd (cc (rw other at chosen))
    ]

debugged-IsContext : IsContext debugged
debugged-IsContext = record { pc_word = omega arith; symbol_word = found_address }

parse_debug_command-IsReply_example :
    Returns
      (parse_debug_command platform debugged (codes "l main+4 7"))
      (IsReply (codes "l main+4 7"))
parse_debug_command-IsReply_example =
    parse_debug_command-IsReply platform debugged host-Supplies debugged-IsContext
      (codes "l main+4 7")

printed_length : (sprint_debug_command (modify_call_stack 1 40 1800) 72).1 ≡ 13
unfolding sprint_debug_command command_text digits_of
printed_length = refl

parse_debug_command-sprint_debug_command_example :
    parse_debug_command platform debugged (sprint_debug_command (modify_call_stack 1 40 1800) 72).0
    ≡ done (some (modify_call_stack 1 40 1800))
parse_debug_command-sprint_debug_command_example =
    parse_debug_command-sprint_debug_command platform debugged host-Supplies
      (modify_call_stack 1 40 1800) 72 (omega arith, omega arith, omega arith)
      (omega (arith, printed_length))

parse_debug_command-print_debug_command_example :
    parse_debug_command platform debugged (print_debug_command host (modify_call_stack 1 40 1800))
    ≡ done (some (modify_call_stack 1 40 1800))
parse_debug_command-print_debug_command_example =
    parse_debug_command-print_debug_command platform debugged host-Supplies
      (modify_call_stack 1 40 1800) tt (omega arith, omega arith, omega arith)

abbrev numbered_text : ParserState
numbered_text = init_parser_state debugged (codes " 407 9")

parse_next_uint64-value_from_example :
    ((407 < refused_from)
      × (parse_next_uint64 host numbered_text ≡ (init_parser_state debugged (codes " 9"), 407)))
    ⊎ ((refused_from ≤ 407)
        × ((parse_next_uint64 host numbered_text).0.error_code ≡ invalid_arg_error)
        × ((parse_next_uint64 host numbered_text).1 ≡ 0))
parse_next_uint64-value_from_example =
    parse_next_uint64-value_from host numbered_text (codes " ") b'4' (codes "07") (codes " 9") refl
      (refl, tt) (refl, (refl, (refl, tt))) refl
