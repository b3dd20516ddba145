-- ===== src/Tests/Naming.antt =====
-- Runs of the definitions for src/symtab.c.
use unlambda.Base.{ℕ, ◌≡◌, refl, ap, ◌∙◌, none, List, [], ◌∷◌, arith}
use unlambda.Base.Run.{Returns}
use unlambda.Symbols.{
  SymbolTable, Symbol, ok, table_full, symbol_exists, create_symbol_table, add_symbol_to_table,
  find_symbol, get_symbol_before_address, find_symbol_by_address, num_symbols, hash_name, bucket_of,
  to_float,
}
use unlambda.Symbols.Addresses.{
  Lookups, Found, find_symbol_by_address-Found, find_symbol_by_address-Lookups,
}
use unlambda.Symbols.Names.{find_in}
use unlambda.Symbols.Table.{empty-IsHashed, IsTable, fresh, fresh-none}
use unlambda.Symbols.Insert.{linked, linked-IsHashed, linked-same, with_symbol}
use unlambda.Symbols.Add.{add_symbol_to_table-Added}
use unlambda.Symbols.Added.{Added}
use unlambda.Symbols.Edits.{add, clear, perform_all, perform_all-IsTable, created-IsTable, created}
use unlambda.Tests.Stacks.{host}

abbrev start : List ℕ
start = 83 ∷ 84 ∷ []

abbrev end_of : List ℕ
end_of = 69 ∷ []

abbrev empty_table : SymbolTable
empty_table = created 20 4096

abbrev two_symbols : SymbolTable
two_symbols = record empty_table {
  symbols = record { name = end_of; address = 40 } ∷ record { name = start; address = 80 } ∷ [];
}

find_symbol_by_address-Found_example :
    Returns (find_symbol_by_address two_symbols 60) (Found two_symbols.symbols 60)
find_symbol_by_address-Found_example =
    find_symbol_by_address-Found two_symbols 60 (((omega arith), tt), (tt, tt))

find_symbol_by_address-Lookups_example : Lookups two_symbols 60
find_symbol_by_address-Lookups_example =
    find_symbol_by_address-Lookups two_symbols 60 (((omega arith), tt), (tt, tt))

add_symbol_to_table-Added_example :
    Returns (add_symbol_to_table host 24 empty_table start 80) (Added empty_table start 80)
add_symbol_to_table-Added_example =
    add_symbol_to_table-Added host 24 empty_table start 80 (created-IsTable 20 4096)

perform_all-IsTable_example :
    Returns
      (perform_all host 24 empty_table
        (add start 80 ∷ add end_of 40 ∷ add start 7 ∷ clear ∷ add end_of 2 ∷ []))
      (λ t. IsTable t × ((q : List ℕ) → find_symbol t q ≡ find_in q t.symbols))
unfolding create_symbol_table
perform_all-IsTable_example =
    perform_all-IsTable host 72 24 20 empty_table
      (add start 80 ∷ add end_of 40 ∷ add start 7 ∷ clear ∷ add end_of 2 ∷ []) refl

hash_name_test : hash_name start ≡ 2657
unfolding unlambda.Symbols.hash_from
hash_name_test = refl

to_float_test : to_float 16777217 ≡ 16777216
unfolding to_float unlambda.Symbols.excess_bits
to_float_test = refl

abbrev start_symbol : Symbol
start_symbol = record { name = start; address = 80 }

pub start-absent : find_in start (bucket_of (fresh 17) start) ≡ none
start-absent = ap (find_in start) (fresh-none 17 start)

abbrev pub one_symbol : SymbolTable
one_symbol = record (created 20 4096) {
  buckets = linked (fresh 17) start_symbol (empty-IsHashed 17 (omega arith)) start-absent;
  symbols = start_symbol ∷ [];
}

pub one_symbol-IsTable : IsTable one_symbol
one_symbol-IsTable =
    let h = empty-IsHashed 17 (omega arith) in
    record {
      hashed = linked-IsHashed (fresh 17) start_symbol h start-absent;
      agrees = λ q.
          (linked-same (fresh 17) start_symbol h start-absent q).1
          ∙ ap (λ o. with_symbol start_symbol o q) (ap (find_in q) (fresh-none 17 q));
      ascending = (tt, tt);
      distinct = (refl, tt);
      fits = omega arith;
      storage = omega arith;
    }
