-- ===== src/Symbols/Edits.antt =====
-- The life of a symbol table of src/symtab.c: creation, then additions and clearings.
use unlambda.Base.{
  ℕ, ◌*◌, ◌≡◌, refl, ◌∙◌, ap, subst, inl, inr, some, Option-cases, List, [], ◌∷◌, Return, success,
  failure, arith,
}
use unlambda.Base.Host.{Host}
use unlambda.Base.Run.{Run, done, Returns, ◌>>=◌}
use unlambda.Symbols.{
  SymbolTable, ok, num_buckets, find_symbol, create_symbol_table, clear_symbol_table,
  add_symbol_to_table,
}
use unlambda.Symbols.Names.{find_in, find_symbol-find_in}
use unlambda.Symbols.Table.{IsTable, empty-IsHashed, fresh, fresh-none}
use unlambda.Symbols.Add.{add_symbol_to_table-Added}
use unlambda.Symbols.Added.{Added}

pub data Edit : Type 0 where
  add : List ℕ → ℕ → Edit
  clear : Edit

unfoldable pub perform : Host → ℕ → SymbolTable → Edit → Run SymbolTable
perform host link_size st (add name address) = do
  (st', code) ← add_symbol_to_table host link_size st name address
  done st'
perform host link_size st clear = done (clear_symbol_table st)

unfoldable pub perform_all : Host → ℕ → SymbolTable → List Edit → Run SymbolTable
perform_all host link_size st [] = done st
perform_all host link_size st (e ∷ es) = do
  st' ← perform host link_size st e
  perform_all host link_size st' es

abbrev pub created : ℕ → ℕ → SymbolTable
created max_size list = record {
  max_size = max_size;
  num_buckets_index = 0;
  buckets = fresh 17;
  list_start = list;
  symbols = [];
  list_capacity = 16;
  status = ok;
}

pub created-IsTable : (max_size list : ℕ) → IsTable (created max_size list)
created-IsTable max_size list = record {
  hashed = empty-IsHashed 17 (omega arith);
  agrees = λ q. ap (find_in q) (fresh-none 17 q);
  ascending = tt;
  distinct = tt;
  fits = omega arith;
  storage = omega arith;
}

pub create_symbol_table-IsTable :
    (host : Host) (table_size max_size : ℕ) (st : SymbolTable)
    → create_symbol_table host table_size max_size ≡ some st
    → IsTable st × (st.symbols ≡ [])
unfolding create_symbol_table
create_symbol_table-IsTable host table_size max_size st e =
    elim (Option-cases (host.malloc table_size)) [
      | inl n ↦ absurd (ground (arith, n, e))
      | inr (p, got) ↦ elim (Option-cases (host.malloc (17 * 8))) [
        | inl n ↦ absurd (ground (arith, got, n, e))
        | inr (q, got_buckets) ↦ elim (Option-cases (host.malloc (16 * 8))) [
          | inl n ↦ absurd (ground (arith, got, got_buckets, n, e))
          | inr (list, got_list) ↦
              let same : some (created max_size list) ≡ some st =
                rw (create_symbol_table, got, got_buckets, got_list) at e in
              let table : created max_size list ≡ st = cc in
              subst (λ (u : SymbolTable). IsTable u × (u.symbols ≡ [])) table
                (created-IsTable max_size list, refl)
        ]
      ]
    ]

clear_symbol_table-IsTable : (st : SymbolTable) → IsTable st → IsTable (clear_symbol_table st)
unfolding clear_symbol_table
clear_symbol_table-IsTable st h = record {
  hashed = empty-IsHashed (num_buckets st) h.hashed.some_bucket;
  agrees = λ q. ap (find_in q) (fresh-none (num_buckets st) q);
  ascending = tt;
  distinct = tt;
  fits = omega arith;
  storage = h.storage;
}

added-IsTable :
    (st : SymbolTable) (name : List ℕ) (address : ℕ) (r : SymbolTable × Return)
    → Added st name address r
    → IsTable r.0
added-IsTable st name address (st', success) out = out.0
added-IsTable st name address (st', failure) out = out.0

perform-IsTable :
    (host : Host) (link_size : ℕ) (st : SymbolTable) (e : Edit)
    → IsTable st
    → Returns (perform host link_size st e) IsTable
unfolding perform
perform-IsTable host link_size st clear h =
    (clear_symbol_table st, refl, clear_symbol_table-IsTable st h)
perform-IsTable host link_size st (add name address) h =
    let (r, run, out) = add_symbol_to_table-Added host link_size st name address h in
    (r.0, rw run refl, added-IsTable st name address r out)

perform_all-kept :
    (host : Host) (link_size : ℕ) (st : SymbolTable) (es : List Edit)
    → IsTable st
    → Returns (perform_all host link_size st es) IsTable
unfolding perform_all
perform_all-kept host link_size st [] h = (st, refl, h)
perform_all-kept host link_size st (e ∷ es) h =
    let (st₁, run, h₁) = perform-IsTable host link_size st e h in
    let (st₂, rest, h₂) = perform_all-kept host link_size st₁ es h₁ in
    (st₂, rw (run, rest) refl, h₂)

-- A created symbol table is well-formed, and stays so through any additions, also those that fail,
-- and clearings, all of which return: each name is in its bucket and there at most once, the list
-- ascends by address, has no name twice and fits its storage, and a lookup by name in the hash table
-- finds exactly the symbol of that name in the list.
pub perform_all-IsTable :
    (host : Host) (table_size link_size max_size : ℕ) (st : SymbolTable) (es : List Edit)
    → create_symbol_table host table_size max_size ≡ some st
    → Returns
        (perform_all host link_size st es)
        (λ t. IsTable t × ((q : List ℕ) → find_symbol t q ≡ find_in q t.symbols))
perform_all-IsTable host table_size link_size max_size st es e =
    let (t, run, h) =
      perform_all-kept host link_size st es
        (create_symbol_table-IsTable host table_size max_size st e).0 in
    (t, run, (h, λ q. find_symbol-find_in t q ∙ h.agrees q))
