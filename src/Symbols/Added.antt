-- ===== src/Symbols/Added.antt =====
-- `addSymbolToTable` of src/symtab.c, behind its refusals: the new symbol is linked and listed.
use unlambda.Base.{
  ℕ, suc, ◌≤◌, ◌<◌, ◌≡◌, refl, sym, ◌∙◌, ap, ◌⊎◌, inl, inr, Option, none, some, Option-cases, List,
  [], ◌∷◌, ◌++◌, length, take, drop, length-append, length-take, length-drop, Return, success,
  failure, arith,
}
use unlambda.Base.Host.{Host}
use unlambda.Base.Run.{Run, done, Returns, ◌>>=◌}
use unlambda.Symbols.{
  Symbol, SymbolTable, SymbolTableStatus, ok, allocation_failed, symbol_exists,
  symbol_at_that_address, table_full, num_symbols, set_symbol_table_status, bucket_of, find_symbol,
  insert_into_address_list, append_link,
}
use unlambda.Symbols.Names.{find_in, last_index, find_symbol-find_in}
use unlambda.Symbols.Addresses.{AllAbove, AllBelow, at_address}
use unlambda.Symbols.Table.{IsTable}
use unlambda.Symbols.Insert.{
  with_symbol, linked, linked-same, linked-IsHashed, Ascending-insert, Distinct-insert,
  find_in-insert, Listed, insert_into_address_list-Listed,
}

-- What an addition leaves, by its return code. A failure changes no lookup and says why.
abbrev pub Added : SymbolTable → List ℕ → ℕ → SymbolTable × Return → Type 0
Added st name address (st', success) =
    let s : Symbol = record { name = name; address = address } in
    IsTable st'
    × (num_symbols st < st.max_size)
    × ((i : ℕ) × (st'.symbols ≡ take i st.symbols ++ s ∷ drop i st.symbols))
    × ((q : List ℕ) → find_symbol st' q ≡ with_symbol s (find_symbol st q) q)
Added st name address (st', failure) =
    IsTable st'
    × (st'.symbols ≡ st.symbols)
    × ((q : List ℕ) → find_symbol st' q ≡ find_symbol st q)
    × (((st'.status ≡ symbol_exists) × ((s : Symbol) × (find_symbol st name ≡ some s)))
        ⊎ ((st'.status ≡ symbol_at_that_address)
            × ((s : Symbol) × (at_address address st.symbols ≡ some s)))
        ⊎ ((st'.status ≡ table_full) × (st.max_size ≤ num_symbols st))
        ⊎ (st'.status ≡ allocation_failed))

pub with_status :
    (st : SymbolTable) (code : SymbolTableStatus)
    → IsTable st
    → IsTable (set_symbol_table_status st code)
with_status st code h = record {
  hashed = h.hashed;
  agrees = h.agrees;
  ascending = h.ascending;
  distinct = h.distinct;
  fits = h.fits;
  storage = h.storage;
}

pub same_find :
    (st : SymbolTable) (code : SymbolTableStatus) (q : List ℕ)
    → find_symbol (set_symbol_table_status st code) q ≡ find_symbol st q
same_find st code q =
    find_symbol-find_in (set_symbol_table_status st code) q ∙ sym (find_symbol-find_in st q)

last_index_cases :
    (c : List Symbol)
    → ((last_index c ≡ none) × (length c ≡ 0))
      ⊎ ((k : ℕ) × (last_index c ≡ some k) × (length c ≡ suc k))
last_index_cases [] = inl (refl, refl)
last_index_cases (s ∷ c) = inr (length c, refl, refl)

module _ (host : Host) (link_size : ℕ) (st : SymbolTable) (name : List ℕ) (address : ℕ) where
  abbrev s : Symbol
  s = record { name = name; address = address }

  abbrev st₀ : SymbolTable
  st₀ = set_symbol_table_status st ok

  -- The symbol in the list, and then in its bucket.
  module _ (t : SymbolTable) (i start capacity : ℕ) (g : IsTable t)
      (absent : find_in name (bucket_of t.buckets name) ≡ none) (more : num_symbols t < capacity)
      (below : AllBelow address (take i t.symbols))
      (above : AllAbove address (drop i t.symbols)) where
    abbrev listed : SymbolTable
    listed = record t {
      list_start = start;
      symbols = take i t.symbols ++ s ∷ drop i t.symbols;
      list_capacity = capacity;
    }

    abbrev both : SymbolTable
    both = record listed { buckets = linked t.buckets s g.hashed absent }

    appended : append_link listed s (last_index (bucket_of t.buckets name)) ≡ done (both, success)
    unfolding append_link
    appended = elim (last_index_cases (bucket_of t.buckets name)) [
      | inl (e, size) ↦ rw (e, size) refl
      | inr (k, e, size) ↦ rw (e, size) (ground arith)
    ]

    both-IsTable : IsTable both
    both-IsTable = record {
      hashed = linked-IsHashed t.buckets s g.hashed absent;
      agrees = λ q.
          (linked-same t.buckets s g.hashed absent q).1
          ∙ ap (λ o. with_symbol s o q) (g.agrees q)
          ∙ sym (find_in-insert q t.symbols i s (sym (g.agrees name) ∙ absent));
      ascending = Ascending-insert t.symbols i s g.ascending below above;
      distinct = Distinct-insert t.symbols i s (sym (g.agrees name) ∙ absent) g.distinct;
      fits = omega (
        arith,
        length-append (take i t.symbols) (s ∷ drop i t.symbols),
        length-take i t.symbols,
        length-drop i t.symbols,
      );
      storage = omega arith;
    }

    both-find : (q : List ℕ) → find_symbol both q ≡ with_symbol s (find_symbol t q) q
    both-find q =
        find_symbol-find_in both q
        ∙ (linked-same t.buckets s g.hashed absent q).1
        ∙ ap (λ o. with_symbol s o q) (sym (find_symbol-find_in t q))

  -- The part behind the refusals, in a table whose buckets may have grown.
  module _ (bs : List (List Symbol)) (j i : ℕ) where
    abbrev grown : SymbolTable
    grown = record st₀ { buckets = bs; num_buckets_index = j }

    abbrev insertion : Option ℕ → Run (SymbolTable × Return)
    insertion link = elim (host.malloc link_size) [
      | none ↦ done (set_symbol_table_status grown allocation_failed, failure)
      | some _ ↦ do
        (st₂, code) ← insert_into_address_list host grown s i
        elim code [ failure ↦ done (st₂, failure) | success ↦ append_link st₂ s link ]
    ]

    module _ (g : IsTable grown)
        (kept : (q : List ℕ) → find_in q (bucket_of bs q) ≡ find_in q (bucket_of st.buckets q))
        (absent : find_in name (bucket_of bs name) ≡ none) (room : num_symbols st < st.max_size)
        (below : AllBelow address (take i st.symbols))
        (above : AllAbove address (drop i st.symbols)) where
      grown-find : (q : List ℕ) → find_symbol grown q ≡ find_symbol st q
      grown-find q = find_symbol-find_in grown q ∙ kept q ∙ sym (find_symbol-find_in st q)

      no_memory : Added st name address (set_symbol_table_status grown allocation_failed, failure)
      no_memory = (
        with_status grown allocation_failed g,
        refl,
        λ q. same_find grown allocation_failed q ∙ grown-find q,
        inr (inr (inr refl)),
      )

      insertion-listed :
          (p : ℕ)
          → host.malloc link_size ≡ some p
          → Returns (insert_into_address_list host grown s i) (Listed grown s i)
          → Returns (insertion (last_index (bucket_of bs name))) (Added st name address)
      insertion-listed p got ((st', failure), run, e) =
          ((st', failure), rw (insertion, got, run) refl, rw e no_memory)
      insertion-listed p got ((st', success), run, (start, capacity, more, e)) =
          let t = both grown i start capacity g absent more below above in
          (
            (t, success),
            rw (insertion, got, run, e) (appended grown i start capacity g absent more below above),
            (
              both-IsTable grown i start capacity g absent more below above,
              room,
              (i, refl),
              λ q.
                  both-find grown i start capacity g absent more below above q
                  ∙ ap (λ o. with_symbol s o q) (grown-find q),
            ),
          )

      pub insertion-Added :
          Returns (insertion (last_index (bucket_of bs name))) (Added st name address)
      insertion-Added = elim (Option-cases (host.malloc link_size)) [
        | inl none_left ↦ (
          (set_symbol_table_status grown allocation_failed, failure),
          rw (insertion, none_left) refl,
          no_memory,
        )
        | inr (p, got) ↦
            insertion-listed p got
              (insert_into_address_list-Listed host grown s i g.fits g.storage room)
      ]
