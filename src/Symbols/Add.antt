-- ===== src/Symbols/Add.antt =====
-- `addSymbolToTable` of src/symtab.c: the refusals, and the growth of the buckets.
use unlambda.Base.{
  ℕ, ◌≡◌, refl, sym, ◌∙◌, subst, inl, inr, false, Bool-cases, none, some, Option-cases, List, leb,
  Return, failure, arith,
}
use unlambda.Base.Host.{Host}
use unlambda.Base.Run.{done, Returns}
use unlambda.Symbols.{
  Symbol, SymbolTable, SymbolTableStatus, ok, symbol_exists, symbol_at_that_address, table_full,
  num_symbols, set_symbol_table_status, bucket_of, at, missing, find_symbol_by_address,
  make_buckets, add_symbol_to_table,
}
use unlambda.Symbols.Names.{find_in, last_index, find_symbol-find_in}
use unlambda.Symbols.Addresses.{Found, find_symbol_by_address-Found, scans_at}
use unlambda.Symbols.Table.{IsTable, Grown, search-absent, search-present, make_buckets-Grown}
use unlambda.Symbols.Added.{Added, with_status, same_find, insertion-Added}

module _ (host : Host) (link_size : ℕ) (st : SymbolTable) (name : List ℕ) (address : ℕ)
    (h : IsTable st) where
  abbrev st₀ : SymbolTable
  st₀ = set_symbol_table_status st ok

  abbrev refused : SymbolTableStatus → SymbolTable × Return
  refused code = (set_symbol_table_status st₀ code, failure)

  abbrev grown : List (List Symbol) → ℕ → SymbolTable
  grown bs j = record st₀ { buckets = bs; num_buckets_index = j }

  present :
      (t : Symbol)
      → find_in name (bucket_of st.buckets name) ≡ some t
      → Returns (add_symbol_to_table host link_size st name address) (Added st name address)
  unfolding add_symbol_to_table
  present t there =
      let (i, walked) = search-present st₀ name t there in
      (
        refused symbol_exists,
        rw walked refl,
        (
          with_status st₀ symbol_exists (with_status st ok h),
          refl,
          λ q. same_find st symbol_exists q,
          inl (refl, (t, find_symbol-find_in st name ∙ there)),
        ),
      )

  buckets :
      (i : ℕ)
      → find_in name (bucket_of st.buckets name) ≡ none
      → find_symbol_by_address st₀ address ≡ done (missing i)
      → Found st.symbols address (missing i)
      → leb st.max_size (num_symbols st) ≡ false
      → Returns
          (make_buckets host st₀ name (last_index (bucket_of st.buckets name)))
          (λ r. Grown st₀ r.0 × (r.1 ≡ last_index (bucket_of r.0.buckets name)))
      → Returns (add_symbol_to_table host link_size st name address) (Added st name address)
  unfolding add_symbol_to_table
  buckets i absent run (inside, below, above) e
        ((t, link), made, ((g, (bs, j, same), kept), last)) =
      let g' : IsTable (grown bs j) = rw (sym same) g in
      let kept' =
        subst
          (λ (u : SymbolTable).
            (q : List ℕ) → find_in q (bucket_of u.buckets q) ≡ find_in q (bucket_of st.buckets q))
          same kept in
      let made' : make_buckets host st₀ name (last_index (bucket_of st.buckets name))
          ≡ done (grown bs j, last_index (bucket_of bs name)) =
        made ∙ rw (last, same) refl in
      let (r, inserted, out) =
        insertion-Added host link_size st name address bs j i g' kept' (kept' name ∙ absent)
          (ground (arith, e)) below above in
      (
        r,
        rw (search-absent st₀ name absent, run, e, search-absent st₀ name absent, made') inserted,
        out,
      )

  search :
      find_in name (bucket_of st.buckets name) ≡ none
      → Returns (find_symbol_by_address st₀ address) (Found st.symbols address)
      → Returns (add_symbol_to_table host link_size st name address) (Added st name address)
  unfolding add_symbol_to_table
  search absent (at k, run, out) = (
    refused symbol_at_that_address,
    rw (search-absent st₀ name absent, run) refl,
    (
      with_status st₀ symbol_at_that_address (with_status st ok h),
      refl,
      λ q. same_find st symbol_at_that_address q,
      inr (inl (refl, (out.0, (scans_at address st.symbols k out).0))),
    ),
  )
  search absent (missing i, run, out) = elim (Bool-cases (leb st.max_size (num_symbols st))) [
    | inl e ↦ (
      refused table_full,
      rw (search-absent st₀ name absent, run, e) refl,
      (
        with_status st₀ table_full (with_status st ok h),
        refl,
        λ q. same_find st table_full q,
        inr (inr (inl (refl, ground (arith, e)))),
      ),
    )
    | inr e ↦
        buckets i absent run out e (make_buckets-Grown host st₀ name (with_status st ok h) absent)
  ]

-- Addition of a symbol to a well-formed table always returns, without a failed assertion and without
-- a write outside the list, and leaves a well-formed table. On success the symbol is found under its
-- name, every other name is found as before, and the list has it at its place by address. On failure
-- no lookup changes, and the status says that the name is there, that the address is there, that the
-- table is full, or that an allocation has failed.
pub add_symbol_to_table-Added :
    (host : Host) (link_size : ℕ) (st : SymbolTable) (name : List ℕ) (address : ℕ)
    → IsTable st
    → Returns (add_symbol_to_table host link_size st name address) (Added st name address)
add_symbol_to_table-Added host link_size st name address h =
    elim (Option-cases (find_in name (bucket_of st.buckets name))) [
      | inr (t, there) ↦ present host link_size st name address h t there
      | inl absent ↦
          let st' = set_symbol_table_status st ok in
          search host link_size st name address h absent
            (find_symbol_by_address-Found st' address h.ascending)
    ]
