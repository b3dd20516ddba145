-- ===== src/Symbols/Insert.antt =====
-- The two insertions that `addSymbolToTable` of src/symtab.c makes.
use unlambda.Base.{
  ℕ, zero, suc, ◌+◌, ◌*◌, ◌%◌, ◌≤◌, ◌<◌, ◌≡◌, refl, sym, ◌∙◌, ap, inl, inr, true, Bool-cases,
  Option, none, some, Option-cases, List, [], ◌∷◌, ◌++◌, length, get_or, set, take, drop,
  length-set, ◌==◌, if◌then◌else◌, Return, success, failure, arith, min,
}
use unlambda.Base.Host.{Host}
use unlambda.Base.Run.{Returns}
use unlambda.Symbols.{
  Symbol, SymbolTable, allocation_failed, num_symbols, set_symbol_table_status, bucket_of,
  hash_name, same_name, increase_address_list_size, insert_into_address_list,
}
use unlambda.Symbols.Names.{
  same_name_refl, same_name_eq, find_in, count, count-zero, find_in-append, count-append,
}
use unlambda.Symbols.Rehash.{BelongTo, BelongTo-get_or, ArePlaced-set, bucket_of-set, either-none}
use unlambda.Symbols.Addresses.{AllAbove, AllBelow, Ascending}
use unlambda.Symbols.Table.{Distinct, IsHashed}

abbrev pub with_symbol : Symbol → Option Symbol → List ℕ → Option Symbol
with_symbol s other q = if same_name q s.name then some s else other

BelongTo-append :
    (n i : ℕ) (c d : List Symbol) → BelongTo n i c → BelongTo n i d → BelongTo n i (c ++ d)
BelongTo-append n i [] d h g = g
BelongTo-append n i (s ∷ c) d (here, h) g = (here, BelongTo-append n i c d h g)

-- A symbol of a new name at the end of its bucket.
module _ (bs : List (List Symbol)) (s : Symbol) (h : IsHashed bs)
    (absent : find_in s.name (bucket_of bs s.name) ≡ none) where
  abbrev index : ℕ
  index = hash_name s.name % length bs

  abbrev pub linked : List (List Symbol)
  linked = set bs index (bucket_of bs s.name ++ s ∷ [])

  pub linked-same :
      (q : List ℕ)
      → (count q (bucket_of linked q) ≤ 1)
        × (find_in q (bucket_of linked q) ≡ with_symbol s (find_in q (bucket_of bs q)) q)
  linked-same q =
      let c = bucket_of bs s.name in
      elim (bucket_of-set q s.name bs (c ++ s ∷ []) h.some_bucket) [
        | inr (other, e) ↦
            (omega (arith, ap (count q) e, h.once q), ap (find_in q) e ∙ rw other refl)
        | inl (same, e) ↦
            let kept : c ≡ bucket_of bs q = ap (λ i. get_or bs i []) (sym same) in
            let counted = ap (count q) e ∙ count-append q c (s ∷ []) in
            let found = ap (find_in q) e ∙ find_in-append q c (s ∷ []) in
            elim (Bool-cases (same_name q s.name)) [
              | inl f ↦
                  let name = same_name_eq q s.name f in
                  let none_here : find_in q c ≡ none = ap (λ t. find_in t c) name ∙ absent in
                  (
                    ground (arith, counted, f, count-zero q c none_here),
                    found ∙ rw (none_here, f) refl,
                  )
              | inr f ↦ (
                ground (arith, counted, f, ap (count q) kept, h.once q),
                found ∙ rw f (either-none (find_in q c) ∙ ap (find_in q) kept),
              )
            ]
      ]

  pub linked-IsHashed : IsHashed linked
  linked-IsHashed =
      let size = length-set bs index (bucket_of bs s.name ++ s ∷ []) in
      record {
        some_bucket = omega (arith, size, h.some_bucket);
        placed = rw size (
            ArePlaced-set (length bs) 0 index bs (bucket_of bs s.name ++ s ∷ []) h.placed (
              BelongTo-append (length bs) (0 + index) (bucket_of bs s.name) (s ∷ [])
                (BelongTo-get_or (length bs) 0 index bs h.placed) (omega arith, tt)));
        once = λ q. (linked-same q).0;
      }

AllAbove-insert :
    (a : ℕ) (c : List Symbol) (i : ℕ) (s : Symbol)
    → a < s.address
    → AllAbove a c
    → AllAbove a (take i c ++ s ∷ drop i c)
AllAbove-insert a c zero s h above = (h, above)
AllAbove-insert a [] (suc i) s h above = (h, tt)
AllAbove-insert a (t ∷ c) (suc i) s h (here, above) = (here, AllAbove-insert a c i s h above)

pub Ascending-insert :
    (c : List Symbol) (i : ℕ) (s : Symbol)
    → Ascending c
    → AllBelow s.address (take i c)
    → AllAbove s.address (drop i c)
    → Ascending (take i c ++ s ∷ drop i c)
Ascending-insert c zero s up below above = (above, up)
Ascending-insert [] (suc i) s up below above = (tt, tt)
Ascending-insert (t ∷ c) (suc i) s (over, up) (here, below) above =
    (AllAbove-insert t.address c i s here over, Ascending-insert c i s up below above)

pub find_in-insert :
    (q : List ℕ) (c : List Symbol) (i : ℕ) (s : Symbol)
    → find_in s.name c ≡ none
    → find_in q (take i c ++ s ∷ drop i c) ≡ with_symbol s (find_in q c) q
find_in-insert q c zero s absent = refl
find_in-insert q [] (suc i) s absent = refl
find_in-insert q (t ∷ c) (suc i) s absent = elim (Bool-cases (same_name q t.name)) [
  | inr e ↦ ground (arith, e, find_in-insert q c i s (ground (arith, absent)))
  | inl e ↦ elim (Bool-cases (same_name q s.name)) [
    | inr f ↦ ground (arith, e, f)
    | inl f ↦
        let name = sym (same_name_eq q s.name f) ∙ same_name_eq q t.name e in
        let hit : same_name s.name t.name ≡ true = rw name (same_name_refl t.name) in
        absurd (ground (arith, absent, hit))
  ]
]

pub Distinct-insert :
    (c : List Symbol) (i : ℕ) (s : Symbol)
    → find_in s.name c ≡ none
    → Distinct c
    → Distinct (take i c ++ s ∷ drop i c)
Distinct-insert c zero s absent d = (absent, d)
Distinct-insert [] (suc i) s absent d = (absent, tt)
Distinct-insert (t ∷ c) (suc i) s absent (alone, d) =
    let absent' : find_in s.name c ≡ none = ground (arith, absent) in
    elim (Bool-cases (same_name t.name s.name)) [
      | inr e ↦ (
        find_in-insert t.name c i s absent' ∙ ground (arith, e, alone),
        Distinct-insert c i s absent' d,
      )
      | inl e ↦
          let hit : same_name s.name t.name ≡ true =
            rw (same_name_eq t.name s.name e) (same_name_refl s.name) in
          absurd (ground (arith, absent, hit))
    ]

-- What the insertion into the address list leaves, by its return code.
abbrev pub Listed : SymbolTable → Symbol → ℕ → SymbolTable × Return → Type 0
Listed st s i (st', success) =
    (start : ℕ) × (capacity : ℕ) × (num_symbols st < capacity)
    × (st' ≡ record st {
      list_start = start;
      symbols = take i st.symbols ++ s ∷ drop i st.symbols;
      list_capacity = capacity;
    })
Listed st s i (st', failure) = st' ≡ set_symbol_table_status st allocation_failed

pub insert_into_address_list-Listed :
    (host : Host) (st : SymbolTable) (s : Symbol) (i : ℕ)
    → num_symbols st ≤ st.list_capacity
    → 0 < st.list_capacity
    → num_symbols st < st.max_size
    → Returns (insert_into_address_list host st s i) (Listed st s i)
unfolding insert_into_address_list increase_address_list_size
insert_into_address_list-Listed host st s i fits storage room =
    let added = take i st.symbols ++ s ∷ drop i st.symbols in
    elim (Bool-cases (num_symbols st == st.list_capacity)) [
      | inr e ↦ (
        (record st { symbols = added }, success),
        ground (arith, e),
        (st.list_start, st.list_capacity, ground (arith, e), refl),
      )
      | inl e ↦
          let size = min (st.list_capacity * 2) st.max_size in
          let more : num_symbols st < size = ground (arith, e) in
          elim (Option-cases (host.realloc st.list_start (size * 8))) [
            | inl none_left ↦ (
              (set_symbol_table_status st allocation_failed, failure),
              ground (arith, e, none_left),
              refl,
            )
            | inr (p, got) ↦ (
              (record st { list_start = p; symbols = added; list_capacity = size }, success),
              ground (arith, e, got, more),
              (p, size, more, refl),
            )
          ]
    ]
