-- ===== src/Symbols/Table.antt =====
-- The symbol table of src/symtab.c as a whole: its well-formedness, and growth of the hash table.
use unlambda.Base.{
  ℕ, zero, suc, ◌+◌, ◌*◌, ◌%◌, ◌≤◌, ◌<◌, ◌≡◌, refl, ◌∙◌, ap, inl, inr, true, false, Bool-cases,
  none, some, Option-cases, List, [], ◌∷◌, length, get_or, replicate, get_or-replicate,
  length-replicate, ◌==◌, arith,
}
use unlambda.Base.Host.{Host}
use unlambda.Base.Run.{Returns}
use unlambda.Symbols.{
  Symbol, SymbolTable, num_symbols, num_buckets, bucket_of, hash_name, hash_table_num_buckets,
  rehash, increase_symbol_table_buckets, over_load, make_buckets, find_symbol_by_name,
}
use unlambda.Symbols.Names.{find_in, count, either, last_index, walk_bucket-Walked}
use unlambda.Symbols.Rehash.{
  ArePlaced, ArePlaced-replicate, find_any, either-none, total-bucket_of, rehash-Moved,
  rehash-ArePlaced,
}
use unlambda.Symbols.Addresses.{Ascending}

-- The hash table: every link is in the bucket of its name, and a name is there at most once.
pub record IsHashed (buckets : List (List Symbol)) : Type 0 where
  pub some_bucket : 0 < length buckets
  pub placed : ArePlaced (length buckets) 0 buckets
  pub once : (q : List ℕ) → count q (bucket_of buckets q) ≤ 1

-- No two symbols of a list have the same name.
abbrev pub Distinct : List Symbol → Type 0
Distinct [] = Unit
Distinct (s ∷ c) = (find_in s.name c ≡ none) × Distinct c

-- The whole table: both views hold the same symbols by name, the list ascends by address, has no
-- name twice, and fits its storage.
pub record IsTable (st : SymbolTable) : Type 0 where
  pub hashed : IsHashed st.buckets
  pub agrees : (q : List ℕ) → find_in q (bucket_of st.buckets q) ≡ find_in q st.symbols
  pub ascending : Ascending st.symbols
  pub distinct : Distinct st.symbols
  pub fits : num_symbols st ≤ st.list_capacity
  pub storage : 0 < st.list_capacity

abbrev AllPositive : List ℕ → Type 0
AllPositive [] = Unit
AllPositive (n ∷ ns) = (0 < n) × AllPositive ns

get_or-positive : (ns : List ℕ) (i : ℕ) → AllPositive ns → 0 < get_or ns i 1
get_or-positive [] i h = omega arith
get_or-positive (n ∷ ns) zero (here, h) = here
get_or-positive (n ∷ ns) (suc i) (here, h) = get_or-positive ns i h

abbrev pub fresh : ℕ → List (List Symbol)
fresh n = replicate n []

pub fresh-none : (n : ℕ) (q : List ℕ) → bucket_of (fresh n) q ≡ []
fresh-none n q = get_or-replicate n (hash_name q % length (fresh n)) []

pub empty-IsHashed : (n : ℕ) → 0 < n → IsHashed (fresh n)
empty-IsHashed n pos =
    let size : length (fresh n) ≡ n = length-replicate n [] in
    record {
      some_bucket = omega (arith, size);
      placed = ArePlaced-replicate (length (fresh n)) 0 n;
      once = λ q. rw (fresh-none n q) (omega arith);
    }

module _ (buckets : List (List Symbol)) (n : ℕ) (h : IsHashed buckets) (pos : 0 < n) where
  -- A rehash into fresh buckets keeps what is found, and how often.
  rehash-same :
      (q : List ℕ)
      → (count q (bucket_of (rehash buckets (fresh n)) q) ≡ count q (bucket_of buckets q))
        × (find_in q (bucket_of (rehash buckets (fresh n)) q) ≡ find_in q (bucket_of buckets q))
  rehash-same q =
      let (same, found) = total-bucket_of q buckets h.placed in
      let nothing = fresh-none n q in
      let none_there = ap (count q) nothing in
      let (size, counted, found') =
        rehash-Moved q buckets (fresh n) (empty-IsHashed n pos).some_bucket
          (omega (arith, same, h.once q, none_there)) in
      (
        omega (arith, counted, none_there, same),
        found'
            ∙ ap (λ c. either (find_any q buckets) (find_in q c)) nothing
            ∙ either-none (find_any q buckets)
            ∙ found,
      )

  rehash-IsHashed : IsHashed (rehash buckets (fresh n))
  rehash-IsHashed =
      let start = empty-IsHashed n pos in
      let (placed, size) = rehash-ArePlaced buckets (fresh n) start.placed in
      record {
        some_bucket = omega (arith, size, start.some_bucket);
        placed = rw size placed;
        once = λ q. let (counted, found) = rehash-same q in omega (arith, counted, h.once q);
      }

-- The table with other buckets that find the same.
abbrev pub Grown : SymbolTable → SymbolTable → Type 0
Grown st st' =
    IsTable st'
    × ((bs : List (List Symbol)) × (i : ℕ) × (st'
          ≡ record st { buckets = bs; num_buckets_index = i }))
    × ((q : List ℕ) → find_in q (bucket_of st'.buckets q) ≡ find_in q (bucket_of st.buckets q))

increase-Grown :
    (host : Host) (st : SymbolTable) → IsTable st → Grown st (increase_symbol_table_buckets host st)
unfolding increase_symbol_table_buckets
increase-Grown host st h =
    let index = st.num_buckets_index + 1 in
    let n = get_or hash_table_num_buckets index 1 in
    let pos = get_or-positive hash_table_num_buckets index (omega arith) in
    let bs = rehash st.buckets (fresh n) in
    let grown : Grown st (record st { buckets = bs; num_buckets_index = index }) = (
      record {
        hashed = rehash-IsHashed st.buckets n h.hashed pos;
        agrees = λ q. (rehash-same st.buckets n h.hashed pos q).1 ∙ h.agrees q;
        ascending = h.ascending;
        distinct = h.distinct;
        fits = h.fits;
        storage = h.storage;
      },
      (bs, index, refl),
      λ q. (rehash-same st.buckets n h.hashed pos q).1,
    ) in
    elim (Bool-cases (index == length hash_table_num_buckets)) [
      | inl e ↦ rw e (h, (st.buckets, st.num_buckets_index, refl), λ q. refl)
      | inr e ↦ elim (Option-cases (host.malloc (n * 8))) [
        | inl none_left ↦ rw (e, none_left) (h, (st.buckets, st.num_buckets_index, refl), λ q. refl)
        | inr (p, got) ↦ rw (e, got) grown
      ]
    ]

-- The search for a name that is in the table, or not.
pub search-absent :
    (st : SymbolTable) (name : List ℕ)
    → find_in name (bucket_of st.buckets name) ≡ none
    → find_symbol_by_name st name ≡ (false, last_index (bucket_of st.buckets name))
unfolding find_symbol_by_name
search-absent st name absent = elim (walk_bucket-Walked name (bucket_of st.buckets name)) [
  | inl (i, s, walked, found, here) ↦ absurd cc
  | inr (walked, no_one) ↦ walked
]

pub search-present :
    (st : SymbolTable) (name : List ℕ) (s : Symbol)
    → find_in name (bucket_of st.buckets name) ≡ some s
    → (i : ℕ) × (find_symbol_by_name st name ≡ (true, some i))
unfolding find_symbol_by_name
search-present st name s present = elim (walk_bucket-Walked name (bucket_of st.buckets name)) [
  | inl (i, t, walked, found, here) ↦ (i, walked)
  | inr (walked, no_one) ↦ absurd cc
]

-- Making room in the hash table for a name that is not in it.
pub make_buckets-Grown :
    (host : Host) (st : SymbolTable) (name : List ℕ)
    → IsTable st
    → find_in name (bucket_of st.buckets name) ≡ none
    → Returns
        (make_buckets host st name (last_index (bucket_of st.buckets name)))
        (λ r. Grown st r.0 × (r.1 ≡ last_index (bucket_of r.0.buckets name)))
unfolding make_buckets
make_buckets-Grown host st name h absent =
    elim (Bool-cases (over_load (num_symbols st + 1) (num_buckets st))) [
      | inr e ↦ (
        (st, last_index (bucket_of st.buckets name)),
        rw e refl,
        ((h, (st.buckets, st.num_buckets_index, refl), λ q. refl), refl),
      )
      | inl e ↦
          let st' = increase_symbol_table_buckets host st in
          let grown = increase-Grown host st h in
          let search = search-absent st' name (grown.2 name ∙ absent) in
          ((st', last_index (bucket_of st'.buckets name)), rw (e, search) refl, (grown, refl))
    ]
