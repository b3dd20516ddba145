-- ===== src/Symbols/Names.antt =====
-- The search by name of src/symtab.c within one bucket.
use unlambda.Base.{
  ℕ, suc, ◌+◌, ◌≡◌, refl, sym, ◌∙◌, ap, ◌⊎◌, inl, inr, Bool, true, false, Bool-cases, Option, none,
  some, List, [], ◌∷◌, ◌++◌, length, get_elem?, ◌==◌, if◌then◌else◌, arith,
}
use unlambda.Symbols.{
  Symbol, SymbolTable, same_name, bucket_of, walk_bucket, find_symbol_by_name, find_symbol,
}

pub same_name_refl : (a : List ℕ) → same_name a a ≡ true
unfolding same_name
same_name_refl [] = refl
same_name_refl (c ∷ cs) = ground (arith, same_name_refl cs)

pub same_name_eq : (a b : List ℕ) → same_name a b ≡ true → a ≡ b
unfolding same_name
same_name_eq [] [] h = refl
same_name_eq [] (d ∷ ds) h = absurd cc
same_name_eq (c ∷ cs) [] h = absurd cc
same_name_eq (c ∷ cs) (d ∷ ds) h = elim (Bool-cases (c == d)) [
  | inl e ↦
      let head : c ≡ d = ground arith in
      let tail = same_name_eq cs ds (ground (arith, e)) in
      ap (λ x. x ∷ cs) head ∙ ap (λ t. d ∷ t) tail
  | inr e ↦ absurd (ground (arith, e))
]

-- The first symbol of that name in a list.
abbrev pub find_in : List ℕ → List Symbol → Option Symbol
find_in q [] = none
find_in q (s ∷ c) = if same_name q s.name then some s else find_in q c

abbrev pub count : List ℕ → List Symbol → ℕ
count q [] = 0
count q (s ∷ c) = (if same_name q s.name then 1 else 0) + count q c

-- The first of two that is there.
abbrev pub either : Option Symbol → Option Symbol → Option Symbol
either none b = b
either (some s) b = some s

pub find_in-none : (q : List ℕ) (c : List Symbol) → count q c ≡ 0 → find_in q c ≡ none
find_in-none q [] h = refl
find_in-none q (s ∷ c) h = ground (arith, find_in-none q c)

pub count-zero : (q : List ℕ) (c : List Symbol) → find_in q c ≡ none → count q c ≡ 0
count-zero q [] h = refl
count-zero q (s ∷ c) h = ground (arith, count-zero q c)

pub find_in-append :
    (q : List ℕ) (c d : List Symbol) → find_in q (c ++ d) ≡ either (find_in q c) (find_in q d)
find_in-append q [] d = refl
find_in-append q (s ∷ c) d = ground (arith, find_in-append q c d)

pub count-append : (q : List ℕ) (c d : List Symbol) → count q (c ++ d) ≡ count q c + count q d
count-append q [] d = omega arith
count-append q (s ∷ c) d = omega (arith, count-append q c d)

abbrev pub last_index : List Symbol → Option ℕ
last_index [] = none
last_index (s ∷ c) = some (length c)

-- The two ends of the search in a bucket.
abbrev pub Walked : List ℕ → List Symbol → Bool × Option ℕ → Type 0
Walked q c r =
    ((i : ℕ) × (s : Symbol) × (r ≡ (true, some i))
      × (find_in q c ≡ some s)
      × (get_elem? c i ≡ some s))
    ⊎ ((r ≡ (false, last_index c)) × (find_in q c ≡ none))

pub walk_bucket-Walked : (q : List ℕ) (c : List Symbol) → Walked q c (walk_bucket q c)
unfolding walk_bucket
walk_bucket-Walked q [] = inr (refl, refl)
walk_bucket-Walked q (s ∷ []) = elim (Bool-cases (same_name q s.name)) [
  | inl e ↦ inl (0, s, rw e refl, rw e refl, refl)
  | inr e ↦ inr (rw e refl, rw e refl)
]
walk_bucket-Walked q (s ∷ t ∷ rest) = elim (Bool-cases (same_name q s.name)) [
  | inl e ↦ inl (0, s, rw e refl, rw e refl, refl)
  | inr e ↦ elim (walk_bucket-Walked q (t ∷ rest)) [
    | inl (i, u, walked, found, here) ↦ inl (suc i, u, rw (e, walked) refl, rw e found, here)
    | inr (walked, absent) ↦ inr (rw (e, walked) refl, rw e absent)
  ]
]

-- The search by name gives the symbol of that name in the bucket of the name.
pub find_symbol-find_in :
    (st : SymbolTable) (q : List ℕ) → find_symbol st q ≡ find_in q (bucket_of st.buckets q)
unfolding find_symbol find_symbol_by_name
find_symbol-find_in st q = elim (walk_bucket-Walked q (bucket_of st.buckets q)) [
  | inl (i, s, walked, found, here) ↦ rw walked (here ∙ sym found)
  | inr (walked, absent) ↦ rw walked (sym absent)
]
