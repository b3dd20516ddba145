-- ===== src/Symbols/Rehash.antt =====
-- The hash table of src/symtab.c: where links stand, and what a rehash keeps.
use unlambda.Base.{
  ℕ, zero, suc, ◌+◌, ◌%◌, ◌≤◌, ◌<◌, ◌≡◌, ◌≢◌, refl, sym, ◌∙◌, ap, ◌⊎◌, inl, inr, false, Bool-cases,
  Option, none, some, List, [], ◌∷◌, length, get_or, set, replicate, ◌==◌, if◌then◌else◌,
  length-set, get_or-set, get_or-set_ne, arith,
}
use unlambda.Symbols.{
  Symbol, same_name, bucket_of, hash_name, put_link_into_bucket, rehash_bucket, rehash,
}
use unlambda.Symbols.Names.{same_name_eq, find_in, count, either, find_in-none}

-- Every link of the chain belongs into bucket `i` of `n`.
abbrev pub BelongTo : ℕ → ℕ → List Symbol → Type 0
BelongTo n i [] = Unit
BelongTo n i (s ∷ c) = (hash_name s.name % n ≡ i) × BelongTo n i c

-- So do those of the buckets from `i` on.
abbrev pub ArePlaced : ℕ → ℕ → List (List Symbol) → Type 0
ArePlaced n i [] = Unit
ArePlaced n i (c ∷ bs) = BelongTo n i c × ArePlaced n (suc i) bs

pub BelongTo-count :
    (n i : ℕ) (q : List ℕ) (c : List Symbol) → BelongTo n i c → hash_name q % n ≢ i → count q c ≡ 0
BelongTo-count n i q [] h ne = refl
BelongTo-count n i q (s ∷ c) (here, h) ne = elim (Bool-cases (same_name q s.name)) [
  | inl e ↦ absurd (ne (ap (λ t. hash_name t % n) (same_name_eq q s.name e) ∙ here))
  | inr e ↦ ground (arith, e, BelongTo-count n i q c h ne)
]

abbrev pub total : List ℕ → List (List Symbol) → ℕ
total q [] = 0
total q (c ∷ bs) = count q c + total q bs

abbrev pub find_any : List ℕ → List (List Symbol) → Option Symbol
find_any q [] = none
find_any q (c ∷ bs) = either (find_in q c) (find_any q bs)

total-absent :
    (n i : ℕ) (q : List ℕ) (bs : List (List Symbol))
    → ArePlaced n i bs
    → hash_name q % n < i
    → (total q bs ≡ 0) × (find_any q bs ≡ none)
total-absent n i q [] h under = (refl, refl)
total-absent n i q (c ∷ bs) (here, h) under =
    let none_here = BelongTo-count n i q c here (λ e. omega arith) in
    let (none_there, no_find) = total-absent n (suc i) q bs h (omega arith) in
    (omega (arith, none_here, none_there), rw (find_in-none q c none_here) no_find)

pub either-none : (o : Option Symbol) → either o none ≡ o
either-none none = refl
either-none (some s) = refl

total-get_or :
    (n i : ℕ) (q : List ℕ) (bs : List (List Symbol)) (k : ℕ)
    → ArePlaced n i bs
    → hash_name q % n ≡ i + k
    → (total q bs ≡ count q (get_or bs k [])) × (find_any q bs ≡ find_in q (get_or bs k []))
total-get_or n i q [] k h e = (refl, refl)
total-get_or n i q (c ∷ bs) zero (here, h) e =
    let (none_there, no_find) = total-absent n (suc i) q bs h (omega arith) in
    (omega (arith, none_there), rw no_find (either-none (find_in q c)))
total-get_or n i q (c ∷ bs) (suc k) (here, h) e =
    let none_here = BelongTo-count n i q c here (λ f. omega arith) in
    let (same, find) = total-get_or n (suc i) q bs k h (omega arith) in
    (omega (arith, none_here, same), rw (find_in-none q c none_here) find)

-- The links of a table are those of the buckets that they belong to.
pub total-bucket_of :
    (q : List ℕ) (bs : List (List Symbol))
    → ArePlaced (length bs) 0 bs
    → (total q bs ≡ count q (bucket_of bs q)) × (find_any q bs ≡ find_in q (bucket_of bs q))
total-bucket_of q bs h = total-get_or (length bs) 0 q bs (hash_name q % length bs) h (omega arith)

pub ArePlaced-set :
    (n i k : ℕ) (bs : List (List Symbol)) (c : List Symbol)
    → ArePlaced n i bs
    → BelongTo n (i + k) c
    → ArePlaced n i (set bs k c)
ArePlaced-set n i k [] c h g = tt
ArePlaced-set n i zero (d ∷ bs) c (here, h) g = let e : i + 0 ≡ i = omega arith in (rw e at g, h)
ArePlaced-set n i (suc k) (d ∷ bs) c (here, h) g =
    let e : i + suc k ≡ suc i + k = omega arith in
    (here, ArePlaced-set n (suc i) k bs c h (rw e at g))

pub BelongTo-get_or :
    (n i k : ℕ) (bs : List (List Symbol)) → ArePlaced n i bs → BelongTo n (i + k) (get_or bs k [])
BelongTo-get_or n i k [] h = tt
BelongTo-get_or n i zero (c ∷ bs) (here, h) = let e : i + 0 ≡ i = omega arith in rw e here
BelongTo-get_or n i (suc k) (c ∷ bs) (here, h) =
    let e : i + suc k ≡ suc i + k = omega arith in rw e (BelongTo-get_or n (suc i) k bs h)

pub ArePlaced-replicate : (n i k : ℕ) → ArePlaced n i (replicate k [])
ArePlaced-replicate n i zero = tt
ArePlaced-replicate n i (suc k) = (tt, ArePlaced-replicate n (suc i) k)

-- A bucket of the table with the bucket of `s` replaced by `c`.
pub bucket_of-set :
    (q name : List ℕ) (bs : List (List Symbol)) (c : List Symbol)
    → 0 < length bs
    → (hash_name q % length bs ≡ hash_name name % length bs)
        × (bucket_of (set bs (hash_name name % length bs) c) q ≡ c)
      ⊎ ((same_name q name ≡ false)
          × (bucket_of (set bs (hash_name name % length bs) c) q ≡ bucket_of bs q))
bucket_of-set q name bs c pos =
    let size = length-set bs (hash_name name % length bs) c in
    let inside : hash_name name % length bs < length bs = grind arith in
    elim (Bool-cases (hash_name q % length bs == hash_name name % length bs)) [
      | inl e ↦
          let same : hash_name q % length bs ≡ hash_name name % length bs = ground (arith, e) in
          inl (same, rw (size, same) (get_or-set bs (hash_name name % length bs) c [] inside))
      | inr e ↦ inr (
        elim (Bool-cases (same_name q name)) [
          | inl s ↦
              let f = ap (λ t. hash_name t % length bs) (same_name_eq q name s) in
              absurd (ground (arith, e, f))
          | inr s ↦ s
        ],
        rw size (
            get_or-set_ne bs (hash_name name % length bs) (hash_name q % length bs) c []
              (ground (arith, e))),
      )
    ]

find_any-none : (q : List ℕ) (bs : List (List Symbol)) → total q bs ≡ 0 → find_any q bs ≡ none
find_any-none q [] h = refl
find_any-none q (c ∷ bs) h = rw (find_in-none q c (omega arith)) (find_any-none q bs (omega arith))

module _ (q : List ℕ) where
  abbrev is_named : Symbol → ℕ
  is_named s = if same_name q s.name then 1 else 0

  put-count :
      (bs : List (List Symbol)) (s : Symbol)
      → 0 < length bs
      → (count q (bucket_of (put_link_into_bucket bs s) q) ≡ is_named s + count q (bucket_of bs q))
        × (find_in q (bucket_of (put_link_into_bucket bs s) q)
            ≡ (if same_name q s.name then some s else find_in q (bucket_of bs q)))
  unfolding put_link_into_bucket
  put-count bs s pos = elim (bucket_of-set q s.name bs (s ∷ bucket_of bs s.name) pos) [
    | inl (same, e) ↦
        let kept : bucket_of bs s.name ≡ bucket_of bs q = ap (λ i. get_or bs i []) (sym same) in
        (
          ap (count q) e ∙ ap (λ c. is_named s + count q c) kept,
          ap (find_in q) e ∙ ap (λ c. if same_name q s.name then some s else find_in q c) kept,
        )
    | inr (other, e) ↦ (ap (count q) e ∙ rw other (omega arith), ap (find_in q) e ∙ rw other refl)
  ]

  pub length-put :
      (bs : List (List Symbol)) (s : Symbol) → length (put_link_into_bucket bs s) ≡ length bs
  unfolding put_link_into_bucket
  length-put bs s = length-set bs (hash_name s.name % length bs) (s ∷ bucket_of bs s.name)

  -- What moving links into a table leaves for a name that occurs at most once.
  abbrev pub Moved : List (List Symbol) → List (List Symbol) → ℕ → Option Symbol → Type 0
  Moved fresh after n found =
      (length after ≡ length fresh)
      × (count q (bucket_of after q) ≡ n + count q (bucket_of fresh q))
      × (find_in q (bucket_of after q) ≡ either found (find_in q (bucket_of fresh q)))

  rehash_bucket-Moved :
      (c : List Symbol) (fresh : List (List Symbol))
      → 0 < length fresh
      → count q c + count q (bucket_of fresh q) ≤ 1
      → Moved fresh (rehash_bucket c fresh) (count q c) (find_in q c)
  unfolding rehash_bucket
  rehash_bucket-Moved [] fresh pos once = (refl, omega arith, refl)
  rehash_bucket-Moved (s ∷ c) fresh pos once =
      let size = length-put fresh s in
      let (counted, found) = put-count fresh s pos in
      let (size', counted', found') =
        rehash_bucket-Moved c (put_link_into_bucket fresh s) (omega (arith, size))
          (omega (arith, counted)) in
      (
        size' ∙ size,
        omega (arith, counted, counted'),
        elim (Bool-cases (same_name q s.name)) [
          | inl e ↦
              let others : count q c ≡ 0 = ground (arith, e, once) in
              found' ∙ rw (found, e, find_in-none q c others) refl
          | inr e ↦ found' ∙ rw (found, e) refl
        ],
      )

  pub rehash-Moved :
      (bs fresh : List (List Symbol))
      → 0 < length fresh
      → total q bs + count q (bucket_of fresh q) ≤ 1
      → Moved fresh (rehash bs fresh) (total q bs) (find_any q bs)
  unfolding rehash
  rehash-Moved [] fresh pos once = (refl, omega arith, refl)
  rehash-Moved (c ∷ bs) fresh pos once =
      let (size, counted, found) = rehash_bucket-Moved c fresh pos (omega arith) in
      let (size', counted', found') =
        rehash-Moved bs (rehash_bucket c fresh) (omega (arith, size)) (omega (arith, counted)) in
      (
        size' ∙ size,
        omega (arith, counted, counted'),
        found' ∙ ap (either (find_any q bs)) found ∙ elim (Bool-cases (count q c == 0)) [
          | inl e ↦ rw (find_in-none q c (ground (arith, e))) refl
          | inr e ↦ rw (find_any-none q bs (ground (arith, e, once)), either-none) refl
        ],
      )

put-ArePlaced :
    (bs : List (List Symbol)) (s : Symbol)
    → ArePlaced (length bs) 0 bs
    → ArePlaced (length bs) 0 (put_link_into_bucket bs s)
unfolding put_link_into_bucket
put-ArePlaced bs s h =
    let i = hash_name s.name % length bs in
    ArePlaced-set (length bs) 0 i bs (s ∷ get_or bs i []) h
      (omega arith, BelongTo-get_or (length bs) 0 i bs h)

rehash_bucket-ArePlaced :
    (c : List Symbol) (fresh : List (List Symbol))
    → ArePlaced (length fresh) 0 fresh
    → ArePlaced (length fresh) 0 (rehash_bucket c fresh)
      × (length (rehash_bucket c fresh) ≡ length fresh)
unfolding rehash_bucket
rehash_bucket-ArePlaced [] fresh h = (h, refl)
rehash_bucket-ArePlaced (s ∷ c) fresh h =
    let size = length-put [] fresh s in
    let (placed, size') =
      rehash_bucket-ArePlaced c (put_link_into_bucket fresh s)
        (rw size (put-ArePlaced fresh s h)) in
    (rw size at placed, size' ∙ size)

pub rehash-ArePlaced :
    (bs fresh : List (List Symbol))
    → ArePlaced (length fresh) 0 fresh
    → ArePlaced (length fresh) 0 (rehash bs fresh) × (length (rehash bs fresh) ≡ length fresh)
unfolding rehash
rehash-ArePlaced [] fresh h = (h, refl)
rehash-ArePlaced (c ∷ bs) fresh h =
    let (here, size) = rehash_bucket-ArePlaced c fresh h in
    let (placed, size') = rehash-ArePlaced bs (rehash_bucket c fresh) (rw size here) in
    (rw size at placed, size' ∙ size)
