-- ===== src/Symbols/Addresses.antt =====
-- The binary search of src/symtab.c in the list by address, and the lookups that use it.
use unlambda.Base.{
  ℕ, zero, suc, ◌+◌, ◌-◌, ◌/◌, ◌≤◌, ◌<◌, ◌≡◌, refl, sym, ◌∙◌, ap, inl, inr, Bool-cases, Option,
  none, some, List, [], ◌∷◌, length, take, drop, get_elem?, get_or, get_elem?-get_or, get_elem?-lt,
  ltb, ◌==◌, if◌then◌else◌, arith,
}
use unlambda.Base.Run.{done, Returns}
use unlambda.Symbols.{
  Symbol, SymbolTable, num_symbols, Position, at, missing, search_addresses, find_symbol_by_address,
  before, get_symbol_at_address, get_symbol_before_address, get_symbol_at_or_before_address,
  get_symbol_after_address, get_symbol_at_or_after_address,
}
use unlambda.Symbols.Names.{either}

abbrev pub AllBelow : ℕ → List Symbol → Type 0
AllBelow a [] = Unit
AllBelow a (s ∷ c) = (s.address < a) × AllBelow a c

abbrev pub AllAbove : ℕ → List Symbol → Type 0
AllAbove a [] = Unit
AllAbove a (s ∷ c) = (a < s.address) × AllAbove a c

abbrev pub Ascending : List Symbol → Type 0
Ascending [] = Unit
Ascending (s ∷ c) = AllAbove s.address c × Ascending c

pub AllAbove-le : (a b : ℕ) (c : List Symbol) → b ≤ a → AllAbove a c → AllAbove b c
AllAbove-le a b [] h above = tt
AllAbove-le a b (s ∷ c) h (here, above) = (omega arith, AllAbove-le a b c h above)

AllAbove-get_elem? :
    (a : ℕ) (c : List Symbol) (k : ℕ) (s : Symbol)
    → AllAbove a c
    → get_elem? c k ≡ some s
    → a < s.address
AllAbove-get_elem? a [] k s above e = absurd cc
AllAbove-get_elem? a (t ∷ c) zero s (here, above) e =
    let same : t ≡ s = cc in omega (arith, here, ap (λ (u : Symbol). u.address) same)
AllAbove-get_elem? a (t ∷ c) (suc k) s (here, above) e = AllAbove-get_elem? a c k s above e

-- What the element at an index says about those before it and behind it.
around :
    (c : List Symbol) (k : ℕ) (s : Symbol)
    → Ascending c
    → get_elem? c k ≡ some s
    → AllBelow s.address (take k c)
      × AllAbove s.address (drop (suc k) c)
      × (drop k c ≡ s ∷ drop (suc k) c)
around [] k s up e = absurd cc
around (t ∷ c) zero s (above, up) e =
    let same : t ≡ s = cc in (tt, rw (sym same) above, ap (λ u. u ∷ c) same)
around (t ∷ c) (suc k) s (above, up) e =
    let (below, behind, cut) = around c k s up e in
    ((AllAbove-get_elem? t.address c k s above e, below), behind, cut)

AllBelow-lt : (a b : ℕ) (c : List Symbol) → a ≤ b → AllBelow a c → AllBelow b c
AllBelow-lt a b [] h below = tt
AllBelow-lt a b (s ∷ c) h (here, below) = (omega arith, AllBelow-lt a b c h below)

AllBelow-take :
    (a : ℕ) (c : List Symbol) (k : ℕ) (s : Symbol)
    → get_elem? c k ≡ some s
    → AllBelow a (take k c)
    → s.address < a
    → AllBelow a (take (suc k) c)
AllBelow-take a [] k s e below h = tt
AllBelow-take a (t ∷ c) zero s e below h =
    let same : t ≡ s = cc in (omega (arith, h, ap (λ (u : Symbol). u.address) same), tt)
AllBelow-take a (t ∷ c) (suc k) s e (here, below) h = (here, AllBelow-take a c k s e below h)

-- Where the address stands: at an index, or between two.
abbrev pub Found : List Symbol → ℕ → Position → Type 0
Found c a (at k) =
    (s : Symbol) × (get_elem? c k ≡ some s)
    × (s.address ≡ a)
    × AllBelow a (take k c)
    × AllAbove a (drop (suc k) c)
Found c a (missing i) = (i ≤ length c) × AllBelow a (take i c) × AllAbove a (drop i c)

module _ (c : List Symbol) (a : ℕ) (up : Ascending c) where
  search-Found :
      (fuel i j : ℕ)
      → i ≤ j
      → j ≤ length c
      → j - i < fuel
      → AllBelow a (take i c)
      → AllAbove a (drop j c)
      → Returns (search_addresses fuel c a i j) (Found c a)
  unfolding search_addresses
  search-Found zero i j h inside enough below above = absurd (omega arith)
  search-Found (suc fuel) i j h inside enough below above = elim (Bool-cases (ltb i j)) [
    | inr e ↦
        let same : i ≡ j = ground (arith, e) in
        (missing i, ground (arith, e), (omega arith, below, rw same above))
    | inl e ↦
        let k = (i + j) / 2 in
        let s = get_or c k (record { name = []; address = 0 }) in
        let here = get_elem?-get_or c k (record { name = []; address = 0 }) (ground (arith, e)) in
        let (low, high, cut) = around c k s up here in
        elim (Bool-cases (ltb s.address a)) [
          | inl less ↦
              let next : k + 1 ≡ suc k = omega arith in
              let under = AllBelow-lt s.address a (take k c) (ground (arith, less)) low in
              let (r, run, out) =
                search-Found fuel (k + 1) j (ground (arith, e)) inside (ground (arith, e))
                  (rw next (AllBelow-take a c k s here under (ground (arith, less)))) above in
              (r, ground (arith, e, here, less, run), out)
          | inr not_less ↦ elim (Bool-cases (ltb a s.address)) [
            | inl more ↦
                let (r, run, out) =
                  search-Found fuel i k (ground (arith, e)) (ground (arith, e)) (ground (arith, e))
                    below
                    (rw cut (
                      ground (arith, more),
                      AllAbove-le s.address a (drop (suc k) c) (ground (arith, more)) high,
                    )) in
                (r, ground (arith, e, here, not_less, more, run), out)
            | inr equal ↦ (
              at k,
              ground (arith, e, here, not_less, equal),
              (
                s,
                here,
                ground (arith, not_less, equal),
                AllBelow-lt s.address a (take k c) (ground (arith, not_less, equal)) low,
                AllAbove-le s.address a (drop (suc k) c) (ground (arith, not_less, equal)) high,
              ),
            )
          ]
        ]
  ]

-- The binary search in an ascending list ends within its fuel and never reads outside the list. It
-- finds the address, with smaller ones before it and larger ones behind it, or the place between
-- smaller and larger ones where it would stand.
pub find_symbol_by_address-Found :
    (st : SymbolTable) (a : ℕ)
    → Ascending st.symbols
    → Returns (find_symbol_by_address st a) (Found st.symbols a)
unfolding find_symbol_by_address
find_symbol_by_address-Found st a up =
    search-Found st.symbols a up (suc (num_symbols st)) 0 (num_symbols st) (omega arith)
      (omega arith) (omega arith) tt (drop_all st.symbols)
  where
    drop_all : (c : List Symbol) → AllAbove a (drop (length c) c)
    drop_all [] = tt
    drop_all (s ∷ c) = drop_all c

-- The symbols at, last below and first above an address, by a scan of the list.
abbrev pub at_address : ℕ → List Symbol → Option Symbol
at_address a [] = none
at_address a (s ∷ c) = if s.address == a then some s else at_address a c

abbrev pub last_below : ℕ → List Symbol → Option Symbol
last_below a [] = none
last_below a (s ∷ c) = if ltb s.address a then either (last_below a c) (some s) else last_below a c

abbrev pub first_above : ℕ → List Symbol → Option Symbol
first_above a [] = none
first_above a (s ∷ c) = if ltb a s.address then some s else first_above a c

all_above :
    (a : ℕ) (c : List Symbol)
    → AllAbove a c
    → (at_address a c ≡ none) × (last_below a c ≡ none) × (first_above a c ≡ get_elem? c 0)
all_above a [] h = (refl, refl, refl)
all_above a (s ∷ c) (here, h) =
    let (absent, none_below, first) = all_above a c h in
    (ground (arith, absent), ground (arith, none_below), ground arith)

scans_missing :
    (a : ℕ) (c : List Symbol) (i : ℕ)
    → Found c a (missing i)
    → (at_address a c ≡ none) × (last_below a c ≡ before c i) × (first_above a c ≡ get_elem? c i)
scans_missing a [] zero h = (refl, refl, refl)
scans_missing a [] (suc i) h = absurd (omega arith)
scans_missing a (s ∷ c) zero (inside, below, above) = all_above a (s ∷ c) above
scans_missing a (s ∷ c) (suc zero) (inside, (here, below), above) =
    let (absent, none_below, first) = scans_missing a c zero (omega arith, below, above) in
    (ground (arith, absent), ground (arith, none_below), ground (arith, first))
scans_missing a (s ∷ t ∷ c) (suc (suc i)) (inside, (here, below), above) =
    let (absent, none_below, first) = scans_missing a (t ∷ c) (suc i) (omega arith, below, above) in
    let last = get_elem?-get_or (t ∷ c) i s (omega arith) in
    (ground (arith, absent), ground (arith, none_below, last), ground (arith, first))
scans_missing a (s ∷ []) (suc (suc i)) h = absurd (omega arith)

pub scans_at :
    (a : ℕ) (c : List Symbol) (k : ℕ) (h : Found c a (at k))
    → (at_address a c ≡ some h.0)
      × (last_below a c ≡ before c k)
      × (first_above a c ≡ get_elem? c (suc k))
scans_at a [] k (s, here, e, below, above) = absurd cc
scans_at a (t ∷ c) zero (s, here, e, below, above) =
    let same : t ≡ s = cc in
    let address : t.address ≡ a = ap (λ (u : Symbol). u.address) same ∙ e in
    let (absent, none_below, first) = all_above a c above in
    (
      ground (arith, address, same),
      ground (arith, address, none_below),
      ground (arith, address, first),
    )
scans_at a (t ∷ c) (suc zero) (s, here, e, (first_here, below), above) =
    let (found, none_below, first) = scans_at a c zero (s, here, e, below, above) in
    (ground (arith, found), ground (arith, none_below), ground (arith, first))
scans_at a (t ∷ []) (suc (suc k)) (s, here, e, below, above) = absurd cc
scans_at a (t ∷ u ∷ c) (suc (suc k)) (s, here, e, (first_here, below), above) =
    let (found, none_below, first) = scans_at a (u ∷ c) (suc k) (s, here, e, below, above) in
    let within = get_elem?-lt (t ∷ u ∷ c) (suc (suc k)) s here in
    let last = get_elem?-get_or (u ∷ c) k t (omega (arith, within)) in
    (ground (arith, found), ground (arith, none_below, last), ground (arith, first))

-- What the five lookups by address return, by scans of the list.
abbrev pub Lookups : SymbolTable → ℕ → Type 0
Lookups st a =
    let c = st.symbols in
    (get_symbol_at_address st a ≡ done (at_address a c))
    × (get_symbol_before_address st a ≡ done (last_below a c))
    × (get_symbol_at_or_before_address st a ≡ done (either (at_address a c) (last_below a c)))
    × (get_symbol_after_address st a ≡ done (first_above a c))
    × (get_symbol_at_or_after_address st a ≡ done (either (at_address a c) (first_above a c)))

-- In a table with ascending addresses the five lookups return what a scan of the list finds: the
-- symbol at the address, the last one below it, the first one above it, and the two combinations
-- that prefer the symbol at the address.
pub find_symbol_by_address-Lookups :
    (st : SymbolTable) (a : ℕ) → Ascending st.symbols → Lookups st a
unfolding get_symbol_at_address get_symbol_before_address get_symbol_at_or_before_address
    get_symbol_after_address get_symbol_at_or_after_address
find_symbol_by_address-Lookups st a up = go (find_symbol_by_address-Found st a up)
  where
    go : Returns (find_symbol_by_address st a) (Found st.symbols a) → Lookups st a
    go (at k, run, out) =
        let (found, last, first) = scans_at a st.symbols k out in
        (
          ground (arith, run, found, out.1),
          ground (arith, run, last),
          ground (arith, run, found, out.1),
          ground (arith, run, first),
          ground (arith, run, found, out.1),
        )
    go (missing i, run, out) =
        let (absent, last, first) = scans_missing a st.symbols i out in
        (
          ground (arith, run, absent),
          ground (arith, run, last),
          ground (arith, run, absent, last),
          ground (arith, run, first),
          ground (arith, run, absent, first),
        )
