-- ===== src/Breakpoints/Search.antt =====
-- The searches of src/brkpt.c in an ascending list.
use unlambda.Base.{
  ℕ, zero, suc, ◌+◌, ◌≤◌, ◌<◌, ◌≡◌, refl, inl, inr, Bool, false, ◌||◌, List, [], ◌∷◌, length, take,
  drop, ltb, leb, ◌==◌, Bool-cases, arith,
}
use unlambda.Breakpoints.{
  find_breakpoint_at_or_after, find_breakpoint_after, is_breakpoint, move_cursor,
}

abbrev pub AllAbove : ℕ → List ℕ → Type 0
AllAbove a [] = Unit
AllAbove a (b ∷ bs) = (a < b) × AllAbove a bs

abbrev pub AllBelow : ℕ → List ℕ → Type 0
AllBelow a [] = Unit
AllBelow a (b ∷ bs) = (b < a) × AllBelow a bs

abbrev pub Ascending : List ℕ → Type 0
Ascending [] = Unit
Ascending (b ∷ bs) = AllAbove b bs × Ascending bs

abbrev pub contains : List ℕ → ℕ → Bool
contains [] a = false
contains (b ∷ bs) a = (b == a) || contains bs a

pub contains_none : (a c : ℕ) (bs : List ℕ) → AllAbove c bs → a ≤ c → contains bs a ≡ false
contains_none a c [] above h = refl
contains_none a c (b ∷ bs) (here, above) h = ground (arith, contains_none a c bs above h)

pub AllBelow-le : (a c : ℕ) (bs : List ℕ) → a ≤ c → AllBelow a bs → AllBelow c bs
AllBelow-le a c [] h below = tt
AllBelow-le a c (b ∷ bs) h (here, below) = (omega arith, AllBelow-le a c bs h below)

pub move_cursor-find_breakpoint_at_or_after :
    (bs : List ℕ) (pc c : ℕ) → move_cursor bs pc c ≡ c + find_breakpoint_at_or_after bs pc
unfolding move_cursor find_breakpoint_at_or_after
move_cursor-find_breakpoint_at_or_after [] pc c = omega arith
move_cursor-find_breakpoint_at_or_after (b ∷ bs) pc c =
    ground (arith, move_cursor-find_breakpoint_at_or_after bs pc (suc c))

pub is_breakpoint-contains :
    (bs : List ℕ) (pc : ℕ)
    → Ascending bs
    → is_breakpoint bs (find_breakpoint_at_or_after bs pc) pc ≡ contains bs pc
unfolding is_breakpoint find_breakpoint_at_or_after
is_breakpoint-contains [] pc up = refl
is_breakpoint-contains (b ∷ bs) pc (above, up) = elim (Bool-cases (ltb b pc)) [
  | inl under ↦ ground (arith, under, is_breakpoint-contains bs pc up)
  | inr over ↦ ground (arith, over, contains_none pc b bs above)
]

-- A cursor below the address leaves the search from it the result of the search from the start.
pub from_cursor :
    (bs : List ℕ) (pc c : ℕ)
    → c ≤ length bs
    → AllBelow pc (take c bs)
    → c + find_breakpoint_at_or_after (drop c bs) pc ≡ find_breakpoint_at_or_after bs pc
unfolding find_breakpoint_at_or_after
from_cursor bs pc zero h below = omega arith
from_cursor [] pc (suc c) h below = absurd (omega arith)
from_cursor (b ∷ bs) pc (suc c) h (here, below) =
    ground (arith, from_cursor bs pc c (omega arith) below)

pub find_breakpoint_at_or_after-AllBelow :
    (bs : List ℕ) (pc : ℕ)
    → (find_breakpoint_at_or_after bs pc ≤ length bs)
      × AllBelow pc (take (find_breakpoint_at_or_after bs pc) bs)
unfolding find_breakpoint_at_or_after
find_breakpoint_at_or_after-AllBelow [] pc = (omega arith, tt)
find_breakpoint_at_or_after-AllBelow (b ∷ bs) pc =
    let rest = find_breakpoint_at_or_after-AllBelow bs pc in
    elim (Bool-cases (ltb b pc)) [
      | inl under ↦ rw under (omega (arith, rest.0), (ground arith, rest.1))
      | inr over ↦ rw over (omega arith, tt)
    ]

pub find_breakpoint_after-AllBelow :
    (bs : List ℕ) (last pc : ℕ)
    → last < pc
    → (find_breakpoint_after bs last ≤ length bs)
      × AllBelow pc (take (find_breakpoint_after bs last) bs)
unfolding find_breakpoint_after
find_breakpoint_after-AllBelow [] last pc h = (omega arith, tt)
find_breakpoint_after-AllBelow (b ∷ bs) last pc h =
    let rest = find_breakpoint_after-AllBelow bs last pc h in
    elim (Bool-cases (leb b last)) [
      | inl under ↦ rw under (omega (arith, rest.0), (ground arith, rest.1))
      | inr over ↦ rw over (omega arith, tt)
    ]

-- What is above the program counter is no hit.
pub past :
    (bs : List ℕ) (pc : ℕ)
    → (find_breakpoint_at_or_after (drop (find_breakpoint_after bs pc) bs) pc ≡ 0)
      × (is_breakpoint bs (find_breakpoint_after bs pc) pc ≡ false)
unfolding find_breakpoint_after find_breakpoint_at_or_after is_breakpoint
past [] pc = (refl, refl)
past (b ∷ bs) pc =
    let rest = past bs pc in
    elim (Bool-cases (leb b pc)) [
      | inl under ↦ rw under rest
      | inr over ↦ rw over (ground arith, ground arith)
    ]
