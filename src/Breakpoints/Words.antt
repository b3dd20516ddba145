-- ===== src/Breakpoints/Words.antt =====
-- The breakpoints of src/brkpt.c as the bytes of an array: the place of a new one.
use unlambda.Base.{
  ℕ, ◌*◌, ◌^◌, ◌<◌, ◌≡◌, refl, ap, ◌∙◌, sym, inl, inr, ◌||◌, List, [], ◌∷◌, ◌++◌, append_assoc,
  length, length-append, take, drop, ltb, ◌==◌, Bool-cases, arith, false,
}
use unlambda.Memory.Bytes.{bytes_of, words_of, number_of-bytes_of, length-bytes_of}
use unlambda.Breakpoints.{find_breakpoint_at_or_after, is_breakpoint}
use unlambda.Breakpoints.Search.{AllAbove, AllBelow, Ascending, contains}

abbrev pub stored : List ℕ → List ℕ
stored [] = []
stored (w ∷ ws) = bytes_of 8 w ++ stored ws

words_of-bytes_of :
    (w : ℕ) (rest : List ℕ) → w < 2 ^ 64 → words_of (bytes_of 8 w ++ rest) ≡ w ∷ words_of rest
unfolding words_of bytes_of
words_of-bytes_of w rest small = ap (λ v. v ∷ words_of rest) (number_of-bytes_of 8 w small)

pub words_of-stored : (ws : List ℕ) → AllBelow (2 ^ 64) ws → words_of (stored ws) ≡ ws
unfolding words_of
words_of-stored [] small = refl
words_of-stored (w ∷ ws) (here, small) =
    words_of-bytes_of w (stored ws) here ∙ ap (λ t. w ∷ t) (words_of-stored ws small)

pub stored-append : (ws vs : List ℕ) → stored (ws ++ vs) ≡ stored ws ++ stored vs
stored-append [] vs = refl
stored-append (w ∷ ws) vs =
    ap (λ t. bytes_of 8 w ++ t) (stored-append ws vs)
    ∙ sym (append_assoc (bytes_of 8 w) (stored ws) (stored vs))

pub length-stored : (ws : List ℕ) → length (stored ws) ≡ length ws * 8
length-stored [] = refl
length-stored (w ∷ ws) =
    omega (arith, length-append (bytes_of 8 w) (stored ws), length-bytes_of 8 w, length-stored ws)

-- The list with an address at the place that the search finds.
abbrev pub with_address : List ℕ → ℕ → List ℕ
with_address bs a =
    take (find_breakpoint_at_or_after bs a) bs ++ a ∷ drop (find_breakpoint_at_or_after bs a) bs

pub AllAbove-le : (a c : ℕ) (bs : List ℕ) → a < c → AllAbove c bs → AllAbove a bs
AllAbove-le a c [] h above = tt
AllAbove-le a c (b ∷ bs) h (here, above) = (omega arith, AllAbove-le a c bs h above)

AllAbove-with_address :
    (c a : ℕ) (bs : List ℕ) → c < a → AllAbove c bs → AllAbove c (with_address bs a)
unfolding find_breakpoint_at_or_after
AllAbove-with_address c a [] h above = (h, tt)
AllAbove-with_address c a (b ∷ bs) h (here, above) = elim (Bool-cases (ltb b a)) [
  | inl under ↦ rw under (here, AllAbove-with_address c a bs h above)
  | inr over ↦ rw over (h, (here, above))
]

pub AllBelow-with_address :
    (c a : ℕ) (bs : List ℕ) → a < c → AllBelow c bs → AllBelow c (with_address bs a)
unfolding find_breakpoint_at_or_after
AllBelow-with_address c a [] h below = (h, tt)
AllBelow-with_address c a (b ∷ bs) h (here, below) = elim (Bool-cases (ltb b a)) [
  | inl under ↦ rw under (here, AllBelow-with_address c a bs h below)
  | inr over ↦ rw over (h, (here, below))
]

pub Ascending-with_address :
    (bs : List ℕ) (a : ℕ)
    → Ascending bs
    → is_breakpoint bs (find_breakpoint_at_or_after bs a) a ≡ false
    → Ascending (with_address bs a)
unfolding find_breakpoint_at_or_after is_breakpoint
Ascending-with_address [] a up absent = (tt, tt)
Ascending-with_address (b ∷ bs) a (above, up) absent = elim (Bool-cases (ltb b a)) [
  | inl under ↦ rw under (
    AllAbove-with_address b a bs (ground (arith, under)) above,
    Ascending-with_address bs a up (rw under at absent),
  )
  | inr over ↦
      let here : a < b = ground (arith, over, rw over at absent) in
      rw over ((here, AllAbove-le a b bs here above), (above, up))
]

pub contains-with_address :
    (bs : List ℕ) (a q : ℕ) → contains (with_address bs a) q ≡ ((a == q) || contains bs q)
unfolding find_breakpoint_at_or_after
contains-with_address [] a q = refl
contains-with_address (b ∷ bs) a q = elim (Bool-cases (ltb b a)) [
  | inl under ↦ ground (arith, under, contains-with_address bs a q)
  | inr over ↦ rw over refl
]
