-- ===== src/Base/Digits.antt =====
-- Lists of characters on which a test holds, and numbers in decimal.
use Prim.Native.Nat.{ℕ, zero, suc, ◌+◌, ◌-◌, ◌*◌, ◌/◌, ◌%◌, ◌^◌, ◌≤◌, ◌<◌}
use mathlib.Core.Bool.{Bool, true, false, ◌&&◌}
use mathlib.Core.List.{[], ◌∷◌, ◌++◌}
use mathlib.Core.Logic.{inl, inr}
use mathlib.Core.Path.{◌≡◌, refl, sym, ap, ◌∙◌, subst}
use native.Mathlib.Omega.{arith}
use unlambda.Base.Seq.{length}
use unlambda.Base.Test.{ltb, Bool-cases}
use unlambda.Base.Text.{Text, is_digit, first_char, take_while, drop_while, digits_of, decimal}

-- The test holds of every character.
abbrev pub All : (ℕ → Bool) → Text → Type 0
All f [] = Unit
All f (c ∷ cs) = (f c ≡ true) × All f cs

abbrev pub all : (ℕ → Bool) → Text → Bool
all f [] = true
all f (c ∷ cs) = f c && all f cs

pub all→All : (f : ℕ → Bool) (xs : Text) → all f xs ≡ true → All f xs
all→All f [] e = tt
all→All f (c ∷ cs) e = elim (Bool-cases (f c)) [
  | inl h ↦ (h, all→All f cs (ground (arith, e, h)))
  | inr h ↦ absurd (ground (arith, e, h))
]

-- The number that digits spell behind another, without a bound.
abbrev pub value_from : ℕ → Text → ℕ
value_from n [] = n
value_from n (c ∷ cs) = value_from (n * 10 + (c - b'0')) cs

pub le-value_from : (ds : Text) (n : ℕ) → n ≤ value_from n ds
le-value_from [] n = omega arith
le-value_from (c ∷ ds) n = omega (arith, le-value_from ds (n * 10 + (c - b'0')))

pub drop_while-append :
    (f : ℕ → Bool) (xs rest : Text)
    → All f xs
    → f (first_char rest) ≡ false
    → drop_while f (xs ++ rest) ≡ rest
unfolding drop_while
drop_while-append f [] [] _ _ = refl
drop_while-append f [] (c ∷ cs) _ stop = rw stop refl
drop_while-append f (x ∷ xs) rest (here, more) stop =
    rw (here, drop_while-append f xs rest more stop) refl

pub take_while-append :
    (f : ℕ → Bool) (xs rest : Text)
    → All f xs
    → f (first_char rest) ≡ false
    → take_while f (xs ++ rest) ≡ xs
unfolding take_while
take_while-append f [] [] _ _ = refl
take_while-append f [] (c ∷ cs) _ stop = rw stop refl
take_while-append f (x ∷ xs) rest (here, more) stop =
    rw (here, take_while-append f xs rest more stop) refl

pub drop_while-All : (f : ℕ → Bool) (xs : Text) → All f xs → drop_while f xs ≡ []
unfolding drop_while
drop_while-All f [] _ = refl
drop_while-All f (x ∷ xs) (here, more) = rw here (drop_while-All f xs more)

pub take_while-All : (f : ℕ → Bool) (xs : Text) → All f xs → take_while f xs ≡ xs
unfolding take_while
take_while-All f [] _ = refl
take_while-All f (x ∷ xs) (here, more) = rw here (ap (λ t. x ∷ t) (take_while-All f xs more))

abbrev limit : ℕ → ℕ
limit zero = 1
limit (suc fuel) = 10 * limit fuel

value_from-digits_of :
    (fuel n : ℕ) (out : Text)
    → n < limit fuel
    → value_from 0 (digits_of fuel n out) ≡ value_from n out
unfolding digits_of
value_from-digits_of zero n out small = ap (λ k. value_from k out) (omega arith)
value_from-digits_of (suc fuel) n out small =
    let here = (b'0' + n % 10) ∷ out in
    elim (Bool-cases (ltb n 10)) [
      | inl e ↦ rw e (ap (λ k. value_from k out) (ground arith))
      | inr e ↦ rw e (
          value_from-digits_of fuel (n / 10) here (omega arith)
          ∙ ap (λ k. value_from k out) (omega arith))
    ]

digits_of-All : (fuel n : ℕ) (out : Text) → All is_digit out → All is_digit (digits_of fuel n out)
unfolding digits_of
digits_of-All zero n out h = h
digits_of-All (suc fuel) n out h =
    let digit : is_digit (b'0' + n % 10) ≡ true = ground arith in
    elim (Bool-cases (ltb n 10)) [
      | inl e ↦ rw e (digit, h)
      | inr e ↦ rw e (digits_of-All fuel (n / 10) ((b'0' + n % 10) ∷ out) (digit, h))
    ]

length-digits_of : (fuel n : ℕ) (out : Text) → length out ≤ length (digits_of fuel n out)
unfolding digits_of
length-digits_of zero n out = omega arith
length-digits_of (suc fuel) n out =
    let more = length-digits_of fuel (n / 10) ((b'0' + n % 10) ∷ out) in ground (arith, more)

some_digits : (n : ℕ) → 0 < length (decimal n)
unfolding digits_of
some_digits n =
    let more = length-digits_of 19 (n / 10) ((b'0' + n % 10) ∷ []) in ground (arith, more)

-- The digits of a number, of which there is a first one.
pub record Printed (n : ℕ) : Type 0 where
  pub first : ℕ
  pub others : Text
  pub shape : decimal n ≡ first ∷ others
  pub digits : All is_digit (first ∷ others)
  pub value : value_from 0 (first ∷ others) ≡ n

printed : (n : ℕ) (ds : Text) → decimal n ≡ ds → n < 2 ^ 64 → Printed n
printed n [] e small = absurd (omega (arith, some_digits n, ap length e))
printed n (c ∷ cs) e small = record {
  first = c;
  others = cs;
  shape = e;
  digits = subst (All is_digit) e (digits_of-All 20 n [] tt);
  value = ap (value_from 0) (sym e) ∙ value_from-digits_of 20 n [] (omega arith);
}

pub decimal-Printed : (n : ℕ) → n < 2 ^ 64 → Printed n
decimal-Printed n small = printed n (decimal n) refl small

pub is_digit-decimal :
    (n : ℕ) (rest : Text) → n < 2 ^ 64 → is_digit (first_char (decimal n ++ rest)) ≡ true
is_digit-decimal n rest small =
    let d = decimal-Printed n small in
    ap (λ ds. is_digit (first_char (ds ++ rest))) d.shape ∙ d.digits.0
