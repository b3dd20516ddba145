-- ===== src/Base/Text.antt =====
-- Text of the C library: a string is its characters up to the final zero, classified as in the C
-- locale, where what is not ASCII is neither a letter nor a digit.
use Prim.Native.Char.{code}
use Prim.Native.Nat.{ℕ, zero, suc, ◌+◌, ◌-◌, ◌/◌, ◌%◌}
use Prim.Native.String.{String}
use mathlib.Core.Bool.{Bool, true, false, ◌&&◌, ◌||◌}
use mathlib.Core.List.{List, [], ◌∷◌}
use mathlib.Core.Option.{Option, none, some}
use mathlib.Core.Path.{◌≡◌, refl}
use native.Mathlib.Omega.{arith}
use unlambda.Base.Host.{Host}
use unlambda.Base.Seq.{length, take}
use unlambda.Base.Test.{ltb, leb, ◌==◌, if◌then◌else◌}

abbrev pub Text : Type 0
Text = List ℕ

-- The bytes of a literal.
abbrev pub codes : String → Text
codes String.[] = []
codes (String.◌∷◌ c s) = code c ∷ codes s

abbrev pub is_digit : ℕ → Bool
is_digit c = leb b'0' c && leb c b'9'

abbrev pub is_alpha : ℕ → Bool
is_alpha c = (leb b'A' c && leb c b'Z') || (leb b'a' c && leb c b'z')

abbrev pub is_alnum : ℕ → Bool
is_alnum c = is_alpha c || is_digit c

-- The character at a pointer, which is the final zero behind the last one.
abbrev pub first_char : Text → ℕ
first_char [] = 0
first_char (c ∷ cs) = c

-- What a loop passes over while the test holds, and where it stops.
unfoldable pub take_while : (ℕ → Bool) → Text → Text
take_while f [] = []
take_while f (c ∷ cs) = let more = take_while f cs in if f c then c ∷ more else []

unfoldable pub drop_while : (ℕ → Bool) → Text → Text
drop_while f [] = []
drop_while f (c ∷ cs) = let more = drop_while f cs in if f c then more else c ∷ cs

-- `%PRIu64`: a 64-bit number has at most twenty digits.
unfoldable pub digits_of : ℕ → ℕ → Text → Text
digits_of zero n out = out
digits_of (suc fuel) n out =
    let here = (b'0' + n % 10) ∷ out in
    let more = digits_of fuel (n / 10) here in if ltb n 10 then here else more

abbrev pub decimal : ℕ → Text
decimal n = digits_of 20 n []

-- What `snprintf` leaves in a buffer of a size.
abbrev pub snprintf : ℕ → Text → Text
snprintf size text = take (size - 1) text

unfoldable pub strdup : Host → Text → Option Text
strdup host s = elim (host.malloc (length s + 1)) [ none ↦ none | some _ ↦ some s ]

pub take_while_pos :
    (f : ℕ → Bool) (c : ℕ) (cs : Text) → f c ≡ true → ltb 0 (length (take_while f (c ∷ cs))) ≡ true
unfolding take_while
take_while_pos f c cs h = rw h (ground arith)

pub split_first : (p : Text) → (first_char p == 0) ≡ false → (c : ℕ) × (cs : Text) × (p ≡ c ∷ cs)
split_first [] h = absurd (ground arith)
split_first (c ∷ cs) h = (c, cs, refl)
