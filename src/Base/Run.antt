-- ===== src/Base/Run.antt =====
-- How a call ends: with a result, by dereferencing NULL, by a failed `assert` (assertions are
-- compiled in), by an access outside an object, or not within the fuel of a loop's model.
use mathlib.Core.Path.{◌≡◌, refl, ap, ◌∙◌}
use mathlib.Core.Bool.{Bool, true, false}
use mathlib.Core.Option.{Option, none, some}

pub data Run {ℓ} (A : Type ℓ) : Type ℓ where
  done : A → Run A
  null_dereference assertion_failed out_of_bounds unfinished : Run A

infixl 5 ◌>>=◌
abbrev pub ◌>>=◌ {ℓ κ} : {A : Type ℓ} {B : Type κ} → Run A → (A → Run B) → Run B
done a >>= f = f a
null_dereference >>= f = null_dereference
assertion_failed >>= f = assertion_failed
out_of_bounds >>= f = out_of_bounds
unfinished >>= f = unfinished

infixl 5 ◌>>◌
abbrev pub ◌>>◌ {ℓ} : {B : Type ℓ} → Run (Unit {0}) → Run B → Run B
m >> k = m >>= λ _. k

abbrev pub assert : Bool → Run (Unit {0})
assert true = done tt
assert false = assertion_failed

-- A loop of the model that hands back nothing has used up its fuel.
abbrev pub from_option {ℓ} : {A : Type ℓ} → Option A → Run A
from_option none = unfinished
from_option (some a) = done a

-- The run ends with a result that satisfies `P`.
abbrev pub Returns {ℓ κ} : {A : Type ℓ} → Run A → (A → Type κ) → Type (ℓ ⊔ κ)
Returns {A} r P = (a : A) × (r ≡ done a) × P a

pub >>=-eq-done {ℓ κ} :
    {A : Type ℓ} {B : Type κ} (r : Run A) (f : A → Run B) {b : B}
    → (r >>= f) ≡ done b
    → (a : A) × (r ≡ done a) × (f a ≡ done b)
>>=-eq-done (done a) f h = (a, refl, h)
>>=-eq-done null_dereference f h = cc
>>=-eq-done assertion_failed f h = cc
>>=-eq-done out_of_bounds f h = cc
>>=-eq-done unfinished f h = cc

pub >>=-Returns {ℓ κ} :
    {A : Type ℓ} {B : Type κ} {r : Run A} {f : A → Run B} {P : A → Type ℓ} {Q : B → Type κ}
    → Returns r P
    → ((a : A) → P a → Returns (f a) Q)
    → Returns (r >>= f) Q
>>=-Returns {f} (a, e, p) next = let (b, run, q) = next a p in (b, ap (λ r. r >>= f) e ∙ run, q)
