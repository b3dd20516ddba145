-- ===== src/Base/Bits.antt =====
-- What `&` and `|` with a mask do to a number that is split at a bit.
use Prim.Native.Nat.{
  ℕ, zero, suc, ◌+◌, ◌-◌, ◌*◌, ◌/◌, ◌%◌, ◌≤◌, ◌<◌, ◌^◌, min, max, bit_and, bit_or, digits, bitwise,
  bit_and-bitwise, bit_or-bitwise,
}
use mathlib.Core.Path.{◌≡◌, refl}
use native.Mathlib.Nat.{le_refl, pow-suc}
use native.Mathlib.Omega.{arith}

-- `digits` counts down a fuel of its own, of which the number itself is enough.
module _ (rest : ℕ → ℕ) (one : ℕ → ℕ → ℕ) where
  more_fuel : (k l x y : ℕ) → x ≤ l → x ≤ k → digits rest one l x y ≡ digits rest one k x y
  more_fuel k (suc l) (suc x) y below under =
      elim k as (λ k. suc x ≤ k → digits rest one (suc l) (suc x) y ≡ digits rest one k (suc x) y) [
        | zero ↦ λ none. absurd (omega arith)
        | suc k' ↦ λ some.
            let halves = more_fuel k' l (suc x / 2) (y / 2) (omega arith) (omega arith) in
            rw halves refl
      ]
        under
  more_fuel k zero (suc x) y below under = absurd (omega arith)
  more_fuel zero zero zero y below under = refl
  more_fuel (suc k) zero zero y below under = refl
  more_fuel zero (suc l) zero y below under = refl
  more_fuel (suc k) (suc l) zero y below under = refl

  last_bit :
      (x y : ℕ)
      → one (suc x % 2) (y % 2) + bitwise rest one (suc x / 2) (y / 2) * 2
        ≡ bitwise rest one (suc x) y
  last_bit x y =
      let halves =
        more_fuel x (suc x / 2) (suc x / 2) (y / 2) (le_refl (suc x / 2)) (omega arith) in
      omega (arith, halves)

or_step : (a b : ℕ) → bit_or a b ≡ bit_or (a / 2) (b / 2) * 2 + max (a % 2) (b % 2)
or_step (suc a) b = simp bit_or-bitwise (omega (arith, last_bit (λ (rest : ℕ). rest) max a b))
or_step zero b = simp bit_or-bitwise (omega arith)

and_step : (a b : ℕ) → bit_and a b ≡ bit_and (a / 2) (b / 2) * 2 + min (a % 2) (b % 2)
and_step (suc a) b = simp bit_and-bitwise (omega (arith, last_bit (λ (rest : ℕ). 0) min a b))
and_step zero b = simp bit_and-bitwise (omega arith)

pow_pos : (k : ℕ) → 0 < 2 ^ k
pow_pos zero = omega arith
pow_pos (suc k) = omega (arith, pow-suc 2 k, pow_pos k)

-- Both operations work on the bits above a bit and below it apart.
halve : (h l q : ℕ) → (h * (q * 2) + l) / 2 ≡ h * q + l / 2
halve h l q = omega arith

halve_rest : (h l q : ℕ) → (h * (q * 2) + l) % 2 ≡ l % 2
halve_rest h l q = omega arith

pub bit_and_split :
    (k h l m r : ℕ)
    → l < 2 ^ k
    → r < 2 ^ k
    → bit_and (h * 2 ^ k + l) (m * 2 ^ k + r) ≡ bit_and h m * 2 ^ k + bit_and l r
bit_and_split zero h zero m zero p q =
    let e : h * 1 + 0 ≡ h = omega arith in
    let f : m * 1 + 0 ≡ m = omega arith in rw (e, f) (omega arith)
bit_and_split zero h (suc l) m r p q = absurd (omega arith)
bit_and_split zero h zero m (suc r) p q = absurd (omega arith)
bit_and_split (suc k) h l m r p q =
    rw (pow-suc, and_step (h * (2 ^ k * 2) + l), halve, halve, halve_rest, halve_rest)
      (omega (
        arith,
        and_step l r,
        bit_and_split k h (l / 2) m (r / 2) (omega (arith, pow-suc 2 k))
            (omega (arith, pow-suc 2 k)),
      ))

pub bit_or_split :
    (k h l m r : ℕ)
    → l < 2 ^ k
    → r < 2 ^ k
    → bit_or (h * 2 ^ k + l) (m * 2 ^ k + r) ≡ bit_or h m * 2 ^ k + bit_or l r
bit_or_split zero h zero m zero p q =
    let e : h * 1 + 0 ≡ h = omega arith in
    let f : m * 1 + 0 ≡ m = omega arith in rw (e, f) (omega arith)
bit_or_split zero h (suc l) m r p q = absurd (omega arith)
bit_or_split zero h zero m (suc r) p q = absurd (omega arith)
bit_or_split (suc k) h l m r p q =
    rw (pow-suc, or_step (h * (2 ^ k * 2) + l), halve, halve, halve_rest, halve_rest)
      (omega (
        arith,
        or_step l r,
        bit_or_split k h (l / 2) m (r / 2) (omega (arith, pow-suc 2 k))
            (omega (arith, pow-suc 2 k)),
      ))

and-zero : (n a : ℕ) → a ≤ n → bit_and a 0 ≡ 0
and-zero n zero h = refl
and-zero zero (suc a) h = absurd (omega arith)
and-zero (suc n) (suc a) h = omega (arith, and_step (suc a) 0, and-zero n (suc a / 2) (omega arith))

pub bit_and-zero : (a : ℕ) → bit_and a 0 ≡ 0
bit_and-zero a = and-zero a a (le_refl a)

or-zero : (n a : ℕ) → a ≤ n → bit_or a 0 ≡ a
or-zero n zero h = refl
or-zero zero (suc a) h = absurd (omega arith)
or-zero (suc n) (suc a) h = omega (arith, or_step (suc a) 0, or-zero n (suc a / 2) (omega arith))

pub bit_or-zero : (a : ℕ) → bit_or a 0 ≡ a
bit_or-zero a = or-zero a a (le_refl a)

pub zero-bit_or : (a : ℕ) → bit_or 0 a ≡ a
zero-bit_or a = simp bit_or-bitwise

-- A mask of `k` ones keeps a number of `k` bits.
pub bit_and-ones : (k a : ℕ) → a < 2 ^ k → bit_and a (2 ^ k - 1) ≡ a
bit_and-ones zero zero h = refl
bit_and-ones zero (suc a) h = absurd (omega arith)
bit_and-ones (suc k) a h =
    let ones : (2 ^ suc k - 1) / 2 ≡ 2 ^ k - 1 = omega (arith, pow-suc 2 k, pow_pos k) in
    rw (and_step, ones)
      (omega (arith, pow-suc 2 k, pow_pos k, bit_and-ones k (a / 2) (omega (arith, pow-suc 2 k))))

-- The same for numbers that are known to split so.
pub bit_and_at :
    (k h l m r : ℕ) {a b : ℕ}
    → a ≡ h * 2 ^ k + l
    → b ≡ m * 2 ^ k + r
    → l < 2 ^ k
    → r < 2 ^ k
    → bit_and a b ≡ bit_and h m * 2 ^ k + bit_and l r
bit_and_at k h l m r e f p q = rw (e, f) (bit_and_split k h l m r p q)

pub bit_or_at :
    (k h l m r : ℕ) {a b : ℕ}
    → a ≡ h * 2 ^ k + l
    → b ≡ m * 2 ^ k + r
    → l < 2 ^ k
    → r < 2 ^ k
    → bit_or a b ≡ bit_or h m * 2 ^ k + bit_or l r
bit_or_at k h l m r e f p q = rw (e, f) (bit_or_split k h l m r p q)
