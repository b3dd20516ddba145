-- ===== src/Memory/Bytes.antt =====
-- Bytes at addresses, and words as their bytes, lowest first (the order of the host, x86-64).
-- A memory is a function on all addresses: what an operation does beyond the end of its block shows
-- as a change there.
use unlambda.Base.{
  ℕ, zero, suc, ◌+◌, ◌*◌, ◌/◌, ◌%◌, ◌^◌, ◌≤◌, ◌<◌, ◌≡◌, refl, ap, ◌⊎◌, List, [], ◌∷◌, length, ◌==◌,
  if◌then◌else◌, arith,
}
use native.Mathlib.Nat.{pow-suc}

abbrev pub Bytes : Type 0
Bytes = ℕ → ℕ

abbrev pub store_byte : Bytes → ℕ → ℕ → Bytes
store_byte f a v x = if x == a then v else f x

unfoldable pub write_bytes : Bytes → ℕ → List ℕ → Bytes
write_bytes f a [] = f
write_bytes f a (v ∷ vs) = write_bytes (store_byte f a v) (a + 1) vs

unfoldable pub read_bytes : Bytes → ℕ → ℕ → List ℕ
read_bytes f a zero = []
read_bytes f a (suc n) = f a ∷ read_bytes f (a + 1) n

-- `n` bytes of a number, and the number that bytes stand for
unfoldable pub bytes_of : ℕ → ℕ → List ℕ
bytes_of zero v = []
bytes_of (suc n) v = v % 256 ∷ bytes_of n (v / 256)

unfoldable pub number_of : List ℕ → ℕ
number_of [] = 0
number_of (b ∷ bs) = b + 256 * number_of bs

-- The words of a run of bytes whose length is a multiple of 8.
unfoldable pub words_of : List ℕ → List ℕ
words_of (a ∷ b ∷ c ∷ d ∷ e ∷ f ∷ g ∷ h ∷ rest) =
    number_of (a ∷ b ∷ c ∷ d ∷ e ∷ f ∷ g ∷ h ∷ []) ∷ words_of rest
words_of _ = []

unfoldable pub read64 : Bytes → ℕ → ℕ
read64 f a = number_of (read_bytes f a 8)

unfoldable pub write64 : Bytes → ℕ → ℕ → Bytes
write64 f a v = write_bytes f a (bytes_of 8 v)

unfoldable pub read32 : Bytes → ℕ → ℕ
read32 f a = number_of (read_bytes f a 4)

unfoldable pub write32 : Bytes → ℕ → ℕ → Bytes
write32 f a v = write_bytes f a (bytes_of 4 v)

-- `g` holds the same bytes as `f` from `lo` up to `hi`
abbrev pub Agrees : Bytes → Bytes → ℕ → ℕ → Type 0
Agrees f g lo hi = (x : ℕ) → lo ≤ x → x < hi → g x ≡ f x

pub length-bytes_of : (n v : ℕ) → length (bytes_of n v) ≡ n
unfolding bytes_of
length-bytes_of zero v = refl
length-bytes_of (suc n) v = ap suc (length-bytes_of n (v / 256))

pub number_of-bytes_of : (n v : ℕ) → v < 256 ^ n → number_of (bytes_of n v) ≡ v
unfolding bytes_of number_of
number_of-bytes_of zero v h = omega arith
number_of-bytes_of (suc n) v h =
    omega (arith, pow-suc 256 n, number_of-bytes_of n (v / 256) (omega (arith, pow-suc 256 n)))

pub write_bytes-outside :
    (f : Bytes) (a : ℕ) (vs : List ℕ) (x : ℕ)
    → (x < a) ⊎ (a + length vs ≤ x)
    → write_bytes f a vs x ≡ f x
unfolding write_bytes
write_bytes-outside f a [] x h = refl
write_bytes-outside f a (v ∷ vs) x h =
    ground (arith, write_bytes-outside (store_byte f a v) (a + 1) vs x)

write_bytes_congr :
    (f g : Bytes) (a : ℕ) (vs : List ℕ) (x : ℕ)
    → g x ≡ f x
    → write_bytes g a vs x ≡ write_bytes f a vs x
unfolding write_bytes
write_bytes_congr f g a [] x h = h
write_bytes_congr f g a (v ∷ vs) x h =
    write_bytes_congr (store_byte f a v) (store_byte g a v) (a + 1) vs x (ground arith)

pub read_bytes-Agrees :
    {f g : Bytes} (a n : ℕ) → Agrees f g a (a + n) → read_bytes g a n ≡ read_bytes f a n
unfolding read_bytes
read_bytes-Agrees a zero h = refl
read_bytes-Agrees a (suc n) h =
    ground (arith, h a, read_bytes-Agrees (a + 1) n (λ x lo hi. h x (omega arith) (omega arith)))

pub read_bytes-write_bytes :
    (f : Bytes) (a : ℕ) (vs : List ℕ) → read_bytes (write_bytes f a vs) a (length vs) ≡ vs
unfolding read_bytes write_bytes
read_bytes-write_bytes f a [] = refl
read_bytes-write_bytes f a (v ∷ vs) = ground (
  arith,
  write_bytes-outside (store_byte f a v) (a + 1) vs a,
  read_bytes-write_bytes (store_byte f a v) (a + 1) vs,
)

pub read64-Agrees : {f g : Bytes} (a : ℕ) → Agrees f g a (a + 8) → read64 g a ≡ read64 f a
unfolding read64
read64-Agrees a h = ap number_of (read_bytes-Agrees a 8 h)

pub read64-write64 : (f : Bytes) (a v : ℕ) → v < 2 ^ 64 → read64 (write64 f a v) a ≡ v
unfolding read64 write64
read64-write64 f a v h =
    let bytes : read_bytes (write_bytes f a (bytes_of 8 v)) a 8 ≡ bytes_of 8 v =
      rw (length-bytes_of 8 v) at (read_bytes-write_bytes f a (bytes_of 8 v)) in
    rw bytes (number_of-bytes_of 8 v h)

pub write64-outside : (f : Bytes) (a v x : ℕ) → (x < a) ⊎ (a + 8 ≤ x) → write64 f a v x ≡ f x
unfolding write64
write64-outside f a v x h =
    write_bytes-outside f a (bytes_of 8 v) x (ground (arith, length-bytes_of 8 v))

pub read64-write64_ne :
    (f : Bytes) (a v b : ℕ) → (b + 8 ≤ a) ⊎ (a + 8 ≤ b) → read64 (write64 f a v) b ≡ read64 f b
read64-write64_ne f a v b h = read64-Agrees b (λ x lo hi. write64-outside f a v x (ground arith))

-- A write has the same effect on two memories where these agree.
pub write64_congr : (f g : Bytes) (a v x : ℕ) → g x ≡ f x → write64 g a v x ≡ write64 f a v x
unfolding write64
write64_congr f g a v x h = write_bytes_congr f g a (bytes_of 8 v) x h
