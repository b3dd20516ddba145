-- ===== src/Memory/Header.antt =====
-- The word before each block of src/vmmem.c: type, size and mark, by the masks of the source.
use Prim.Native.Nat.{bit_and, bit_or}
use unlambda.Base.{
  ℕ, ◌+◌, ◌-◌, ◌*◌, ◌/◌, ◌^◌, ◌≤◌, ◌<◌, ◌≡◌, refl, ◌∙◌, Bool, true, false, ltb, arith,
}
use unlambda.Base.Bits.{bit_and_at, bit_or_at, bit_and-zero, bit_or-zero, zero-bit_or, bit_and-ones}

abbrev pub free_block_type : ℕ
free_block_type = 0

abbrev pub code_block_type : ℕ
code_block_type = 1

abbrev pub state_block_type : ℕ
state_block_type = 2

unfoldable pub get_vmm_block_type : ℕ → ℕ
get_vmm_block_type w = bit_and (w / 2 ^ 56) 3

unfoldable pub set_vmm_block_type : ℕ → ℕ → ℕ
set_vmm_block_type w type = bit_or (bit_and w 0xFCFF_FFFF_FFFF_FFFF) (type * 2 ^ 56)

unfoldable pub get_vmm_block_size : ℕ → ℕ
get_vmm_block_size w = bit_and w 0x00FF_FFFF_FFFF_FFFF

unfoldable pub set_vmm_block_size : ℕ → ℕ → ℕ
set_vmm_block_size w size = bit_or (bit_and w 0xFF00_0000_0000_0000) size

unfoldable pub vmm_block_is_marked : ℕ → Bool
vmm_block_is_marked w = ltb 0 (w / 2 ^ 63)

unfoldable pub clear_vmm_block_mark : ℕ → ℕ
clear_vmm_block_mark w = bit_and w 0x7FFF_FFFF_FFFF_FFFF

unfoldable pub set_vmm_block_mark : ℕ → ℕ
set_vmm_block_mark w = bit_or w 0x8000_0000_0000_0000

abbrev pub bit : Bool → ℕ
bit true = 1
bit false = 0

-- A header by its parts; bits 58 to 62 are unused.
abbrev pub header : Bool → ℕ → ℕ → ℕ
header marked type size = bit marked * 2 ^ 63 + type * 2 ^ 56 + size

-- the byte above the size
abbrev high : Bool → ℕ → ℕ
high marked type = bit marked * 128 + type

header-high : (m : Bool) (t s : ℕ) → header m t s ≡ high m t * 2 ^ 56 + s
header-high m t s = omega arith

module _ (m : Bool) (t s : ℕ) (ht : t < 4) (hs : s < 2 ^ 56) where
  bit_le : bit m ≤ 1
  bit_le = ground arith

  pub header-word : header m t s < 2 ^ 64
  header-word = ground arith

  pub get_vmm_block_size-header : get_vmm_block_size (header m t s) ≡ s
  unfolding get_vmm_block_size
  get_vmm_block_size-header =
      bit_and_at 56 (high m t) s 0 (2 ^ 56 - 1) (header-high m t s) (omega arith) hs (omega arith)
      ∙ omega (arith, bit_and-zero (high m t), bit_and-ones 56 s hs)

  pub get_vmm_block_type-header : get_vmm_block_type (header m t s) ≡ t
  unfolding get_vmm_block_type
  get_vmm_block_type-header =
      bit_and_at 2 (bit m * 32) t 0 3 (omega arith) (omega arith) ht (omega arith)
      ∙ omega (arith, bit_and-zero (bit m * 32), bit_and-ones 2 t ht)

  keep_high : bit_and (header m t s) 0xFF00_0000_0000_0000 ≡ high m t * 2 ^ 56
  keep_high =
      bit_and_at 56 (high m t) s 255 0 (header-high m t s) (omega arith) hs (omega arith)
      ∙ omega (arith, bit_and-zero s, bit_and-ones 8 (high m t) (omega (arith, bit_le)))

  pub set_vmm_block_size-header :
      (s' : ℕ) → s' < 2 ^ 56 → set_vmm_block_size (header m t s) s' ≡ header m t s'
  unfolding set_vmm_block_size
  set_vmm_block_size-header s' h =
      bit_or_at 56 (high m t) 0 0 s' (keep_high ∙ omega arith) (omega arith) (omega arith) h
      ∙ omega (arith, bit_or-zero (high m t), zero-bit_or s')

  clear_type : bit_and (high m t) 252 ≡ bit m * 128
  clear_type =
      bit_and_at 2 (bit m * 32) t 63 0 (omega arith) (omega arith) ht (omega arith)
      ∙ omega (arith, bit_and-zero t, bit_and-ones 6 (bit m * 32) (omega (arith, bit_le)))

  keep_rest : bit_and (header m t s) 0xFCFF_FFFF_FFFF_FFFF ≡ bit m * 128 * 2 ^ 56 + s
  keep_rest =
      bit_and_at 56 (high m t) s 252 (2 ^ 56 - 1) (header-high m t s) (omega arith) hs (omega arith)
      ∙ omega (arith, clear_type, bit_and-ones 56 s hs)

  pub set_vmm_block_type-header :
      (t' : ℕ) → t' < 4 → set_vmm_block_type (header m t s) t' ≡ header m t' s
  unfolding set_vmm_block_type
  set_vmm_block_type-header t' h =
      let put : bit_or (bit m * 128) t' ≡ bit m * 128 + t' =
        bit_or_at 2 (bit m * 32) 0 0 t' (omega arith) (omega arith) (omega arith) h
        ∙ omega (arith, bit_or-zero (bit m * 32), zero-bit_or t') in
      bit_or_at 56 (bit m * 128) s t' 0 keep_rest (omega arith) hs (omega arith)
      ∙ omega (arith, put, bit_or-zero s)

  pub vmm_block_is_marked-header : vmm_block_is_marked (header m t s) ≡ m
  unfolding vmm_block_is_marked
  vmm_block_is_marked-header = ground arith

  pub clear_vmm_block_mark-header : clear_vmm_block_mark (header m t s) ≡ header false t s
  unfolding clear_vmm_block_mark
  clear_vmm_block_mark-header =
      bit_and_at 63 (bit m) (t * 2 ^ 56 + s) 0 (2 ^ 63 - 1) (omega arith) (omega arith)
        (omega arith) (omega arith)
      ∙ omega (arith, bit_and-zero (bit m), bit_and-ones 63 (t * 2 ^ 56 + s) (omega arith))

  one : bit_or (bit m) 1 ≡ 1
  one = elim m as (λ b. bit_or (bit b) 1 ≡ 1) [ true ↦ refl | false ↦ refl ]

  pub set_vmm_block_mark-header : set_vmm_block_mark (header m t s) ≡ header true t s
  unfolding set_vmm_block_mark
  set_vmm_block_mark-header =
      bit_or_at 63 (bit m) (t * 2 ^ 56 + s) 1 0 (omega arith) (omega arith) (omega arith)
        (omega arith)
      ∙ omega (arith, one, bit_or-zero (t * 2 ^ 56 + s))

-- On a header with a mark, a type below 4 and a size below 2 ^ 56, the three readers give back these
-- three parts, and each writer changes its own part and no other.
pub header-parts :
    (m : Bool) (t s t' s' : ℕ)
    → t < 4
    → s < 2 ^ 56
    → t' < 4
    → s' < 2 ^ 56
    → (vmm_block_is_marked (header m t s) ≡ m)
      × (get_vmm_block_type (header m t s) ≡ t)
      × (get_vmm_block_size (header m t s) ≡ s)
      × (set_vmm_block_type (header m t s) t' ≡ header m t' s)
      × (set_vmm_block_size (header m t s) s' ≡ header m t s')
      × (set_vmm_block_mark (header m t s) ≡ header true t s)
      × (clear_vmm_block_mark (header m t s) ≡ header false t s)
header-parts m t s t' s' ht hs ht' hs' = (
  vmm_block_is_marked-header m t s ht hs,
  get_vmm_block_type-header m t s ht hs,
  get_vmm_block_size-header m t s ht hs,
  set_vmm_block_type-header m t s ht hs t' ht',
  set_vmm_block_size-header m t s ht hs s' hs',
  set_vmm_block_mark-header m t s ht hs,
  clear_vmm_block_mark-header m t s ht hs,
)
