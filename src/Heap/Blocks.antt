-- ===== src/Heap/Blocks.antt =====
-- A heap as the list of its blocks, lowest address first, and the well-formedness of a memory that
-- holds such a list.
use unlambda.Base.{ℕ, ◌+◌, ◌^◌, ◌≤◌, ◌<◌, ◌≡◌, Bool, List, [], ◌∷◌}
use unlambda.Memory.Bytes.{Bytes, read64}
use unlambda.Memory.Header.{header}
use unlambda.Memory.State.{VmMemory}

pub data Use : Type 0 where
  code state : Use

pub data Kind : Type 0 where
  free : Kind
  used : Use → Kind

pub data Block : Type 0 where
  block : Kind → Bool → ℕ → Block

abbrev pub type_of : Kind → ℕ
type_of free = 0
type_of (used code) = 1
type_of (used state) = 2

abbrev pub size_of : Block → ℕ
size_of (block k m s) = s

-- the block with its header
abbrev pub extent : Block → ℕ
extent b = 8 + size_of b

abbrev pub span : List Block → ℕ
span [] = 0
span (b ∷ bs) = extent b + span bs

abbrev pub free_bytes : List Block → ℕ
free_bytes [] = 0
free_bytes (block free m s ∷ bs) = s + free_bytes bs
free_bytes (block (used u) m s ∷ bs) = free_bytes bs

-- The first free address of the blocks from `a` on; `next` if none of them is free.
abbrev pub first_free_of : ℕ → List Block → ℕ → ℕ
first_free_of a [] next = next
first_free_of a (block free m s ∷ bs) next = a
first_free_of a (block (used u) m s ∷ bs) next = first_free_of (a + (8 + s)) bs next

-- The bytes from `a` up to `end` hold these blocks, and each free one links to the next, the last
-- to `next`.
abbrev pub Tiled : Bytes → ℕ → List Block → ℕ → ℕ → Type 0
Tiled f a [] end next = a ≡ end
Tiled f a (block free m s ∷ bs) end next =
    (read64 f a ≡ header m 0 s)
    × (8 ≤ s)
    × (read64 f (a + 8) ≡ first_free_of (a + (8 + s)) bs next)
    × Tiled f (a + (8 + s)) bs end next
Tiled f a (block (used u) m s ∷ bs) end next =
    (read64 f a ≡ header m (type_of (used u)) s) × (8 ≤ s) × Tiled f (a + (8 + s)) bs end next

-- The heap of `m` holds the blocks `bs`, and the counters agree with them. The bound on the size
-- is that of the size field of a header; the program area is not empty.
pub record IsHeap (m : VmMemory) (bs : List Block) : Type 0 where
  pub tiled : Tiled m.bytes m.heap_start bs m.size 0
  pub first : m.first_free ≡ first_free_of m.heap_start bs 0
  pub count : m.bytes_free ≡ free_bytes bs
  pub program : 0 < m.heap_start
  pub limited : m.size ≤ m.max_size
  pub small : m.max_size < 2 ^ 56
  pub placed : m.base + m.size < 2 ^ 64
