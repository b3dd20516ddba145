-- ===== src/Heap/Swept.antt =====
-- The sweep of the garbage collector of src/vmmem.c on the list of blocks, and its state between two
-- rounds.
use unlambda.Base.{
  ℕ, ◌+◌, ◌≤◌, ◌<◌, ◌≡◌, refl, ◌∙◌, ap, ◌⊎◌, true, false, Option, none, some, List, [], ◌∷◌, ◌++◌,
  arith,
}
use unlambda.Memory.Bytes.{Bytes, Agrees, read64}
use unlambda.Memory.Header.{header}
use unlambda.Memory.State.{VmMemory}
use unlambda.Memory.Collect.{Sweep}
use unlambda.Heap.Blocks.{
  Use, Kind, code, state, free, used, Block, block, type_of, span, free_bytes, first_free_of, Tiled,
}
use unlambda.Heap.Tiled.{last_free_of}
use unlambda.Heap.Untouched.{Untouched}

-- An unmarked block joins a free block before it, or becomes one of its own.
abbrev pub merge_last : List Block → ℕ → List Block
merge_last [] s = block free false s ∷ []
merge_last (block free m t ∷ []) s = block free false (t + (8 + s)) ∷ []
merge_last (block (used u) m t ∷ []) s = block (used u) m t ∷ block free false s ∷ []
merge_last (b ∷ c ∷ out) s = b ∷ merge_last (c ∷ out) s

-- The blocks behind those of `out`, in order: the marked ones are kept, without their mark.
abbrev pub swept : List Block → List Block → List Block
swept out [] = out
swept out (block k true s ∷ bs) = swept (out ++ block k false s ∷ []) bs
swept out (block k false s ∷ bs) = swept (merge_last out s) bs

-- The headers of blocks, of which no free one is marked; links are not looked at.
abbrev pub Heads : Bytes → ℕ → List Block → ℕ → Type 0
Heads f a [] end = a ≡ end
Heads f a (block free true s ∷ bs) end = ⊥
Heads f a (block free false s ∷ bs) end =
    (read64 f a ≡ header false 0 s) × (8 ≤ s) × Heads f (a + (8 + s)) bs end
Heads f a (block (used u) m s ∷ bs) end =
    (read64 f a ≡ header m (type_of (used u)) s) × (8 ≤ s) × Heads f (a + (8 + s)) bs end

-- The used blocks have the same contents, headers apart.
abbrev pub Bodies : Bytes → Bytes → ℕ → List Block → Type 0
Bodies f g a [] = Unit
Bodies f g a (block free m s ∷ bs) = Bodies f g (a + (8 + s)) bs
Bodies f g a (block (used u) m s ∷ bs) =
    Agrees f g (a + 8) (a + (8 + s)) × Bodies f g (a + (8 + s)) bs

pub Bodies-Untouched :
    (f g h : Bytes) (a : ℕ) (bs : List Block)
    → Bodies f g a bs
    → Untouched g h a bs
    → Bodies f h a bs
Bodies-Untouched f g h a [] b u = tt
Bodies-Untouched f g h a (block free m s ∷ bs) b u = Bodies-Untouched f g h (a + (8 + s)) bs b u
Bodies-Untouched f g h a (block (used v) m s ∷ bs) (here, b) (same, u) =
    (λ x lo hi. same x (omega arith) hi ∙ here x lo hi, Bodies-Untouched f g h (a + (8 + s)) bs b u)

pub Bodies-append :
    (f g : Bytes) (a mid : ℕ) (pre post : List Block)
    → a + span pre ≡ mid
    → Bodies f g a pre
    → Bodies f g mid post
    → Bodies f g a (pre ++ post)
Bodies-append f g a mid [] post e b c = let here : a ≡ mid = omega arith in rw here c
Bodies-append f g a mid (block free m s ∷ pre) post e b c =
    Bodies-append f g (a + (8 + s)) mid pre post (omega arith) b c
Bodies-append f g a mid (block (used v) m s ∷ pre) post e (here, b) c =
    (here, Bodies-append f g (a + (8 + s)) mid pre post (omega arith) b c)

pub Bodies-before :
    (f g : Bytes) (a : ℕ) (pre post : List Block) → Bodies f g a (pre ++ post) → Bodies f g a pre
Bodies-before f g a [] post b = tt
Bodies-before f g a (block free m s ∷ pre) post b = Bodies-before f g (a + (8 + s)) pre post b
Bodies-before f g a (block (used v) m s ∷ pre) post (here, b) =
    (here, Bodies-before f g (a + (8 + s)) pre post b)

pub Heads-span :
    (f : Bytes) (a : ℕ) (bs : List Block) (end : ℕ) → Heads f a bs end → a + span bs ≡ end
Heads-span f a [] end h = omega (arith, h)
Heads-span f a (block free true s ∷ bs) end h = absurd h
Heads-span f a (block free false s ∷ bs) end (head, big, h) =
    omega (arith, Heads-span f (a + (8 + s)) bs end h)
Heads-span f a (block (used u) m s ∷ bs) end (head, big, h) =
    omega (arith, Heads-span f (a + (8 + s)) bs end h)

pub merge_last-free :
    (pre : List Block) (t s : ℕ)
    → merge_last (pre ++ block free false t ∷ []) s ≡ pre ++ block free false (t + (8 + s)) ∷ []
merge_last-free [] t s = refl
merge_last-free (b ∷ []) t s = refl
merge_last-free (b ∷ c ∷ pre) t s = ap (λ l. b ∷ l) (merge_last-free (c ∷ pre) t s)

pub merge_last-used :
    (pre : List Block) (u : Use) (t s : ℕ)
    → merge_last (pre ++ block (used u) false t ∷ []) s
      ≡ (pre ++ block (used u) false t ∷ []) ++ block free false s ∷ []
merge_last-used [] u t s = refl
merge_last-used (b ∷ []) u t s = refl
merge_last-used (b ∷ c ∷ pre) u t s = ap (λ l. b ∷ l) (merge_last-used (c ∷ pre) u t s)

pub last_free_of-append :
    (a mid : ℕ) (pre post : List Block) (prev : Option ℕ)
    → a + span pre ≡ mid
    → last_free_of a (pre ++ post) prev ≡ last_free_of mid post (last_free_of a pre prev)
last_free_of-append a mid [] post prev e = ap (λ k. last_free_of k post prev) (omega arith)
last_free_of-append a mid (block free m s ∷ pre) post prev e =
    last_free_of-append (a + (8 + s)) mid pre post (some a) (omega arith)
last_free_of-append a mid (block (used u) m s ∷ pre) post prev e =
    last_free_of-append (a + (8 + s)) mid pre post prev (omega arith)

-- The last block behind which the sweep stands.
abbrev pub LastAt : ℕ → List Block → Option ℕ → Type 0
LastAt start out prev =
    ((out ≡ []) × (prev ≡ none))
    ⊎ ((pre : List Block) × (k : Kind) × (t : ℕ) × (out ≡ pre ++ block k false t ∷ [])
        × (prev ≡ some (start + span pre)))

-- The sweep of `m` has made `out` of the blocks below `p`.
pub record SweptTo (m : VmMemory) (out : List Block) (p : ℕ) (s : Sweep) : Type 0 where
  pub tiled : Tiled s.memory.bytes m.heap_start out p 0
  pub bodies : Bodies m.bytes s.memory.bytes m.heap_start out
  pub ahead : (x : ℕ) → p ≤ x → s.memory.bytes x ≡ m.bytes x
  pub below : (x : ℕ) → x < m.heap_start → s.memory.bytes x ≡ m.bytes x
  pub first : s.memory.first_free ≡ first_free_of m.heap_start out 0
  pub count : s.memory.bytes_free ≡ free_bytes out
  pub last_free : s.prev_free ≡ last_free_of m.heap_start out none
  pub last : LastAt m.heap_start out s.prev
  pub size : s.memory.size ≡ m.size
  pub start : s.memory.heap_start ≡ m.heap_start
  pub limit : s.memory.max_size ≡ m.max_size
  pub base : s.memory.base ≡ m.base

pub one_block :
    (f : Bytes) (q : ℕ) (k : Kind) (t end next : ℕ)
    → Tiled f q (block k false t ∷ []) end next
    → (read64 f q ≡ header false (type_of k) t) × (8 ≤ t) × (q + (8 + t) ≡ end)
one_block f q free t end next (head, big, link, reach) = (head, big, reach)
one_block f q (used u) t end next (head, big, reach) = (head, big, reach)

pub type_of-lt : (k : Kind) → type_of k < 4
type_of-lt free = omega arith
type_of-lt (used code) = omega arith
type_of-lt (used state) = omega arith
