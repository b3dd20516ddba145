-- ===== src/Heap/Tiled.antt =====
-- Laws of `Tiled`: its extent, its frame, and how it comes apart.
use unlambda.Base.{ℕ, ◌+◌, ◌≤◌, ◌≡◌, refl, sym, ◌∙◌, ap, List, [], ◌∷◌, ◌++◌, Option, some, arith}
use unlambda.Memory.Bytes.{Bytes, Agrees, read64-Agrees}
use unlambda.Heap.Blocks.{free, used, Block, block, span, first_free_of, Tiled}

pub Tiled-span :
    (f : Bytes) (a : ℕ) (bs : List Block) (end next : ℕ) → Tiled f a bs end next → a + span bs ≡ end
Tiled-span f a [] end next t = omega arith
Tiled-span f a (block free m s ∷ bs) end next (_, _, _, t) =
    omega (arith, Tiled-span f (a + (8 + s)) bs end next t)
Tiled-span f a (block (used u) m s ∷ bs) end next (_, _, t) =
    omega (arith, Tiled-span f (a + (8 + s)) bs end next t)

pub Agrees-within :
    (f g : Bytes) (lo hi lo' hi' : ℕ) → Agrees f g lo hi → lo ≤ lo' → hi' ≤ hi → Agrees f g lo' hi'
Agrees-within f g lo hi lo' hi' h p q x a b = h x (omega arith) (omega arith)

-- Blocks stay where they are under a change of bytes elsewhere.
pub Tiled-Agrees :
    (f g : Bytes) (a : ℕ) (bs : List Block) (end next : ℕ)
    → Agrees f g a end
    → Tiled f a bs end next
    → Tiled g a bs end next
Tiled-Agrees f g a [] end next h t = t
Tiled-Agrees f g a (block free m s ∷ bs) end next h (head, big, link, t) =
    let reach = Tiled-span f (a + (8 + s)) bs end next t in
    (
      read64-Agrees a (Agrees-within f g a end a (a + 8) h (omega arith) (omega arith)) ∙ head,
      big,
      read64-Agrees (a + 8)
            (Agrees-within f g a end (a + 8) (a + 8 + 8) h (omega arith) (omega arith))
          ∙ link,
      Tiled-Agrees f g (a + (8 + s)) bs end next
          (Agrees-within f g a end (a + (8 + s)) end h (omega arith) (omega arith)) t,
    )
Tiled-Agrees f g a (block (used u) m s ∷ bs) end next h (head, big, t) =
    let reach = Tiled-span f (a + (8 + s)) bs end next t in
    (
      read64-Agrees a (Agrees-within f g a end a (a + 8) h (omega arith) (omega arith)) ∙ head,
      big,
      Tiled-Agrees f g (a + (8 + s)) bs end next
          (Agrees-within f g a end (a + (8 + s)) end h (omega arith) (omega arith)) t,
    )

pub first_free_of-append :
    (a mid : ℕ) (pre post : List Block) (next : ℕ)
    → a + span pre ≡ mid
    → first_free_of a (pre ++ post) next ≡ first_free_of a pre (first_free_of mid post next)
first_free_of-append a mid [] post next e = ap (λ k. first_free_of k post next) (omega arith)
first_free_of-append a mid (block free m s ∷ pre) post next e = refl
first_free_of-append a mid (block (used u) m s ∷ pre) post next e =
    first_free_of-append (a + (8 + s)) mid pre post next (omega arith)

pub Tiled-append :
    (f : Bytes) (a mid : ℕ) (pre post : List Block) (end next : ℕ)
    → Tiled f a pre mid (first_free_of mid post next)
    → Tiled f mid post end next
    → Tiled f a (pre ++ post) end next
Tiled-append f a mid [] post end next t u = rw t u
Tiled-append f a mid (block free m s ∷ pre) post end next (head, big, link, t) u = (
  head,
  big,
  link
      ∙ sym (
          first_free_of-append (a + (8 + s)) mid pre post next
            (Tiled-span f (a + (8 + s)) pre mid (first_free_of mid post next) t)),
  Tiled-append f (a + (8 + s)) mid pre post end next t u,
)
Tiled-append f a mid (block (used v) m s ∷ pre) post end next (head, big, t) u =
    (head, big, Tiled-append f (a + (8 + s)) mid pre post end next t u)

pub Tiled-split :
    (f : Bytes) (a mid : ℕ) (pre post : List Block) (end next : ℕ)
    → a + span pre ≡ mid
    → Tiled f a (pre ++ post) end next
    → Tiled f a pre mid (first_free_of mid post next) × Tiled f mid post end next
Tiled-split f a mid [] post end next e t = let here : a ≡ mid = omega arith in (here, rw here at t)
Tiled-split f a mid (block free m s ∷ pre) post end next e (head, big, link, t) =
    let (left, right) = Tiled-split f (a + (8 + s)) mid pre post end next (omega arith) t in
    (
      (head, big, link ∙ first_free_of-append (a + (8 + s)) mid pre post next (omega arith), left),
      right,
    )
Tiled-split f a mid (block (used u) m s ∷ pre) post end next e (head, big, t) =
    let (left, right) = Tiled-split f (a + (8 + s)) mid pre post end next (omega arith) t in
    ((head, big, left), right)

-- The last free block.
abbrev pub last_free_of : ℕ → List Block → Option ℕ → Option ℕ
last_free_of a [] prev = prev
last_free_of a (block free m s ∷ bs) prev = last_free_of (a + (8 + s)) bs (some a)
last_free_of a (block (used u) m s ∷ bs) prev = last_free_of (a + (8 + s)) bs prev
