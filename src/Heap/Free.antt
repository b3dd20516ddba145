-- ===== src/Heap/Free.antt =====
-- The free blocks of a list: where the last one is, and what its link is for.
use unlambda.Base.{
  ℕ, ◌+◌, ◌^◌, ◌≤◌, ◌<◌, ◌≡◌, refl, sym, ◌∙◌, ap, ◌⊎◌, inl, inr, Bool, List, [], ◌∷◌, ◌++◌, Option,
  some, arith,
}
use unlambda.Memory.Bytes.{Bytes, write64, read64-write64, read64-write64_ne, write64-outside}
use unlambda.Heap.Blocks.{free, used, Block, block, span, first_free_of, Tiled}
use unlambda.Heap.Tiled.{Tiled-span, Tiled-Agrees, Tiled-append, Tiled-split, last_free_of}

abbrev pub AllUsed : List Block → Type 0
AllUsed [] = Unit
AllUsed (block free m s ∷ bs) = ⊥
AllUsed (block (used u) m s ∷ bs) = AllUsed bs

pub first_free_of-AllUsed :
    (a : ℕ) (bs : List Block) (next : ℕ) → AllUsed bs → first_free_of a bs next ≡ next
first_free_of-AllUsed a [] next h = refl
first_free_of-AllUsed a (block free m s ∷ bs) next h = elim h [ ]
first_free_of-AllUsed a (block (used u) m s ∷ bs) next h =
    first_free_of-AllUsed (a + (8 + s)) bs next h

pub Tiled-relink :
    (f : Bytes) (a : ℕ) (bs : List Block) (end next next' : ℕ)
    → AllUsed bs
    → Tiled f a bs end next
    → Tiled f a bs end next'
Tiled-relink f a [] end next next' h t = t
Tiled-relink f a (block free m s ∷ bs) end next next' h t = elim h [ ]
Tiled-relink f a (block (used u) m s ∷ bs) end next next' h (head, big, t) =
    (head, big, Tiled-relink f (a + (8 + s)) bs end next next' h t)

-- The last free block of `bs` is at `q`, behind `before` and before `after`.
pub record IsLast (a : ℕ) (bs : List Block) (q : ℕ) : Type 0 where
  pub before : List Block
  pub mark : Bool
  pub size : ℕ
  pub after : List Block
  pub shape : bs ≡ before ++ block free mark size ∷ after
  pub rest_used : AllUsed after
  pub place : a + span before ≡ q

pub last_free_of-cases :
    (a : ℕ) (bs : List Block) (prev : Option ℕ)
    → (AllUsed bs × (last_free_of a bs prev ≡ prev))
      ⊎ ((q : ℕ) × (last_free_of a bs prev ≡ some q) × IsLast a bs q)
last_free_of-cases a [] prev = inl (tt, refl)
last_free_of-cases a (block free m s ∷ bs) prev =
    elim (last_free_of-cases (a + (8 + s)) bs (some a)) [
      | inl (none_free, e) ↦ inr (
        a,
        e,
        record {
          before = [];
          mark = m;
          size = s;
          after = bs;
          shape = refl;
          rest_used = none_free;
          place = omega arith;
        },
      )
      | inr (q, e, l) ↦ inr (
        q,
        e,
        record {
          before = block free m s ∷ l.before;
          mark = l.mark;
          size = l.size;
          after = l.after;
          shape = ap (λ t. block free m s ∷ t) l.shape;
          rest_used = l.rest_used;
          place = omega (arith, l.place);
        },
      )
    ]
last_free_of-cases a (block (used u) m s ∷ bs) prev =
    elim (last_free_of-cases (a + (8 + s)) bs prev) [
      | inl r ↦ inl r
      | inr (q, e, l) ↦ inr (
        q,
        e,
        record {
          before = block (used u) m s ∷ l.before;
          mark = l.mark;
          size = l.size;
          after = l.after;
          shape = ap (λ t. block (used u) m s ∷ t) l.shape;
          rest_used = l.rest_used;
          place = omega (arith, l.place);
        },
      )
    ]

-- Writing the link of the last free block changes what the free list goes on to, and nothing else.
pub write_link-Tiled :
    (f : Bytes) (a : ℕ) (bs : List Block) (end next next' q : ℕ)
    → (l : IsLast a bs q) → next' < 2 ^ 64
    → Tiled f a bs end next
    → Tiled (write64 f (q + 8) next') a bs end next' × (a ≤ q) × (q + 16 ≤ end) × (8 ≤ l.size)
write_link-Tiled f a bs end next next' q l word tiled =
    let t = rw l.shape at tiled in
    let (left, right) =
      Tiled-split f a q l.before (block free l.mark l.size ∷ l.after) end next l.place t in
    let (head, big, link, rest) = right in
    let reach = Tiled-span f (q + (8 + l.size)) l.after end next rest in
    let g = write64 f (q + 8) next' in
    let left' =
      Tiled-Agrees f g a l.before q q
        (λ x lo hi. write64-outside f (q + 8) next' x (inl (omega arith))) left in
    let rest' =
      Tiled-Agrees f g (q + (8 + l.size)) l.after end next
        (λ x lo hi. write64-outside f (q + 8) next' x (inr (omega arith))) rest in
    let right' : Tiled g q (block free l.mark l.size ∷ l.after) end next' = (
      read64-write64_ne f (q + 8) next' q (inl (omega arith)) ∙ head,
      big,
      read64-write64 f (q + 8) next' word
          ∙ sym (first_free_of-AllUsed (q + (8 + l.size)) l.after next' l.rest_used),
      Tiled-relink g (q + (8 + l.size)) l.after end next next' l.rest_used rest',
    ) in
    (
      rw l.shape
          (Tiled-append g a q l.before (block free l.mark l.size ∷ l.after) end next' left' right'),
      omega (arith, l.place),
      omega arith,
      big,
    )
