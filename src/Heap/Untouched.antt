-- ===== src/Heap/Untouched.antt =====
-- The blocks in use keep their bytes.
use unlambda.Base.{
  ℕ, ◌+◌, ◌^◌, ◌≤◌, ◌<◌, ◌≡◌, refl, ◌∙◌, inl, inr, List, [], ◌∷◌, ◌++◌, Option, none, some, arith,
}
use unlambda.Memory.Allocate.{set_link}
use unlambda.Memory.Bytes.{Bytes, write64, Agrees, write64-outside, write64_congr}
use unlambda.Heap.Blocks.{free, used, Block, block, span, Tiled}
use unlambda.Heap.Tiled.{Agrees-within, last_free_of}
use unlambda.Heap.Free.{Tiled-relink, IsLast, last_free_of-cases, write_link-Tiled}

-- Every used block, header included, has the bytes in `g` that it has in `f`.
abbrev pub Untouched : Bytes → Bytes → ℕ → List Block → Type 0
Untouched f g a [] = Unit
Untouched f g a (block free m s ∷ bs) = Untouched f g (a + (8 + s)) bs
Untouched f g a (block (used u) m s ∷ bs) =
    Agrees f g a (a + (8 + s)) × Untouched f g (a + (8 + s)) bs

pub Untouched-Agrees :
    (f g : Bytes) (a hi : ℕ) (bs : List Block)
    → a + span bs ≤ hi
    → Agrees f g a hi
    → Untouched f g a bs
Untouched-Agrees f g a hi [] e h = tt
Untouched-Agrees f g a hi (block free m s ∷ bs) e h =
    Untouched-Agrees f g (a + (8 + s)) hi bs (omega arith)
      (Agrees-within f g a hi (a + (8 + s)) hi h (omega arith) (omega arith))
Untouched-Agrees f g a hi (block (used u) m s ∷ bs) e h = (
  Agrees-within f g a hi a (a + (8 + s)) h (omega arith) (omega arith),
  Untouched-Agrees f g (a + (8 + s)) hi bs (omega arith)
      (Agrees-within f g a hi (a + (8 + s)) hi h (omega arith) (omega arith)),
)

pub Untouched-append :
    (f g : Bytes) (a mid : ℕ) (pre post : List Block)
    → a + span pre ≡ mid
    → Untouched f g a pre
    → Untouched f g mid post
    → Untouched f g a (pre ++ post)
Untouched-append f g a mid [] post e t u = let here : a ≡ mid = omega arith in rw here u
Untouched-append f g a mid (block free m s ∷ pre) post e t u =
    Untouched-append f g (a + (8 + s)) mid pre post (omega arith) t u
Untouched-append f g a mid (block (used v) m s ∷ pre) post e (here, t) u =
    (here, Untouched-append f g (a + (8 + s)) mid pre post (omega arith) t u)

-- A further change above the blocks.
pub Untouched-above :
    (f h g : Bytes) (a hi : ℕ) (bs : List Block)
    → a + span bs ≤ hi
    → ((x : ℕ) → x < hi → g x ≡ h x)
    → Untouched f h a bs
    → Untouched f g a bs
Untouched-above f h g a hi [] e same u = tt
Untouched-above f h g a hi (block free m s ∷ bs) e same u =
    Untouched-above f h g (a + (8 + s)) hi bs (omega arith) same u
Untouched-above f h g a hi (block (used v) m s ∷ bs) e same (here, u) = (
  λ x lo up. same x (omega arith) ∙ here x lo up,
  Untouched-above f h g (a + (8 + s)) hi bs (omega arith) same u,
)

pub set_link_congr :
    (f g : Bytes) (prev : Option ℕ) (next x : ℕ)
    → g x ≡ f x
    → set_link g prev next x ≡ set_link f prev next x
set_link_congr f g none next x h = h
set_link_congr f g (some q) next x h = write64_congr f g (q + 8) next x h

-- The blocks `pre` before a change at `p`, with the link of the last free one, `prev`, set to
-- `next`: they are in place, the list of free blocks goes on to `next`, and all other bytes are as
-- they were.
pub record Relinked (f : Bytes) (a p : ℕ) (pre : List Block) (prev : Option ℕ) (next : ℕ)
    : Type 0 where
  pub tiled : Tiled (set_link f prev next) a pre p next
  pub kept : Untouched f (set_link f prev next) a pre
  pub above : (g : Bytes) (x : ℕ) → p ≤ x → set_link g prev next x ≡ g x
  pub below : (x : ℕ) → x < a → set_link f prev next x ≡ f x

relink_last :
    (f : Bytes) (a p q : ℕ) (pre : List Block) (old next : ℕ)
    → IsLast a pre q
    → next < 2 ^ 64
    → a + span pre ≡ p
    → Tiled f a pre p old
    → Relinked f a p pre (some q) next
relink_last f a p q pre old next l word e t =
    let (t', low, high, big) = write_link-Tiled f a pre p old next q l word t in
    let g = write64 f (q + 8) next in
    record {
      tiled = t';
      kept = rw l.shape (
          Untouched-append f g a q l.before (block free l.mark l.size ∷ l.after) l.place
            (Untouched-Agrees f g a q l.before (omega (arith, l.place))
              (λ x lo hi. write64-outside f (q + 8) next x (inl (omega arith))))
            (Untouched-Agrees f g (q + (8 + l.size)) (q + (8 + l.size) + span l.after) l.after
              (omega arith) (λ x lo hi. write64-outside f (q + 8) next x (inr (omega arith)))));
      above = λ g' x h. write64-outside g' (q + 8) next x (inr (omega arith));
      below = λ x h. write64-outside f (q + 8) next x (inl (omega arith));
    }

pub Relinked_lem :
    (f : Bytes) (a p : ℕ) (pre : List Block) (old next : ℕ)
    → a + span pre ≡ p
    → next < 2 ^ 64
    → Tiled f a pre p old
    → Relinked f a p pre (last_free_of a pre none) next
Relinked_lem f a p pre old next e word t = elim (last_free_of-cases a pre none) [
  | inl (all_used, none_free) ↦ rw none_free (record {
    tiled = Tiled-relink f a pre p old next all_used t;
    kept = Untouched-Agrees f f a p pre (omega arith) (λ x lo hi. refl);
    above = λ g x h. refl;
    below = λ x h. refl;
  })
  | inr (q, found, l) ↦ rw found (relink_last f a p q pre old next l word e t)
]
