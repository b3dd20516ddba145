-- ===== src/Heap/Survivors.antt =====
-- Which blocks the sweep of src/vmmem.c leaves, whatever the order in which it goes about it.
use unlambda.Base.{
  ℕ, ◌+◌, ◌≡◌, refl, sym, ◌∙◌, ap, Bool, true, false, List, [], ◌∷◌, ◌++◌, append-nil, append_assoc,
  arith,
}
use unlambda.Heap.Blocks.{Use, free, used, Block, block, span, extent}
use unlambda.Heap.Swept.{Heads, merge_last, swept}
use unlambda.Memory.Bytes.{Bytes}

-- The used blocks, and the marked ones among them, with their addresses and sizes.
abbrev pub used_at : ℕ → List Block → List (ℕ × Use × ℕ)
used_at a [] = []
used_at a (block free m s ∷ bs) = used_at (a + (8 + s)) bs
used_at a (block (used u) m s ∷ bs) = (a, u, s) ∷ used_at (a + (8 + s)) bs

abbrev pub marked_at : ℕ → List Block → List (ℕ × Use × ℕ)
marked_at a [] = []
marked_at a (block free m s ∷ bs) = marked_at (a + (8 + s)) bs
marked_at a (block (used u) true s ∷ bs) = (a, u, s) ∷ marked_at (a + (8 + s)) bs
marked_at a (block (used u) false s ∷ bs) = marked_at (a + (8 + s)) bs

-- No free block follows another.
abbrev starts_free : List Block → Bool
starts_free [] = false
starts_free (block free m s ∷ bs) = true
starts_free (block (used u) m s ∷ bs) = false

abbrev pub Separate : List Block → Type 0
Separate [] = Unit
Separate (block free m s ∷ bs) = (starts_free bs ≡ false) × Separate bs
Separate (block (used u) m s ∷ bs) = Separate bs

span-merge_last : (out : List Block) (s : ℕ) → span (merge_last out s) ≡ span out + (8 + s)
span-merge_last [] s = omega arith
span-merge_last (block free m t ∷ []) s = omega arith
span-merge_last (block (used u) m t ∷ []) s = omega arith
span-merge_last (block k m t ∷ c ∷ out) s = omega (arith, span-merge_last (c ∷ out) s)

span_append : (pre post : List Block) → span (pre ++ post) ≡ span pre + span post
span_append [] post = omega arith
span_append (block k m s ∷ pre) post = omega (arith, span_append pre post)

used_at-merge_last :
    (a : ℕ) (out : List Block) (s : ℕ) → used_at a (merge_last out s) ≡ used_at a out
used_at-merge_last a [] s = refl
used_at-merge_last a (block free m t ∷ []) s = refl
used_at-merge_last a (block (used u) m t ∷ []) s = refl
used_at-merge_last a (block free m t ∷ c ∷ out) s = used_at-merge_last (a + (8 + t)) (c ∷ out) s
used_at-merge_last a (block (used u) m t ∷ c ∷ out) s =
    ap (λ l. (a, u, t) ∷ l) (used_at-merge_last (a + (8 + t)) (c ∷ out) s)

used_at-append :
    (a : ℕ) (pre post : List Block)
    → used_at a (pre ++ post) ≡ used_at a pre ++ used_at (a + span pre) post
used_at-append a [] post = ap (λ b. used_at b post) (omega arith)
used_at-append a (block free m s ∷ pre) post =
    used_at-append (a + (8 + s)) pre post
    ∙ ap (λ b. used_at (a + (8 + s)) pre ++ used_at b post) (omega arith)
used_at-append a (block (used u) m s ∷ pre) post =
    ap (λ l. (a, u, s) ∷ l)
      (used_at-append (a + (8 + s)) pre post
        ∙ ap (λ b. used_at (a + (8 + s)) pre ++ used_at b post) (omega arith))

merged : (a : ℕ) (out : List Block) (s : ℕ) → a + span (merge_last out s) ≡ a + span out + (8 + s)
merged a out s = omega (arith, span-merge_last out s)

appended :
    (a : ℕ) (out : List Block) (b : Block) → a + span (out ++ b ∷ []) ≡ a + span out + extent b
appended a out b = omega (arith, span_append out (b ∷ []))

-- The marked blocks survive, where they are, and no other block in use does.
pub used_at-swept :
    (a : ℕ) (bs out : List Block)
    → used_at a (swept out bs) ≡ used_at a out ++ marked_at (a + span out) bs
used_at-swept a [] out = sym (append-nil (used_at a out))
used_at-swept a (block free false s ∷ bs) out =
    used_at-swept a bs (merge_last out s) ∙ rw (used_at-merge_last a out s, merged a out s) refl
used_at-swept a (block (used u) false s ∷ bs) out =
    used_at-swept a bs (merge_last out s) ∙ rw (used_at-merge_last a out s, merged a out s) refl
used_at-swept a (block free true s ∷ bs) out =
    used_at-swept a bs (out ++ block free false s ∷ [])
    ∙ rw
        (
          used_at-append a out (block free false s ∷ []),
          appended a out (block free false s),
          append-nil (used_at a out),
        )
        refl
used_at-swept a (block (used u) true s ∷ bs) out =
    used_at-swept a bs (out ++ block (used u) false s ∷ [])
    ∙ rw
        (
          used_at-append a out (block (used u) false s ∷ []),
          appended a out (block (used u) false s),
        )
        (append_assoc (used_at a out) ((a + span out, u, s) ∷ [])
          (marked_at (a + span out + (8 + s)) bs))

starts_free-merge_last :
    (b : Block) (out : List Block) (s : ℕ)
    → starts_free (merge_last (b ∷ out) s) ≡ starts_free (b ∷ out)
starts_free-merge_last (block free m t) [] s = refl
starts_free-merge_last (block (used u) m t) [] s = refl
starts_free-merge_last (block free m t) (c ∷ out) s = refl
starts_free-merge_last (block (used u) m t) (c ∷ out) s = refl

merge_last-Separate : (out : List Block) (s : ℕ) → Separate out → Separate (merge_last out s)
merge_last-Separate [] s h = (refl, tt)
merge_last-Separate (block free m t ∷ []) s h = (refl, tt)
merge_last-Separate (block (used u) m t ∷ []) s h = (refl, tt)
merge_last-Separate (block free m t ∷ c ∷ out) s (alone, h) =
    (starts_free-merge_last c out s ∙ alone, merge_last-Separate (c ∷ out) s h)
merge_last-Separate (block (used u) m t ∷ c ∷ out) s h = merge_last-Separate (c ∷ out) s h

append-Separate :
    (out : List Block) (u : Use) (s : ℕ)
    → Separate out
    → Separate (out ++ block (used u) false s ∷ [])
append-Separate [] u s h = tt
append-Separate (block free m t ∷ []) u s h = (refl, tt)
append-Separate (block free m t ∷ block (used v) n r ∷ out) u s (alone, h) =
    (refl, append-Separate (block (used v) n r ∷ out) u s h)
append-Separate (block free m t ∷ block free n r ∷ out) u s (alone, h) = absurd cc
append-Separate (block (used v) m t ∷ out) u s h = append-Separate out u s h

pub swept-Separate :
    (f : Bytes) (a : ℕ) (bs : List Block) (end : ℕ) (out : List Block)
    → Heads f a bs end
    → Separate out
    → Separate (swept out bs)
swept-Separate f a [] end out heads h = h
swept-Separate f a (block free true s ∷ bs) end out heads h = absurd heads
swept-Separate f a (block free false s ∷ bs) end out (head, big, heads) h =
    swept-Separate f (a + (8 + s)) bs end (merge_last out s) heads (merge_last-Separate out s h)
swept-Separate f a (block (used u) false s ∷ bs) end out (head, big, heads) h =
    swept-Separate f (a + (8 + s)) bs end (merge_last out s) heads (merge_last-Separate out s h)
swept-Separate f a (block (used u) true s ∷ bs) end out (head, big, heads) h =
    swept-Separate f (a + (8 + s)) bs end (out ++ block (used u) false s ∷ []) heads
      (append-Separate out u s h)
