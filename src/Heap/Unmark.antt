-- ===== src/Heap/Unmark.antt =====
-- The first pass of `collectUnreachableVmmBlocks` in src/vmmem.c: `forEachVmmBlock` with
-- `clearBlockMark`.
use unlambda.Base.{
  ℕ, zero, suc, ◌+◌, ◌^◌, ◌≤◌, ◌<◌, ◌≡◌, refl, sym, ◌∙◌, ap, subst, ◌⊎◌, inl, inr, Bool, false,
  some, List, [], ◌∷◌, length, arith,
}
use unlambda.Base.Run.{done, Returns}
use unlambda.Memory.Bytes.{
  Bytes, Agrees, read64, write64, read64-Agrees, read64-write64, write64-outside,
}
use unlambda.Memory.Header.{
  header, header-word, get_vmm_block_size, get_vmm_block_size-header, clear_vmm_block_mark,
  clear_vmm_block_mark-header,
}
use unlambda.Memory.State.{VmMemory, next_heap_block_in_vmm}
use unlambda.Memory.Collect.{clear_marks}
use unlambda.Heap.Blocks.{
  Kind, free, used, Block, block, type_of, span, free_bytes, first_free_of, Tiled, IsHeap,
}
use unlambda.Heap.Find.{length-le-span}
use unlambda.Heap.Loop.{pointer, NotEmpty, pointer-some}
use unlambda.Heap.Swept.{Bodies, type_of-lt}
use unlambda.Heap.Tiled.{Tiled-span, Tiled-Agrees}

abbrev pub unmarked : List Block → List Block
unmarked [] = []
unmarked (block k m s ∷ bs) = block k false s ∷ unmarked bs

first_free_of-unmarked :
    (a : ℕ) (bs : List Block) (next : ℕ)
    → first_free_of a (unmarked bs) next ≡ first_free_of a bs next
first_free_of-unmarked a [] next = refl
first_free_of-unmarked a (block free m s ∷ bs) next = refl
first_free_of-unmarked a (block (used u) m s ∷ bs) next =
    first_free_of-unmarked (a + (8 + s)) bs next

free_bytes-unmarked : (bs : List Block) → free_bytes (unmarked bs) ≡ free_bytes bs
free_bytes-unmarked [] = refl
free_bytes-unmarked (block free m s ∷ bs) = ap (λ n. s + n) (free_bytes-unmarked bs)
free_bytes-unmarked (block (used u) m s ∷ bs) = free_bytes-unmarked bs

Bodies-Agrees :
    (f g h : Bytes) (a : ℕ) (bs : List Block)
    → ((x : ℕ) → a ≤ x → g x ≡ f x)
    → Bodies g h a bs
    → Bodies f h a bs
Bodies-Agrees f g h a [] same b = tt
Bodies-Agrees f g h a (block free m s ∷ bs) same b =
    Bodies-Agrees f g h (a + (8 + s)) bs (λ x le. same x (omega arith)) b
Bodies-Agrees f g h a (block (used u) m s ∷ bs) same (here, b) = (
  λ x lo hi. here x lo hi ∙ same x (omega arith),
  Bodies-Agrees f g h (a + (8 + s)) bs (λ x le. same x (omega arith)) b,
)

-- The pass over the blocks from `p` on leaves `g` for the bytes of `m`.
record Cleared (m : VmMemory) (p : ℕ) (bs : List Block) (g : Bytes) : Type 0 where
  tiled : Tiled g p (unmarked bs) m.size 0
  bodies : Bodies m.bytes g p (unmarked bs)
  outside : (x : ℕ) → (x < p) ⊎ (m.size ≤ x) → g x ≡ m.bytes x

-- The header and, in a free block, the link of the first block.
first_block :
    (f : Bytes) (p : ℕ) (k : Kind) (mark : Bool) (s : ℕ) (bs : List Block) (end : ℕ)
    → Tiled f p (block k mark s ∷ bs) end 0
    → (read64 f p ≡ header mark (type_of k) s) × (8 ≤ s) × Tiled f (p + (8 + s)) bs end 0
first_block f p free mark s bs end (head, big, link, t) = (head, big, t)
first_block f p (used u) mark s bs end (head, big, t) = (head, big, t)

put_first :
    (f g : Bytes) (p : ℕ) (k : Kind) (mark : Bool) (s : ℕ) (bs : List Block) (end : ℕ)
    → Tiled f p (block k mark s ∷ bs) end 0
    → read64 g p ≡ header false (type_of k) s
    → Agrees f g (p + 8) (p + (8 + s))
    → Tiled g (p + (8 + s)) (unmarked bs) end 0
    → Bodies f g (p + (8 + s)) (unmarked bs)
    → Tiled g p (block k false s ∷ unmarked bs) end 0 × Bodies f g p (block k false s ∷ unmarked bs)
put_first f g p free mark s bs end (head, big, link, t) cleared same rest bodies = (
  (
    cleared,
    big,
    read64-Agrees (p + 8) (λ x lo hi. same x lo (omega arith))
        ∙ link
        ∙ sym (first_free_of-unmarked (p + (8 + s)) bs 0),
    rest,
  ),
  bodies,
)
put_first f g p (used u) mark s bs end (head, big, t) cleared same rest bodies =
    ((cleared, big, rest), (same, bodies))

next_of :
    (m : VmMemory) (p s : ℕ) (bs : List Block)
    → get_vmm_block_size (read64 m.bytes p) ≡ s
    → p + (8 + s) + span bs ≡ m.size
    → m.size < 2 ^ 56
    → next_heap_block_in_vmm m p ≡ pointer bs (p + (8 + s))
unfolding next_heap_block_in_vmm
next_of m p s [] sized reach small = ground (arith, sized, reach, small)
next_of m p s (block k mark r ∷ bs) sized reach small = ground (arith, sized, reach, small)

clear_marks-Cleared :
    (bs : List Block) (fuel p : ℕ) (m : VmMemory)
    → m.size < 2 ^ 56
    → length bs < fuel
    → Tiled m.bytes p bs m.size 0
    → (g : Bytes) × (clear_marks fuel m (pointer bs p) ≡ done (record m { bytes = g }))
      × Cleared m p bs g
unfolding clear_marks
clear_marks-Cleared bs zero p m small enough t = absurd (omega arith)
clear_marks-Cleared [] (suc fuel) p m small enough t =
    (m.bytes, refl, record { tiled = t; bodies = tt; outside = λ x h. refl })
clear_marks-Cleared (block k mark s ∷ bs) (suc fuel) p m small enough t =
    let (head, big, rest) = first_block m.bytes p k mark s bs m.size t in
    let reach = Tiled-span m.bytes (p + (8 + s)) bs m.size 0 rest in
    let word : clear_vmm_block_mark (read64 m.bytes p) ≡ header false (type_of k) s =
      ap clear_vmm_block_mark head
      ∙ clear_vmm_block_mark-header mark (type_of k) s (type_of-lt k) (omega (arith, reach)) in
    let f = write64 m.bytes p (clear_vmm_block_mark (read64 m.bytes p)) in
    let m' : VmMemory = record m { bytes = f } in
    let stored : read64 f p ≡ header false (type_of k) s =
      read64-write64 m.bytes p _
        (omega (arith, word, header-word false (type_of k) s (type_of-lt k) (omega (arith, reach))))
      ∙ word in
    let (g, run, c) = clear_marks-Cleared bs fuel (p + (8 + s)) m' small (omega arith) (
      Tiled-Agrees m.bytes f (p + (8 + s)) bs m.size 0
        (λ x lo hi. write64-outside m.bytes p _ x (inr (omega arith))) rest) in
    let next =
      next_of m' p s bs
        (ap get_vmm_block_size stored
          ∙ get_vmm_block_size-header false (type_of k) s (type_of-lt k) (omega (arith, reach)))
        reach small in
    let behind : (x : ℕ) → p + 8 ≤ x → f x ≡ m.bytes x =
      λ x le. write64-outside m.bytes p _ x (inr le) in
    let below : (x : ℕ) → x < p + (8 + s) → g x ≡ f x = λ x lt. c.outside x (inl lt) in
    let (tiled, bodies) =
      put_first m.bytes g p k mark s bs m.size t
        (read64-Agrees p (λ x lo hi. below x (omega (arith, big, hi))) ∙ stored)
        (λ x lo hi. below x hi ∙ behind x lo) c.tiled
        (Bodies-Agrees m.bytes f g (p + (8 + s)) (unmarked bs)
          (λ x le. behind x (omega (arith, le))) c.bodies) in
    (
      g,
      rw next run,
      record {
        tiled = tiled;
        bodies = bodies;
        outside = λ x h. elim h [
          | inl lt ↦ below x (omega (arith, lt)) ∙ write64-outside m.bytes p _ x (inl lt)
          | inr le ↦ c.outside x (inr le) ∙ behind x (omega (arith, le, reach))
        ];
      },
    )

-- What the pass leaves of a memory whose heap holds `bs`.
abbrev pub Unmarked : VmMemory → List Block → VmMemory → Type 0
Unmarked m bs m' =
    IsHeap m' (unmarked bs)
    × Bodies m.bytes m'.bytes m.heap_start (unmarked bs)
    × ((x : ℕ) → (x < m.heap_start) ⊎ (m.size ≤ x) → m'.bytes x ≡ m.bytes x)
    × (m'.heap_start ≡ m.heap_start)
    × (m'.size ≡ m.size)

-- On a well-formed heap with at least one block the pass ends and leaves the same blocks in the same
-- places, all without a mark, and with the same contents; the program and the bytes behind the memory
-- stay as they are.
pub clear_marks-Unmarked :
    (m : VmMemory) (bs : List Block)
    → IsHeap m bs
    → NotEmpty bs
    → Returns (clear_marks (suc m.size) m (some m.heap_start)) (Unmarked m bs)
clear_marks-Unmarked m bs h some_block =
    let reach = Tiled-span m.bytes m.heap_start bs m.size 0 h.tiled in
    let (g, run, c) =
      clear_marks-Cleared bs (suc m.size) m.heap_start m (omega (arith, h.limited, h.small))
        (omega (arith, reach, length-le-span bs)) h.tiled in
    (
      record m { bytes = g },
      subst (λ o. clear_marks (suc m.size) m o ≡ done (record m { bytes = g }))
          (pointer-some bs m.heap_start some_block) run,
      (
        record {
          tiled = c.tiled;
          first = h.first ∙ sym (first_free_of-unmarked m.heap_start bs 0);
          count = h.count ∙ sym (free_bytes-unmarked bs);
          program = h.program;
          limited = h.limited;
          small = h.small;
          placed = h.placed;
        },
        c.bodies,
        c.outside,
        refl,
        refl,
      ),
    )
