-- ===== src/Heap/Reclaim.antt =====
-- `collectUnreachableVmmBlocks` of src/vmmem.c on empty stacks.
use unlambda.Base.{ℕ, inl, inr, ◌+◌, ◌≤◌, ◌<◌, ◌≡◌, refl, sym, ◌∙◌, ap, ◌⊎◌, List, [], ◌∷◌, arith}
use unlambda.Base.Run.{Returns}
use unlambda.Memory.Bytes.{Bytes}
use unlambda.Memory.State.{VmMemory}
use unlambda.Memory.Collect.{Gc, collect_unreachable_vmm_blocks, visit_roots}
use unlambda.Heap.Blocks.{free, used, Block, block, Tiled, IsHeap}
use unlambda.Heap.Collect.{IsMarked, collect_unmarked_blocks-Collected}
use unlambda.Heap.Loop.{NotEmpty}
use unlambda.Heap.Survivors.{used_at, marked_at, Separate}
use unlambda.Heap.Swept.{Heads}
use unlambda.Heap.Unmark.{unmarked, clear_marks-Unmarked}

Heads-unmarked :
    (f : Bytes) (a : ℕ) (bs : List Block) (end : ℕ)
    → Tiled f a (unmarked bs) end 0
    → Heads f a (unmarked bs) end
Heads-unmarked f a [] end t = t
Heads-unmarked f a (block free m s ∷ bs) end (head, big, link, t) =
    (head, big, Heads-unmarked f (a + (8 + s)) bs end t)
Heads-unmarked f a (block (used u) m s ∷ bs) end (head, big, t) =
    (head, big, Heads-unmarked f (a + (8 + s)) bs end t)

marked_at-unmarked : (a : ℕ) (bs : List Block) → marked_at a (unmarked bs) ≡ []
marked_at-unmarked a [] = refl
marked_at-unmarked a (block free m s ∷ bs) = marked_at-unmarked (a + (8 + s)) bs
marked_at-unmarked a (block (used u) m s ∷ bs) = marked_at-unmarked (a + (8 + s)) bs

NotEmpty-unmarked : (bs : List Block) → NotEmpty bs → NotEmpty (unmarked bs)
NotEmpty-unmarked [] h = h
NotEmpty-unmarked (block k m s ∷ bs) h = tt

-- A heap in which nothing is in use and no free block is next to another.
abbrev pub Reclaimed : VmMemory → Gc → Type 0
Reclaimed m g =
    (g.errors ≡ [])
    × ((left : List Block) × IsHeap g.memory left
        × (used_at m.heap_start left ≡ [])
        × Separate left)
    × ((x : ℕ) → (x < m.heap_start) ⊎ (m.size ≤ x) → g.memory.bytes x ≡ m.bytes x)

-- Where both stacks are empty, collection of a well-formed heap with at least one block ends without
-- an error, whatever marks were left in it, and gives back every block: no block is in use, and no
-- free block is next to another. The program and the bytes behind the memory stay as they are.
pub collect_unreachable_vmm_blocks-Reclaimed :
    (m : VmMemory) (bs : List Block)
    → IsHeap m bs
    → NotEmpty bs
    → Returns (collect_unreachable_vmm_blocks m [] []) (Reclaimed m)
unfolding collect_unreachable_vmm_blocks visit_roots
collect_unreachable_vmm_blocks-Reclaimed m bs h some_block =
    let (m', cleared, (heap, bodies, outside, start, size)) =
      clear_marks-Unmarked m bs h some_block in
    let g : Gc = record { memory = m'; errors = [] } in
    let marked : IsMarked m' (unmarked bs) = record {
      heads = Heads-unmarked m'.bytes m'.heap_start bs m'.size heap.tiled;
      some_block = NotEmpty-unmarked bs some_block;
      program = heap.program;
      limited = heap.limited;
      small = heap.small;
      placed = heap.placed;
    } in
    let (g', swept, (errors, (left, heap', kept, separate, contents), outside', start', size')) =
      collect_unmarked_blocks-Collected g (unmarked bs) marked in
    (
      g',
      rw (cleared, swept) refl,
      (
        errors,
        (
          left,
          heap',
          ap (λ a. used_at a left) (sym start) ∙ kept ∙ marked_at-unmarked m'.heap_start bs,
          separate,
        ),
        λ x at.
            outside' x (elim at [
              | inl lt ↦ inl (omega (arith, lt, start))
              | inr le ↦ inr (omega (arith, le, size))
            ])
            ∙ outside x at,
      ),
    )
