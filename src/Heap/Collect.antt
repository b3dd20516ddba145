-- ===== src/Heap/Collect.antt =====
-- `collectUnmarkedBlocks` of src/vmmem.c: the sweep, and the check at its end.
use unlambda.Base.{
  ℕ, zero, suc, ◌+◌, ◌^◌, ◌≤◌, ◌<◌, ◌≡◌, refl, ◌∙◌, ap, subst, ◌⊎◌, inl, inr, true, none, some,
  List, [], ◌∷◌, length, ◌==◌, add64, arith,
}
use unlambda.Base.Run.{done, Returns}
use unlambda.Memory.Bytes.{read64}
use unlambda.Memory.Header.{get_vmm_block_size, get_vmm_block_size-header}
use unlambda.Memory.State.{VmMemory, first_free_block_in_vmm, next_free_block_in_vmm}
use unlambda.Memory.Collect.{Gc, sweep_loop, count_free, collect_unmarked_blocks}
use unlambda.Heap.Blocks.{free, used, Block, block, free_bytes, first_free_of, Tiled, IsHeap}
use unlambda.Heap.Tiled.{Tiled-span}
use unlambda.Heap.Allocate.{free_bytes-le-span}
use unlambda.Heap.Find.{as_pointer, length-le-span}
use unlambda.Heap.Survivors.{used_at, marked_at, Separate, used_at-swept, swept-Separate}
use unlambda.Heap.Swept.{Bodies, Heads, Heads-span, SweptTo, swept}
use unlambda.Heap.Loop.{NotEmpty, pointer-some, first_listed, sweep_loop-SweptTo}

-- The list of free blocks, from the first one at or behind `a`.
module _ (m : VmMemory) (some_program : 0 < m.heap_start) (small : m.size < 2 ^ 56) where
  count_free-free_bytes :
      (bs : List Block) (fuel a total : ℕ)
      → 0 < a
      → length bs < fuel
      → total + free_bytes bs < 2 ^ 64
      → Tiled m.bytes a bs m.size 0
      → count_free fuel m (as_pointer (first_free_of a bs 0)) total ≡ done (total + free_bytes bs)
  unfolding count_free next_free_block_in_vmm
  count_free-free_bytes bs zero a total pos enough low t = absurd (omega arith)
  count_free-free_bytes [] (suc fuel) a total pos enough low t = ap done (omega arith)
  count_free-free_bytes (block (used u) mk r ∷ bs) (suc fuel) a total pos enough low
        (head, big, t) =
      count_free-free_bytes bs (suc fuel) (a + (8 + r)) total (omega arith) (omega arith) low t
  count_free-free_bytes (block free mk r ∷ bs) (suc fuel) a total pos enough low
        (head, big, link, t) =
      let reach = Tiled-span m.bytes (a + (8 + r)) bs m.size 0 t in
      let sized : get_vmm_block_size (read64 m.bytes a) ≡ r =
        ap get_vmm_block_size head ∙ get_vmm_block_size-header mk 0 r (omega arith) (omega arith) in
      let next : next_free_block_in_vmm m (some a) ≡ as_pointer (first_free_of (a + (8 + r)) bs 0) =
        ground (arith, link, reach) in
      let rest =
        count_free-free_bytes bs fuel (a + (8 + r)) (total + r) (omega arith) (omega arith)
          (omega arith) t in
      let here : as_pointer a ≡ some a = ground (arith, pos) in
      let sum : add64 total (get_vmm_block_size (read64 m.bytes a)) ≡ total + r =
        omega (arith, sized, low) in
      rw (here, next, sum) (rest ∙ ap done (omega arith))

-- What the sweep leaves of a memory whose heap holds `bs`: a heap of some blocks `left`.
abbrev pub Collected : Gc → List Block → Gc → Type 0
Collected g bs g' =
    let m = g.memory in
    (g'.errors ≡ g.errors)
    × ((left : List Block) × IsHeap g'.memory left
        × (used_at m.heap_start left ≡ marked_at m.heap_start bs)
        × Separate left
        × Bodies m.bytes g'.memory.bytes m.heap_start left)
    × ((x : ℕ) → (x < m.heap_start) ⊎ (m.size ≤ x) → g'.memory.bytes x ≡ m.bytes x)
    × (g'.memory.heap_start ≡ m.heap_start)
    × (g'.memory.size ≡ m.size)

-- A memory whose heap holds `bs` as the marking leaves it: no free block is marked.
pub record IsMarked (m : VmMemory) (bs : List Block) : Type 0 where
  pub heads : Heads m.bytes m.heap_start bs m.size
  pub some_block : NotEmpty bs
  pub program : 0 < m.heap_start
  pub limited : m.size ≤ m.max_size
  pub small : m.max_size < 2 ^ 56
  pub placed : m.base + m.size < 2 ^ 64

-- On a heap that marking has left, with at least one block, the sweep ends, none of its assertions
-- fails and it reports no error. It leaves a well-formed heap, in which exactly the marked blocks are in use, at their addresses, with their types,
-- sizes and contents; all other room is free, with no free block next to another, and is counted.
-- The program and the bytes behind the memory stay as they are.
pub collect_unmarked_blocks-Collected :
    (g : Gc) (bs : List Block)
    → IsMarked g.memory bs
    → Returns (collect_unmarked_blocks g) (Collected g bs)
unfolding collect_unmarked_blocks
collect_unmarked_blocks-Collected g bs h =
    let start : VmMemory = record g.memory { bytes_free = 0; first_free = 0 } in
    let low : g.memory.size < 2 ^ 56 = omega (arith, h.limited, h.small) in
    let begun : SweptTo start [] start.heap_start
        (record { memory = start; prev = none; prev_free = none }) =
      record {
        tiled = refl;
        bodies = tt;
        ahead = λ x le. refl;
        below = λ x lt. refl;
        first = refl;
        count = refl;
        last_free = refl;
        last = inl (refl, refl);
        size = refl;
        start = refl;
        limit = refl;
        base = refl;
      } in
    let reach = Heads-span g.memory.bytes g.memory.heap_start bs g.memory.size h.heads in
    let (s, run, out) =
      sweep_loop-SweptTo start h.program low (suc start.size) start.heap_start bs []
        (record { memory = start; prev = none; prev_free = none }) begun h.heads
        (omega (arith, reach, length-le-span bs)) in
    let all = swept [] bs in
    let heap : IsHeap s.memory all = record {
      tiled = rw (out.start, out.size) out.tiled;
      first = rw out.start out.first;
      count = out.count;
      program = omega (arith, out.start, h.program);
      limited = omega (arith, out.size, out.limit, h.limited);
      small = omega (arith, out.limit, h.small);
      placed = omega (arith, out.base, out.size, h.placed);
    } in
    let room = Tiled-span s.memory.bytes start.heap_start all start.size 0 out.tiled in
    let few = free_bytes-le-span all in
    let listed : first_free_block_in_vmm s.memory
        ≡ as_pointer (first_free_of s.memory.heap_start all 0) =
      first_listed s.memory all heap in
    let counted =
      count_free-free_bytes s.memory heap.program (omega (arith, out.size, low)) all
        (suc start.size) s.memory.heap_start 0 heap.program
        (omega (arith, room, length-le-span all)) (omega (arith, few, room, low)) heap.tiled in
    let total : 0 + free_bytes all ≡ s.memory.bytes_free = omega (arith, out.count) in
    let equal : (0 + free_bytes all == s.memory.bytes_free) ≡ true = ground (arith, total) in
    let ran : sweep_loop (suc start.size) (record { memory = start; prev = none; prev_free = none })
          (some start.heap_start)
        ≡ done s =
      subst
        (λ o.
          sweep_loop (suc start.size) (record { memory = start; prev = none; prev_free = none }) o
          ≡ done s)
        (pointer-some bs start.heap_start h.some_block) run in
    (
      record g { memory = s.memory },
      rw (ran, listed, counted, equal) refl,
      (
        refl,
        (
          all,
          heap,
          used_at-swept start.heap_start bs [] ∙ ap (λ a. marked_at a bs) (omega arith),
          swept-Separate start.bytes start.heap_start bs start.size [] h.heads tt,
          out.bodies,
        ),
        λ x outside. elim outside [ inl lt ↦ out.below x lt | inr le ↦ out.ahead x le ],
        out.start,
        out.size,
      ),
    )
