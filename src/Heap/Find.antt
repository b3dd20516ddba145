-- ===== src/Heap/Find.antt =====
-- `findFreeBlockWithSize` of src/vmmem.c is a first fit search of the list of blocks.
use unlambda.Base.{
  ℕ, zero, suc, ◌+◌, ◌^◌, ◌≤◌, ◌<◌, ◌≡◌, refl, ◌∙◌, ap, ◌⊎◌, inl, inr, Bool, true, false, List, [],
  ◌∷◌, ◌++◌, Option, none, some, arith, length, ltb, leb, Bool-cases, ◌==◌, if◌then◌else◌,
}
use unlambda.Base.Run.{Run, done}
use unlambda.Memory.Allocate.{find_free, find_free_block_with_size}
use unlambda.Memory.Bytes.{read64}
use unlambda.Memory.Header.{get_vmm_block_size, get_vmm_block_size-header}
use unlambda.Memory.State.{VmMemory, first_free_block_in_vmm, next_free_block_in_vmm}
use unlambda.Heap.Blocks.{
  Use, free, used, Block, block, span, free_bytes, first_free_of, Tiled, IsHeap,
}
use unlambda.Heap.Tiled.{Tiled-span, last_free_of}

-- 0 in a link stands for NULL.
abbrev pub as_pointer : ℕ → Option ℕ
as_pointer n = if n == 0 then none else some n

-- No free block of the list has room for `size` bytes.
abbrev pub NoFit : ℕ → List Block → Type 0
NoFit size [] = Unit
NoFit size (block free m s ∷ bs) = (s < size) × NoFit size bs
NoFit size (block (used u) m s ∷ bs) = NoFit size bs

-- The first block with room, between those before and those after it.
pub record Fit (size : ℕ) (bs : List Block) : Type 0 where
  pub before : List Block
  pub mark : Bool
  pub room : ℕ
  pub after : List Block
  pub shape : bs ≡ before ++ block free mark room ∷ after
  pub enough : size ≤ room
  pub first : NoFit size before

-- The outcome of a search from address `a` on, with `prev` the free block before.
abbrev pub Search : ℕ → ℕ → List Block → Option ℕ → Option ℕ × Option ℕ → Type 0
Search size a bs prev r =
    (NoFit size bs × (r ≡ (none, last_free_of a bs prev)))
    ⊎ ((w : Fit size bs) × (r ≡ (some (a + span w.before), last_free_of a w.before prev)))

module _ (m : VmMemory) (size : ℕ) (small : m.size < 2 ^ 56) where
  -- a longer list, with a block in front that has no room
  behind_free :
      (k : Bool) (s a : ℕ) (bs : List Block) (prev : Option ℕ) (r : Option ℕ × Option ℕ)
      → s < size
      → Search size (a + (8 + s)) bs (some a) r
      → Search size a (block free k s ∷ bs) prev r
  behind_free k s a bs prev r full (inl (nothing, e)) = inl ((full, nothing), e)
  behind_free k s a bs prev r full (inr (w, e)) = inr (
    record {
      before = block free k s ∷ w.before;
      mark = w.mark;
      room = w.room;
      after = w.after;
      shape = ap (λ t. block free k s ∷ t) w.shape;
      enough = w.enough;
      first = (full, w.first);
    },
    e ∙ ap (λ p. (some p, last_free_of (a + (8 + s)) w.before (some a))) (omega arith),
  )

  behind_used :
      (u : Use) (k : Bool) (s a : ℕ) (bs : List Block) (prev : Option ℕ) (r : Option ℕ × Option ℕ)
      → Search size (a + (8 + s)) bs prev r
      → Search size a (block (used u) k s ∷ bs) prev r
  behind_used u k s a bs prev r (inl (nothing, e)) = inl (nothing, e)
  behind_used u k s a bs prev r (inr (w, e)) = inr (
    record {
      before = block (used u) k s ∷ w.before;
      mark = w.mark;
      room = w.room;
      after = w.after;
      shape = ap (λ t. block (used u) k s ∷ t) w.shape;
      enough = w.enough;
      first = w.first;
    },
    e ∙ ap (λ p. (some p, last_free_of (a + (8 + s)) w.before prev)) (omega arith),
  )

  next_search : ℕ → ℕ → ℕ → Run (Option ℕ × Option ℕ)
  next_search fuel a next = find_free fuel m size (as_pointer next) (some a)

  found :
      (fuel a s : ℕ) (prev : Option ℕ)
      → 0 < a
      → get_vmm_block_size (read64 m.bytes a) ≡ s
      → leb size s ≡ true
      → find_free (suc fuel) m size (as_pointer a) prev ≡ done (some a, prev)
  unfolding find_free
  found fuel a s prev pos field fits = ground arith

  passed :
      (fuel a s : ℕ) (prev : Option ℕ)
      → 0 < a
      → a < m.size
      → get_vmm_block_size (read64 m.bytes a) ≡ s
      → leb size s ≡ false
      → find_free (suc fuel) m size (as_pointer a) prev
        ≡ next_search fuel a (read64 m.bytes (a + 8))
  unfolding find_free next_free_block_in_vmm next_search
  passed fuel a s prev pos within field full = ground arith

  -- The loop, started at the first free block from `a` on, ends within the fuel.
  find_free-Search :
      (fuel a : ℕ) (bs : List Block) (prev : Option ℕ)
      → 0 < a
      → length bs < fuel
      → Tiled m.bytes a bs m.size 0
      → (r : Option ℕ × Option ℕ) × (find_free fuel m size (as_pointer (first_free_of a bs 0)) prev
          ≡ done r)
        × Search size a bs prev r
  unfolding find_free next_search
  find_free-Search zero a bs prev pos enough t = absurd (omega arith)
  find_free-Search (suc fuel) a [] prev pos enough t = ((none, prev), refl, inl (tt, refl))
  find_free-Search (suc fuel) a (block free k s ∷ bs) prev pos enough (head, big, link, t) =
      let reach = Tiled-span m.bytes (a + (8 + s)) bs m.size 0 t in
      let field : get_vmm_block_size (read64 m.bytes a) ≡ s =
        ap get_vmm_block_size head ∙ get_vmm_block_size-header k 0 s (omega arith) (omega arith) in
      elim (Bool-cases (leb size s)) [
        | inl fits ↦ (
          (some a, prev),
          found fuel a s prev pos field fits,
          inr (
            record {
              before = [];
              mark = k;
              room = s;
              after = bs;
              shape = refl;
              enough = ground arith;
              first = tt;
            },
            ap (λ p. (some p, prev)) (omega arith),
          ),
        )
        | inr full ↦
            let (r, run, out) =
              find_free-Search fuel (a + (8 + s)) bs (some a) (omega arith) (omega arith) t in
            (
              r,
              passed fuel a s prev pos (omega arith) field full
                  ∙ ap (next_search fuel a) link
                  ∙ run,
              behind_free k s a bs prev r (ground arith) out,
            )
      ]
  find_free-Search (suc fuel) a (block (used u) k s ∷ bs) prev pos enough (head, big, t) =
      let (r, run, out) =
        find_free-Search (suc fuel) (a + (8 + s)) bs prev (omega arith) (omega arith) t in
      (r, run, behind_used u k s a bs prev r out)

-- A count of free bytes below the size asked for leaves no block with room.
free_bytes-NoFit : (size : ℕ) (bs : List Block) → free_bytes bs < size → NoFit size bs
free_bytes-NoFit size [] h = tt
free_bytes-NoFit size (block free k s ∷ bs) h =
    (omega arith, free_bytes-NoFit size bs (omega arith))
free_bytes-NoFit size (block (used u) k s ∷ bs) h = free_bytes-NoFit size bs h

pub length-le-span : (bs : List Block) → length bs ≤ span bs
length-le-span [] = omega arith
length-le-span (block k m s ∷ bs) = omega (arith, length-le-span bs)

-- In a well-formed heap, which a list of blocks tiles and whose free list goes through its free
-- blocks in order, the search from the first free block ends. It finds the first free block with
-- room, and the free block before that one, or there is no free block with room.
pub find_free_block_with_size-Search :
    (m : VmMemory) (bs : List Block) (size : ℕ)
    → IsHeap m bs
    → (r : Option ℕ × Option ℕ) × (find_free_block_with_size m size ≡ done r)
      × ((NoFit size bs × (r.0 ≡ none)) ⊎ Search size m.heap_start bs none r)
unfolding find_free_block_with_size first_free_block_in_vmm
find_free_block_with_size-Search m bs size h = elim (Bool-cases (ltb m.bytes_free size)) [
  | inl none_left ↦
      ((none, none), ground arith, inl (free_bytes-NoFit size bs (ground (arith, h.count)), refl))
  | inr some_left ↦
      let whole = Tiled-span m.bytes m.heap_start bs m.size 0 h.tiled in
      let (r, run, out) =
        find_free-Search m size (omega (arith, h.limited, h.small)) (suc m.size) m.heap_start bs
          none h.program (omega (arith, length-le-span bs)) h.tiled in
      let start : first_free_block_in_vmm m ≡ as_pointer (first_free_of m.heap_start bs 0) =
        ground (arith, h.program, h.first) in
      (r, ground (arith, start, run), inr out)
]
