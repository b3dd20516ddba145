-- ===== src/Heap/Allocate.antt =====
-- `allocateBlock` of src/vmmem.c against first fit on the list of blocks.
use unlambda.Base.{
  ℕ, ◌+◌, ◌-◌, ◌^◌, ◌≤◌, ◌<◌, ◌≡◌, refl, sym, ◌∙◌, ap, ◌⊎◌, inl, inr, Bool, false, List, [], ◌∷◌,
  ◌++◌, Option, none, some, arith, ltb, Bool-cases, if◌then◌else◌, sub64,
}
use unlambda.Base.Run.{done}
use unlambda.Memory.Allocate.{
  set_first, set_link, take_whole_block, take_part_of_block, split_free_block,
}
use unlambda.Memory.Bytes.{read64, read64-Agrees}
use unlambda.Memory.Header.{get_vmm_block_size, get_vmm_block_size-header, set_vmm_block_type}
use unlambda.Memory.State.{VmMemory, word_at, put_word}
use unlambda.Heap.Blocks.{
  Use, free, used, Block, block, type_of, span, free_bytes, first_free_of, Tiled, IsHeap,
}
use unlambda.Heap.Tiled.{first_free_of-append, last_free_of}
use unlambda.Heap.Find.{Fit}
use unlambda.Heap.Free.{first_free_of-AllUsed, IsLast, last_free_of-cases}
use unlambda.Heap.Untouched.{Untouched}
use unlambda.Heap.Insert.{
  parts, reach, rest_free-word, link_of, relinked, whole-Replaced, part-Replaced,
}

-- What becomes of a free block of `room` bytes from which `size` are taken.
abbrev pub taken : Use → ℕ → Bool → ℕ → List Block
taken u size k room =
    if ltb (room - size) 16
    then block (used u) k room ∷ []
    else block (used u) k size ∷ block free false (room - size - 8) ∷ []

-- The memory after the caller of `allocateBlock` has set the type of the block at `p`.
abbrev pub typed : VmMemory → ℕ → Use → VmMemory
typed m p u = put_word m p (set_vmm_block_type (word_at m p) (type_of (used u)))

-- `m'` is `m` with the blocks `new` in place of a free block between `before` and `after`: it is a
-- heap again, the other blocks in use keep their bytes, and no byte outside the heap changes.
pub record Taken (m m' : VmMemory) (before new after : List Block) : Type 0 where
  pub heap : IsHeap m' (before ++ (new ++ after))
  pub kept_before : Untouched m.bytes m'.bytes m.heap_start before
  pub kept_after : Untouched m.bytes m'.bytes (m.heap_start + span before + span new) after
  pub outside : (x : ℕ) → (x < m.heap_start) ⊎ (m.size ≤ x) → m'.bytes x ≡ m.bytes x
  pub area : (m'.heap_start ≡ m.heap_start) × (m'.size ≡ m.size)

pub free_bytes-append : (xs ys : List Block) → free_bytes (xs ++ ys) ≡ free_bytes xs + free_bytes ys
free_bytes-append [] ys = omega arith
free_bytes-append (block free m s ∷ xs) ys = omega (arith, free_bytes-append xs ys)
free_bytes-append (block (used u) m s ∷ xs) ys = free_bytes-append xs ys

pub free_bytes-le-span : (bs : List Block) → free_bytes bs ≤ span bs
free_bytes-le-span [] = omega arith
free_bytes-le-span (block free m s ∷ bs) = omega (arith, free_bytes-le-span bs)
free_bytes-le-span (block (used u) m s ∷ bs) = omega (arith, free_bytes-le-span bs)

first_free_of-IsLast :
    (a : ℕ) (bs : List Block) (q n n' : ℕ)
    → IsLast a bs q
    → first_free_of a bs n ≡ first_free_of a bs n'
first_free_of-IsLast a bs q n n' l =
    let rest = block free l.mark l.size ∷ l.after in
    rw l.shape (
      first_free_of-append a q l.before rest n l.place
      ∙ sym (first_free_of-append a q l.before rest n' l.place))

-- The head of the free list after `set_next`, for a list `pre ++ old` that becomes `pre ++ new`.
set_first-first_free_of :
    (a p : ℕ) (pre old new : List Block) (first next : ℕ)
    → a + span pre ≡ p
    → first ≡ first_free_of a (pre ++ old) 0
    → first_free_of p new 0 ≡ next
    → set_first first (last_free_of a pre none) next ≡ first_free_of a (pre ++ new) 0
set_first-first_free_of a p pre old new first next e was first_new =
    elim (last_free_of-cases a pre none) [
      | inl (all_used, none_free) ↦ rw none_free (
          sym (
            first_free_of-append a p pre new 0 e
            ∙ ap (first_free_of a pre) first_new
            ∙ first_free_of-AllUsed a pre next all_used))
      | inr (q, found, l) ↦ rw found (
          was
          ∙ first_free_of-append a p pre old 0 e
          ∙ first_free_of-IsLast a pre q (first_free_of p old 0) (first_free_of p new 0) l
          ∙ sym (first_free_of-append a p pre new 0 e))
    ]

-- With the size of the block and the head of the list known, the test of what remains is left.
split_free_block_lem :
    (m : VmMemory) (p : ℕ) (prev : Option ℕ) (size room : ℕ)
    → get_vmm_block_size (word_at m p) ≡ room
    → size ≤ room
    → room < 2 ^ 56
    → (prev ≡ none → m.first_free ≡ p)
    → split_free_block m p prev size
      ≡ done (
        if ltb (room - size) 16
            then take_whole_block m p prev
            else take_part_of_block m p prev size (room - size),
        p,
      )
unfolding split_free_block
split_free_block_lem m p none size room field enough word listed =
    let first = listed refl in
    let left : sub64 room size ≡ room - size = omega arith in
    rw (field, left) (ground (arith, first))
split_free_block_lem m p (some q) size room field enough word listed =
    let left : sub64 room size ≡ room - size = omega arith in rw (field, left) (ground arith)

module _ (m : VmMemory) (bs : List Block) (size : ℕ) (u : Use) (h : IsHeap m bs) (w : Fit size bs)
    (big : 8 ≤ size) where
  abbrev p : ℕ
  p = m.heap_start + span w.before

  abbrev prev : Option ℕ
  prev = last_free_of m.heap_start w.before none

  abbrev mid : List Block
  mid = taken u size w.mark w.room

  abbrev bs' : List Block
  bs' = w.before ++ (mid ++ w.after)

  small : m.size < 2 ^ 56
  small = omega (arith, h.limited, h.small)

  tiled : Tiled m.bytes m.heap_start (w.before ++ block free w.mark w.room ∷ w.after) m.size 0
  tiled = rw w.shape at h.tiled

  field : get_vmm_block_size (word_at m p) ≡ w.room
  field =
      let here =
        parts m.bytes m.heap_start p w.before w.mark w.room w.after m.size small refl tiled in
      let end =
        reach m.bytes m.heap_start p w.before w.mark w.room w.after m.size small refl tiled in
      ap get_vmm_block_size here.1.0
      ∙ get_vmm_block_size-header w.mark 0 w.room (omega arith) (omega (arith, end, small))

  end : p + (8 + w.room) + span w.after ≡ m.size
  end = reach m.bytes m.heap_start p w.before w.mark w.room w.after m.size small refl tiled

  counted : m.bytes_free ≡ free_bytes w.before + (w.room + free_bytes w.after)
  counted =
      h.count
      ∙ ap free_bytes w.shape
      ∙ free_bytes-append w.before (block free w.mark w.room ∷ w.after)

  -- The size field is that of the block, whatever the links before it become.
  field_kept :
      (next : ℕ)
      → next < 2 ^ 64
      → get_vmm_block_size (read64 (set_link m.bytes prev next) p) ≡ w.room
  field_kept next word =
      let r =
        relinked m.bytes m.heap_start p w.before w.mark w.room w.after m.size small refl tiled next
          word in
      ap get_vmm_block_size (
        read64-Agrees {f = m.bytes} {g = set_link m.bytes prev next} p
          (λ x lo hi. r.above m.bytes x lo))
      ∙ field

  link : word_at m (p + 8) ≡ first_free_of (p + (8 + w.room)) w.after 0
  link = link_of m.bytes m.heap_start p w.before w.mark w.room w.after m.size small refl tiled

  link_word : word_at m (p + 8) < 2 ^ 64
  link_word =
      let word =
        rest_free-word m.bytes m.heap_start p w.before w.mark w.room w.after m.size small refl
          tiled in
      omega (arith, link, word)

  list_head :
      (new : List Block) (next : ℕ)
      → first_free_of p new 0 ≡ next
      → set_first m.first_free prev next ≡ first_free_of m.heap_start (w.before ++ new) 0
  list_head new next e =
      set_first-first_free_of m.heap_start p w.before (block free w.mark w.room ∷ w.after) new
        m.first_free next refl (h.first ∙ ap (λ l. first_free_of m.heap_start l 0) w.shape) e

  abbrev TakenBy : VmMemory → List Block → Type 0
  TakenBy m' new = Taken m m' w.before new w.after

  room_counted :
      (new : List Block)
      → free_bytes (w.before ++ new) + (w.room + free_bytes w.after) ≡ m.bytes_free + free_bytes new
  room_counted new = omega (arith, counted, free_bytes-append w.before new)

  bytes_free-small : m.bytes_free < 2 ^ 56
  bytes_free-small =
      omega (arith, counted, end, small, free_bytes-le-span w.before, free_bytes-le-span w.after)

  -- The whole block: the list has a used block in its place.
  whole_heap : TakenBy (typed (take_whole_block m p prev) p u) (block (used u) w.mark w.room ∷ [])
  unfolding take_whole_block
  whole_heap =
      let r =
        whole-Replaced m.bytes m.heap_start p w.before w.mark w.room w.after m.size small refl tiled
          u in
      let rest = block (used u) w.mark w.room ∷ w.after in
      record {
        heap = record {
          tiled = r.tiled;
          first = list_head rest (word_at m (p + 8)) (sym link);
          count =
              ap (sub64 m.bytes_free) (field_kept (word_at m (p + 8)) link_word)
              ∙ omega (arith, room_counted rest, bytes_free-small, counted);
          program = h.program;
          limited = h.limited;
          small = h.small;
          placed = h.placed;
        };
        kept_before = r.kept_before;
        kept_after = r.kept_after;
        outside = r.outside;
        area = (refl, refl);
      }

  part_heap :
      size + 16 ≤ w.room
      → TakenBy
          (typed (take_part_of_block m p prev size (w.room - size)) p u)
          (block (used u) w.mark size ∷ block free false (w.room - size - 8) ∷ [])
  unfolding take_part_of_block
  part_heap cut =
      let r =
        part-Replaced m.bytes m.heap_start p w.before w.mark w.room w.after m.size small refl tiled
          size big cut u in
      let rest = block (used u) w.mark size ∷ block free false (w.room - size - 8) ∷ w.after in
      record {
        heap = record {
          tiled = r.tiled;
          first = list_head rest (p + size + 8) (omega arith);
          count = omega (arith, room_counted rest, bytes_free-small, counted);
          program = h.program;
          limited = h.limited;
          small = h.small;
          placed = h.placed;
        };
        kept_before = r.kept_before;
        kept_after = r.kept_after;
        outside = r.outside;
        area = (refl, refl);
      }

  abbrev pub served : VmMemory
  served =
      if ltb (w.room - size) 16
      then take_whole_block m p prev
      else take_part_of_block m p prev size (w.room - size)

  pub served_heap : TakenBy (typed served p u) (taken u size w.mark w.room)
  served_heap = elim (Bool-cases (ltb (w.room - size) 16)) [
    | inl e ↦ rw e whole_heap
    | inr e ↦ rw e (part_heap (ground (arith, e)))
  ]

  -- The assertion of `splitFreeBlock` holds.
  listed : prev ≡ none → m.first_free ≡ p
  listed alone = elim (last_free_of-cases m.heap_start w.before none) [
    | inl (all_used, none_free) ↦
        h.first
        ∙ ap (λ l. first_free_of m.heap_start l 0) w.shape
        ∙ first_free_of-append m.heap_start p w.before (block free w.mark w.room ∷ w.after) 0 refl
        ∙ first_free_of-AllUsed m.heap_start w.before p all_used
    | inr (q, found, l) ↦ cc
  ]

  pub split_free_block-served : split_free_block m p prev size ≡ done (served, p)
  split_free_block-served =
      split_free_block_lem m p prev size w.room field w.enough (omega (arith, end, small)) listed
