-- ===== src/Memory/Collect.antt =====
-- The garbage collector of src/vmmem.c: mark from both stacks, then sweep the heap.
-- A dereference of the NULL that `ptrToVmmAddress` hands back is `null_dereference`. Calls of the
-- error handler are recorded in order.
use unlambda.Base.{
  ℕ, zero, suc, ◌+◌, ◌*◌, Bool, true, false, not, Option, none, some, List, [], ◌∷◌, ◌++◌, ltb, leb,
  ◌==◌, if◌then◌else◌, sub64, add64,
}
use unlambda.Base.Run.{Run, done, null_dereference, unfinished, ◌>>=◌, ◌>>◌, assert}
use unlambda.Instructions.{instruction_size}
use unlambda.Instructions.Op
use unlambda.Memory.Allocate.{set_next}
use unlambda.Memory.Bytes.{read32}
use unlambda.Memory.Header.{
  get_vmm_block_size, set_vmm_block_size, get_vmm_block_type, set_vmm_block_type,
  vmm_block_is_marked, set_vmm_block_mark, clear_vmm_block_mark, free_block_type, code_block_type,
  state_block_type,
}
use unlambda.Memory.State.{
  VmMemory, word_at, put_word, ptr_to_vmm_address, vmm_address_for_ptr, next_heap_block_in_vmm,
  first_free_block_in_vmm, next_free_block_in_vmm,
}

pub data GcError : Type 0 where
  free_block_is_reachable push_operand_invalid push_operand_not_code : ℕ → GcError
  unknown_block_type : ℕ → ℕ → GcError
  free_count_differs : ℕ → ℕ → GcError

pub record Gc : Type 0 where
  pub memory : VmMemory
  pub errors : List GcError

abbrev report : Gc → GcError → Gc
report g e = record g { errors = g.errors ++ (e ∷ []) }

-- applies a function to the header at `p`
abbrev pub change_header : VmMemory → ℕ → (ℕ → ℕ) → VmMemory
change_header m p change = put_word m p (change (word_at m p))

abbrev change : Gc → ℕ → (ℕ → ℕ) → Gc
change g p f = record g { memory = change_header g.memory p f }

-- The loop of `forEachVmmBlock` with `clearBlockMark`.
unfoldable pub clear_marks : ℕ → VmMemory → Option ℕ → Run VmMemory
clear_marks zero m block = unfinished
clear_marks (suc fuel) m none = done m
clear_marks (suc fuel) m (some p) =
    let m' = change_header m p clear_vmm_block_mark in
    clear_marks fuel m' (next_heap_block_in_vmm m' p)

-- What a PUSH instruction at `p` in a code block leads to.
unfoldable pub visit_operand : (Gc → ℕ → Run Gc) → Gc → ℕ → Run Gc
visit_operand visit g p =
    let address = word_at g.memory (p + 1) in
    if ltb address g.memory.heap_start
    then done g
    else elim (ptr_to_vmm_address g.memory (sub64 address 8)) [
      | none ↦ done (report g (push_operand_invalid address))
      | some q ↦
          if get_vmm_block_type (word_at g.memory q) == code_block_type
          then visit g address
          else done (report g (push_operand_not_code address))
    ]

-- The loop of `visitCodeBlock`; each round moves on by at least a byte.
unfoldable pub visit_code : ℕ → (Gc → ℕ → Run Gc) → Gc → ℕ → ℕ → Run Gc
visit_code zero visit g p end = unfinished
visit_code (suc fuel) visit g p end = elim (ltb p end) [
  | false ↦ do assert (p == end); done g
  | true ↦ do
    g' ← (if g.memory.bytes p == Op.push then visit_operand visit g p else done g)
    visit_code fuel visit g' (p + instruction_size (g'.memory.bytes p)) end
]

-- Visits the addresses at `p`, `p + stride`, …: a saved stack, read as it stands at each round.
unfoldable pub visit_words : ℕ → ℕ → (Gc → ℕ → Run Gc) → Gc → ℕ → Run Gc
visit_words zero stride visit g p = done g
visit_words (suc count) stride visit g p = do
  g' ← visit g (word_at g.memory p)
  visit_words count stride visit g' (p + stride)

unfoldable pub visit_vm_state_block : (Gc → ℕ → Run Gc) → Gc → ℕ → Run Gc
visit_vm_state_block visit g p = do
  let calls = read32 g.memory.bytes (p + 16)
  let addresses = read32 g.memory.bytes (p + 20)
  g' ← visit_words calls 16 visit g (p + 24)
  visit_words addresses 8 visit g' (p + 24 + 16 * calls)

-- `visitBlock` past its tests, by the type of the block at `p`; `depth` bounds the recursion.
unfoldable pub visit_marked : (Gc → ℕ → Run Gc) → Gc → ℕ → Run Gc
visit_marked visit g p =
    let type = get_vmm_block_type (word_at g.memory p) in
    let marked = change g p set_vmm_block_mark in
    let size = get_vmm_block_size (word_at marked.memory p) in
    let cleared = change marked p clear_vmm_block_mark in
    let address = vmm_address_for_ptr g.memory p in
    if type == free_block_type
    then done (report cleared (free_block_is_reachable address))
    else if type == code_block_type
    then visit_code (suc size) visit marked (p + 8) (p + 8 + size)
    else if type == state_block_type
    then visit_vm_state_block visit marked p
    else done (report cleared (unknown_block_type address type))

unfoldable pub visit_block : ℕ → Gc → ℕ → Run Gc
visit_block zero g address = unfinished
visit_block (suc depth) g address = elim (ltb address g.memory.heap_start) [
  | true ↦ done g
  | false ↦ elim (ptr_to_vmm_address g.memory (sub64 address 8)) [
    | none ↦ null_dereference
    | some p ↦ elim (vmm_block_is_marked (word_at g.memory p)) [
      | true ↦ done g
      | false ↦ visit_marked (visit_block depth) g p
    ]
  ]
]

-- The roots on a stack: every word, or every second one.
unfoldable pub visit_roots : ℕ → Gc → List ℕ → Run Gc
visit_roots depth g [] = done g
visit_roots depth g (a ∷ rest) = do g' ← visit_block depth g a; visit_roots depth g' rest

-- The state of the loop of `collectUnmarkedBlocks` between two rounds.
pub record Sweep : Type 0 where
  pub memory : VmMemory
  pub prev : Option ℕ
  pub prev_free : Option ℕ

abbrev pub is_free_at : VmMemory → ℕ → Bool
is_free_at m p = get_vmm_block_type (word_at m p) == free_block_type

-- The conditions that the assertions of the loop state of `prev` and `prevFree`.
abbrev pub is_marked_at : VmMemory → Option ℕ → Bool
is_marked_at m none = false
is_marked_at m (some p) = vmm_block_is_marked (word_at m p)

abbrev pub same_block : Option ℕ → ℕ → Bool
same_block none p = false
same_block (some q) p = q == p

abbrev pub leads_to : VmMemory → Option ℕ → ℕ → Bool
leads_to m none p = true
leads_to m (some q) p = same_block (next_heap_block_in_vmm m q) p

abbrev pub at_end : VmMemory → Option ℕ → Bool
at_end m none = true
at_end m (some q) = elim (next_heap_block_in_vmm m q) [ none ↦ true | some _ ↦ false ]

abbrev pub list_ends : VmMemory → Option ℕ → Bool
list_ends m none = m.first_free == 0
list_ends m (some q) = word_at m (q + 8) == 0

-- Changes the block at `p` to a free block at the end of the free list.
unfoldable pub free_block : Sweep → ℕ → Run Sweep
free_block s p = do
  assert (leb 8 (get_vmm_block_size (word_at s.memory p)))
  let m₁ = change_header s.memory p (λ w. set_vmm_block_type w free_block_type)
  let m₂ = put_word m₁ (p + 8) 0
  assert (list_ends m₂ s.prev_free)
  let m₃ = set_next m₂ s.prev_free (vmm_address_for_ptr m₂ p)
  done (record {
    memory = record m₃ { bytes_free = add64 m₃.bytes_free (get_vmm_block_size (word_at m₃ p)) };
    prev = some p;
    prev_free = some p;
  })

-- Adds the block at `p` to the free block `q` before it.
unfoldable pub coalesce : Sweep → ℕ → ℕ → Run Sweep
coalesce s q p = do
  assert (same_block s.prev_free q)
  assert (word_at s.memory (q + 8) == 0)
  let m = s.memory
  let block_size = 8 + get_vmm_block_size (word_at m p)
  let m₁ =
      put_word m q
        (set_vmm_block_size (word_at m q) (get_vmm_block_size (word_at m q) + block_size))
  done (record s { memory = record m₁ { bytes_free = add64 m.bytes_free block_size } })

-- One round, for the block at `p`.
unfoldable pub sweep_block : Sweep → ℕ → Run Sweep
sweep_block s p = do
  assert (leads_to s.memory s.prev p)
  (if vmm_block_is_marked (word_at s.memory p)
      then done (record s { memory = change_header s.memory p clear_vmm_block_mark; prev = some p })
      else (do
        assert (not (is_marked_at s.memory s.prev))
        elim s.prev [
          | none ↦ free_block s p
          | some q ↦ if is_free_at s.memory q then coalesce s q p else free_block s p
        ]))

unfoldable pub sweep_loop : ℕ → Sweep → Option ℕ → Run Sweep
sweep_loop zero s block = unfinished
sweep_loop (suc fuel) s none = do assert (at_end s.memory s.prev); done s
sweep_loop (suc fuel) s (some p) =
    let next = next_heap_block_in_vmm s.memory p in
    sweep_block s p >>= λ s'. sweep_loop fuel s' next

-- The check at the end: the sizes on the free list against the count.
unfoldable pub count_free : ℕ → VmMemory → Option ℕ → ℕ → Run ℕ
count_free zero m block total = unfinished
count_free (suc fuel) m none total = done total
count_free (suc fuel) m (some p) total =
    count_free fuel m (next_free_block_in_vmm m (some p))
      (add64 total (get_vmm_block_size (word_at m p)))

unfoldable pub collect_unmarked_blocks : Gc → Run Gc
collect_unmarked_blocks g = do
  let start = record g.memory { bytes_free = 0; first_free = 0 }
  s ←
      sweep_loop (suc start.size) (record { memory = start; prev = none; prev_free = none })
        (some start.heap_start)
  total ← count_free (suc start.size) s.memory (first_free_block_in_vmm s.memory) 0
  let g' = record g { memory = s.memory }
  (if total == s.memory.bytes_free
      then done g'
      else done (report g' (free_count_differs s.memory.bytes_free total)))

-- The roots are the first word of each frame of the call stack, and the address stack.
unfoldable pub collect_unreachable_vmm_blocks : VmMemory → List ℕ → List ℕ → Run Gc
collect_unreachable_vmm_blocks m call_roots address_roots = do
  cleared ← clear_marks (suc m.size) m (some m.heap_start)
  g₁ ← visit_roots (suc m.size) (record { memory = cleared; errors = [] }) call_roots
  g₂ ← visit_roots (suc m.size) g₁ address_roots
  collect_unmarked_blocks g₂
