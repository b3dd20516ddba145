-- ===== src/Heap/Reserve.antt =====
-- `reserveVmMemoryForProgram` of src/vmmem.c on a memory without a program.
use unlambda.Base.{
  ℕ, zero, suc, ◌+◌, ◌-◌, ◌*◌, ◌/◌, ◌^◌, ◌≤◌, ◌<◌, ◌≡◌, refl, sym, ◌∙◌, subst, ◌⊎◌, inl, inr, true,
  false, Bool-cases, [], ◌∷◌, ltb, leb, Return, success, failure, sub64, arith,
}
use unlambda.Base.Host.{Host, IsHost}
use unlambda.Base.Run.{done, Returns}
use unlambda.Memory.Header.{header-parts, get_vmm_block_size, get_vmm_block_type}
use unlambda.Memory.State.{
  VmMemory, VmmStatus, ok, size_increase_failed, not_enough_memory, set_vmm_status,
  clear_vmm_status, word_at, align_to_8, vmm_heap_size, write_free_block,
}
use unlambda.Memory.Grow.{
  increase_vmm_size, reserve_loop, place_heap, reserve_vm_memory_for_program,
}
use unlambda.Heap.Blocks.{free, block, IsHeap}
use unlambda.Heap.Blank.{IsBlank, Increased, grown_size, increase_vmm_size-Increased, written}
use unlambda.Heap.FirstFit.{align_to_8_lem}

status-IsBlank : (m : VmMemory) (code : VmmStatus) → IsBlank m → IsBlank (set_vmm_status m code)
status-IsBlank m code h = record {
  head = h.head;
  link = h.link;
  start = h.start;
  first = h.first;
  count = h.count;
  block_fits = h.block_fits;
  limited = h.limited;
  small = h.small;
  placed = h.placed;
}

-- Why a program has no room, in a memory that may have grown.
abbrev pub NoRoom : VmMemory → ℕ → VmMemory → Type 0
NoRoom m n m' =
    IsBlank m'
    × (((m'.status ≡ not_enough_memory) × (m.max_size < n)) ⊎ (m'.status ≡ size_increase_failed))

abbrev Looped : VmMemory → ℕ → VmMemory × Return → Type 0
Looped m n (m', success) = IsBlank m' × (n ≤ m'.size) × (m'.max_size ≡ m.max_size)
Looped m n (m', failure) = NoRoom m n m'

-- The heap behind `n` bytes of program: one free block, or nothing where that does not fit.
abbrev pub Placed : VmMemory → ℕ → VmMemory → Type 0
Placed m n m' =
    (n ≤ m'.size)
    × (m'.max_size ≡ m.max_size)
    × (((m'.heap_start ≡ n) × IsHeap m' (block free false (m'.size - n - 8) ∷ []))
        ⊎ ((m'.size < n + 16)
            × (m'.heap_start ≡ m'.size)
            × (m'.bytes_free ≡ 0)
            × (m'.first_free ≡ 0)))

abbrev pub Reserved : VmMemory → ℕ → VmMemory × Return → Type 0
Reserved m n (m', success) = Placed m n m'
Reserved m n (m', failure) = NoRoom m n m'

Looped-trans :
    (m m' : VmMemory) (n : ℕ)
    → m'.max_size ≡ m.max_size
    → (r : VmMemory × Return) → Looped m' n r
    → Looped m n r
Looped-trans m m' n same (r, success) (h, fits, limit) = (h, fits, limit ∙ same)
Looped-trans m m' n same (r, failure) (h, inl (status, full)) =
    (h, inl (status, omega (arith, same, full)))
Looped-trans m m' n same (r, failure) (h, inr status) = (h, inr status)

place_heap-Placed :
    (m m₀ : VmMemory) (n : ℕ)
    → IsBlank m
    → 0 < n
    → n ≤ m.size
    → m.max_size ≡ m₀.max_size
    → Placed m₀ n (place_heap m n)
unfolding place_heap
place_heap-Placed m m₀ n h pos fits same =
    let rest = sub64 (sub64 m.size n) 8 in
    let exact : sub64 m.size n ≡ m.size - n = omega (arith, fits, h.limited, h.small) in
    elim (Bool-cases (leb 16 (sub64 m.size n))) [
      | inr e ↦
          let run : place_heap m n
              ≡ record m { heap_start = m.size; bytes_free = 0; first_free = 0 } =
            rw (place_heap, e) refl in
          subst (Placed m₀ n) (sym run)
            (fits, same, inr (ground (arith, e, exact), refl, refl, refl))
      | inl e ↦
          let room : n + 16 ≤ m.size = ground (arith, e, exact) in
          let left : rest ≡ m.size - n - 8 = omega (arith, exact, room, h.limited, h.small) in
          let t : VmMemory = record m {
            heap_start = n;
            bytes_free = rest;
            first_free = n;
            bytes = write_free_block m.bytes n rest 0;
          } in
          let run : place_heap m n ≡ t = rw (place_heap, e) refl in
          let (head, link) =
            written m.bytes n rest 0 (omega (arith, left, h.limited, h.small)) (omega arith) in
          let heap : IsHeap t (block free false (m.size - n - 8) ∷ []) = record {
            tiled = (head ∙ omega (arith, left), omega (arith, room), link, omega (arith, room));
            first = refl;
            count = omega (arith, left);
            program = pos;
            limited = h.limited;
            small = h.small;
            placed = h.placed;
          } in
          subst (Placed m₀ n) (sym run) (fits, same, inl (refl, heap))
    ]

module _ (host : Host) (lawful : IsHost host) where
  reserve_loop-Looped :
      (fuel : ℕ) (m : VmMemory) (n : ℕ)
      → IsBlank m
      → m.max_size - m.size < fuel
      → Returns (reserve_loop fuel host m n) (Looped m n)
  unfolding reserve_loop
  reserve_loop-Looped zero m n h enough = absurd (omega arith)
  reserve_loop-Looped (suc fuel) m n h enough = elim (Bool-cases (ltb m.size n)) [
    | inr e ↦ ((m, success), ground (arith, e), (h, ground (arith, e), refl))
    | inl e ↦
        let (r, run, out) = increase_vmm_size-Increased host lawful m h in
        go r run out e (λ m' h' less. reserve_loop-Looped fuel m' n h' less)
  ]
    where
      go :
          (r : VmMemory × Return)
          → increase_vmm_size host m ≡ done r
          → Increased m r
          → ltb m.size n ≡ true
          → ((m' : VmMemory)
              → IsBlank m'
              → m'.max_size - m'.size < fuel
              → Returns (reserve_loop fuel host m' n) (Looped m' n))
          → Returns (reserve_loop (suc fuel) host m n) (Looped m n)
      go (m', success) run (h', size, same, less) e next =
          let grown : m.size < grown_size m = ground (arith, h.block_fits, less) in
          let (r, rest, out) = next m' h' (omega (arith, size, same, less, grown, enough)) in
          (r, ground (arith, e, run, rest), Looped-trans m m' n same r out)
      go (m', failure) run (inl (same, full)) e next = (
        (set_vmm_status m not_enough_memory, failure),
        ground (arith, e, run, same),
        (status-IsBlank m not_enough_memory h, inl (refl, ground (arith, e, full))),
      )
      go (m', failure) run (inr same) e next = (
        (set_vmm_status m size_increase_failed, failure),
        ground (arith, e, run, same),
        (status-IsBlank m size_increase_failed h, inr refl),
      )

  pub reserve_vm_memory_for_program-Reserved :
      (m : VmMemory) (size : ℕ)
      → IsBlank m
      → 0 < size
      → size < 2 ^ 63
      → Returns (reserve_vm_memory_for_program host m size) (Reserved m ((size + 7) / 8 * 8))
  unfolding reserve_vm_memory_for_program
  reserve_vm_memory_for_program-Reserved m size h pos low =
      let n = (size + 7) / 8 * 8 in
      let aligned = align_to_8_lem size (omega arith) in
      let parts : (get_vmm_block_type (word_at m m.heap_start) ≡ 0)
          × (get_vmm_block_size (word_at m m.heap_start) ≡ m.size - 8) =
        rw (h.start, h.head)
          (let all =
              header-parts false 0 (m.size - 8) 0 0 (omega arith)
                (omega (arith, h.limited, h.small)) (omega arith) (omega arith) in
            (all.1, all.2)) in
      let whole : sub64 (vmm_heap_size m) 8 ≡ m.size - 8 =
        omega (arith, h.start, h.limited, h.small, h.block_fits) in
      let m₀ = clear_vmm_status m in
      let (r, run, out) =
        reserve_loop-Looped (suc m.max_size) m₀ n (status-IsBlank m ok h) (omega arith) in
      finish aligned parts whole r run out
    where
      finish :
          align_to_8 size ≡ (size + 7) / 8 * 8
          → (get_vmm_block_type (word_at m m.heap_start) ≡ 0)
            × (get_vmm_block_size (word_at m m.heap_start) ≡ m.size - 8)
          → sub64 (vmm_heap_size m) 8 ≡ m.size - 8
          → (r : VmMemory × Return)
          → reserve_loop (suc m.max_size) host (clear_vmm_status m) ((size + 7) / 8 * 8) ≡ done r
          → Looped (clear_vmm_status m) ((size + 7) / 8 * 8) r
          → Returns (reserve_vm_memory_for_program host m size) (Reserved m ((size + 7) / 8 * 8))
      finish aligned (type, block_size) whole (m', success) run (h', fits, limit) = (
        (place_heap m' ((size + 7) / 8 * 8), success),
        ground (arith, aligned, type, block_size, whole, run),
        place_heap-Placed m' m ((size + 7) / 8 * 8) h' (omega (arith, pos)) fits limit,
      )
      finish aligned (type, block_size) whole (m', failure) run out =
          ((m', failure), ground (arith, aligned, type, block_size, whole, run), out)
