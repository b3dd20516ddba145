-- ===== src/Heap/Blank.antt =====
-- `createVmMemory` and `increaseVmmSize` of src/vmmem.c, as long as the memory is one free block.
use unlambda.Base.{
  ℕ, ◌+◌, ◌-◌, ◌*◌, ◌^◌, ◌≤◌, ◌<◌, ◌≡◌, refl, ◌∙◌, subst, ◌⊎◌, inl, inr, false, ◌||◌, Bool-cases,
  Option-cases, some, ltb, leb, if◌then◌else◌, Return, success, failure, add64, sub64, mul64, arith,
}
use unlambda.Base.Host.{Host, IsHost}
use unlambda.Base.Run.{Returns}
use unlambda.Memory.Bytes.{Bytes, read64, write64, read64-write64, read64-write64_ne}
use unlambda.Memory.Header.{header, header-parts, get_vmm_block_size, set_vmm_block_size}
use unlambda.Memory.State.{
  VmMemory, ok, max_size_exceeded, size_increase_failed, set_vmm_status, word_at,
  next_heap_block_in_vmm, first_free_block_in_vmm, next_free_block_in_vmm, write_free_block,
}
use unlambda.Memory.Grow.{create_vm_memory, last_free, increase_vmm_size}

-- No program is reserved, and the memory is one free block.
pub record IsBlank (m : VmMemory) : Type 0 where
  pub head : word_at m 0 ≡ header false 0 (m.size - 8)
  pub link : word_at m 8 ≡ 0
  pub start : m.heap_start ≡ 0
  pub first : m.first_free ≡ 0
  pub count : m.bytes_free ≡ m.size - 8
  pub block_fits : 16 ≤ m.size
  pub limited : m.size ≤ m.max_size
  pub small : m.max_size < 2 ^ 56
  pub placed : m.base + m.size < 2 ^ 64

pub written :
    (f : Bytes) (p size next : ℕ)
    → size < 2 ^ 56
    → next < 2 ^ 64
    → (read64 (write_free_block f p size next) p ≡ header false 0 size)
      × (read64 (write_free_block f p size next) (p + 8) ≡ next)
unfolding write_free_block
written f p size next low word = (
  read64-write64_ne (write64 f p size) (p + 8) next p (inl (omega arith))
      ∙ read64-write64 f p size (omega arith)
      ∙ omega arith,
  read64-write64 (write64 f p size) (p + 8) next word,
)

abbrev pub created_memory : ℕ → Bytes → ℕ → ℕ → VmMemory
created_memory p f initial_size max_size = record {
  base = p;
  bytes = write_free_block f 0 (initial_size - 8) 0;
  size = initial_size;
  max_size = max_size;
  heap_start = 0;
  bytes_free = initial_size - 8;
  first_free = 0;
  status = ok;
}

pub created_memory-IsBlank :
    (p : ℕ) (f : Bytes) (initial_size max_size : ℕ)
    → 16 ≤ initial_size
    → initial_size ≤ max_size
    → max_size < 2 ^ 56
    → p + initial_size < 2 ^ 64
    → IsBlank (created_memory p f initial_size max_size)
created_memory-IsBlank p f initial_size max_size low fits small placed =
    let (head, link) = written f 0 (initial_size - 8) 0 (omega arith) (omega arith) in
    record {
      head = head;
      link = link;
      start = refl;
      first = refl;
      count = refl;
      block_fits = low;
      limited = fits;
      small = small;
      placed = placed;
    }

pub create_vm_memory-IsBlank :
    (host : Host) (f : Bytes) (impl_size initial_size max_size : ℕ) (m : VmMemory)
    → IsHost host
    → max_size < 2 ^ 56
    → create_vm_memory host f impl_size initial_size max_size ≡ some m
    → IsBlank m × (m.size ≡ initial_size) × (m.max_size ≡ max_size)
unfolding create_vm_memory
create_vm_memory-IsBlank host f impl_size initial_size max_size m lawful small made =
    elim (Bool-cases (ltb initial_size 16 || ltb max_size initial_size)) [
      | inl e ↦ absurd (ground (arith, made, e))
      | inr e ↦ elim (Option-cases (host.malloc impl_size)) [
        | inl n ↦ absurd (ground (arith, made, e, n))
        | inr (q, got_impl) ↦ elim (Option-cases (host.malloc initial_size)) [
          | inl n ↦ absurd (ground (arith, made, e, got_impl, n))
          | inr (p, got) ↦
              let run : some (created_memory p f initial_size max_size) ≡ some m =
                rw (create_vm_memory, e, got_impl, got) at made in
              let same : created_memory p f initial_size max_size ≡ m = cc in
              subst
                (λ (t : VmMemory). IsBlank t × (t.size ≡ initial_size) × (t.max_size ≡ max_size))
                same
                (
                  created_memory-IsBlank p f initial_size max_size (ground (arith, e))
                      (ground (arith, e)) small (lawful.malloc_fits initial_size p got),
                  refl,
                  refl,
                )
        ]
      ]
    ]

-- Growth: to twice the size, or to the limit.
abbrev pub grown_size : VmMemory → ℕ
grown_size m = if ltb m.max_size (m.size * 2) then m.max_size else m.size * 2

abbrev pub Increased : VmMemory → VmMemory × Return → Type 0
Increased m (m', success) =
    IsBlank m' × (m'.size ≡ grown_size m) × (m'.max_size ≡ m.max_size) × (m.size < m.max_size)
Increased m (m', failure) =
    ((m' ≡ set_vmm_status m max_size_exceeded) × (m.max_size ≤ m.size))
    ⊎ (m' ≡ set_vmm_status m size_increase_failed)

abbrev enlarged : VmMemory → ℕ → VmMemory
enlarged m p = record m {
  base = p;
  bytes = write64 m.bytes 0 (
      set_vmm_block_size (word_at m 0)
        (get_vmm_block_size (word_at m 0) + sub64 (grown_size m) m.size));
  size = grown_size m;
  bytes_free = add64 m.bytes_free (sub64 (grown_size m) m.size);
  status = ok;
}

enlarged-IsBlank :
    (m : VmMemory) (p : ℕ)
    → IsBlank m
    → m.size < m.max_size
    → p + grown_size m < 2 ^ 64
    → IsBlank (enlarged m p)
enlarged-IsBlank m p h room placed =
    let grown : (m.size ≤ grown_size m) × (grown_size m ≤ m.max_size) =
      ground (arith, h.block_fits, room) in
    let parts : (get_vmm_block_size (word_at m 0) ≡ m.size - 8)
        × (set_vmm_block_size (word_at m 0) (grown_size m - 8)
            ≡ header false 0 (grown_size m - 8)) =
      rw h.head (
        let all =
          header-parts false 0 (m.size - 8) 0 (grown_size m - 8) (omega arith)
            (omega (arith, h.limited, h.small)) (omega arith) (omega (arith, grown, h.small)) in
        (all.2, all.4)) in
    let word : get_vmm_block_size (word_at m 0) + sub64 (grown_size m) m.size ≡ grown_size m - 8 =
      omega (arith, parts.0, grown, h.small, h.block_fits) in
    let stored : set_vmm_block_size (word_at m 0)
          (get_vmm_block_size (word_at m 0) + sub64 (grown_size m) m.size)
        ≡ header false 0 (grown_size m - 8) =
      rw word parts.1 in
    record {
      head = read64-write64 m.bytes 0 _ (omega (arith, stored, grown, h.small)) ∙ stored;
      link = read64-write64_ne m.bytes 0 _ 8 (inr (omega arith)) ∙ h.link;
      start = h.start;
      first = h.first;
      count = omega (arith, h.count, grown, h.small, h.block_fits);
      block_fits = omega (arith, grown, h.block_fits);
      limited = grown.1;
      small = h.small;
      placed = placed;
    }

module _ (host : Host) (lawful : IsHost host) where
  pub increase_vmm_size-Increased :
      (m : VmMemory) → IsBlank m → Returns (increase_vmm_size host m) (Increased m)
  unfolding increase_vmm_size last_free first_free_block_in_vmm next_free_block_in_vmm
      next_heap_block_in_vmm
  increase_vmm_size-Increased m h = elim (Bool-cases (leb m.max_size m.size)) [
    | inl e ↦ (
      (set_vmm_status m max_size_exceeded, failure),
      ground (arith, e),
      inl (refl, ground (arith, e)),
    )
    | inr e ↦
        let doubled : mul64 m.size 2 ≡ m.size * 2 = omega (arith, h.limited, h.small) in
        let size = grown_size m in
        let same : (if ltb (mul64 m.size 2) m.size || ltb m.max_size (mul64 m.size 2)
              then m.max_size
              else mul64 m.size 2)
            ≡ size =
          rw doubled (ground arith) in
        elim (Option-cases (host.realloc m.base size)) [
          | inl n ↦ (
            (set_vmm_status m size_increase_failed, failure),
            ground (arith, e, doubled, n),
            inr refl,
          )
          | inr (p, got) ↦
              let sized : get_vmm_block_size (word_at m 0) ≡ m.size - 8 =
                rw h.head
                  (header-parts false 0 (m.size - 8) 0 0 (omega arith)
                    (omega (arith, h.limited, h.small)) (omega arith) (omega arith)).2 in
              (
                (enlarged m p, success),
                ground (
                  arith, e, doubled, got, h.first, h.start, h.link, sized, h.limited, h.small,
                  h.block_fits,
                ),
                (
                  enlarged-IsBlank m p h (ground (arith, e))
                      (lawful.realloc_fits m.base size p got),
                  refl,
                  refl,
                  ground (arith, e),
                ),
              )
        ]
  ]
