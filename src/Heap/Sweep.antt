-- ===== src/Heap/Sweep.antt =====
-- One round of the sweep in src/vmmem.c: what it asserts, and the block that is kept.
use unlambda.Base.{
  ℕ, ◌+◌, ◌^◌, ◌≤◌, ◌<◌, ◌≡◌, refl, sym, ◌∙◌, ap, inl, inr, true, false, none, some, List, [], ◌∷◌,
  ◌++◌, arith,
}
use unlambda.Base.Run.{Returns}
use unlambda.Memory.Bytes.{read64, write64, read64-Agrees, read64-write64, write64-outside}
use unlambda.Memory.Header.{
  header, header-word, get_vmm_block_size, get_vmm_block_size-header, vmm_block_is_marked,
  vmm_block_is_marked-header, clear_vmm_block_mark, clear_vmm_block_mark-header,
}
use unlambda.Memory.State.{VmMemory, next_heap_block_in_vmm}
use unlambda.Memory.Collect.{Sweep, sweep_block, leads_to, is_marked_at, change_header}
use unlambda.Heap.Blocks.{Use, used, Block, block, type_of, span}
use unlambda.Heap.Allocate.{free_bytes-append}
use unlambda.Heap.Tiled.{Tiled-span, Tiled-Agrees, Tiled-append, Tiled-split, first_free_of-append}
use unlambda.Heap.Untouched.{Untouched-Agrees}
use unlambda.Heap.Swept.{
  Bodies-Untouched, Bodies-append, LastAt, SweptTo, last_free_of-append, one_block, type_of-lt,
}

module _ (m : VmMemory) (some_program : 0 < m.heap_start) (small : m.size < 2 ^ 56) where
  -- The assertions on the block before hold: it leads to this one, and it has no mark.
  pub before_holds :
      (out : List Block) (p : ℕ) (s : Sweep)
      → SweptTo m out p s
      → p < m.size
      → (leads_to s.memory s.prev p ≡ true) × (is_marked_at s.memory s.prev ≡ false)
  unfolding next_heap_block_in_vmm
  before_holds out p s h inside = go h.last
    where
      go :
          LastAt m.heap_start out s.prev
          → (leads_to s.memory s.prev p ≡ true) × (is_marked_at s.memory s.prev ≡ false)
      go (inl (empty, e)) = (rw e refl, rw e refl)
      go (inr (pre, k, t, shape, e)) =
          let q = m.heap_start + span pre in
          let (left, right) =
            Tiled-split s.memory.bytes m.heap_start q pre (block k false t ∷ []) p 0 refl
              (rw shape at h.tiled) in
          let (head, big, reach) = one_block s.memory.bytes q k t p 0 right in
          let sized : get_vmm_block_size (read64 s.memory.bytes q) ≡ t =
            ap get_vmm_block_size head
            ∙ get_vmm_block_size-header false (type_of k) t (type_of-lt k) (omega arith) in
          let clear : vmm_block_is_marked (read64 s.memory.bytes q) ≡ false =
            ap vmm_block_is_marked head
            ∙ vmm_block_is_marked-header false (type_of k) t (type_of-lt k) (omega arith) in
          (rw e (ground (arith, sized, reach, h.size, small, inside)), rw e clear)

  -- A marked block stays, without its mark.
  pub keep_step :
      (out : List Block) (p : ℕ) (s : Sweep) (u : Use) (t : ℕ)
      → SweptTo m out p s
      → read64 m.bytes p ≡ header true (type_of (used u)) t
      → 8 ≤ t
      → p + (8 + t) ≤ m.size
      → Returns (sweep_block s p) (SweptTo m (out ++ block (used u) false t ∷ []) (p + (8 + t)))
  unfolding sweep_block
  keep_step out p s u t h head big inside =
      let (led, clear) = before_holds out p s h (omega arith) in
      let here : read64 s.memory.bytes p ≡ header true (type_of (used u)) t =
        read64-Agrees p (λ x lo hi. h.ahead x lo) ∙ head in
      let marked : vmm_block_is_marked (read64 s.memory.bytes p) ≡ true =
        ap vmm_block_is_marked here
        ∙ vmm_block_is_marked-header true (type_of (used u)) t (type_of-lt (used u))
            (omega arith) in
      let word : clear_vmm_block_mark (read64 s.memory.bytes p)
          ≡ header false (type_of (used u)) t =
        ap clear_vmm_block_mark here
        ∙ clear_vmm_block_mark-header true (type_of (used u)) t (type_of-lt (used u))
            (omega arith) in
      let g = write64 s.memory.bytes p (clear_vmm_block_mark (read64 s.memory.bytes p)) in
      let reach = Tiled-span s.memory.bytes m.heap_start out p 0 h.tiled in
      let under : (x : ℕ) → x < p → g x ≡ s.memory.bytes x =
        λ x lt. write64-outside s.memory.bytes p _ x (inl lt) in
      let above : (x : ℕ) → p + 8 ≤ x → g x ≡ s.memory.bytes x =
        λ x le. write64-outside s.memory.bytes p _ x (inr le) in
      (
        record s { memory = change_header s.memory p clear_vmm_block_mark; prev = some p },
        rw (led, marked) refl,
        record {
          tiled =
              Tiled-append g m.heap_start p out (block (used u) false t ∷ []) (p + (8 + t)) 0
                (Tiled-Agrees s.memory.bytes g m.heap_start out p 0 (λ x lo hi. under x hi) h.tiled)
                (
                  read64-write64 s.memory.bytes p _ (
                        omega (
                          arith,
                          word,
                          header-word false (type_of (used u)) t (type_of-lt (used u))
                              (omega arith),
                        ))
                      ∙ word,
                  big,
                  refl,
                );
          bodies =
              Bodies-append m.bytes g m.heap_start p out (block (used u) false t ∷ []) reach
                (Bodies-Untouched m.bytes s.memory.bytes g m.heap_start out h.bodies (
                  Untouched-Agrees s.memory.bytes g m.heap_start p out (omega (arith, reach))
                    (λ x lo hi. under x hi)))
                ((λ x lo hi. above x lo ∙ h.ahead x (omega arith)), tt);
          ahead = λ x le. above x (omega arith) ∙ h.ahead x (omega arith);
          below = λ x lt. under x (omega (arith, reach)) ∙ h.below x lt;
          first =
              h.first
              ∙ sym (first_free_of-append m.heap_start p out (block (used u) false t ∷ []) 0 reach);
          count = h.count ∙ omega (arith, free_bytes-append out (block (used u) false t ∷ []));
          last_free =
              h.last_free
              ∙ sym
                  (last_free_of-append m.heap_start p out (block (used u) false t ∷ []) none reach);
          last = inr (out, used u, t, refl, ap some (sym reach));
          size = h.size;
          start = h.start;
          limit = h.limit;
          base = h.base;
        },
      )
