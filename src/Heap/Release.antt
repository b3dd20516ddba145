-- ===== src/Heap/Release.antt =====
-- One round of the sweep in src/vmmem.c: the block that becomes free, or joins the one before it.
use unlambda.Base.{
  ℕ, ◌+◌, ◌^◌, ◌≤◌, ◌<◌, ◌≡◌, refl, sym, ◌∙◌, ap, inl, inr, true, false, none, some, List, [], ◌∷◌,
  ◌++◌, ltb, leb, add64, arith,
}
use unlambda.Base.Run.{Returns}
use unlambda.Memory.Allocate.{set_link, set_first}
use unlambda.Memory.Bytes.{
  read64, write64, read64-Agrees, read64-write64, read64-write64_ne, write64-outside,
}
use unlambda.Memory.Header.{
  header, header-word, get_vmm_block_size, get_vmm_block_size-header, set_vmm_block_size,
  set_vmm_block_size-header, set_vmm_block_type, set_vmm_block_type-header, free_block_type,
}
use unlambda.Memory.State.{VmMemory, vmm_address_for_ptr}
use unlambda.Memory.Collect.{Sweep, free_block, coalesce, list_ends}
use unlambda.Heap.Blocks.{Kind, free, Block, block, type_of, span, first_free_of, Tiled}
use unlambda.Heap.Allocate.{free_bytes-append, free_bytes-le-span}
use unlambda.Heap.Free.{first_free_of-AllUsed, last_free_of-cases}
use unlambda.Heap.Tiled.{
  Tiled-span, Tiled-Agrees, Tiled-append, Tiled-split, first_free_of-append, last_free_of,
}
use unlambda.Heap.Untouched.{Untouched-Agrees, Relinked_lem}
use unlambda.Heap.Swept.{
  Bodies-Untouched, Bodies-append, Bodies-before, SweptTo, last_free_of-append, type_of-lt,
}

module _ (m : VmMemory) (some_program : 0 < m.heap_start) (small : m.size < 2 ^ 56) where
  -- The free list ends where the sweep stands.
  list_ended :
      (t : VmMemory) (out : List Block) (p : ℕ)
      → Tiled t.bytes m.heap_start out p 0
      → t.first_free ≡ first_free_of m.heap_start out 0
      → list_ends t (last_free_of m.heap_start out none) ≡ true
  list_ended t out p tiled first = elim (last_free_of-cases m.heap_start out none) [
    | inl (none_free, e) ↦
        rw e (ground (arith, first, first_free_of-AllUsed m.heap_start out 0 none_free))
    | inr (q, e, l) ↦
        let (left, (head, big, link, rest)) =
          Tiled-split t.bytes m.heap_start q l.before (block free l.mark l.size ∷ l.after) p 0
            l.place (rw l.shape at tiled) in
        rw e (ground (arith, link, first_free_of-AllUsed (q + (8 + l.size)) l.after 0 l.rest_used))
  ]

  -- A free block at the end of the list is its first or its last one.
  first_set :
      (out : List Block) (p first : ℕ)
      → first ≡ first_free_of m.heap_start out 0
      → set_first first (last_free_of m.heap_start out none) p ≡ first_free_of m.heap_start out p
  first_set out p first same = elim (last_free_of-cases m.heap_start out none) [
    | inl (none_free, e) ↦ rw e (sym (first_free_of-AllUsed m.heap_start out p none_free))
    | inr (q, e, l) ↦
        let at = λ (n : ℕ).
          ap (λ o. first_free_of m.heap_start o n) l.shape
          ∙ first_free_of-append m.heap_start q l.before (block free l.mark l.size ∷ l.after) n
              l.place in
        rw e (same ∙ at 0 ∙ sym (at p))
  ]

  -- An unmarked block becomes a free block at the end of the list.
  pub free_step :
      (out : List Block) (p : ℕ) (s : Sweep) (k : Kind) (t : ℕ)
      → SweptTo m out p s
      → read64 m.bytes p ≡ header false (type_of k) t
      → 8 ≤ t
      → p + (8 + t) ≤ m.size
      → Returns (free_block s p) (SweptTo m (out ++ block free false t ∷ []) (p + (8 + t)))
  unfolding free_block vmm_address_for_ptr
  free_step out p s k t h head big inside =
      let f = s.memory.bytes in
      let prev = last_free_of m.heap_start out none in
      let here : read64 f p ≡ header false (type_of k) t =
        read64-Agrees p (λ x lo hi. h.ahead x lo) ∙ head in
      let sized : get_vmm_block_size (read64 f p) ≡ t =
        ap get_vmm_block_size here
        ∙ get_vmm_block_size-header false (type_of k) t (type_of-lt k) (omega arith) in
      let word : set_vmm_block_type (read64 f p) free_block_type ≡ header false 0 t =
        ap (λ w. set_vmm_block_type w 0) here
        ∙ set_vmm_block_type-header false (type_of k) t (type_of-lt k) (omega arith) 0
            (omega arith) in
      let reach = Tiled-span f m.heap_start out p 0 h.tiled in
      let f₁ = write64 f p (set_vmm_block_type (read64 f p) free_block_type) in
      let f₂ = write64 f₁ (p + 8) 0 in
      let under : (x : ℕ) → x < p → f₂ x ≡ f x = λ x lt.
        write64-outside f₁ (p + 8) 0 x (inl (omega arith)) ∙ write64-outside f p _ x (inl lt) in
      let above : (x : ℕ) → p + 16 ≤ x → f₂ x ≡ f x = λ x le.
        write64-outside f₁ (p + 8) 0 x (inr (omega arith))
        ∙ write64-outside f p _ x (inr (omega arith)) in
      let tiled₂ = Tiled-Agrees f f₂ m.heap_start out p 0 (λ x lo hi. under x hi) h.tiled in
      let r = Relinked_lem f₂ m.heap_start p out 0 p reach (omega arith) tiled₂ in
      let g = set_link f₂ prev p in
      let new_head : read64 g p ≡ header false 0 t =
        read64-Agrees p (λ x lo hi. r.above f₂ x lo)
        ∙ read64-write64_ne f₁ (p + 8) 0 p (inl (omega arith))
        ∙ read64-write64 f p _
            (omega (arith, word, header-word false 0 t (omega arith) (omega arith)))
        ∙ word in
      let new_link : read64 g (p + 8) ≡ 0 =
        read64-Agrees (p + 8) (λ x lo hi. r.above f₂ x (omega arith))
        ∙ read64-write64 f₁ (p + 8) 0 (omega arith) in
      let new_size : get_vmm_block_size (read64 g p) ≡ t =
        ap get_vmm_block_size new_head
        ∙ get_vmm_block_size-header false 0 t (omega arith) (omega arith) in
      let m₂ : VmMemory = record s.memory { bytes = f₂ } in
      let ended : list_ends m₂ s.prev_free ≡ true =
        rw h.last_free (list_ended m₂ out p tiled₂ h.first) in
      let few = free_bytes-le-span out in
      let enough : leb 8 (get_vmm_block_size (read64 f p)) ≡ true = ground (arith, sized, big) in
      let within : ltb p s.memory.size ≡ true = ground (arith, h.size, inside) in
      (
        record {
          memory = record s.memory {
            bytes = g;
            first_free = set_first s.memory.first_free prev p;
            bytes_free = add64 s.memory.bytes_free (get_vmm_block_size (read64 g p));
          };
          prev = some p;
          prev_free = some p;
        },
        rw (enough, ended, within, h.last_free) refl,
        record {
          tiled =
              Tiled-append g m.heap_start p out (block free false t ∷ []) (p + (8 + t)) 0 r.tiled
                (new_head, big, new_link, refl);
          bodies =
              Bodies-append m.bytes g m.heap_start p out (block free false t ∷ []) reach
                (Bodies-Untouched m.bytes f₂ g m.heap_start out
                  (Bodies-Untouched m.bytes f f₂ m.heap_start out h.bodies (
                    Untouched-Agrees f f₂ m.heap_start p out (omega (arith, reach))
                      (λ x lo hi. under x hi)))
                  r.kept)
                tt;
          ahead =
              λ x le. r.above f₂ x (omega arith) ∙ above x (omega arith) ∙ h.ahead x (omega arith);
          below = λ x lt. r.below x lt ∙ under x (omega (arith, reach)) ∙ h.below x lt;
          first =
              first_set out p s.memory.first_free h.first
              ∙ sym (first_free_of-append m.heap_start p out (block free false t ∷ []) 0 reach);
          count = omega (
            arith,
            h.count,
            new_size,
            few,
            reach,
            free_bytes-append out (block free false t ∷ []),
          );
          last_free =
              sym (last_free_of-append m.heap_start p out (block free false t ∷ []) none reach);
          last = inr (out, free, t, refl, ap some (sym reach));
          size = h.size;
          start = h.start;
          limit = h.limit;
          base = h.base;
        },
      )

  -- An unmarked block joins the free block before it.
  pub merge_step :
      (pre : List Block) (room : ℕ) (p : ℕ) (s : Sweep) (k : Kind) (t : ℕ)
      → SweptTo m (pre ++ block free false room ∷ []) p s
      → read64 m.bytes p ≡ header false (type_of k) t
      → p + (8 + t) ≤ m.size
      → s.prev ≡ some (m.heap_start + span pre)
      → Returns
          (coalesce s (m.heap_start + span pre) p)
          (SweptTo m (pre ++ block free false (room + (8 + t)) ∷ []) (p + (8 + t)))
  unfolding coalesce
  merge_step pre room p s k t h head inside prev_is =
      let f = s.memory.bytes in
      let q = m.heap_start + span pre in
      let old = block free false room ∷ [] in
      let new = block free false (room + (8 + t)) ∷ [] in
      let (left, (head_q, big, link, reach)) =
        Tiled-split f m.heap_start q pre old p 0 refl h.tiled in
      let here : read64 f p ≡ header false (type_of k) t =
        read64-Agrees p (λ x lo hi. h.ahead x lo) ∙ head in
      let sized : get_vmm_block_size (read64 f p) ≡ t =
        ap get_vmm_block_size here
        ∙ get_vmm_block_size-header false (type_of k) t (type_of-lt k) (omega arith) in
      let sized_q : get_vmm_block_size (read64 f q) ≡ room =
        ap get_vmm_block_size head_q
        ∙ get_vmm_block_size-header false 0 room (omega arith) (omega arith) in
      let total : get_vmm_block_size (read64 f q) + (8 + get_vmm_block_size (read64 f p))
          ≡ room + (8 + t) =
        omega (arith, sized, sized_q) in
      let w =
        set_vmm_block_size (read64 f q)
          (get_vmm_block_size (read64 f q) + (8 + get_vmm_block_size (read64 f p))) in
      let word : w ≡ header false 0 (room + (8 + t)) =
        rw (total, head_q)
          (set_vmm_block_size-header false 0 room (omega arith) (omega arith) (room + (8 + t))
            (omega arith)) in
      let g = write64 f q w in
      let under : (x : ℕ) → x < q → g x ≡ f x = λ x lt. write64-outside f q w x (inl lt) in
      let above : (x : ℕ) → q + 8 ≤ x → g x ≡ f x = λ x le. write64-outside f q w x (inr le) in
      let last_is : s.prev_free ≡ some q =
        h.last_free ∙ last_free_of-append m.heap_start q pre old none refl in
      let few = free_bytes-le-span pre in
      (
        record s {
          memory = record s.memory {
            bytes = g;
            bytes_free = add64 s.memory.bytes_free (8 + get_vmm_block_size (read64 f p));
          };
        },
        rw last_is (ground (arith, link)),
        record {
          tiled =
              Tiled-append g m.heap_start q pre new (p + (8 + t)) 0
                (Tiled-Agrees f g m.heap_start pre q q (λ x lo hi. under x hi) left)
                (
                  read64-write64 f q w (
                        omega (
                          arith,
                          word,
                          header-word false 0 (room + (8 + t)) (omega arith) (omega arith),
                        ))
                      ∙ word,
                  omega (arith, big),
                  read64-write64_ne f q w (q + 8) (inr (omega arith)) ∙ link,
                  omega (arith, reach),
                );
          bodies =
              Bodies-append m.bytes g m.heap_start q pre new refl
                (Bodies-Untouched m.bytes f g m.heap_start pre
                  (Bodies-before m.bytes f m.heap_start pre old h.bodies)
                  (Untouched-Agrees f g m.heap_start q pre (omega arith) (λ x lo hi. under x hi)))
                tt;
          ahead = λ x le. above x (omega (arith, reach)) ∙ h.ahead x (omega arith);
          below = λ x lt. under x (omega arith) ∙ h.below x lt;
          first =
              h.first
              ∙ first_free_of-append m.heap_start q pre old 0 refl
              ∙ sym (first_free_of-append m.heap_start q pre new 0 refl);
          count = omega (
            arith,
            h.count,
            sized,
            few,
            reach,
            free_bytes-append pre old,
            free_bytes-append pre new,
          );
          last_free = last_is ∙ sym (last_free_of-append m.heap_start q pre new none refl);
          last = inr (pre, free, room + (8 + t), refl, prev_is);
          size = h.size;
          start = h.start;
          limit = h.limit;
          base = h.base;
        },
      )
