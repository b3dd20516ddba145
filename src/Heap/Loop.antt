-- ===== src/Heap/Loop.antt =====
-- The loop of `collectUnmarkedBlocks` in src/vmmem.c.
use unlambda.Base.{
  ℕ, zero, suc, ◌+◌, ◌^◌, ◌≤◌, ◌<◌, ◌≡◌, refl, sym, ◌∙◌, ap, subst, inl, inr, Bool, true, false,
  Option, none, some, List, [], ◌∷◌, ◌++◌, length, ◌==◌, arith,
}
use unlambda.Base.Run.{Returns}
use unlambda.Memory.Bytes.{read64, read64-Agrees}
use unlambda.Memory.Header.{
  header, get_vmm_block_size, get_vmm_block_size-header, get_vmm_block_type,
  get_vmm_block_type-header, vmm_block_is_marked, vmm_block_is_marked-header,
}
use unlambda.Memory.State.{VmMemory, next_heap_block_in_vmm, first_free_block_in_vmm}
use unlambda.Memory.Collect.{
  Sweep, sweep_block, sweep_loop, leads_to, at_end, is_free_at, is_marked_at,
}
use unlambda.Heap.Blocks.{
  Use, Kind, code, state, free, used, Block, block, type_of, span, first_free_of, IsHeap,
}
use unlambda.Heap.Tiled.{Tiled-split}
use unlambda.Heap.Find.{as_pointer}
use unlambda.Heap.Swept.{
  Heads, Heads-span, LastAt, SweptTo, merge_last, merge_last-free, merge_last-used, one_block,
  swept, type_of-lt,
}
use unlambda.Heap.Sweep.{before_holds, keep_step}
use unlambda.Heap.Release.{free_step, merge_step}

used_type : (u : Use) → (type_of (used u) == 0) ≡ false
used_type code = refl
used_type state = refl

-- The pointer of the loop.
abbrev pub pointer : List Block → ℕ → Option ℕ
pointer [] p = none
pointer (b ∷ bs) p = some p

abbrev pub NotEmpty : List Block → Type 0
NotEmpty [] = ⊥
NotEmpty (b ∷ bs) = Unit

pub pointer-some : (bs : List Block) (p : ℕ) → NotEmpty bs → pointer bs p ≡ some p
pointer-some [] p h = absurd h
pointer-some (b ∷ bs) p h = refl

pub first_listed :
    (m : VmMemory) (bs : List Block)
    → IsHeap m bs
    → first_free_block_in_vmm m ≡ as_pointer (first_free_of m.heap_start bs 0)
unfolding first_free_block_in_vmm
first_listed m bs h = ground (arith, h.first, h.program)

module _ (m : VmMemory) (some_program : 0 < m.heap_start) (small : m.size < 2 ^ 56) where
  last_type :
      (pre : List Block) (k : Kind) (room p : ℕ) (s : Sweep)
      → SweptTo m (pre ++ block k false room ∷ []) p s
      → p ≤ m.size
      → get_vmm_block_type (read64 s.memory.bytes (m.heap_start + span pre)) ≡ type_of k
  last_type pre k room p s h inside =
      let (left, right) =
        Tiled-split s.memory.bytes m.heap_start (m.heap_start + span pre) pre
          (block k false room ∷ []) p 0 refl h.tiled in
      let (head, big, reach) =
        one_block s.memory.bytes (m.heap_start + span pre) k room p 0 right in
      ap get_vmm_block_type head
      ∙ get_vmm_block_type-header false (type_of k) room (type_of-lt k) (omega (arith, reach))

  unmarked_step :
      (out : List Block) (p : ℕ) (s : Sweep) (k : Kind) (t : ℕ)
      → SweptTo m out p s
      → read64 m.bytes p ≡ header false (type_of k) t
      → 8 ≤ t
      → p + (8 + t) ≤ m.size
      → Returns (sweep_block s p) (SweptTo m (merge_last out t) (p + (8 + t)))
  unfolding sweep_block
  unmarked_step out p s k t h head big inside =
      let here : read64 s.memory.bytes p ≡ header false (type_of k) t =
        read64-Agrees p (λ x lo hi. h.ahead x lo) ∙ head in
      let clear : vmm_block_is_marked (read64 s.memory.bytes p) ≡ false =
        ap vmm_block_is_marked here
        ∙ vmm_block_is_marked-header false (type_of k) t (type_of-lt k) (omega arith) in
      let (led, unmarked) = before_holds m some_program small out p s h (omega arith) in
      go clear led unmarked h.last
    where
      go :
          vmm_block_is_marked (read64 s.memory.bytes p) ≡ false
          → leads_to s.memory s.prev p ≡ true
          → is_marked_at s.memory s.prev ≡ false
          → LastAt m.heap_start out s.prev
          → Returns (sweep_block s p) (SweptTo m (merge_last out t) (p + (8 + t)))
      go clear led unmarked (inl (empty, e)) =
          let (s', run, h') = free_step m some_program small out p s k t h head big inside in
          (
            s',
            rw (led, clear, unmarked, e) run,
            subst (λ o. SweptTo m o (p + (8 + t)) s') (rw empty refl) h',
          )
      go clear led unmarked (inr (pre, free, room, shape, e)) =
          let q = m.heap_start + span pre in
          let h' = subst (λ o. SweptTo m o p s) shape h in
          let is_free : is_free_at s.memory q ≡ true =
            ap (λ n. n == 0) (last_type pre free room p s h' (omega arith)) in
          let (s', run, swept') =
            merge_step m some_program small pre room p s k t h' head inside e in
          (
            s',
            rw (led, clear, unmarked, e, is_free) run,
            subst (λ o. SweptTo m o (p + (8 + t)) s')
                (sym (ap (λ o. merge_last o t) shape ∙ merge_last-free pre room t)) swept',
          )
      go clear led unmarked (inr (pre, used u, room, shape, e)) =
          let q = m.heap_start + span pre in
          let h' = subst (λ o. SweptTo m o p s) shape h in
          let is_used : is_free_at s.memory q ≡ false =
            ap (λ n. n == 0) (last_type pre (used u) room p s h' (omega arith)) ∙ used_type u in
          let (s', run, swept') =
            free_step m some_program small (pre ++ block (used u) false room ∷ []) p s k t h' head
              big inside in
          (
            s',
            rw (led, clear, unmarked, e, is_used) run,
            subst (λ o. SweptTo m o (p + (8 + t)) s')
                (sym (ap (λ o. merge_last o t) shape ∙ merge_last-used pre u room t)) swept',
          )

  next_pointer :
      (s : Sweep) (out bs : List Block) (p t type : ℕ) (mark : Bool)
      → SweptTo m out p s
      → read64 m.bytes p ≡ header mark type t
      → type < 4
      → Heads m.bytes (p + (8 + t)) bs m.size
      → next_heap_block_in_vmm s.memory p ≡ pointer bs (p + (8 + t))
  unfolding next_heap_block_in_vmm
  next_pointer s out bs p t type mark h head low rest =
      let reach = Heads-span m.bytes (p + (8 + t)) bs m.size rest in
      let sized : get_vmm_block_size (read64 s.memory.bytes p) ≡ t =
        ap get_vmm_block_size (read64-Agrees p (λ x lo hi. h.ahead x lo) ∙ head)
        ∙ get_vmm_block_size-header mark type t low (omega (arith, reach)) in
      go bs reach sized
    where
      go :
          (bs : List Block)
          → p + (8 + t) + span bs ≡ m.size
          → get_vmm_block_size (read64 s.memory.bytes p) ≡ t
          → next_heap_block_in_vmm s.memory p ≡ pointer bs (p + (8 + t))
      go [] reach sized = ground (arith, reach, sized, h.size, small)
      go (block k mk r ∷ bs) reach sized = ground (arith, reach, sized, h.size, small)

  ended : (out : List Block) (s : Sweep) → SweptTo m out m.size s → at_end s.memory s.prev ≡ true
  unfolding next_heap_block_in_vmm
  ended out s h = go h.last
    where
      go : LastAt m.heap_start out s.prev → at_end s.memory s.prev ≡ true
      go (inl (empty, e)) = rw e refl
      go (inr (pre, k, t, shape, e)) =
          let q = m.heap_start + span pre in
          let (left, right) =
            Tiled-split s.memory.bytes m.heap_start q pre (block k false t ∷ []) m.size 0 refl
              (rw shape at h.tiled) in
          let (head, big, reach) = one_block s.memory.bytes q k t m.size 0 right in
          let sized : get_vmm_block_size (read64 s.memory.bytes q) ≡ t =
            ap get_vmm_block_size head
            ∙ get_vmm_block_size-header false (type_of k) t (type_of-lt k) (omega arith) in
          rw e (ground (arith, sized, reach, h.size, small))

  -- The loop ends, and has swept all the blocks.
  pub sweep_loop-SweptTo :
      (fuel p : ℕ) (bs out : List Block) (s : Sweep)
      → SweptTo m out p s
      → Heads m.bytes p bs m.size
      → length bs < fuel
      → Returns (sweep_loop fuel s (pointer bs p)) (SweptTo m (swept out bs) m.size)
  unfolding sweep_loop
  sweep_loop-SweptTo zero p bs out s h heads enough = absurd (omega arith)
  sweep_loop-SweptTo (suc fuel) p [] out s h here enough =
      let h' = subst (λ e. SweptTo m out e s) here h in (s, rw (ended out s h') refl, h')
  sweep_loop-SweptTo (suc fuel) p (block free true t ∷ bs) out s h heads enough = absurd heads
  sweep_loop-SweptTo (suc fuel) p (block free false t ∷ bs) out s h (head, big, rest) enough =
      let reach = Heads-span m.bytes (p + (8 + t)) bs m.size rest in
      let next = next_pointer s out bs p t 0 false h head (omega arith) rest in
      let (s₁, run, h₁) = unmarked_step out p s free t h head big (omega (arith, reach)) in
      let (s₂, ran, h₂) =
        sweep_loop-SweptTo fuel (p + (8 + t)) bs (merge_last out t) s₁ h₁ rest (omega arith) in
      (s₂, rw (run, next) ran, h₂)
  sweep_loop-SweptTo (suc fuel) p (block (used u) false t ∷ bs) out s h (head, big, rest) enough =
      let reach = Heads-span m.bytes (p + (8 + t)) bs m.size rest in
      let next =
        next_pointer s out bs p t (type_of (used u)) false h head (type_of-lt (used u)) rest in
      let (s₁, run, h₁) = unmarked_step out p s (used u) t h head big (omega (arith, reach)) in
      let (s₂, ran, h₂) =
        sweep_loop-SweptTo fuel (p + (8 + t)) bs (merge_last out t) s₁ h₁ rest (omega arith) in
      (s₂, rw (run, next) ran, h₂)
  sweep_loop-SweptTo (suc fuel) p (block (used u) true t ∷ bs) out s h (head, big, rest) enough =
      let reach = Heads-span m.bytes (p + (8 + t)) bs m.size rest in
      let next =
        next_pointer s out bs p t (type_of (used u)) true h head (type_of-lt (used u)) rest in
      let (s₁, run, h₁) =
        keep_step m some_program small out p s u t h head big (omega (arith, reach)) in
      let (s₂, ran, h₂) =
        sweep_loop-SweptTo fuel (p + (8 + t)) bs (out ++ block (used u) false t ∷ []) s₁ h₁ rest
          (omega arith) in
      (s₂, rw (run, next) ran, h₂)
