-- ===== src/Heap/Insert.antt =====
-- Putting blocks in the place of one free block.
use unlambda.Base.{
  ℕ, ◌+◌, ◌-◌, ◌^◌, ◌≤◌, ◌<◌, ◌≡◌, refl, sym, ◌∙◌, ap, inl, inr, Bool, false, List, [], ◌∷◌, ◌++◌,
  Option, none, arith, ◌⊎◌,
}
use unlambda.Memory.Allocate.{set_link}
use unlambda.Memory.Bytes.{
  Bytes, read64, write64, read64-Agrees, read64-write64, read64-write64_ne, write64-outside,
}
use unlambda.Memory.Header.{
  header, header-word, set_vmm_block_size, set_vmm_block_type, set_vmm_block_size-header,
  set_vmm_block_type-header,
}
use unlambda.Memory.State.{write_free_block}
use unlambda.Heap.Blocks.{Use, free, used, Block, block, type_of, span, first_free_of, Tiled}
use unlambda.Heap.Tiled.{Tiled-span, Tiled-Agrees, Tiled-append, Tiled-split, last_free_of}
use unlambda.Heap.Untouched.{
  Untouched, Untouched-Agrees, Untouched-above, set_link_congr, Relinked, Relinked_lem,
}

pub first_free_of-le :
    (a : ℕ) (bs : List Block) (next : ℕ)
    → (first_free_of a bs next ≤ a + span bs) ⊎ (first_free_of a bs next ≡ next)
first_free_of-le a [] next = inr refl
first_free_of-le a (block free m s ∷ bs) next = inl (omega arith)
first_free_of-le a (block (used u) m s ∷ bs) next = elim (first_free_of-le (a + (8 + s)) bs next) [
  | inl h ↦ inl (omega arith)
  | inr e ↦ inr e
]

-- What the change of one free block into the blocks `mid` leaves of those before and after it.
pub record Replaced (f g : Bytes) (a p : ℕ) (pre mid post : List Block) (end : ℕ) : Type 0 where
  pub tiled : Tiled g a (pre ++ (mid ++ post)) end 0
  pub kept_before : Untouched f g a pre
  pub kept_after : Untouched f g (p + span mid) post
  pub outside : (x : ℕ) → (x < a) ⊎ (end ≤ x) → g x ≡ f x

module _ (f : Bytes) (a p : ℕ) (pre : List Block) (k : Bool) (s : ℕ) (post : List Block) (end : ℕ)
    (small : end < 2 ^ 56) (place : a + span pre ≡ p)
    (t : Tiled f a (pre ++ block free k s ∷ post) end 0) where
  abbrev prev : Option ℕ
  prev = last_free_of a pre none

  abbrev rest_free : ℕ
  rest_free = first_free_of (p + (8 + s)) post 0

  pub parts : Tiled f a pre p p × Tiled f p (block free k s ∷ post) end 0
  parts = Tiled-split f a p pre (block free k s ∷ post) end 0 place t

  pub reach : p + (8 + s) + span post ≡ end
  reach = Tiled-span f (p + (8 + s)) post end 0 parts.1.3

  pub rest_free-word : rest_free < 2 ^ 56
  rest_free-word = elim (first_free_of-le (p + (8 + s)) post 0) [
    | inl h ↦ omega (arith, reach)
    | inr e ↦ omega arith
  ]

  pub relinked : (next : ℕ) → next < 2 ^ 64 → Relinked f a p pre prev next
  relinked next word = Relinked_lem f a p pre p next place word parts.0

  -- The conditions on the new bytes `g`, by region.
  pub Replaced_lem :
      (g : Bytes) (mid : List Block) (next : ℕ)
      → next < 2 ^ 64
      → span mid ≡ 8 + s
      → first_free_of p (mid ++ post) 0 ≡ next
      → ((x : ℕ) → x < p → g x ≡ set_link f prev next x)
      → ((x : ℕ) → p + (8 + s) ≤ x → g x ≡ f x)
      → Tiled g p mid (p + (8 + s)) rest_free
      → Replaced f g a p pre mid post end
  Replaced_lem g mid next word size first low high mid_tiled =
      let r = relinked next word in
      let before =
        Tiled-Agrees (set_link f prev next) g a pre p next (λ x lo hi. low x hi) r.tiled in
      let after = Tiled-Agrees f g (p + (8 + s)) post end 0 (λ x lo hi. high x lo) parts.1.3 in
      let both = Tiled-append g p (p + (8 + s)) mid post end 0 mid_tiled after in
      record {
        tiled = Tiled-append g a p pre (mid ++ post) end 0 (rw first before) both;
        kept_before =
            Untouched-above f (set_link f prev next) g a p pre (omega (arith, place)) low r.kept;
        kept_after =
            Untouched-Agrees f g (p + span mid) end post (omega (arith, reach))
              (λ x lo hi. high x (omega arith));
        outside = λ x out. elim out [
          | inl under ↦ low x (omega (arith, place)) ∙ r.below x under
          | inr over ↦ high x (omega (arith, reach))
        ];
      }

  pub head_of : read64 f p ≡ header k 0 s
  head_of = parts.1.0

  pub link_of : read64 f (p + 8) ≡ rest_free
  link_of = parts.1.2

  -- The whole block is handed out, and its header takes the new type.
  abbrev pub whole_bytes : ℕ → Bytes
  whole_bytes type =
      let linked = set_link f prev (read64 f (p + 8)) in
      write64 linked p (set_vmm_block_type (read64 linked p) type)

  pub whole-Replaced :
      (u : Use)
      → Replaced f (whole_bytes (type_of (used u))) a p pre (block (used u) k s ∷ []) post end
  whole-Replaced u =
      let r = relinked (read64 f (p + 8)) (omega (arith, link_of, rest_free-word)) in
      let linked = set_link f prev (read64 f (p + 8)) in
      let type : ℕ = type_of (used u) in
      let small_type : type < 4 = ground arith in
      let same = read64-Agrees {f = f} {g = linked} p (λ x lo hi. r.above f x lo) ∙ head_of in
      let new =
        ap (λ w. set_vmm_block_type w type) same
        ∙ set_vmm_block_type-header k 0 s (omega arith) (omega (arith, reach)) type small_type in
      Replaced_lem (whole_bytes type) (block (used u) k s ∷ []) (read64 f (p + 8))
        (omega (arith, link_of, rest_free-word)) (omega arith) (sym link_of)
        (λ x h. write64-outside linked p _ x (inl h))
        (λ x h. write64-outside linked p _ x (inr (omega arith)) ∙ r.above f x (omega arith))
        (
          ap (λ w. read64 (write64 linked p w) p) new
              ∙ read64-write64 linked p (header k type s)
                  (header-word k type s small_type (omega (arith, reach))),
          parts.1.1,
          omega arith,
        )

  -- The block is cut to `size` bytes and takes the new type; a free block is made of the rest.
  module _ (size : ℕ) (big : 8 ≤ size) (cut : size + 16 ≤ s) where
    abbrev pub new : ℕ
    new = p + size + 8

    abbrev pub linked_bytes : Bytes
    linked_bytes = set_link (write_free_block f new (s - size - 8) (read64 f (p + 8))) prev new

    abbrev pub cut_bytes : Bytes
    cut_bytes = write64 linked_bytes p (set_vmm_block_size (read64 linked_bytes p) size)

    abbrev pub part_bytes : ℕ → Bytes
    part_bytes type = write64 cut_bytes p (set_vmm_block_type (read64 cut_bytes p) type)

    r : Relinked f a p pre prev new
    r = relinked new (omega (arith, reach))

    outside_new :
        (x : ℕ)
        → (x < new) ⊎ (new + 16 ≤ x)
        → write_free_block f new (s - size - 8) (read64 f (p + 8)) x ≡ f x
    unfolding write_free_block
    outside_new x h =
        write64-outside (write64 f new (s - size - 8)) (new + 8) (read64 f (p + 8)) x (ground arith)
        ∙ write64-outside f new (s - size - 8) x (ground arith)

    head_kept : read64 linked_bytes p ≡ header k 0 s
    head_kept =
        read64-Agrees {f = f} {g = linked_bytes} p
          (λ x lo hi. r.above _ x lo ∙ outside_new x (inl (omega arith)))
        ∙ head_of

    head_cut : read64 cut_bytes p ≡ header k 0 size
    head_cut =
        ap (λ w. read64 (write64 linked_bytes p w) p)
          (ap (λ w. set_vmm_block_size w size) head_kept
            ∙ set_vmm_block_size-header k 0 s (omega arith) (omega (arith, reach)) size
                (omega (arith, reach)))
        ∙ read64-write64 linked_bytes p (header k 0 size)
            (header-word k 0 size (omega arith) (omega (arith, reach)))

    above_head :
        (type x : ℕ)
        → p + 8 ≤ x
        → part_bytes type x ≡ write_free_block f new (s - size - 8) (read64 f (p + 8)) x
    above_head type x h =
        write64-outside cut_bytes p _ x (inr h)
        ∙ write64-outside linked_bytes p _ x (inr h)
        ∙ r.above _ x (omega arith)

    new_block :
        (type : ℕ)
        → (read64 (part_bytes type) new ≡ header false 0 (s - size - 8))
          × (read64 (part_bytes type) (new + 8) ≡ rest_free)
    unfolding write_free_block
    new_block type = (
      read64-Agrees new (λ x lo hi. above_head type x (omega arith))
          ∙ read64-write64_ne (write64 f new (s - size - 8)) (new + 8) (read64 f (p + 8)) new
              (inl (omega arith))
          ∙ read64-write64 f new (s - size - 8) (omega (arith, reach))
          ∙ omega arith,
      read64-Agrees (new + 8) (λ x lo hi. above_head type x (omega arith))
          ∙ read64-write64 (write64 f new (s - size - 8)) (new + 8) (read64 f (p + 8))
              (omega (arith, link_of, rest_free-word))
          ∙ link_of,
    )

    pub part-Replaced :
        (u : Use)
        → Replaced f
            (part_bytes (type_of (used u)))
            a
            p
            pre
            (block (used u) k size ∷ block free false (s - size - 8) ∷ [])
            post
            end
    part-Replaced u =
        let type : ℕ = type_of (used u) in
        let small_type : type < 4 = ground arith in
        let shift : p + (8 + size) ≡ new = omega arith in
        Replaced_lem (part_bytes type)
          (block (used u) k size ∷ block free false (s - size - 8) ∷ []) new (omega (arith, reach))
          (omega arith) shift
          (λ x h.
            write64-outside cut_bytes p _ x (inl h)
            ∙ write64-outside linked_bytes p _ x (inl h)
            ∙ set_link_congr f _ prev new x (outside_new x (inl (omega arith))))
          (λ x h. above_head type x (omega arith) ∙ outside_new x (inr (omega arith)))
          (
            ap (λ w. read64 (write64 cut_bytes p w) p)
                  (ap (λ w. set_vmm_block_type w type) head_cut
                    ∙ set_vmm_block_type-header k 0 size (omega arith) (omega (arith, reach)) type
                        small_type)
                ∙ read64-write64 cut_bytes p (header k type size)
                    (header-word k type size small_type (omega (arith, reach))),
            big,
            rw shift ((new_block type).0, omega arith, (new_block type).1, omega arith),
          )
