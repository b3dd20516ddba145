-- ===== src/Stack/Push.antt =====
-- `pushStack` and `dupStackTop` of src/stack.c.
use unlambda.Base.{
  ℕ, ◌+◌, ◌-◌, ◌^◌, ◌≤◌, ◌<◌, ◌≡◌, refl, ◌∙◌, ap, ◌⊎◌, inl, inr, some, List, [], ◌∷◌, ◌++◌,
  append-nil, length, length-append, take-length, drop-append, slice, ltb, Bool-cases, Return,
  success, failure, arith, u64, true, false,
}
use unlambda.Base.Host.{Host, IsHost}
use unlambda.Stack.{
  ok, stack_overflow, Stack, push_stack, dup_stack_top, increase_stack_size, top_of, end_of,
}
use unlambda.Stack.Grow.{IsValid, Refused, Resized, increase_stack_size-Resized}

-- What an operation that adds the bytes `xs` on top leaves, by its return code. A failure leaves
-- the contents alone, and comes from the limit, from the address space or from the allocator.
abbrev pub Extended : Host → Stack → List ℕ → Stack × Return → Type 0
Extended host s xs (t, success) =
    IsValid t × (t.bytes ≡ s.bytes ++ xs) × (t.max_size ≡ s.max_size) × (t.status ≡ ok)
Extended host s xs (t, failure) =
    IsValid t
    × (t.bytes ≡ s.bytes)
    × (t.max_size ≡ s.max_size)
    × ((s.max_size < length s.bytes + length xs)
        ⊎ (2 ^ 64 ≤ top_of s + length xs)
        ⊎ Refused host s (length xs))

appended-IsValid :
    (t : Stack) (xs : List ℕ)
    → IsValid t
    → length t.bytes + length xs ≤ t.allocated
    → IsValid (record t { bytes = t.bytes ++ xs })
appended-IsValid t xs v room = ground (arith, length-append t.bytes xs)

-- The status of a push that failed, whatever the reason.
abbrev pub Overflowed : Stack × Return → Type 0
Overflowed (t, success) = Unit
Overflowed (t, failure) = t.status ≡ stack_overflow

-- What a push returns.
abbrev pub Pushed : Host → Stack → List ℕ → Type 0
Pushed host s xs =
    (r : Stack × Return) × (push_stack host s (some xs) (length xs) ≡ some r)
    × Extended host s xs r
    × Overflowed r

module _ (host : Host) (s : Stack) (x : ℕ) (xs : List ℕ) (v : IsValid s) where
  abbrev n : ℕ
  n = length (x ∷ xs)

  push_tight :
      ltb (u64 (top_of s + n)) (top_of s) ≡ false
      → ltb (end_of s) (u64 (top_of s + n)) ≡ true
      → (r : Stack × Return) → increase_stack_size host (record s { status = ok }) n ≡ some r
      → Resized host (record s { status = ok }) n r
      → Pushed host s (x ∷ xs)
  unfolding push_stack
  push_tight flat tight (t, failure) run (valid, same, limit, why) = (
    (record t { status = stack_overflow }, failure),
    ground arith,
    (
      ground arith,
      same,
      limit,
      elim why [ inl (_, over) ↦ inl over | inr (_, refused) ↦ inr (inr refused) ],
    ),
    refl,
  )
  push_tight flat tight (t, success) run (valid, same, limit, status, room) = (
    (record t { bytes = t.bytes ++ (x ∷ xs) }, success),
    ground (arith, take-length n (x ∷ xs)),
    (appended-IsValid t (x ∷ xs) valid (rw same room), ap (λ b. b ++ (x ∷ xs)) same, limit, status),
    tt,
  )

-- A push of the bytes `xs` on a valid stack always returns: it adds exactly those bytes on top, or
-- fails because of the limit, the address space or the allocator, leaves the contents alone and, for
-- each of these reasons, reports an overflow. The stack is valid afterwards.
pub push_stack-Extended :
    (host : Host) (s : Stack) (xs : List ℕ)
    → IsHost host
    → IsValid s
    → length xs < 2 ^ 64
    → Pushed host s xs
unfolding push_stack
push_stack-Extended host s [] lawful v word =
    ((record s { status = ok }, success), refl, (ground arith, rw append-nil, refl, refl), tt)
push_stack-Extended host s (x ∷ xs) lawful v word =
    let n = length (x ∷ xs) in
    elim (Bool-cases (ltb (u64 (top_of s + n)) (top_of s))) [
      | inl wraps ↦ (
        (record s { status = stack_overflow }, failure),
        ground arith,
        (ground arith, refl, refl, inr (inl (ground arith))),
        refl,
      )
      | inr flat ↦ elim (Bool-cases (ltb (end_of s) (u64 (top_of s + n)))) [
        | inr fits ↦ (
          (record s { bytes = s.bytes ++ (x ∷ xs); status = ok }, success),
          ground (arith, take-length n (x ∷ xs)),
          (ground (arith, length-append s.bytes (x ∷ xs)), refl, refl, refl),
          tt,
        )
        | inl tight ↦
            let (r, run, out) =
              increase_stack_size-Resized host (record s { status = ok }) n lawful (ground arith)
                word in
            push_tight host s x xs v flat tight r run out
      ]
    ]

-- What a duplication of the top `n` bytes `top` returns.
abbrev pub Duplicated : Host → Stack → List ℕ → Type 0
Duplicated host s top =
    (r : Stack × Return) × (dup_stack_top host s (length top) ≡ some r) × Extended host s top r

pub slice_top :
    (below top : List ℕ)
    → slice (length (below ++ top) - length top) (length top) (below ++ top) ≡ top
unfolding slice
slice_top below top =
    let at : length (below ++ top) - length top ≡ length below =
      omega (arith, length-append below top) in
    rw (at, drop-append below top (length below) refl) (take-length (length top) top (omega arith))

module _ (host : Host) (s : Stack) (below : List ℕ) (x : ℕ) (xs : List ℕ) where
  abbrev top : List ℕ
  top = x ∷ xs

  dup_tight :
      IsValid s
      → s.bytes ≡ below ++ top
      → ltb (u64 (top_of s + length top)) (top_of s) ≡ false
      → ltb (end_of s) (u64 (top_of s + length top)) ≡ true
      → (r : Stack × Return)
      → increase_stack_size host (record s { status = ok }) (length top) ≡ some r
      → Resized host (record s { status = ok }) (length top) r
      → Duplicated host s top
  unfolding dup_stack_top
  dup_tight v shape flat tight (t, failure) run (valid, same, limit, why) = (
    (t, failure),
    ground (arith, length-append below top, ap length shape),
    (
      valid,
      same,
      limit,
      elim why [ inl (_, over) ↦ inl over | inr (_, refused) ↦ inr (inr refused) ],
    ),
  )
  dup_tight v shape flat tight (t, success) run (valid, same, limit, status, room) = (
    (record t { bytes = t.bytes ++ top }, success),
    ground (arith, length-append below top, ap length shape, slice_top below top, same ∙ shape),
    (appended-IsValid t top valid (rw same room), ap (λ b. b ++ top) same, limit, status),
  )

-- A duplication of the top `length top` bytes of a valid stack always returns: it adds a copy of
-- them, or fails because of the limit, the address space or the allocator and leaves the contents
-- alone. The stack is valid afterwards.
pub dup_stack_top-Extended :
    (host : Host) (s : Stack) (below top : List ℕ)
    → IsHost host
    → IsValid s
    → s.bytes ≡ below ++ top
    → Duplicated host s top
unfolding dup_stack_top
dup_stack_top-Extended host s below [] lawful v shape =
    ((record s { status = ok }, success), refl, (ground arith, rw append-nil, refl, refl))
dup_stack_top-Extended host s below (x ∷ xs) lawful v shape =
    let top = x ∷ xs in
    let size = ap length shape ∙ length-append below top in
    let copy = slice_top below top in
    elim (Bool-cases (ltb (u64 (top_of s + length top)) (top_of s))) [
      | inl wraps ↦ (
        (record s { status = stack_overflow }, failure),
        ground arith,
        (ground arith, refl, refl, inr (inl (ground arith))),
      )
      | inr flat ↦ elim (Bool-cases (ltb (end_of s) (u64 (top_of s + length top)))) [
        | inr fits ↦ (
          (record s { bytes = s.bytes ++ top; status = ok }, success),
          ground (arith, copy),
          (ground (arith, length-append s.bytes top), refl, refl, refl),
        )
        | inl tight ↦
            let (r, run, out) =
              increase_stack_size-Resized host (record s { status = ok }) (length top) lawful
                (ground arith) (omega arith) in
            dup_tight host s below x xs v shape flat tight r run out
      ]
    ]
