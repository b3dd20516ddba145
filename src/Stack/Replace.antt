-- ===== src/Stack/Replace.antt =====
-- `setStack` and `clearStack` of src/stack.c.
use unlambda.Base.{
  ℕ, ◌+◌, ◌^◌, ◌≤◌, ◌<◌, ◌≡◌, refl, ◌⊎◌, inl, inr, some, List, length, take-length, ltb, Bool-cases,
  Return, success, failure, arith, true, false,
}
use unlambda.Base.Host.{Host, IsHost}
use unlambda.Stack.{
  ok, stack_overflow, Stack, push_stack, clear_stack, set_stack, increase_stack_size,
}
use unlambda.Stack.Grow.{IsValid, Refused, Resized, increase_stack_size-Resized}
use unlambda.Stack.Push.{Pushed, push_stack-Extended}

-- What replacing the contents by `xs` leaves, by the return code.
abbrev pub Replaced : Host → Stack → List ℕ → Stack × Return → Type 0
Replaced host s xs (t, success) =
    IsValid t × (t.bytes ≡ xs) × (t.max_size ≡ s.max_size) × (t.status ≡ ok)
Replaced host s xs (t, failure) =
    IsValid t
    × (t.bytes ≡ s.bytes)
    × (t.max_size ≡ s.max_size)
    × ((s.max_size < length xs)
        ⊎ ((s.allocated < length xs)
            × ((s.max_size < length s.bytes + length xs) ⊎ Refused host s (length xs))))

abbrev pub Outcome : Host → Stack → List ℕ → Type 0
Outcome host s xs =
    (r : Stack × Return) × (set_stack host s xs (length xs) ≡ some r) × Replaced host s xs r

module _ (host : Host) (s : Stack) (xs : List ℕ) where
  set_tight :
      ltb s.max_size (length xs) ≡ false
      → ltb s.allocated (length xs) ≡ true
      → (r : Stack × Return)
      → increase_stack_size host (record s { status = ok }) (length xs) ≡ some r
      → Resized host (record s { status = ok }) (length xs) r
      → Outcome host s xs
  unfolding set_stack
  set_tight fits tight (t, failure) run (valid, same, limit, why) = (
    (t, failure),
    ground arith,
    (
      valid,
      same,
      limit,
      elim why [
        | inl (_, over) ↦ inr (ground arith, inl over)
        | inr (_, refused) ↦ inr (ground arith, inr refused)
      ],
    ),
  )
  set_tight fits tight (t, success) run (valid, same, limit, status, room) = (
    (record t { bytes = xs }, success),
    ground (arith, take-length (length xs) xs),
    (ground arith, refl, limit, status),
  )

-- `setStack` on a valid stack always returns: it makes the given bytes the contents, or leaves the
-- contents alone. It fails only where the bytes exceed the limit, or where they exceed the block
-- and either old and new contents together exceed the limit or the allocator refuses.
pub set_stack-Replaced :
    (host : Host) (s : Stack) (xs : List ℕ) → IsHost host → IsValid s → Outcome host s xs
unfolding set_stack
set_stack-Replaced host s xs lawful v = elim (Bool-cases (ltb s.max_size (length xs))) [
  | inl over ↦ (
    (record s { status = stack_overflow }, failure),
    ground arith,
    (ground arith, refl, refl, inl (ground arith)),
  )
  | inr fits ↦ elim (Bool-cases (ltb s.allocated (length xs))) [
    | inr room ↦ (
      (record s { bytes = xs; status = ok }, success),
      ground (arith, take-length (length xs) xs),
      (ground arith, refl, refl, refl),
    )
    | inl tight ↦
        let (r, run, out) =
          increase_stack_size-Resized host (record s { status = ok }) (length xs) lawful
            (ground arith) (ground arith) in
        set_tight host s xs fits tight r run out
  ]
]

increase-over :
    (host : Host) (s : Stack) (n : ℕ)
    → IsValid s
    → n ≤ s.max_size
    → s.max_size < length s.bytes + n
    → increase_stack_size host s n ≡ some (record s { status = stack_overflow }, failure)
unfolding increase_stack_size
increase-over host s n v h over = ground arith

-- `setStack` refuses contents that are within the limit but exceed the block, as soon as old and
-- new contents together exceed the limit; popping everything and pushing the same bytes succeeds,
-- if the allocator grants blocks up to the limit and these lie in the address space.
pub set_stack-refuses :
    (host : Host) (s : Stack) (xs : List ℕ)
    → IsHost host
    → IsValid s
    → s.allocated < length xs
    → length xs ≤ s.max_size
    → s.max_size < length s.bytes + length xs
    → s.base + length xs < 2 ^ 64
    → ((m : ℕ) → m ≤ s.max_size → (p : ℕ) × (host.realloc s.base m ≡ some p))
    → (set_stack host s xs (length xs) ≡ some (record s { status = stack_overflow }, failure))
      × ((t : Stack) × (push_stack host (clear_stack s) (some xs) (length xs) ≡ some (t, success))
          × (t.bytes ≡ xs))
unfolding set_stack clear_stack
set_stack-refuses host s xs lawful v tight fits both placed grants = (
  ground (arith, increase-over host (record s { status = ok }) (length xs) (ground arith)),
  go (push_stack-Extended host (clear_stack s) xs lawful (ground arith) (omega arith)),
)
  where
    go :
        Pushed host (clear_stack s) xs
        → (t : Stack) × (push_stack host (clear_stack s) (some xs) (length xs) ≡ some (t, success))
          × (t.bytes ≡ xs)
    go ((t, success), run, (_, shape, _, _), _) = (t, run, shape)
    go ((t, failure), run, (_, _, _, inl over), _) = absurd (omega arith)
    go ((t, failure), run, (_, _, _, inr (inl wraps)), _) = absurd (omega arith)
    go ((t, failure), run, (_, _, _, inr (inr (m, low, high, refused))), _) =
        ground (arith, grants m high)
