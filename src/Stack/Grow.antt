-- ===== src/Stack/Grow.antt =====
-- `increaseStackSize` of src/stack.c: its loop ends, and what a resize leaves.
use unlambda.Base.{
  ℕ, zero, suc, ◌+◌, ◌-◌, ◌^◌, ◌≤◌, ◌<◌, ◌≡◌, refl, ◌⊎◌, inl, inr, ◌||◌, none, some, length, ltb,
  Bool-cases, Option-cases, Return, success, failure, arith, add64,
}
use unlambda.Base.Host.{Host, IsHost}
use unlambda.Stack.{
  stack_overflow, allocation_failed, Stack, double_stack_size, reach_size, increase_stack_size,
}

-- The representation invariant: what is stored fits the block, the block fits the limit and lies
-- in the address space.
pub record IsValid (s : Stack) : Type 0 where
  pub stored : length s.bytes ≤ s.allocated
  pub limited : s.allocated ≤ s.max_size
  pub placed : s.base + s.allocated < 2 ^ 64
  pub word : s.max_size < 2 ^ 64

double_grows :
    (current max_size : ℕ)
    → current ≤ max_size
    → max_size < 2 ^ 64
    → (double_stack_size current max_size ≤ max_size)
      × ((double_stack_size current max_size ≡ max_size)
          ⊎ (current < double_stack_size current max_size))
unfolding double_stack_size
double_grows current max_size h w = ground arith

-- Each round grows the size or has reached the limit, which is not below what is asked for.
reach_size_total :
    (fuel new_size desired max_size : ℕ)
    → new_size ≤ max_size
    → desired ≤ max_size
    → max_size < 2 ^ 64
    → max_size - new_size < fuel
    → (r : ℕ) × (reach_size fuel new_size desired max_size ≡ some r)
      × (desired ≤ r)
      × (r ≤ max_size)
unfolding reach_size
reach_size_total zero new_size desired max_size h d w f = elim f [ ]
reach_size_total (suc fuel) new_size desired max_size h d w f =
    let next = double_stack_size new_size max_size in
    let grown = double_grows new_size max_size h w in
    elim (Bool-cases (ltb new_size desired)) [
      | inr done ↦ (new_size, rw (done, reach_size) refl, ground arith, h)
      | inl more ↦
          let (r, run, low, high) =
            reach_size_total fuel next desired max_size grown.0 d w (ground arith) in
          (r, rw (more, reach_size) run, low, high)
    ]

-- The test for a size beyond the limit, wrap-around included.
over_limit :
    (size n max_size : ℕ)
    → size ≤ max_size
    → max_size < 2 ^ 64
    → n < 2 ^ 64
    → (ltb (add64 size n) size || ltb max_size (add64 size n)) ≡ ltb max_size (size + n)
over_limit size n max_size h w k = ground arith

-- The allocator refused a block that holds `n` bytes more and stays within the limit.
abbrev pub Refused : Host → Stack → ℕ → Type 0
Refused host s n =
    (m : ℕ) × (length s.bytes + n ≤ m) × (m ≤ s.max_size) × (host.realloc s.base m ≡ none)

-- What a resize by `n` bytes leaves, by its return code.
abbrev pub Resized : Host → Stack → ℕ → Stack × Return → Type 0
Resized host s n (t, success) =
    IsValid t
    × (t.bytes ≡ s.bytes)
    × (t.max_size ≡ s.max_size)
    × (t.status ≡ s.status)
    × (length s.bytes + n ≤ t.allocated)
Resized host s n (t, failure) =
    IsValid t
    × (t.bytes ≡ s.bytes)
    × (t.max_size ≡ s.max_size)
    × (((t.status ≡ stack_overflow) × (s.max_size < length s.bytes + n))
        ⊎ ((t.status ≡ allocation_failed) × Refused host s n))

-- The resize of a valid stack always returns. It succeeds with room for `n` bytes more, or leaves
-- the contents alone and says whether the limit or the allocator stood in the way.
pub increase_stack_size-Resized :
    (host : Host) (s : Stack) (n : ℕ)
    → IsHost host
    → IsValid s
    → n < 2 ^ 64
    → (r : Stack × Return) × (increase_stack_size host s n ≡ some r) × Resized host s n r
unfolding increase_stack_size
increase_stack_size-Resized host s n lawful v word =
    let size = length s.bytes in
    let start = double_grows size s.max_size (omega arith) v.word in
    elim (Bool-cases (ltb s.max_size (size + n))) [
      | inl over ↦ (
        (record s { status = stack_overflow }, failure),
        rw (over_limit size n s.max_size (omega arith) v.word word, over) refl,
        (ground arith, refl, refl, inl (refl, ground arith)),
      )
      | inr fits ↦
          let sum : add64 size n ≡ size + n = ground arith in
          let (m, run, low, high) =
            reach_size_total (suc (suc s.max_size)) (double_stack_size size s.max_size) (size + n)
              s.max_size start.0 (ground arith) v.word (omega arith) in
          elim (Option-cases (host.realloc s.base m)) [
            | inl e ↦ (
              (record s { status = allocation_failed }, failure),
              rw (over_limit size n s.max_size (omega arith) v.word word, fits, sum, run, e) refl,
              (ground arith, refl, refl, inr (refl, (m, low, high, e))),
            )
            | inr (p, e) ↦ (
              (record s { base = p; allocated = m }, success),
              rw (over_limit size n s.max_size (omega arith) v.word word, fits, sum, run, e) refl,
              (
                record {
                  stored = omega arith;
                  limited = high;
                  placed = lawful.realloc_fits s.base m p e;
                  word = v.word;
                },
                refl,
                refl,
                refl,
                low,
              ),
            )
          ]
    ]
