-- ===== src/Stack/Calls.antt =====
-- A client of src/stack.c: sequences of calls on one stack.
use unlambda.Base.{
  ℕ, ◌+◌, ◌-◌, ◌*◌, ◌^◌, ◌≤◌, ◌<◌, ◌≡◌, refl, sym, ◌∙◌, inl, inr, none, some, List, [], ◌∷◌, ◌++◌,
  Option, Bool, length, take, drop, take-append-drop, length-take, length-drop, length-append, ltb,
  Bool-cases, Option-cases, success, failure, arith, true, slice, overwrite, ◌==◌,
}
use unlambda.Base.Host.{Host, IsHost}
use unlambda.Stack.{
  ok, stack_underflow, invalid_argument, Stack, create_stack, push_stack, pop_stack, read_stack_top,
  swap_stack_top, dup_stack_top, clear_stack, set_stack,
}
use unlambda.Stack.Grow.{IsValid}
use unlambda.Stack.Push.{Pushed, Duplicated, push_stack-Extended, dup_stack_top-Extended}
use unlambda.Stack.Replace.{Outcome, set_stack-Replaced}

-- The calls that change a stack. The bytes handed to `push` and `set` are those that the call's
-- size counts.
pub data Call : Type 0 where
  push set : List ℕ → Call
  push_null swap dup : ℕ → Call
  pop read : Bool → ℕ → Call
  clear : Call

-- The stack after a call; `none` would be a call that does not return.
unfoldable pub perform : Host → Stack → Call → Option Stack
perform host s (push xs) = elim (push_stack host s (some xs) (length xs)) [
  | none ↦ none
  | some (t, _) ↦ some t
]
perform host s (set xs) = elim (set_stack host s xs (length xs)) [
  | none ↦ none
  | some (t, _) ↦ some t
]
perform host s (push_null n) = elim (push_stack host s none n) [
  | none ↦ none
  | some (t, _) ↦ some t
]
perform host s (swap n) = some (swap_stack_top host s n).0
perform host s (dup n) = elim (dup_stack_top host s n) [ none ↦ none | some (t, _) ↦ some t ]
perform host s (pop wanted n) = some (pop_stack s wanted n).0
perform host s (read wanted n) = some (read_stack_top s wanted n).0
perform host s clear = some (clear_stack s)

unfoldable pub perform_all : Host → Stack → List Call → Option Stack
perform_all host s [] = some s
perform_all host s (c ∷ cs) = elim (perform host s c) [
  | none ↦ none
  | some t ↦ perform_all host t cs
]

-- Sizes are of type size_t.
abbrev pub IsWord : Call → Type 0
IsWord (push xs) = length xs < 2 ^ 64
IsWord (set xs) = length xs < 2 ^ 64
IsWord (push_null n) = n < 2 ^ 64
IsWord (swap n) = n < 2 ^ 64
IsWord (dup n) = n < 2 ^ 64
IsWord (pop _ n) = n < 2 ^ 64
IsWord (read _ n) = n < 2 ^ 64
IsWord clear = Unit

abbrev pub AreWords : List Call → Type 0
AreWords [] = Unit
AreWords (c ∷ cs) = IsWord c × AreWords cs

abbrev pub Keeps : Stack → Option Stack → Type 0
Keeps s r = (t : Stack) × (r ≡ some t) × IsValid t × (t.max_size ≡ s.max_size)

length-slice : (at n : ℕ) (xs : List ℕ) → at + n ≤ length xs → length (slice at n xs) ≡ n
unfolding slice
length-slice at n xs h = omega (arith, length-take n (drop at xs), length-drop at xs)

length-overwrite :
    (at : ℕ) (src xs : List ℕ)
    → at + length src ≤ length xs
    → length (overwrite at src xs) ≡ length xs
unfolding overwrite
length-overwrite at src xs h = omega (
  arith,
  length-append (take at xs) (src ++ drop (at + length src) xs),
  length-append src (drop (at + length src) xs),
  length-take at xs,
  length-drop (at + length src) xs,
)

length-swap :
    (xs : List ℕ) (n : ℕ)
    → 2 * n ≤ length xs
    → let upper = length xs - n in
      let lower = length xs - 2 * n in
      length (overwrite lower (slice upper n xs) (overwrite upper (slice lower n xs) xs))
      ≡ length xs
length-swap xs n h =
    let upper = length xs - n in
    let lower = length xs - 2 * n in
    let a = length-slice upper n xs (omega arith) in
    let b = length-slice lower n xs (omega arith) in
    let moved = length-overwrite upper (slice lower n xs) xs (omega (arith, b)) in
    length-overwrite lower (slice upper n xs) (overwrite upper (slice lower n xs) xs)
      (omega (arith, a, moved))
    ∙ moved

swap-Keeps :
    (host : Host) (s : Stack) (n : ℕ)
    → n < 2 ^ 64
    → IsValid s
    → Keeps s (some (swap_stack_top host s n).0)
unfolding swap_stack_top
swap-Keeps host s n w v =
    ((swap_stack_top host s n).0, refl, ground (arith, length-swap s.bytes n), ground arith)

dup_short :
    (host : Host) (s : Stack) (n : ℕ)
    → IsValid s
    → ltb (length s.bytes) n ≡ true
    → Keeps s (perform host s (dup n))
unfolding perform dup_stack_top
dup_short host s n v short =
    (record s { status = stack_underflow }, ground arith, ground arith, refl)

null-Keeps : (host : Host) (s : Stack) (n : ℕ) → IsValid s → Keeps s (perform host s (push_null n))
unfolding perform push_stack
null-Keeps host s n v = elim (Bool-cases (n == 0)) [
  | inl e ↦ (record s { status = ok }, ground arith, ground arith, refl)
  | inr e ↦ (record s { status = invalid_argument }, ground arith, ground arith, refl)
]

pop-Keeps :
    (s : Stack) (wanted : Bool) (n : ℕ)
    → IsValid s
    → Keeps s (some (pop_stack s wanted n).0) × Keeps s (some (read_stack_top s wanted n).0)
unfolding pop_stack read_stack_top
pop-Keeps s wanted n v = (
  (
    (pop_stack s wanted n).0,
    refl,
    ground (arith, length-take (length s.bytes - n) s.bytes),
    ground arith,
  ),
  ((read_stack_top s wanted n).0, refl, ground arith, ground arith),
)

dup-Keeps :
    (host : Host) (s : Stack) (n : ℕ) → IsHost host → IsValid s → Keeps s (perform host s (dup n))
unfolding perform
dup-Keeps host s n lawful v = elim (Bool-cases (ltb (length s.bytes) n)) [
  | inl short ↦ dup_short host s n v short
  | inr deep ↦
      let below = take (length s.bytes - n) s.bytes in
      let top = drop (length s.bytes - n) s.bytes in
      let size : length top ≡ n = ground (arith, length-drop (length s.bytes - n) s.bytes) in
      go top size (
        dup_stack_top-Extended host s below top lawful v
          (sym (take-append-drop (length s.bytes - n) s.bytes)))
]
  where
    go : (top : List ℕ) → length top ≡ n → Duplicated host s top → Keeps s (perform host s (dup n))
    go _ size ((t, success), run, (valid, _, limit, _)) = (t, ground arith, valid, limit)
    go _ size ((t, failure), run, (valid, _, limit, _)) = (t, ground arith, valid, limit)

clear-Keeps : (s : Stack) → IsValid s → Keeps s (some (clear_stack s))
unfolding clear_stack
clear-Keeps s v = (clear_stack s, refl, ground arith, refl)

perform-Keeps :
    (host : Host) (s : Stack) (c : Call)
    → IsHost host
    → IsWord c
    → IsValid s
    → Keeps s (perform host s c)
unfolding perform
perform-Keeps host s (push xs) lawful w v = go (push_stack-Extended host s xs lawful v w)
  where
    go : Pushed host s xs → Keeps s (perform host s (push xs))
    go ((t, success), run, (valid, _, limit, _), _) = (t, ground arith, valid, limit)
    go ((t, failure), run, (valid, _, limit, _), _) = (t, ground arith, valid, limit)
perform-Keeps host s (set xs) lawful w v = go (set_stack-Replaced host s xs lawful v)
  where
    go : Outcome host s xs → Keeps s (perform host s (set xs))
    go ((t, success), run, (valid, _, limit, _)) = (t, ground arith, valid, limit)
    go ((t, failure), run, (valid, _, limit, _)) = (t, ground arith, valid, limit)
perform-Keeps host s (push_null n) lawful w v = null-Keeps host s n v
perform-Keeps host s (swap n) lawful w v = swap-Keeps host s n w v
perform-Keeps host s (dup n) lawful w v = dup-Keeps host s n lawful v
perform-Keeps host s (pop wanted n) lawful w v = (pop-Keeps s wanted n v).0
perform-Keeps host s (read wanted n) lawful w v = (pop-Keeps s wanted n v).1
perform-Keeps host s clear lawful w v = clear-Keeps s v

-- A run of calls on a valid stack always comes to its end, and leaves a valid stack with the limit
-- it had, whatever the calls are and whatever the allocator refuses.
pub perform_all-Keeps :
    (host : Host) (s : Stack) (cs : List Call)
    → IsHost host
    → AreWords cs
    → IsValid s
    → Keeps s (perform_all host s cs)
unfolding perform_all
perform_all-Keeps host s [] lawful w v = (s, refl, v, refl)
perform_all-Keeps host s (c ∷ cs) lawful (w, ws) v =
    let (t, run, valid, limit) = perform-Keeps host s c lawful w v in
    let (u, rest, valid', limit') = perform_all-Keeps host t cs lawful ws valid in
    (u, ground arith, valid', limit' ∙ limit)

-- A stack that `createStack` returns is valid and empty, and has the asked for size and limit.
pub create_stack-IsValid :
    (host : Host) (impl_size initial_size max_size : ℕ) {s : Stack}
    → IsHost host
    → max_size < 2 ^ 64
    → create_stack host impl_size initial_size max_size ≡ some s
    → IsValid s
      × (s.bytes ≡ [])
      × (s.allocated ≡ initial_size)
      × (s.max_size ≡ max_size)
      × (0 < max_size)
unfolding create_stack
create_stack-IsValid host impl_size initial_size max_size {s} lawful w made =
    elim (Option-cases (host.malloc initial_size)) [
      | inl e ↦ absurd (ground arith)
      | inr (p, e) ↦ ground (arith, lawful.malloc_fits initial_size p)
    ]
