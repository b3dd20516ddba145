-- ===== src/Stack.antt =====
-- src/stack.c: a byte stack that grows by reallocation up to a limit.
-- `data` and `top` are host addresses. The bytes between them are a list, bottom first; those
-- above `top` are never read.
pub mod Grow
pub mod Push
pub mod Pop
pub mod Replace
pub mod Calls
use unlambda.Base.{
  ℕ, zero, suc, ◌+◌, ◌-◌, ◌*◌, Bool, true, false, ◌||◌, Option, none, some, List, [], ◌++◌, length,
  take, overwrite, slice, ltb, ◌==◌, if◌then◌else◌, Return, success, failure, u64, add64, mul64,
}
use unlambda.Base.Host.{Host}

-- `statusCode`: 0 and the four Stack...Error constants. The message says the same in words.
pub data StackStatus : Type 0 where
  ok stack_overflow allocation_failed stack_underflow invalid_argument : StackStatus

pub record Stack : Type 0 where
  pub base : ℕ
  pub bytes : List ℕ
  pub allocated : ℕ
  pub max_size : ℕ
  pub status : StackStatus

abbrev pub stack_size : Stack → ℕ
stack_size s = length s.bytes

abbrev pub set_stack_status : Stack → StackStatus → Stack
set_stack_status s code = record s { status = code }

abbrev pub clear_stack_status : Stack → Stack
clear_stack_status s = set_stack_status s ok

-- `impl_size` is `sizeof(StackImpl)`.
unfoldable pub create_stack : Host → ℕ → ℕ → ℕ → Option Stack
create_stack host impl_size initial_size max_size =
    if (max_size == 0) || ltb max_size initial_size then none else elim (host.malloc impl_size) [
      | none ↦ none
      | some _ ↦ elim (host.malloc initial_size) [
        | none ↦ none
        | some p ↦ some (record {
          base = p;
          bytes = [];
          allocated = initial_size;
          max_size = max_size;
          status = ok;
        })
      ]
    ]

unfoldable pub double_stack_size : ℕ → ℕ → ℕ
double_stack_size current max_size =
    let new_size = if current == 0 then 16 else mul64 2 current in
    if ltb new_size current || ltb max_size new_size then max_size else new_size

-- The loop of `increaseStackSize`; `none` is a loop that has not ended within the fuel.
unfoldable pub reach_size : ℕ → ℕ → ℕ → ℕ → Option ℕ
reach_size zero new_size desired max_size = none
reach_size (suc fuel) new_size desired max_size = elim (ltb new_size desired) [
  | true ↦ reach_size fuel (double_stack_size new_size max_size) desired max_size
  | false ↦ some new_size
]

-- `none` stands for a loop that does not end. The fuel is the limit and two rounds more.
unfoldable pub increase_stack_size : Host → Stack → ℕ → Option (Stack × Return)
increase_stack_size host s n =
    let current = stack_size s in
    let desired = add64 current n in
    if ltb desired current || ltb s.max_size desired
    then some (set_stack_status s stack_overflow, failure)
    else elim (reach_size (suc (suc s.max_size)) (double_stack_size current s.max_size) desired
        s.max_size) [
          | none ↦ none
          | some new_size ↦ elim (host.realloc s.base new_size) [
            | none ↦ some (set_stack_status s allocation_failed, failure)
            | some p ↦ some (record s { base = p; allocated = new_size }, success)
          ]
        ]

-- `s->top`, `s->end`, and `s->top + n` as the machine computes it
abbrev pub top_of : Stack → ℕ
top_of s = s.base + stack_size s

abbrev pub end_of : Stack → ℕ
end_of s = s.base + s.allocated

-- `item` is `none` where the pointer is NULL.
unfoldable pub push_stack : Host → Stack → Option (List ℕ) → ℕ → Option (Stack × Return)
push_stack host s item n =
    let s₀ = clear_stack_status s in
    if n == 0 then some (s₀, success) else elim item [
      | none ↦ some (set_stack_status s₀ invalid_argument, failure)
      | some content ↦
          let new_top = u64 (top_of s + n) in
          if ltb new_top (top_of s)
          then some (set_stack_status s₀ stack_overflow, failure)
          else if ltb (end_of s) new_top
          then elim (increase_stack_size host s₀ n) [
            | none ↦ none
            | some (s₁, failure) ↦ some (set_stack_status s₁ stack_overflow, failure)
            | some (s₁, success) ↦ some (record s₁ { bytes = s₁.bytes ++ take n content }, success)
          ]
          else some (record s₀ { bytes = s.bytes ++ take n content }, success)
    ]

-- What is copied out stands third; `wanted` is false where `item` is NULL.
unfoldable pub pop_stack : Stack → Bool → ℕ → Stack × Return × Option (List ℕ)
pop_stack s wanted n =
    let s₀ = clear_stack_status s in
    let below = stack_size s - n in
    if n == 0
    then (s₀, success, none)
    else if ltb (stack_size s) n
    then (set_stack_status s₀ stack_underflow, failure, none)
    else (
      record s₀ { bytes = take below s.bytes },
      success,
      (if wanted then some (slice below n s.bytes) else none),
    )

unfoldable pub read_stack_top : Stack → Bool → ℕ → Stack × Return × Option (List ℕ)
read_stack_top s wanted n =
    let s₀ = clear_stack_status s in
    if n == 0
    then (s₀, success, none)
    else if wanted
    then if ltb (stack_size s) n
      then (set_stack_status s₀ stack_underflow, failure, none)
      else (s₀, success, some (slice (stack_size s - n) n s.bytes))
    else (set_stack_status s₀ invalid_argument, failure, none)

-- Three block moves through a buffer of `n` bytes.
unfoldable pub swap_stack_top : Host → Stack → ℕ → Stack × Return
swap_stack_top host s n =
    let s₀ = clear_stack_status s in
    let size = stack_size s in
    let upper = size - n in
    let lower = size - 2 * n in
    if n == 0
    then (s₀, success)
    else if ltb (mul64 2 n) n || ltb size (mul64 2 n)
    then (set_stack_status s₀ stack_underflow, failure)
    else elim (host.malloc n) [
      | none ↦ (set_stack_status s₀ allocation_failed, failure)
      | some _ ↦
          let saved = slice upper n s.bytes in
          let moved = overwrite upper (slice lower n s.bytes) s.bytes in
          (record s₀ { bytes = overwrite lower saved moved }, success)
    ]

unfoldable pub dup_stack_top : Host → Stack → ℕ → Option (Stack × Return)
dup_stack_top host s n =
    let s₀ = clear_stack_status s in
    let new_top = u64 (top_of s + n) in
    let copy = λ (t : Stack). t.bytes ++ slice (stack_size t - n) n t.bytes in
    if n == 0
    then some (s₀, success)
    else if ltb (stack_size s) n
    then some (set_stack_status s₀ stack_underflow, failure)
    else if ltb new_top (top_of s)
    then some (set_stack_status s₀ stack_overflow, failure)
    else if ltb (end_of s) new_top
    then elim (increase_stack_size host s₀ n) [
      | none ↦ none
      | some (s₁, failure) ↦ some (s₁, failure)
      | some (s₁, success) ↦ some (record s₁ { bytes = copy s₁ }, success)
    ]
    else some (record s₀ { bytes = copy s₀ }, success)

unfoldable pub clear_stack : Stack → Stack
clear_stack s = record s { bytes = []; status = ok }

-- `content` holds `n` bytes. The assertion after the resize, that
-- the block holds `n` bytes, is part of what a resize promises.
unfoldable pub set_stack : Host → Stack → List ℕ → ℕ → Option (Stack × Return)
set_stack host s content n =
    let s₀ = clear_stack_status s in
    if ltb s.max_size n
    then some (set_stack_status s₀ stack_overflow, failure)
    else if ltb s.allocated n
    then elim (increase_stack_size host s₀ n) [
      | none ↦ none
      | some (s₁, failure) ↦ some (s₁, failure)
      | some (s₁, success) ↦ some (record s₁ { bytes = take n content }, success)
    ]
    else some (record s₀ { bytes = take n content }, success)
