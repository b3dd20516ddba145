-- ===== src/Tests/Stacks.antt =====
-- Runs of the definitions for src/stack.c.
use unlambda.Base.{
  ◌^◌, ◌≡◌, refl, true, none, some, List, [], ◌∷◌, ltb, if◌then◌else◌, Return, success, failure,
  arith,
}
use unlambda.Base.Host.{Host, IsHost}
use unlambda.Stack.{
  Stack, ok, stack_overflow, push_stack, pop_stack, swap_stack_top, set_stack, clear_stack,
  increase_stack_size,
}
use unlambda.Stack.Grow.{IsValid, Resized, increase_stack_size-Resized}
use unlambda.Stack.Push.{Pushed, push_stack-Extended}
use unlambda.Stack.Pop.{pop_stack-push_stack, swap_stack_top-append}
use unlambda.Stack.Replace.{Outcome, set_stack-Replaced, set_stack-refuses}
use unlambda.Stack.Calls.{Call, push, pop, dup, swap, Keeps, perform_all, perform_all-Keeps}

-- An allocator that has one address for every request below 2 ^ 63 bytes.
abbrev pub host : Host
host = record {
  malloc = λ n. if ltb n (2 ^ 63) then some 4096 else none;
  realloc = λ old n. if ltb n (2 ^ 63) then some 4096 else none;
}

pub host-IsHost : IsHost host
host-IsHost = record {
  malloc_fits = λ n p h. ground arith;
  realloc_fits = λ old n p h. ground arith;
}

abbrev three_bytes : Stack
three_bytes = record {
  base = 4096;
  bytes = 1 ∷ 2 ∷ 3 ∷ [];
  allocated = 4;
  max_size = 6;
  status = ok;
}

three_bytes-IsValid : IsValid three_bytes
three_bytes-IsValid = ground arith

push_stack-Extended_example : Pushed host three_bytes (4 ∷ 5 ∷ [])
push_stack-Extended_example =
    push_stack-Extended host three_bytes (4 ∷ 5 ∷ []) host-IsHost three_bytes-IsValid (ground arith)

pop_stack-push_stack_example :
    pop_stack (record three_bytes { bytes = 1 ∷ 2 ∷ 3 ∷ 4 ∷ [] }) true 1
    ≡ (three_bytes, success, some (4 ∷ []))
unfolding push_stack
pop_stack-push_stack_example =
    pop_stack-push_stack host three_bytes (record three_bytes { bytes = 1 ∷ 2 ∷ 3 ∷ 4 ∷ [] })
      (4 ∷ []) host-IsHost three_bytes-IsValid (ground arith) (ground arith) refl

swap_stack_top-append_example :
    swap_stack_top host three_bytes 1 ≡ (record three_bytes { bytes = 1 ∷ 3 ∷ 2 ∷ [] }, success)
swap_stack_top-append_example =
    swap_stack_top-append host three_bytes (1 ∷ []) (2 ∷ []) (3 ∷ []) 1 refl refl refl
      (ground arith) (ground arith) 4096 refl

set_stack-Replaced_example : Outcome host three_bytes (7 ∷ 8 ∷ 9 ∷ 10 ∷ 11 ∷ [])
set_stack-Replaced_example =
    set_stack-Replaced host three_bytes (7 ∷ 8 ∷ 9 ∷ 10 ∷ 11 ∷ []) host-IsHost three_bytes-IsValid

set_stack-refuses_example :
    (set_stack host three_bytes (7 ∷ 8 ∷ 9 ∷ 10 ∷ 11 ∷ []) 5
      ≡ some (record three_bytes { status = stack_overflow }, failure))
    × ((t : Stack) × (push_stack host (clear_stack three_bytes) (some (7 ∷ 8 ∷ 9 ∷ 10 ∷ 11 ∷ [])) 5
          ≡ some (t, success))
        × (t.bytes ≡ 7 ∷ 8 ∷ 9 ∷ 10 ∷ 11 ∷ []))
set_stack-refuses_example =
    set_stack-refuses host three_bytes (7 ∷ 8 ∷ 9 ∷ 10 ∷ 11 ∷ []) host-IsHost three_bytes-IsValid
      (ground arith) (ground arith) (ground arith) (ground arith) (λ m h. (4096, ground arith))

increase_stack_size-Resized_example :
    (r : Stack × Return) × (increase_stack_size host three_bytes 2 ≡ some r)
    × Resized host three_bytes 2 r
increase_stack_size-Resized_example =
    increase_stack_size-Resized host three_bytes 2 host-IsHost three_bytes-IsValid (ground arith)

abbrev calls : List Call
calls = push (4 ∷ 5 ∷ []) ∷ dup 1 ∷ swap 2 ∷ pop true 9 ∷ []

perform_all-Keeps_example : Keeps three_bytes (perform_all host three_bytes calls)
perform_all-Keeps_example =
    perform_all-Keeps host three_bytes calls host-IsHost (ground arith) three_bytes-IsValid

abbrev fresh : Stack
fresh = record { base = 4096; bytes = []; allocated = 8; max_size = 64; status = ok }
