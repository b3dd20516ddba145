-- ===== src/Stack/Pop.antt =====
-- `popStack`, `readStackTop` and `swapStackTop` of src/stack.c.
use unlambda.Base.{
  ℕ, ◌+◌, ◌-◌, ◌*◌, ◌^◌, ◌<◌, ◌≡◌, refl, ◌∙◌, ap, sym, none, some, List, [], ◌++◌, append-nil,
  append_assoc, length, take, length-append, take-append, slice, overwrite, slice-append,
  overwrite-append, success, failure, arith, true,
}
use unlambda.Base.Host.{Host, IsHost}
use unlambda.Stack.{
  ok, stack_underflow, Stack, push_stack, pop_stack, read_stack_top, swap_stack_top,
}
use unlambda.Stack.Grow.{IsValid}
use unlambda.Stack.Push.{Pushed, slice_top, push_stack-Extended}

take_below : (below top : List ℕ) → take (length (below ++ top) - length top) (below ++ top) ≡ below
take_below below top =
    let at : length (below ++ top) - length top ≡ length below =
      omega (arith, length-append below top) in
    rw at (take-append below top (length below) refl)

-- Reading and then popping the top bytes of a stack copies exactly these out, leaves the bytes
-- below, and reading leaves all.
pub pop_stack-append :
    (s : Stack) (below top : List ℕ)
    → s.bytes ≡ below ++ top
    → 0 < length top
    → (pop_stack s true (length top) ≡ (record s { bytes = below; status = ok }, success, some top))
      × (read_stack_top s true (length top) ≡ (record s { status = ok }, success, some top))
unfolding pop_stack read_stack_top
pop_stack-append s below top shape pos =
    let size = ap length shape ∙ length-append below top in
    let kept = ap (λ (b : List ℕ). take (length b - length top) b) shape ∙ take_below below top in
    let read =
      ap (λ (b : List ℕ). slice (length b - length top) (length top) b) shape
      ∙ slice_top below top in
    (ground (arith, size, kept, read), ground (arith, size, read))

-- With fewer bytes on the stack than asked for, both report an underflow and change nothing else.
pub pop_stack-underflow :
    (s : Stack) (n : ℕ)
    → length s.bytes < n
    → (pop_stack s true n ≡ (record s { status = stack_underflow }, failure, none))
      × (read_stack_top s true n ≡ (record s { status = stack_underflow }, failure, none))
unfolding pop_stack read_stack_top
pop_stack-underflow s n h = (ground arith, ground arith)

-- After a push that succeeded, a pop of the same size gives the pushed bytes back and leaves the
-- contents from before the push.
pub pop_stack-push_stack :
    (host : Host) (s t : Stack) (xs : List ℕ)
    → IsHost host
    → IsValid s
    → 0 < length xs
    → length xs < 2 ^ 64
    → push_stack host s (some xs) (length xs) ≡ some (t, success)
    → pop_stack t true (length xs) ≡ (record t { bytes = s.bytes; status = ok }, success, some xs)
pop_stack-push_stack host s t xs lawful v pos word pushed =
    go (push_stack-Extended host s xs lawful v word)
  where
    go :
        Pushed host s xs
        → pop_stack t true (length xs)
          ≡ (record t { bytes = s.bytes; status = ok }, success, some xs)
    go ((u, success), run, (_, shape, _, _), _) =
        (pop_stack-append t s.bytes xs (ground arith) pos).0
    go ((u, failure), run, _, _) = cc

-- Swapping the top two runs of `n` bytes exchanges them and leaves the bytes below, whenever the
-- buffer for the exchange can be allocated.
pub swap_stack_top-append :
    (host : Host) (s : Stack) (below lower upper : List ℕ) (n : ℕ)
    → s.bytes ≡ below ++ (lower ++ upper)
    → length lower ≡ n
    → length upper ≡ n
    → 0 < n
    → n < 2 ^ 63
    → (buffer : ℕ) → host.malloc n ≡ some buffer
    → swap_stack_top host s n
      ≡ (record s { bytes = below ++ (upper ++ lower); status = ok }, success)
unfolding swap_stack_top
swap_stack_top-append host s below lower upper n shape low up pos word buffer got =
    ground (arith, size, read_upper, read_lower, first, second)
  where
    size : length s.bytes ≡ length below + (n + n)
    size =
        omega
          (arith, ap length shape, length-append below (lower ++ upper), length-append lower upper)

    split : s.bytes ≡ (below ++ lower) ++ (upper ++ [])
    split = shape ∙ simp (append_assoc, append-nil)

    at : length s.bytes - n ≡ length (below ++ lower)
    at = omega (arith, size, length-append below lower)

    read_upper : slice (length s.bytes - n) n s.bytes ≡ upper
    read_upper =
        ap (slice (length s.bytes - n) n) split
        ∙ slice-append (below ++ lower) upper [] (length s.bytes - n) n at (sym up)

    read_lower : slice (length s.bytes - 2 * n) n s.bytes ≡ lower
    read_lower =
        ap (slice (length s.bytes - 2 * n) n) shape
        ∙ slice-append below lower upper (length s.bytes - 2 * n) n (omega (arith, size)) (sym low)

    first : overwrite (length s.bytes - n) lower s.bytes ≡ below ++ (lower ++ lower)
    first =
        ap (overwrite (length s.bytes - n) lower) split
        ∙ overwrite-append (below ++ lower) upper [] lower (length s.bytes - n) at (low ∙ sym up)
        ∙ simp (append_assoc, append-nil)

    second :
        overwrite (length s.bytes - 2 * n) upper (below ++ (lower ++ lower))
        ≡ below ++ (upper ++ lower)
    second =
        overwrite-append below lower lower upper (length s.bytes - 2 * n) (omega (arith, size))
          (up ∙ sym low)
