-- ===== src/Vm/Words.antt =====
-- The address and call stacks of src/vm.c as stacks of 64-bit words.
use unlambda.Base.{
  ℕ, ◌^◌, ◌<◌, ◌≡◌, refl, true, List, ◌++◌, length, Return, success, failure, arith,
}
use unlambda.Base.Host.{Host, IsHost}
use unlambda.Base.Run.{done, Returns}
use unlambda.Memory.Bytes.{bytes_of, length-bytes_of, number_of-bytes_of}
use unlambda.Stack.{Stack, ok, stack_underflow}
use unlambda.Stack.Grow.{IsValid}
use unlambda.Stack.Push.{Pushed, push_stack-Extended}
use unlambda.Stack.Pop.{pop_stack-append, pop_stack-underflow}
use unlambda.Vm.State.{
  Vm, Which, stack_of, put_stack, overflow_of, underflow_of, set_vm_status, push_failure,
  push_address_to_vm_stack, pop_address_from_vm_stack,
}

-- What a push of a word leaves, by its return code: only the stack changes, and the status of a
-- failure is the overflow of that stack.
abbrev pub WordPushed : Vm → Which → ℕ → Vm × Return → Type 0
WordPushed vm which addr (vm', success) =
    (t : Stack) × (vm' ≡ put_stack vm which t)
    × IsValid t
    × (t.bytes ≡ (stack_of vm which).bytes ++ bytes_of 8 addr)
    × (t.max_size ≡ (stack_of vm which).max_size)
WordPushed vm which addr (vm', failure) =
    (t : Stack) × (vm' ≡ set_vm_status (put_stack vm which t) (overflow_of which))
    × IsValid t
    × (t.bytes ≡ (stack_of vm which).bytes)
    × (t.max_size ≡ (stack_of vm which).max_size)

module _ (host : Host) (vm : Vm) (which : Which) (addr : ℕ) where
  word_pushed :
      Pushed host (stack_of vm which) (bytes_of 8 addr)
      → Returns (push_address_to_vm_stack host vm which addr) (WordPushed vm which addr)
  unfolding push_address_to_vm_stack push_failure
  word_pushed ((t, success), run, (valid, bytes, limit, status), why) = (
    (put_stack vm which t, success),
    ground (arith, length-bytes_of 8 addr, run),
    (t, refl, valid, bytes, limit),
  )
  word_pushed ((t, failure), run, (valid, bytes, limit, reason), why) =
      let status = why in
      (
        (set_vm_status (put_stack vm which t) (overflow_of which), failure),
        ground (arith, length-bytes_of 8 addr, run, status),
        (t, refl, valid, bytes, limit),
      )

-- A push of a word onto one of the machine's stacks, if that stack is valid, always returns,
-- without a failed assertion: the word is on top, or the push is refused, the contents are as they
-- were and the status says which stack has overflowed. Nothing else of the machine changes.
pub push_address_to_vm_stack-WordPushed :
    (host : Host) (vm : Vm) (which : Which) (addr : ℕ)
    → IsHost host
    → IsValid (stack_of vm which)
    → Returns (push_address_to_vm_stack host vm which addr) (WordPushed vm which addr)
push_address_to_vm_stack-WordPushed host vm which addr lawful v = word_pushed host vm which addr (
    push_stack-Extended host (stack_of vm which) (bytes_of 8 addr) lawful v
      (omega (arith, length-bytes_of 8 addr)))

-- With a word on top of the stack, a pop hands out this word and leaves what is below.
pub pop_address_from_vm_stack-word :
    (vm : Vm) (which : Which) (below : List ℕ) (addr : ℕ)
    → (stack_of vm which).bytes ≡ below ++ bytes_of 8 addr
    → addr < 2 ^ 64
    → pop_address_from_vm_stack vm which true
      ≡ done (
        put_stack vm which (record (stack_of vm which) { bytes = below; status = ok }),
        success,
        addr,
      )
unfolding pop_address_from_vm_stack
pop_address_from_vm_stack-word vm which below addr shape word =
    let size = length-bytes_of 8 addr in
    let value = number_of-bytes_of 8 addr word in
    let popped =
      (pop_stack-append (stack_of vm which) below (bytes_of 8 addr) shape
        (omega (arith, size))).0 in
    ground (arith, size, value, popped)

-- With less than a word on it, the pop reports the underflow of that stack.
pub pop_address_from_vm_stack-underflow :
    (vm : Vm) (which : Which)
    → length (stack_of vm which).bytes < 8
    → pop_address_from_vm_stack vm which true
      ≡ done (
        set_vm_status
            (put_stack vm which (record (stack_of vm which) { status = stack_underflow }))
            (underflow_of which),
        failure,
        0,
      )
unfolding pop_address_from_vm_stack
pop_address_from_vm_stack-underflow vm which short =
    let popped = (pop_stack-underflow (stack_of vm which) 8 short).0 in ground (arith, popped)
