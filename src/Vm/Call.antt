-- ===== src/Vm/Call.antt =====
-- PCALL of src/vm.c.
use unlambda.Base.{
  ℕ, ◌+◌, ◌^◌, ◌<◌, ◌≤◌, ◌≡◌, refl, ◌∙◌, ap, ◌⊎◌, inl, inr, true, false, Bool-cases, some, List,
  ◌++◌, append_assoc, length, length-append, take-length, Return, success, failure, arith, add64,
}
use unlambda.Base.Host.{Host, IsHost}
use unlambda.Base.Run.{done, Returns}
use unlambda.Memory.Bytes.{bytes_of, length-bytes_of}
use unlambda.Memory.State.{is_valid_vmm_address}
use unlambda.Stack.{Stack, ok, push_stack}
use unlambda.Stack.Grow.{IsValid}
use unlambda.Vm.State.{
  Vm, call_stack_overflow, illegal_address, calls, addresses, push_address_to_vm_stack, assert_push,
}
use unlambda.Vm.Step.{enter, execute_pcall_instruction}
use unlambda.Vm.Words.{
  WordPushed, push_address_to_vm_stack-WordPushed, pop_address_from_vm_stack-word,
}

-- a stack with other contents, after an operation that succeeded
abbrev pub holding : Stack → List ℕ → Stack
holding s bytes = record s { bytes = bytes; status = ok }

push_stack-fits :
    (host : Host) (s : Stack) (xs : List ℕ)
    → IsValid s
    → 0 < length xs
    → length s.bytes + length xs ≤ s.allocated
    → push_stack host s (some xs) (length xs) ≡ some (holding s (s.bytes ++ xs), success)
unfolding push_stack
push_stack-fits host s xs v pos room = ground (arith, take-length (length xs) xs)

-- The word that was popped fits back onto the address stack.
assert_push-back :
    (host : Host) (vm : Vm) (target : ℕ)
    → IsValid vm.address_stack
    → length vm.address_stack.bytes + 8 ≤ vm.address_stack.allocated
    → assert_push host vm target
      ≡ done (record vm {
        address_stack = holding vm.address_stack (vm.address_stack.bytes ++ bytes_of 8 target);
      })
unfolding assert_push push_address_to_vm_stack
assert_push-back host vm target v room =
    let size = length-bytes_of 8 target in
    let pushed =
      push_stack-fits host vm.address_stack (bytes_of 8 target) v (omega (arith, size))
        (omega (arith, size)) in
    ground (arith, size, pushed)

refused :
    (host : Host) (vm : Vm) (below : List ℕ) (target : ℕ)
    → vm.address_stack.bytes ≡ below ++ bytes_of 8 target
    → IsValid vm.address_stack
    → assert_push host
        (record vm { address_stack = holding vm.address_stack below; status = illegal_address })
        target
      ≡ done (record vm {
        address_stack = holding vm.address_stack (below ++ bytes_of 8 target);
        status = illegal_address;
      })
refused host vm below target shape v =
    let size : length vm.address_stack.bytes ≡ length below + 8 =
      ap length shape
      ∙ omega (arith, length-append below (bytes_of 8 target), length-bytes_of 8 target) in
    assert_push-back host
      (record vm { address_stack = holding vm.address_stack below; status = illegal_address })
      target (ground (arith, size)) (omega (arith, size, v.stored))

-- What PCALL leaves, where `target` is on top of the address stack and `below` is under it. A call
-- that is refused puts the target back.
abbrev pub Called : Vm → List ℕ → ℕ → Vm × Return → Type 0
Called vm below target (vm', success) =
    (is_valid_vmm_address vm.memory target ≡ true)
    × ((frames : Stack) × IsValid frames
        × (frames.bytes ≡ vm.call_stack.bytes ++ (bytes_of 8 target ++ bytes_of 8 (add64 vm.pc 1)))
        × (vm' ≡ record vm {
          call_stack = frames;
          address_stack = holding vm.address_stack below;
          pc = target;
        }))
Called vm below target (vm', failure) =
    ((is_valid_vmm_address vm.memory target ≡ false)
      × (vm' ≡ record vm {
        address_stack = holding vm.address_stack (below ++ bytes_of 8 target);
        status = illegal_address;
      }))
    ⊎ ((frames : Stack) × IsValid frames
        × ((frames.bytes ≡ vm.call_stack.bytes)
            ⊎ (frames.bytes ≡ vm.call_stack.bytes ++ bytes_of 8 target))
        × (vm' ≡ record vm {
          call_stack = frames;
          address_stack = holding vm.address_stack (below ++ bytes_of 8 target);
          status = call_stack_overflow;
        }))

module _ (host : Host) (vm : Vm) (below : List ℕ) (target : ℕ)
    (shape : vm.address_stack.bytes ≡ below ++ bytes_of 8 target) (lawful : IsHost host)
    (frames_valid : IsValid vm.call_stack) (addresses_valid : IsValid vm.address_stack)
    (legal : is_valid_vmm_address vm.memory target ≡ true) where
  abbrev popped : Vm
  popped = record vm { address_stack = holding vm.address_stack below }

  size : length vm.address_stack.bytes ≡ length below + 8
  size =
      ap length shape
      ∙ omega (arith, length-append below (bytes_of 8 target), length-bytes_of 8 target)

  popped-IsValid : IsValid (holding vm.address_stack below)
  popped-IsValid = ground (arith, size)

  back :
      (frames : Stack)
      → assert_push host
          (record popped { call_stack = frames; status = call_stack_overflow })
          target
        ≡ done (record vm {
          call_stack = frames;
          address_stack = holding vm.address_stack (below ++ bytes_of 8 target);
          status = call_stack_overflow;
        })
  back frames =
      assert_push-back host (record popped { call_stack = frames; status = call_stack_overflow })
        target popped-IsValid (omega (arith, size, addresses_valid.stored))

  entered_second :
      (t : Stack)
      → IsValid t
      → t.bytes ≡ vm.call_stack.bytes ++ bytes_of 8 target
      → push_address_to_vm_stack host popped calls target
        ≡ done (record popped { call_stack = t }, success)
      → Returns
          (push_address_to_vm_stack host (record popped { call_stack = t }) calls (add64 vm.pc 1))
          (WordPushed (record popped { call_stack = t }) calls (add64 vm.pc 1))
      → Returns (enter host popped target) (Called vm below target)
  unfolding enter
  entered_second t valid bytes run ((w, success), run', (u, e, valid', bytes', limit')) = (
    (record w { pc = target }, success),
    ground (arith, run, run'),
    (
      legal,
      (
        u,
        valid',
        bytes'
            ∙ ap (λ b. b ++ bytes_of 8 (add64 vm.pc 1)) bytes
            ∙ append_assoc vm.call_stack.bytes (bytes_of 8 target) (bytes_of 8 (add64 vm.pc 1)),
        ap (λ (v : Vm). record v { pc = target }) e,
      ),
    ),
  )
  entered_second t valid bytes run ((w, failure), run', (u, e, valid', bytes', limit')) = (
    (
      record vm {
        call_stack = u;
        address_stack = holding vm.address_stack (below ++ bytes_of 8 target);
        status = call_stack_overflow;
      },
      failure,
    ),
    ground (arith, run, run', e, back u),
    inr (u, valid', inr (bytes' ∙ bytes), refl),
  )

  entered :
      Returns (push_address_to_vm_stack host popped calls target) (WordPushed popped calls target)
      → Returns (enter host popped target) (Called vm below target)
  unfolding enter
  entered ((w, success), run, (t, e, valid, bytes, limit)) =
      entered_second t valid bytes (run ∙ ap (λ v. done (v, success)) e) (
        push_address_to_vm_stack-WordPushed host (record popped { call_stack = t }) calls
          (add64 vm.pc 1) lawful valid)
  entered ((w, failure), run, (t, e, valid, bytes, limit)) = (
    (
      record vm {
        call_stack = t;
        address_stack = holding vm.address_stack (below ++ bytes_of 8 target);
        status = call_stack_overflow;
      },
      failure,
    ),
    ground (arith, run, e, back t),
    inr (t, valid, inl bytes, refl),
  )

-- PCALL with a target on the address stack, on valid stacks, always returns, without a failed
-- assertion. If the target is no valid address it fails with that status, and the call stack is as
-- before. If the call stack cannot take both words it fails with an overflow, and the call stack is as
-- before or keeps the target as half a frame. After either failure the address stack holds what it
-- held before, and the program counter stays. Otherwise the target and then the address of the next
-- instruction go onto the call stack, the target is off the address stack, and execution goes on at
-- the target. The memory, the state and the rest of the machine stay.
pub execute_pcall_instruction-Called :
    (host : Host) (vm : Vm) (below : List ℕ) (target : ℕ)
    → vm.address_stack.bytes ≡ below ++ bytes_of 8 target
    → target < 2 ^ 64
    → IsHost host
    → IsValid vm.call_stack
    → IsValid vm.address_stack
    → Returns (execute_pcall_instruction host vm) (Called vm below target)
unfolding execute_pcall_instruction
execute_pcall_instruction-Called host vm below target shape word lawful frames addrs =
    let pop = pop_address_from_vm_stack-word vm addresses below target shape word in
    elim (Bool-cases (is_valid_vmm_address vm.memory target)) [
      | inl legal ↦
          let (r, run, out) = entered host vm below target shape lawful frames addrs legal (
            push_address_to_vm_stack-WordPushed host
              (popped host vm below target shape lawful frames addrs legal) calls target lawful
              frames) in
          (r, ground (arith, pop, legal, run), out)
      | inr illegal ↦ (
        (
          record vm {
            address_stack = holding vm.address_stack (below ++ bytes_of 8 target);
            status = illegal_address;
          },
          failure,
        ),
        ground (arith, pop, illegal, refused host vm below target shape addrs),
        inl (illegal, refl),
      )
    ]
