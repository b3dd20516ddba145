-- ===== src/Vm/Transfer.antt =====
-- PUSH and POP of src/vm.c.
use unlambda.Base.{
  ℕ, ◌+◌, ◌^◌, ◌<◌, ◌≤◌, ◌≡◌, refl, ◌∙◌, ap, ◌⊎◌, inl, inr, false, Bool-cases, List, ◌++◌, ltb,
  Return, success, failure, arith, add64,
}
use unlambda.Base.Host.{Host, IsHost}
use unlambda.Base.Run.{done, Returns}
use unlambda.Memory.Bytes.{bytes_of}
use unlambda.Memory.State.{word_at}
use unlambda.Stack.{Stack, ok}
use unlambda.Stack.Grow.{IsValid}
use unlambda.Vm.State.{
  Vm, address_stack_overflow, illegal_address, addresses, set_vm_status, push_address_to_vm_stack,
}
use unlambda.Vm.Step.{execute_push_instruction, execute_pop_instruction}
use unlambda.Vm.Words.{
  WordPushed, push_address_to_vm_stack-WordPushed, pop_address_from_vm_stack-word,
}

-- What PUSH leaves, by its return code.
abbrev pub OperandPushed : Vm → Vm × Return → Type 0
OperandPushed vm (vm', success) =
    (vm.pc + 9 ≤ vm.memory.size)
    × ((t : Stack) × IsValid t
        × (t.bytes ≡ vm.address_stack.bytes ++ bytes_of 8 (word_at vm.memory (vm.pc + 1)))
        × (vm' ≡ record vm { address_stack = t; pc = add64 vm.pc 9 }))
OperandPushed vm (vm', failure) =
    ((vm.memory.size < vm.pc + 9) × (vm' ≡ set_vm_status vm illegal_address))
    ⊎ ((t : Stack) × IsValid t
        × (t.bytes ≡ vm.address_stack.bytes)
        × (vm' ≡ record vm { address_stack = t; status = address_stack_overflow }))

module _ (host : Host) (vm : Vm) (inside : ltb vm.memory.size (vm.pc + 9) ≡ false) where
  pushed :
      Returns
        (push_address_to_vm_stack host vm addresses (word_at vm.memory (vm.pc + 1)))
        (WordPushed vm addresses (word_at vm.memory (vm.pc + 1)))
      → Returns (execute_push_instruction host vm) (OperandPushed vm)
  unfolding execute_push_instruction
  pushed ((w, success), run, (t, e, valid, bytes, limit)) = (
    (record vm { address_stack = t; pc = add64 vm.pc 9 }, success),
    ground (arith, inside, run, e),
    (ground (arith, inside), (t, valid, bytes, refl)),
  )
  pushed ((w, failure), run, (t, e, valid, bytes, limit)) = (
    (record vm { address_stack = t; status = address_stack_overflow }, failure),
    ground (arith, inside, run, e),
    inr (t, valid, bytes, refl),
  )

-- PUSH on a machine with a valid address stack always returns, without a failed assertion. If the
-- instruction with its operand ends within the memory, the operand goes onto the address stack and
-- the counter moves behind it, or the stack refuses it and its overflow is reported; otherwise the
-- address is reported as illegal. Nothing else of the machine changes.
pub execute_push_instruction-OperandPushed :
    (host : Host) (vm : Vm)
    → IsHost host
    → IsValid vm.address_stack
    → Returns (execute_push_instruction host vm) (OperandPushed vm)
unfolding execute_push_instruction
execute_push_instruction-OperandPushed host vm lawful v =
    elim (Bool-cases (ltb vm.memory.size (vm.pc + 9))) [
      | inl outside ↦ (
        (set_vm_status vm illegal_address, failure),
        ground (arith, outside),
        inl (ground (arith, outside), refl),
      )
      | inr inside ↦ pushed host vm inside (
          push_address_to_vm_stack-WordPushed host vm addresses (word_at vm.memory (vm.pc + 1))
            lawful v)
    ]

execute_pop_instruction-word :
    (vm : Vm) (below : List ℕ) (address : ℕ)
    → vm.address_stack.bytes ≡ below ++ bytes_of 8 address
    → address < 2 ^ 64
    → execute_pop_instruction vm
      ≡ done (
        record vm {
          address_stack = record vm.address_stack { bytes = below; status = ok };
          pc = add64 vm.pc 1;
        },
        success,
      )
unfolding execute_pop_instruction
execute_pop_instruction-word vm below address shape word =
    let pop = pop_address_from_vm_stack-word vm addresses below address shape word in
    ground (arith, pop)

-- After a PUSH that succeeded, of an operand that is a machine word, a POP brings the address stack
-- back to its contents from before, and only the counter has moved on, behind both instructions.
pub execute_pop_instruction-execute_push_instruction :
    (host : Host) (vm vm' : Vm)
    → IsHost host
    → IsValid vm.address_stack
    → word_at vm.memory (vm.pc + 1) < 2 ^ 64
    → execute_push_instruction host vm ≡ done (vm', success)
    → (t : Stack) × (t.bytes ≡ vm.address_stack.bytes)
      × (execute_pop_instruction vm'
          ≡ done (record vm { address_stack = t; pc = add64 (add64 vm.pc 9) 1 }, success))
execute_pop_instruction-execute_push_instruction host vm vm' lawful v word made =
    go (execute_push_instruction-OperandPushed host vm lawful v)
  where
    go :
        Returns (execute_push_instruction host vm) (OperandPushed vm)
        → (t : Stack) × (t.bytes ≡ vm.address_stack.bytes)
          × (execute_pop_instruction vm'
              ≡ done (record vm { address_stack = t; pc = add64 (add64 vm.pc 9) 1 }, success))
    go ((w, failure), run, out) = absurd cc
    go ((w, success), run, (inside, (t, valid, bytes, e))) =
        let same : vm' ≡ w = cc in
        (
          record t { bytes = vm.address_stack.bytes; status = ok },
          refl,
          ap execute_pop_instruction (same ∙ e)
              ∙ execute_pop_instruction-word (record vm { address_stack = t; pc = add64 vm.pc 9 })
                  vm.address_stack.bytes (word_at vm.memory (vm.pc + 1)) bytes word,
        )
