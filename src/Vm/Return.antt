-- ===== src/Vm/Return.antt =====
-- RET of src/vm.c, and how it undoes a PCALL.
use unlambda.Base.{
  ℕ, ◌^◌, ◌<◌, ◌≡◌, refl, sym, ◌∙◌, ap, List, ◌++◌, append_assoc, success, failure, arith, add64,
}
use unlambda.Base.Host.{Host, IsHost}
use unlambda.Base.Run.{done, Returns}
use unlambda.Memory.Bytes.{bytes_of}
use unlambda.Stack.{Stack}
use unlambda.Stack.Grow.{IsValid}
use unlambda.Vm.State.{Vm, calls}
use unlambda.Vm.Step.{execute_pcall_instruction, execute_return_instruction}
use unlambda.Vm.Words.{pop_address_from_vm_stack-word}
use unlambda.Vm.Call.{holding, Called, execute_pcall_instruction-Called}

-- RET with two words on the call stack takes both off and goes on at the upper one.
execute_return_instruction-words :
    (vm : Vm) (frames : List ℕ) (block return : ℕ)
    → vm.call_stack.bytes ≡ frames ++ (bytes_of 8 block ++ bytes_of 8 return)
    → block < 2 ^ 64
    → return < 2 ^ 64
    → execute_return_instruction vm
      ≡ done (record vm { call_stack = holding vm.call_stack frames; pc = return }, success)
unfolding execute_return_instruction
execute_return_instruction-words vm frames block return shape block_word return_word =
    let first =
      pop_address_from_vm_stack-word vm calls (frames ++ bytes_of 8 block) return
        (shape ∙ sym (append_assoc frames (bytes_of 8 block) (bytes_of 8 return))) return_word in
    let second =
      pop_address_from_vm_stack-word
        (record vm { call_stack = holding vm.call_stack (frames ++ bytes_of 8 block) }) calls frames
        block refl block_word in
    ground (arith, first, second)

-- After a PCALL that succeeded, a RET brings execution to the instruction after the PCALL, with the
-- call stack as before and the argument's target gone from the address stack; memory and output are
-- those from before.
pub execute_return_instruction-execute_pcall_instruction :
    (host : Host) (vm vm' : Vm) (below : List ℕ) (target : ℕ)
    → vm.address_stack.bytes ≡ below ++ bytes_of 8 target
    → target < 2 ^ 64
    → IsHost host
    → IsValid vm.call_stack
    → IsValid vm.address_stack
    → execute_pcall_instruction host vm ≡ done (vm', success)
    → (frames : Stack) × (frames.bytes ≡ vm.call_stack.bytes)
      × (execute_return_instruction vm'
          ≡ done (
            record vm {
              call_stack = frames;
              address_stack = holding vm.address_stack below;
              pc = add64 vm.pc 1;
            },
            success,
          ))
execute_return_instruction-execute_pcall_instruction host vm vm' below target shape word lawful
      frames addrs called =
    go (execute_pcall_instruction-Called host vm below target shape word lawful frames addrs)
  where
    go :
        Returns (execute_pcall_instruction host vm) (Called vm below target)
        → (frames : Stack) × (frames.bytes ≡ vm.call_stack.bytes)
          × (execute_return_instruction vm'
              ≡ done (
                record vm {
                  call_stack = frames;
                  address_stack = holding vm.address_stack below;
                  pc = add64 vm.pc 1;
                },
                success,
              ))
    go ((w, success), run, (legal, (t, valid, bytes, e))) =
        let same : vm' ≡ w = cc in
        (
          holding t vm.call_stack.bytes,
          refl,
          ap execute_return_instruction (same ∙ e)
              ∙ execute_return_instruction-words
                  (record vm {
                    call_stack = t;
                    address_stack = holding vm.address_stack below;
                    pc = target;
                  })
                  vm.call_stack.bytes target (add64 vm.pc 1) bytes word (omega arith),
        )
    go ((w, failure), run, out) = absurd cc
