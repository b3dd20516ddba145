-- ===== src/Vm/Functions.antt =====
-- The instructions of src/vm.c that make functions: MKK, MKS0, MKS1, MKS2, MKD and MKC.
use unlambda.Base.{ℕ, ◌+◌, Option, none, some, List, [], ◌∷◌, ◌++◌, Return, success, failure}
use unlambda.Base.Host.{Host}
use unlambda.Base.Run.{Run, done, ◌>>=◌}
use unlambda.Instructions.Op
use unlambda.Memory.Bytes.{bytes_of, write_bytes}
use unlambda.Memory.State.{vmm_address_for_ptr}
use unlambda.Vm.Blocks.{allocate_code_block}
use unlambda.Vm.State.{
  Vm, address_stack_underflow, fail, advance, assert_push, assert_pop, read_from_address_stack_top,
}

-- The code that each instruction writes into its block.
abbrev pub push_of : ℕ → List ℕ
push_of a = Op.push ∷ bytes_of 8 a

unfoldable pub mkk_code : ℕ → List ℕ
mkk_code u = Op.pcall ∷ Op.pop ∷ (push_of u ++ Op.ret ∷ [])

unfoldable pub mks0_code : ℕ → List ℕ
mks0_code u = Op.pcall ∷ (push_of u ++ Op.mks1 ∷ Op.ret ∷ [])

unfoldable pub mks1_code : ℕ → ℕ → List ℕ
mks1_code u v =
    Op.pcall
    ∷ Op.dup
    ∷ (push_of v ++ Op.mks2 ∷ Op.swap ∷ (push_of u ++ Op.pcall ∷ Op.pcall ∷ Op.ret ∷ []))

unfoldable pub mks2_code : ℕ → ℕ → List ℕ
mks2_code u v = push_of v ++ (push_of u ++ Op.pcall ∷ Op.ret ∷ [])

unfoldable pub mkd_code : ℕ → List ℕ
mkd_code u = push_of u ++ Op.pcall ∷ Op.swap ∷ Op.pcall ∷ Op.swap ∷ Op.pcall ∷ Op.ret ∷ []

unfoldable pub mkc_code : ℕ → List ℕ
mkc_code s = Op.pcall ∷ (push_of s ++ Op.restore ∷ 1 ∷ Op.ret ∷ [])

-- `allocateCodeBlock` and the writes of the code; the block's address is `none` on failure.
unfoldable pub new_function : Host → Vm → ℕ → List ℕ → Run (Vm × Option ℕ)
new_function host vm size code = do
  (vm₁, block) ← allocate_code_block host vm size
  elim block [
    | none ↦ done (vm₁, none)
    | some p ↦
        let m = vm₁.memory in
        done (
          record vm₁ { memory = record m { bytes = write_bytes m.bytes (p + 8) code } },
          some (vmm_address_for_ptr m (p + 8)),
        )
  ]

-- The instructions with one argument.
unfoldable pub make_from_one : Host → Vm → ℕ → (ℕ → List ℕ) → Run (Vm × Return)
make_from_one host vm size code = elim (read_from_address_stack_top vm 0) [
  | none ↦ fail vm address_stack_underflow
  | some u ↦ do
    (vm₁, block) ← new_function host vm size (code u)
    elim block [
      | none ↦ done (vm₁, failure)
      | some address ↦ do
        vm₂ ← assert_pop vm₁
        vm₃ ← assert_push host vm₂ address
        done (advance vm₃ 1, success)
    ]
]

-- Those with two: `u` is on top, and `v` below it.
unfoldable pub make_from_two : Host → Vm → ℕ → (ℕ → ℕ → List ℕ) → Run (Vm × Return)
make_from_two host vm size code = elim (read_from_address_stack_top vm 0) [
  | none ↦ fail vm address_stack_underflow
  | some u ↦ elim (read_from_address_stack_top vm 1) [
    | none ↦ fail vm address_stack_underflow
    | some v ↦ do
      (vm₁, block) ← new_function host vm size (code u v)
      elim block [
        | none ↦ done (vm₁, failure)
        | some address ↦ do
          vm₂ ← assert_pop vm₁
          vm₃ ← assert_pop vm₂
          vm₄ ← assert_push host vm₃ address
          done (advance vm₄ 1, success)
      ]
  ]
]

unfoldable pub execute_mkk_instruction : Host → Vm → Run (Vm × Return)
execute_mkk_instruction host vm = make_from_one host vm 12 mkk_code

unfoldable pub execute_mks0_instruction : Host → Vm → Run (Vm × Return)
execute_mks0_instruction host vm = make_from_one host vm 12 mks0_code

unfoldable pub execute_mks1_instruction : Host → Vm → Run (Vm × Return)
execute_mks1_instruction host vm = make_from_two host vm 25 mks1_code

unfoldable pub execute_mks2_instruction : Host → Vm → Run (Vm × Return)
execute_mks2_instruction host vm = make_from_two host vm 20 mks2_code

unfoldable pub execute_mkd_instruction : Host → Vm → Run (Vm × Return)
execute_mkd_instruction host vm = make_from_one host vm 15 mkd_code

unfoldable pub execute_mkc_instruction : Host → Vm → Run (Vm × Return)
execute_mkc_instruction host vm = make_from_one host vm 13 mkc_code
