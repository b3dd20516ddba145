-- ===== src/Instructions.antt =====
-- src/vm_instructions.c: how many bytes each instruction takes, and its name.
pub mod Op
use unlambda.Base.Text.{Text, codes}
use unlambda.Base.{ℕ, List, [], ◌∷◌, get_or, length, ltb, if◌then◌else◌}

abbrev pub instruction_sizes : List ℕ
instruction_sizes = 1 ∷ 9 ∷ 1 ∷ 1 ∷ 1 ∷ 1 ∷ 1 ∷ 1 ∷ 1 ∷ 1 ∷ 1 ∷ 1 ∷ 1 ∷ 2 ∷ 2 ∷ 2 ∷ 1 ∷ []

unfoldable pub instruction_size : ℕ → ℕ
instruction_size instruction =
    if ltb instruction (length instruction_sizes) then get_or instruction_sizes instruction 1 else 1

abbrev pub instruction_names : List Text
instruction_names =
    codes "PANIC"
    ∷ codes "PUSH"
    ∷ codes "POP"
    ∷ codes "SWAP"
    ∷ codes "DUP"
    ∷ codes "PCALL"
    ∷ codes "RET"
    ∷ codes "MKK"
    ∷ codes "MKS0"
    ∷ codes "MKS1"
    ∷ codes "MKS2"
    ∷ codes "MKD"
    ∷ codes "MKC"
    ∷ codes "SAVE"
    ∷ codes "RESTORE"
    ∷ codes "PRINT"
    ∷ codes "HALT"
    ∷ []

abbrev pub instruction_name : ℕ → Text
instruction_name instruction = get_or instruction_names instruction (codes "???")
