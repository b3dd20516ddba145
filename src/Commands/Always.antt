-- ===== src/Commands/Always.antt =====
-- The parsers for the commands whose arguments are numbers and addresses always answer.
use unlambda.Base.{◌^◌, ◌<◌, ◌-◌, subst, sym, arith}
use unlambda.Commands.{
  disassemble, dump_bytes, dump_address_stack, modify_address_stack, push_address_stack,
  pop_address_stack, dump_call_stack, modify_call_stack, push_call_stack, pop_call_stack,
  list_breakpoints, add_breakpoint, remove_breakpoint, run_program, run_until_return,
  single_step_into, single_step_over, quit_vm, show_help, Platform,
}
use unlambda.Commands.State.{ParserState}
use unlambda.Commands.Arguments.{
  CommandParser, get_vm_pc, parse_disassemble_cmd, parse_dump_bytes_cmd, parse_dump_addr_stack_cmd,
  parse_modify_addr_stack_cmd, parse_push_address_cmd, parse_pop_address_cmd,
  parse_dump_call_stack_cmd, parse_modify_call_stack_cmd, parse_push_call_frame_cmd,
  parse_pop_call_frame_cmd, parse_list_breakpoints_cmd, parse_add_breakpoint_cmd,
  parse_remove_breakpoint_cmd, parse_run_program_cmd, parse_run_until_return_cmd,
  parse_single_step_into_cmd, parse_single_step_over_cmd, parse_quit_vm_cmd, parse_show_help_cmd,
}
use unlambda.Commands.Scan.{parse_next_uint64_with_default}
use unlambda.Commands.Outcome.{
  Answers, argument-Answers, address_argument-Answers, no_more_arguments-Answers,
}
use unlambda.Commands.Address.{parse_next_address-Reads, parse_next_address_with_default-Reads}
use unlambda.Commands.Valid.{
  Supplies, IsContext, IsParserState, parse_next_uint64-IsRead,
  parse_next_uint64_with_default-IsRead, check_limit-IsRead,
}
use unlambda.Vm.Load.{Machine}

-- The parser answers on every state.
abbrev pub AlwaysAnswers : Platform → Machine → CommandParser → Type 0
AlwaysAnswers pf m parser = (s : ParserState) → IsParserState m s → Answers (parser pf s)

module _ (pf : Platform) (m : Machine) (supply : Supplies pf.host) (ctx : IsContext m) where
  pc_small : (s : ParserState) → IsParserState m s → get_vm_pc s < 2 ^ 64
  pc_small s v = subst (λ (k : Machine). k.vm.pc < 2 ^ 64) (sym v.same_vm) ctx.pc_word

  pub parse_disassemble_cmd-AlwaysAnswers : AlwaysAnswers pf m parse_disassemble_cmd
  unfolding parse_disassemble_cmd
  parse_disassemble_cmd-AlwaysAnswers s v =
      address_argument-Answers pf m supply _ (2 ^ 64)
        (λ k₁ s₁ h₁ v₁.
          argument-Answers pf m supply _ (2 ^ 32)
            (λ k₂ s₂ h₂ v₂.
              no_more_arguments-Answers pf m supply s₂ (disassemble k₁ k₂) v₂ (h₁, h₂))
            _ _
            (check_limit-IsRead pf.host m supply (2 ^ 32 - 1)
              (parse_next_uint64_with_default pf.host s₁ 10)
              (parse_next_uint64_with_default-IsRead pf.host m supply s₁ 10 v₁ (omega arith))))
        _ _
        (parse_next_address_with_default-Reads pf.host m supply s (get_vm_pc s) ctx v
          (pc_small s v))

  pub parse_dump_bytes_cmd-AlwaysAnswers : AlwaysAnswers pf m parse_dump_bytes_cmd
  unfolding parse_dump_bytes_cmd
  parse_dump_bytes_cmd-AlwaysAnswers s v =
      address_argument-Answers pf m supply _ (2 ^ 64)
        (λ k₁ s₁ h₁ v₁.
          argument-Answers pf m supply _ (2 ^ 32)
            (λ k₂ s₂ h₂ v₂. no_more_arguments-Answers pf m supply s₂ (dump_bytes k₁ k₂) v₂ (h₁, h₂))
            _ _
            (check_limit-IsRead pf.host m supply (2 ^ 32 - 1)
              (parse_next_uint64_with_default pf.host s₁ 256)
              (parse_next_uint64_with_default-IsRead pf.host m supply s₁ 256 v₁ (omega arith))))
        _ _ (parse_next_address-Reads pf.host m supply s ctx v)

  pub parse_dump_addr_stack_cmd-AlwaysAnswers : AlwaysAnswers pf m parse_dump_addr_stack_cmd
  unfolding parse_dump_addr_stack_cmd
  parse_dump_addr_stack_cmd-AlwaysAnswers s v =
      argument-Answers pf m supply _ (2 ^ 64)
        (λ k₁ s₁ h₁ v₁.
          argument-Answers pf m supply _ (2 ^ 64)
            (λ k₂ s₂ h₂ v₂.
              no_more_arguments-Answers pf m supply s₂ (dump_address_stack k₁ k₂) v₂ (h₁, h₂))
            _ _ (parse_next_uint64_with_default-IsRead pf.host m supply s₁ 16 v₁ (omega arith)))
        _ _ (parse_next_uint64_with_default-IsRead pf.host m supply s 0 v (omega arith))

  pub parse_modify_addr_stack_cmd-AlwaysAnswers : AlwaysAnswers pf m parse_modify_addr_stack_cmd
  unfolding parse_modify_addr_stack_cmd
  parse_modify_addr_stack_cmd-AlwaysAnswers s v =
      argument-Answers pf m supply _ (2 ^ 64)
        (λ k₁ s₁ h₁ v₁.
          address_argument-Answers pf m supply _ (2 ^ 64)
            (λ k₂ s₂ h₂ v₂.
              no_more_arguments-Answers pf m supply s₂ (modify_address_stack k₁ k₂) v₂ (h₁, h₂))
            _ _ (parse_next_address-Reads pf.host m supply s₁ ctx v₁))
        _ _ (parse_next_uint64-IsRead pf.host m supply s v)

  pub parse_push_address_cmd-AlwaysAnswers : AlwaysAnswers pf m parse_push_address_cmd
  unfolding parse_push_address_cmd
  parse_push_address_cmd-AlwaysAnswers s v =
      address_argument-Answers pf m supply _ (2 ^ 64)
        (λ k₁ s₁ h₁ v₁. no_more_arguments-Answers pf m supply s₁ (push_address_stack k₁) v₁ h₁) _ _
        (parse_next_address-Reads pf.host m supply s ctx v)

  pub parse_pop_address_cmd-AlwaysAnswers : AlwaysAnswers pf m parse_pop_address_cmd
  unfolding parse_pop_address_cmd
  parse_pop_address_cmd-AlwaysAnswers s v =
      no_more_arguments-Answers pf m supply s (pop_address_stack) v tt

  pub parse_dump_call_stack_cmd-AlwaysAnswers : AlwaysAnswers pf m parse_dump_call_stack_cmd
  unfolding parse_dump_call_stack_cmd
  parse_dump_call_stack_cmd-AlwaysAnswers s v =
      argument-Answers pf m supply _ (2 ^ 64)
        (λ k₁ s₁ h₁ v₁.
          argument-Answers pf m supply _ (2 ^ 64)
            (λ k₂ s₂ h₂ v₂.
              no_more_arguments-Answers pf m supply s₂ (dump_call_stack k₁ k₂) v₂ (h₁, h₂))
            _ _ (parse_next_uint64_with_default-IsRead pf.host m supply s₁ 16 v₁ (omega arith)))
        _ _ (parse_next_uint64_with_default-IsRead pf.host m supply s 0 v (omega arith))

  pub parse_modify_call_stack_cmd-AlwaysAnswers : AlwaysAnswers pf m parse_modify_call_stack_cmd
  unfolding parse_modify_call_stack_cmd
  parse_modify_call_stack_cmd-AlwaysAnswers s v =
      argument-Answers pf m supply _ (2 ^ 64)
        (λ k₁ s₁ h₁ v₁.
          address_argument-Answers pf m supply _ (2 ^ 64)
            (λ k₂ s₂ h₂ v₂.
              address_argument-Answers pf m supply _ (2 ^ 64)
                (λ k₃ s₃ h₃ v₃.
                  no_more_arguments-Answers pf m supply s₃ (modify_call_stack k₁ k₂ k₃) v₃
                    (h₁, h₂, h₃))
                _ _ (parse_next_address-Reads pf.host m supply s₂ ctx v₂))
            _ _ (parse_next_address-Reads pf.host m supply s₁ ctx v₁))
        _ _ (parse_next_uint64-IsRead pf.host m supply s v)

  pub parse_push_call_frame_cmd-AlwaysAnswers : AlwaysAnswers pf m parse_push_call_frame_cmd
  unfolding parse_push_call_frame_cmd
  parse_push_call_frame_cmd-AlwaysAnswers s v =
      address_argument-Answers pf m supply _ (2 ^ 64)
        (λ k₁ s₁ h₁ v₁.
          address_argument-Answers pf m supply _ (2 ^ 64)
            (λ k₂ s₂ h₂ v₂.
              no_more_arguments-Answers pf m supply s₂ (push_call_stack k₁ k₂) v₂ (h₁, h₂))
            _ _ (parse_next_address-Reads pf.host m supply s₁ ctx v₁))
        _ _ (parse_next_address-Reads pf.host m supply s ctx v)

  pub parse_pop_call_frame_cmd-AlwaysAnswers : AlwaysAnswers pf m parse_pop_call_frame_cmd
  unfolding parse_pop_call_frame_cmd
  parse_pop_call_frame_cmd-AlwaysAnswers s v =
      no_more_arguments-Answers pf m supply s (pop_call_stack) v tt

  pub parse_list_breakpoints_cmd-AlwaysAnswers : AlwaysAnswers pf m parse_list_breakpoints_cmd
  unfolding parse_list_breakpoints_cmd
  parse_list_breakpoints_cmd-AlwaysAnswers s v =
      no_more_arguments-Answers pf m supply s (list_breakpoints) v tt

  pub parse_add_breakpoint_cmd-AlwaysAnswers : AlwaysAnswers pf m parse_add_breakpoint_cmd
  unfolding parse_add_breakpoint_cmd
  parse_add_breakpoint_cmd-AlwaysAnswers s v =
      address_argument-Answers pf m supply _ (2 ^ 64)
        (λ k₁ s₁ h₁ v₁. no_more_arguments-Answers pf m supply s₁ (add_breakpoint k₁) v₁ h₁) _ _
        (parse_next_address_with_default-Reads pf.host m supply s (get_vm_pc s) ctx v
          (pc_small s v))

  pub parse_remove_breakpoint_cmd-AlwaysAnswers : AlwaysAnswers pf m parse_remove_breakpoint_cmd
  unfolding parse_remove_breakpoint_cmd
  parse_remove_breakpoint_cmd-AlwaysAnswers s v =
      address_argument-Answers pf m supply _ (2 ^ 64)
        (λ k₁ s₁ h₁ v₁. no_more_arguments-Answers pf m supply s₁ (remove_breakpoint k₁) v₁ h₁) _ _
        (parse_next_address_with_default-Reads pf.host m supply s (get_vm_pc s) ctx v
          (pc_small s v))

  pub parse_run_program_cmd-AlwaysAnswers : AlwaysAnswers pf m parse_run_program_cmd
  unfolding parse_run_program_cmd
  parse_run_program_cmd-AlwaysAnswers s v =
      address_argument-Answers pf m supply _ (2 ^ 64)
        (λ k₁ s₁ h₁ v₁. no_more_arguments-Answers pf m supply s₁ (run_program k₁) v₁ h₁) _ _
        (parse_next_address_with_default-Reads pf.host m supply s (get_vm_pc s) ctx v
          (pc_small s v))

  pub parse_run_until_return_cmd-AlwaysAnswers : AlwaysAnswers pf m parse_run_until_return_cmd
  unfolding parse_run_until_return_cmd
  parse_run_until_return_cmd-AlwaysAnswers s v =
      no_more_arguments-Answers pf m supply s (run_until_return) v tt

  pub parse_single_step_into_cmd-AlwaysAnswers : AlwaysAnswers pf m parse_single_step_into_cmd
  unfolding parse_single_step_into_cmd
  parse_single_step_into_cmd-AlwaysAnswers s v =
      no_more_arguments-Answers pf m supply s (single_step_into) v tt

  pub parse_single_step_over_cmd-AlwaysAnswers : AlwaysAnswers pf m parse_single_step_over_cmd
  unfolding parse_single_step_over_cmd
  parse_single_step_over_cmd-AlwaysAnswers s v =
      no_more_arguments-Answers pf m supply s (single_step_over) v tt

  pub parse_quit_vm_cmd-AlwaysAnswers : AlwaysAnswers pf m parse_quit_vm_cmd
  unfolding parse_quit_vm_cmd
  parse_quit_vm_cmd-AlwaysAnswers s v = no_more_arguments-Answers pf m supply s (quit_vm) v tt

  pub parse_show_help_cmd-AlwaysAnswers : AlwaysAnswers pf m parse_show_help_cmd
  unfolding parse_show_help_cmd
  parse_show_help_cmd-AlwaysAnswers s v = no_more_arguments-Answers pf m supply s (show_help) v tt
