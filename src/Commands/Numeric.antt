-- ===== src/Commands/Numeric.antt =====
-- The commands of src/dbgcmd.c whose arguments are numbers, or that have none, are read back.
use unlambda.Base.{ℕ, refl, [], ◌∷◌, arith, ◌∙◌}
use unlambda.Base.Text.{codes}
use unlambda.Commands.{
  disassemble, dump_bytes, dump_address_stack, modify_address_stack, push_address_stack,
  pop_address_stack, dump_call_stack, modify_call_stack, push_call_stack, pop_call_stack,
  list_breakpoints, add_breakpoint, remove_breakpoint, run_program, run_until_return,
  single_step_into, single_step_over, quit_vm, show_help, Platform,
}
use unlambda.Commands.Arguments.{
  parse_disassemble_cmd, parse_dump_bytes_cmd, parse_dump_addr_stack_cmd,
  parse_modify_addr_stack_cmd, parse_push_address_cmd, parse_pop_address_cmd,
  parse_dump_call_stack_cmd, parse_modify_call_stack_cmd, parse_push_call_frame_cmd,
  parse_pop_call_frame_cmd, parse_list_breakpoints_cmd, parse_add_breakpoint_cmd,
  parse_remove_breakpoint_cmd, parse_run_program_cmd, parse_run_until_return_cmd,
  parse_single_step_into_cmd, parse_single_step_over_cmd, parse_quit_vm_cmd, parse_show_help_cmd,
}
use unlambda.Commands.Print.{command_text}
use unlambda.Commands.Reading.{
  numbers, number_argument, default_argument, short_argument, location_argument,
  location_default_argument, no_more_arguments-some,
}
use unlambda.Commands.State.{find_command}
use unlambda.Commands.Valid.{Supplies}
use unlambda.Symbols.{same_name}
use unlambda.Vm.Load.{Machine}
use unlambda.Commands.Printable.{IsPrintable, ReadsBack, from_numbers}

module _ (pf : Platform) (m : Machine) (supply : Supplies pf.host) where
  pub disassemble_back :
      (a b : ℕ) → IsPrintable (disassemble a b) → ReadsBack pf m (disassemble a b)
  unfolding command_text find_command same_name parse_disassemble_cmd
  disassemble_back a b (ha, hb) =
      from_numbers pf m supply b'l' ([]) (a ∷ b ∷ []) 1 parse_disassemble_cmd (disassemble a b) refl
        refl refl refl
        (location_default_argument pf m supply 1 (codes "l") a (numbers (b ∷ [])) ha refl _ _
            m.vm.pc
          ∙ short_argument pf m supply 1 (codes "l") b (numbers []) (omega arith) refl _ _ 10 hb
          ∙ no_more_arguments-some pf m supply 1 (codes "l") (disassemble a b))

  pub dump_bytes_back : (a b : ℕ) → IsPrintable (dump_bytes a b) → ReadsBack pf m (dump_bytes a b)
  unfolding command_text find_command same_name parse_dump_bytes_cmd
  dump_bytes_back a b (ha, hb) =
      from_numbers pf m supply b'd' ([]) (a ∷ b ∷ []) 2 parse_dump_bytes_cmd (dump_bytes a b) refl
        refl refl refl
        (location_argument pf m supply 2 (codes "d") a (numbers (b ∷ [])) ha refl _ _
          ∙ short_argument pf m supply 2 (codes "d") b (numbers []) (omega arith) refl _ _ 256 hb
          ∙ no_more_arguments-some pf m supply 2 (codes "d") (dump_bytes a b))

  pub dump_address_stack_back :
      (a b : ℕ) → IsPrintable (dump_address_stack a b) → ReadsBack pf m (dump_address_stack a b)
  unfolding command_text find_command same_name parse_dump_addr_stack_cmd
  dump_address_stack_back a b (ha, hb) =
      from_numbers pf m supply b'a' (codes "s") (a ∷ b ∷ []) 4 parse_dump_addr_stack_cmd
        (dump_address_stack a b) refl refl refl refl
        (default_argument pf m supply 4 (codes "as") a (numbers (b ∷ [])) ha refl _ _ 0
          ∙ default_argument pf m supply 4 (codes "as") b (numbers []) hb refl _ _ 16
          ∙ no_more_arguments-some pf m supply 4 (codes "as") (dump_address_stack a b))

  pub modify_address_stack_back :
      (a b : ℕ) → IsPrintable (modify_address_stack a b) → ReadsBack pf m (modify_address_stack a b)
  unfolding command_text find_command same_name parse_modify_addr_stack_cmd
  modify_address_stack_back a b (ha, hb) =
      from_numbers pf m supply b'w' (codes "as") (a ∷ b ∷ []) 5 parse_modify_addr_stack_cmd
        (modify_address_stack a b) refl refl refl refl
        (number_argument pf m supply 5 (codes "was") a (numbers (b ∷ [])) ha refl _ _
          ∙ location_argument pf m supply 5 (codes "was") b (numbers []) hb refl _ _
          ∙ no_more_arguments-some pf m supply 5 (codes "was") (modify_address_stack a b))

  pub push_address_stack_back :
      (a : ℕ) → IsPrintable (push_address_stack a) → ReadsBack pf m (push_address_stack a)
  unfolding command_text find_command same_name parse_push_address_cmd
  push_address_stack_back a ha =
      from_numbers pf m supply b'p' (codes "as") (a ∷ []) 6 parse_push_address_cmd
        (push_address_stack a) refl refl refl refl
        (location_argument pf m supply 6 (codes "pas") a (numbers []) ha refl _ _
          ∙ no_more_arguments-some pf m supply 6 (codes "pas") (push_address_stack a))

  pub pop_address_stack_back : ReadsBack pf m pop_address_stack
  unfolding command_text find_command same_name parse_pop_address_cmd
  pop_address_stack_back =
      from_numbers pf m supply b'p' (codes "pas") ([]) 7 parse_pop_address_cmd pop_address_stack
        refl refl refl refl (no_more_arguments-some pf m supply 7 (codes "ppas") pop_address_stack)

  pub dump_call_stack_back :
      (a b : ℕ) → IsPrintable (dump_call_stack a b) → ReadsBack pf m (dump_call_stack a b)
  unfolding command_text find_command same_name parse_dump_call_stack_cmd
  dump_call_stack_back a b (ha, hb) =
      from_numbers pf m supply b'c' (codes "s") (a ∷ b ∷ []) 8 parse_dump_call_stack_cmd
        (dump_call_stack a b) refl refl refl refl
        (default_argument pf m supply 8 (codes "cs") a (numbers (b ∷ [])) ha refl _ _ 0
          ∙ default_argument pf m supply 8 (codes "cs") b (numbers []) hb refl _ _ 16
          ∙ no_more_arguments-some pf m supply 8 (codes "cs") (dump_call_stack a b))

  pub modify_call_stack_back :
      (a b c : ℕ) → IsPrintable (modify_call_stack a b c) → ReadsBack pf m (modify_call_stack a b c)
  unfolding command_text find_command same_name parse_modify_call_stack_cmd
  modify_call_stack_back a b c (ha, hb, hc) =
      from_numbers pf m supply b'w' (codes "cs") (a ∷ b ∷ c ∷ []) 9 parse_modify_call_stack_cmd
        (modify_call_stack a b c) refl refl refl refl
        (number_argument pf m supply 9 (codes "wcs") a (numbers (b ∷ c ∷ [])) ha refl _ _
          ∙ location_argument pf m supply 9 (codes "wcs") b (numbers (c ∷ [])) hb refl _ _
          ∙ location_argument pf m supply 9 (codes "wcs") c (numbers []) hc refl _ _
          ∙ no_more_arguments-some pf m supply 9 (codes "wcs") (modify_call_stack a b c))

  pub push_call_stack_back :
      (a b : ℕ) → IsPrintable (push_call_stack a b) → ReadsBack pf m (push_call_stack a b)
  unfolding command_text find_command same_name parse_push_call_frame_cmd
  push_call_stack_back a b (ha, hb) =
      from_numbers pf m supply b'p' (codes "cs") (a ∷ b ∷ []) 10 parse_push_call_frame_cmd
        (push_call_stack a b) refl refl refl refl
        (location_argument pf m supply 10 (codes "pcs") a (numbers (b ∷ [])) ha refl _ _
          ∙ location_argument pf m supply 10 (codes "pcs") b (numbers []) hb refl _ _
          ∙ no_more_arguments-some pf m supply 10 (codes "pcs") (push_call_stack a b))

  pub pop_call_stack_back : ReadsBack pf m pop_call_stack
  unfolding command_text find_command same_name parse_pop_call_frame_cmd
  pop_call_stack_back =
      from_numbers pf m supply b'p' (codes "pcs") ([]) 11 parse_pop_call_frame_cmd pop_call_stack
        refl refl refl refl (no_more_arguments-some pf m supply 11 (codes "ppcs") pop_call_stack)

  pub list_breakpoints_back : ReadsBack pf m list_breakpoints
  unfolding command_text find_command same_name parse_list_breakpoints_cmd
  list_breakpoints_back =
      from_numbers pf m supply b'b' ([]) ([]) 12 parse_list_breakpoints_cmd list_breakpoints refl
        refl refl refl (no_more_arguments-some pf m supply 12 (codes "b") list_breakpoints)

  pub add_breakpoint_back :
      (a : ℕ) → IsPrintable (add_breakpoint a) → ReadsBack pf m (add_breakpoint a)
  unfolding command_text find_command same_name parse_add_breakpoint_cmd
  add_breakpoint_back a ha =
      from_numbers pf m supply b'b' (codes "a") (a ∷ []) 13 parse_add_breakpoint_cmd
        (add_breakpoint a) refl refl refl refl
        (location_default_argument pf m supply 13 (codes "ba") a (numbers []) ha refl _ _ m.vm.pc
          ∙ no_more_arguments-some pf m supply 13 (codes "ba") (add_breakpoint a))

  pub remove_breakpoint_back :
      (a : ℕ) → IsPrintable (remove_breakpoint a) → ReadsBack pf m (remove_breakpoint a)
  unfolding command_text find_command same_name parse_remove_breakpoint_cmd
  remove_breakpoint_back a ha =
      from_numbers pf m supply b'b' (codes "d") (a ∷ []) 14 parse_remove_breakpoint_cmd
        (remove_breakpoint a) refl refl refl refl
        (location_default_argument pf m supply 14 (codes "bd") a (numbers []) ha refl _ _ m.vm.pc
          ∙ no_more_arguments-some pf m supply 14 (codes "bd") (remove_breakpoint a))

  pub run_program_back : (a : ℕ) → IsPrintable (run_program a) → ReadsBack pf m (run_program a)
  unfolding command_text find_command same_name parse_run_program_cmd
  run_program_back a ha =
      from_numbers pf m supply b'r' ([]) (a ∷ []) 15 parse_run_program_cmd (run_program a) refl refl
        refl refl
        (location_default_argument pf m supply 15 (codes "r") a (numbers []) ha refl _ _ m.vm.pc
          ∙ no_more_arguments-some pf m supply 15 (codes "r") (run_program a))

  pub run_until_return_back : ReadsBack pf m run_until_return
  unfolding command_text find_command same_name parse_run_until_return_cmd
  run_until_return_back =
      from_numbers pf m supply b'r' (codes "r") ([]) 16 parse_run_until_return_cmd run_until_return
        refl refl refl refl (no_more_arguments-some pf m supply 16 (codes "rr") run_until_return)

  pub single_step_into_back : ReadsBack pf m single_step_into
  unfolding command_text find_command same_name parse_single_step_into_cmd
  single_step_into_back =
      from_numbers pf m supply b's' ([]) ([]) 17 parse_single_step_into_cmd single_step_into refl
        refl refl refl (no_more_arguments-some pf m supply 17 (codes "s") single_step_into)

  pub single_step_over_back : ReadsBack pf m single_step_over
  unfolding command_text find_command same_name parse_single_step_over_cmd
  single_step_over_back =
      from_numbers pf m supply b's' (codes "s") ([]) 18 parse_single_step_over_cmd single_step_over
        refl refl refl refl (no_more_arguments-some pf m supply 18 (codes "ss") single_step_over)

  pub quit_vm_back : ReadsBack pf m quit_vm
  unfolding command_text find_command same_name parse_quit_vm_cmd
  quit_vm_back =
      from_numbers pf m supply b'q' ([]) ([]) 20 parse_quit_vm_cmd quit_vm refl refl refl refl
        (no_more_arguments-some pf m supply 20 (codes "q") quit_vm)

  pub show_help_back : ReadsBack pf m show_help
  unfolding command_text find_command same_name parse_show_help_cmd
  show_help_back =
      from_numbers pf m supply b'h' ([]) ([]) 21 parse_show_help_cmd show_help refl refl refl refl
        (no_more_arguments-some pf m supply 21 (codes "h") show_help)
