-- ===== src/Commands/Printed.antt =====
-- What `printDebugCommand` of src/dbgcmd.c writes, `parseDebugCommand` reads back.
use unlambda.Base.{
  ℕ, zero, suc, ◌+◌, ◌*◌, ◌/◌, ◌%◌, ◌≤◌, ◌<◌, ◌≡◌, refl, some, List, [], ◌∷◌, ◌++◌, length,
  length-append, arith, ap, ◌∙◌,
}
use unlambda.Base.Run.{done}
use unlambda.Base.Text.{codes, Text, digits_of, decimal}
use unlambda.Commands.{
  DebugCommand, disassemble, dump_bytes, write_bytes, dump_address_stack, modify_address_stack,
  push_address_stack, pop_address_stack, dump_call_stack, modify_call_stack, push_call_stack,
  pop_call_stack, list_breakpoints, add_breakpoint, remove_breakpoint, run_program,
  run_until_return, single_step_into, single_step_over, heap_dump, quit_vm, show_help,
  lookup_symbol, command_error, Platform,
}
use unlambda.Commands.Parse.{parse_debug_command}
use unlambda.Commands.Print.{
  command_text, with_numbers, message_length, sprint_debug_command, print_debug_command,
}
use unlambda.Commands.Printable.{IsPrintable}
use unlambda.Commands.RoundTrip.{parse_debug_command-sprint_debug_command}
use unlambda.Commands.Valid.{Supplies}
use unlambda.Vm.Load.{Machine}

length-digits_of : (fuel n : ℕ) (out : Text) → length (digits_of fuel n out) ≤ length out + fuel
unfolding digits_of
length-digits_of zero n out = omega arith
length-digits_of (suc fuel) n out =
    ground (arith, length-digits_of fuel (n / 10) ((b'0' + n % 10) ∷ out))

length-with_numbers :
    (name : Text) (ns : List ℕ) → length (with_numbers name ns) ≤ length name + 21 * length ns
length-with_numbers name [] = omega arith
length-with_numbers name (n ∷ ns) = omega (
  arith,
  length-with_numbers (name ++ b' ' ∷ decimal n) ns,
  length-append name (b' ' ∷ decimal n),
  length-digits_of 20 n [],
)

-- The commands whose arguments are numbers.
abbrev pub IsNumeric : DebugCommand → Type 0
IsNumeric (heap_dump _) = ⊥
IsNumeric (lookup_symbol _) = ⊥
IsNumeric (write_bytes _ _ _) = ⊥
IsNumeric (command_error _ _) = ⊥
IsNumeric _ = Unit

abbrev Fits : DebugCommand → Type 0
Fits cmd = (message_length cmd ≡ 71) × (length (command_text cmd) < 71)

numbers_fit :
    (name : Text) (ns : List ℕ)
    → length name + 21 * length ns < 71
    → length (with_numbers name ns) < 71
numbers_fit name ns h = omega (arith, length-with_numbers name ns, h)

numeric-Fits : (cmd : DebugCommand) → IsNumeric cmd → Fits cmd
unfolding command_text
numeric-Fits (disassemble a n) _ = (refl, numbers_fit (codes "l") (a ∷ n ∷ []) (ground arith))
numeric-Fits (dump_bytes a n) _ = (refl, numbers_fit (codes "d") (a ∷ n ∷ []) (ground arith))
numeric-Fits (dump_address_stack a n) _ =
    (refl, numbers_fit (codes "as") (a ∷ n ∷ []) (ground arith))
numeric-Fits (modify_address_stack a n) _ =
    (refl, numbers_fit (codes "was") (a ∷ n ∷ []) (ground arith))
numeric-Fits (push_address_stack a) _ = (refl, numbers_fit (codes "pas") (a ∷ []) (ground arith))
numeric-Fits (dump_call_stack a n) _ = (refl, numbers_fit (codes "cs") (a ∷ n ∷ []) (ground arith))
numeric-Fits (modify_call_stack a b c) _ =
    (refl, numbers_fit (codes "wcs") (a ∷ b ∷ c ∷ []) (ground arith))
numeric-Fits (push_call_stack a b) _ = (refl, numbers_fit (codes "pcs") (a ∷ b ∷ []) (ground arith))
numeric-Fits (add_breakpoint a) _ = (refl, numbers_fit (codes "ba") (a ∷ []) (ground arith))
numeric-Fits (remove_breakpoint a) _ = (refl, numbers_fit (codes "bd") (a ∷ []) (ground arith))
numeric-Fits (run_program a) _ = (refl, numbers_fit (codes "r") (a ∷ []) (ground arith))
numeric-Fits pop_address_stack _ = (refl, ground arith)
numeric-Fits pop_call_stack _ = (refl, ground arith)
numeric-Fits list_breakpoints _ = (refl, ground arith)
numeric-Fits run_until_return _ = (refl, ground arith)
numeric-Fits single_step_into _ = (refl, ground arith)
numeric-Fits single_step_over _ = (refl, ground arith)
numeric-Fits quit_vm _ = (refl, ground arith)
numeric-Fits show_help _ = (refl, ground arith)
numeric-Fits (heap_dump _) h = absurd h
numeric-Fits (lookup_symbol _) h = absurd h
numeric-Fits (write_bytes _ _ _) h = absurd h
numeric-Fits (command_error _ _) h = absurd h

module _ (pf : Platform) (m : Machine) (supply : Supplies pf.host) where
  printed :
      (cmd : DebugCommand)
      → Fits cmd
      → print_debug_command pf.host cmd ≡ (sprint_debug_command cmd 71).0
  unfolding print_debug_command
  printed cmd (size, fits) =
      let (p, got) = supply (message_length cmd + 1) in rw (print_debug_command, got, size) refl

  -- Where the allocator refuses nothing, `parseDebugCommand` reads back what `printDebugCommand` writes
  -- for a command whose arguments are numbers, or that has none, provided that addresses, depths and
  -- counts are below 18446744073709551610 (numbers of lines and bytes below 2^32): the text of each of
  -- these commands is shorter than the 71 bytes that are passed on as the size of the buffer.
  pub parse_debug_command-print_debug_command :
      (cmd : DebugCommand)
      → IsNumeric cmd
      → IsPrintable cmd
      → parse_debug_command pf m (print_debug_command pf.host cmd) ≡ done (some cmd)
  unfolding sprint_debug_command
  parse_debug_command-print_debug_command cmd numeric printable =
      let fits = numeric-Fits cmd numeric in
      ap (parse_debug_command pf m) (printed cmd fits)
      ∙ parse_debug_command-sprint_debug_command pf m supply cmd 71 printable fits.1
