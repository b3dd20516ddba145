-- ===== src/Commands/RoundTrip.antt =====
-- What `sprintDebugCommand` of src/dbgcmd.c writes into a buffer with room, `parseDebugCommand` reads back.
use unlambda.Base.Digits.{All, all→All, drop_while-append, take_while-All, drop_while-All}
use unlambda.Base.{
  ℕ, ◌+◌, ◌-◌, ◌<◌, ◌≡◌, refl, true, false, none, some, [], ◌∷◌, length, take-length, ◌==◌, ltb,
  arith, ap,
}
use unlambda.Base.Run.{done}
use unlambda.Base.Text.{Text, codes, drop_while, is_alnum}
use unlambda.Commands.{
  DebugCommand, disassemble, dump_bytes, write_bytes, dump_address_stack, modify_address_stack,
  push_address_stack, pop_address_stack, dump_call_stack, modify_call_stack, push_call_stack,
  pop_call_stack, list_breakpoints, add_breakpoint, remove_breakpoint, run_program,
  run_until_return, single_step_into, single_step_over, heap_dump, quit_vm, show_help,
  lookup_symbol, command_error, Platform, create_heap_dump_command,
}
use unlambda.Commands.Outcome.{create_debug_command-some}
use unlambda.Commands.Parse.{
  is_filename_char, parse_heap_dump_cmd, parse_lookup_symbol_cmd, parse_debug_command,
}
use unlambda.Commands.Print.{command_text, sprint_debug_command}
use unlambda.Commands.Reading.{reading, parse_debug_command-named}
use unlambda.Commands.Scan.{is_symbol_char, is_symbol_start, check_no_more_arguments}
use unlambda.Commands.State.{is_blank, find_command}
use unlambda.Commands.Valid.{Supplies, strdup_total}
use unlambda.Symbols.{same_name}
use unlambda.Vm.Load.{Machine}
use unlambda.Commands.Printable.{IsPrintable, ReadsBack}
use unlambda.Commands.Numeric.{
  disassemble_back, dump_bytes_back, dump_address_stack_back, modify_address_stack_back,
  push_address_stack_back, pop_address_stack_back, dump_call_stack_back, modify_call_stack_back,
  push_call_stack_back, pop_call_stack_back, list_breakpoints_back, add_breakpoint_back,
  remove_breakpoint_back, run_program_back, run_until_return_back, single_step_into_back,
  single_step_over_back, quit_vm_back, show_help_back,
}

module _ (pf : Platform) (m : Machine) (supply : Supplies pf.host) where
  nothing_left :
      (code : ℕ) (name : Text)
      → check_no_more_arguments pf.host (reading pf m supply code name [])
        ≡ (reading pf m supply code name [], false)
  unfolding check_no_more_arguments drop_while
  nothing_left code name = refl

  file_read :
      (c : ℕ) (cs : Text)
      → All is_filename_char (c ∷ cs)
      → (c == 0) ≡ false
      → parse_heap_dump_cmd pf (reading pf m supply 19 (codes "hd") (b' ' ∷ c ∷ cs))
        ≡ done (some (heap_dump (some (c ∷ cs))))
  unfolding parse_heap_dump_cmd create_heap_dump_command
  file_read c cs chars some_char =
      let name = c ∷ cs in
      let visible = chars.0 in
      let no_blank : is_blank c ≡ false = ground arith in
      let skip = drop_while-append is_blank (b' ' ∷ []) name (refl, tt) no_blank in
      let longer : ltb 0 (length name) ≡ true = ground arith in
      let cmd = heap_dump (some name) in
      rw
        (
          skip,
          some_char,
          drop_while-All is_filename_char name chars,
          nothing_left 19 (codes "hd"),
          take_while-All is_filename_char name chars,
          longer,
          (supply (length name + 1)).1,
          skip,
          take_while-All is_filename_char name chars,
          create_heap_dump_command,
          strdup_total pf.host m supply name,
          create_debug_command-some pf m supply cmd,
        )
        refl

  symbol_read :
      (c : ℕ) (cs : Text)
      → All is_symbol_char (c ∷ cs)
      → is_symbol_start c ≡ true
      → parse_lookup_symbol_cmd pf (reading pf m supply 22 (codes "sym") (b' ' ∷ c ∷ cs))
        ≡ done (some (lookup_symbol (some (c ∷ cs))))
  unfolding parse_lookup_symbol_cmd
  symbol_read c cs chars start =
      let name = c ∷ cs in
      let no_blank : is_blank c ≡ false = ground (arith, start) in
      let some_char : (c == 0) ≡ false = ground (arith, start) in
      let skip = drop_while-append is_blank (b' ' ∷ []) name (refl, tt) no_blank in
      let longer : ltb 0 (length name) ≡ true = ground arith in
      let whole = take-length (length name - 0) name (omega arith) in
      let cmd = lookup_symbol (some name) in
      rw
        (
          skip,
          some_char,
          start,
          drop_while-All is_symbol_char name chars,
          nothing_left 22 (codes "sym"),
          longer,
          whole,
          (supply (length name + 1)).1,
          skip,
          drop_while-All is_symbol_char name chars,
          nothing_left 22 (codes "sym"),
          whole,
          strdup_total pf.host m supply name,
          create_debug_command-some pf m supply cmd,
        )
        refl

  heap_dump_back :
      (c : ℕ) (cs : Text)
      → IsPrintable (heap_dump (some (c ∷ cs)))
      → ReadsBack pf m (heap_dump (some (c ∷ cs)))
  unfolding command_text find_command same_name
  heap_dump_back c cs (chars, some_char) =
      parse_debug_command-named pf m supply b'h' (codes "d") (b' ' ∷ c ∷ cs) 19 parse_heap_dump_cmd
        (heap_dump (some (c ∷ cs))) (all→All is_alnum (codes "hd") refl) refl refl refl refl
        (file_read c cs chars some_char)

  lookup_symbol_back :
      (c : ℕ) (cs : Text)
      → IsPrintable (lookup_symbol (some (c ∷ cs)))
      → ReadsBack pf m (lookup_symbol (some (c ∷ cs)))
  unfolding command_text find_command same_name
  lookup_symbol_back c cs (chars, start) =
      parse_debug_command-named pf m supply b's' (codes "ym") (b' ' ∷ c ∷ cs) 22
        parse_lookup_symbol_cmd (lookup_symbol (some (c ∷ cs)))
        (all→All is_alnum (codes "sym") refl) refl refl refl refl (symbol_read c cs chars start)

  none_named : ReadsBack pf m (heap_dump none)
  unfolding command_text find_command same_name parse_heap_dump_cmd create_heap_dump_command
      drop_while
  none_named =
      parse_debug_command-named pf m supply b'h' (codes "d") [] 19 parse_heap_dump_cmd
        (heap_dump none) (all→All is_alnum (codes "hd") refl) refl refl refl refl
        (ap done (create_debug_command-some pf m supply (heap_dump none)))

  -- The text of a command is read back.
  parse_debug_command-command_text :
      (cmd : DebugCommand)
      → IsPrintable cmd
      → parse_debug_command pf m (command_text cmd) ≡ done (some cmd)
  parse_debug_command-command_text (disassemble a b) h = disassemble_back pf m supply a b h
  parse_debug_command-command_text (dump_bytes a b) h = dump_bytes_back pf m supply a b h
  parse_debug_command-command_text (dump_address_stack a b) h =
      dump_address_stack_back pf m supply a b h
  parse_debug_command-command_text (modify_address_stack a b) h =
      modify_address_stack_back pf m supply a b h
  parse_debug_command-command_text (push_address_stack a) h =
      push_address_stack_back pf m supply a h
  parse_debug_command-command_text pop_address_stack _ = pop_address_stack_back pf m supply
  parse_debug_command-command_text (dump_call_stack a b) h = dump_call_stack_back pf m supply a b h
  parse_debug_command-command_text (modify_call_stack a b c) h =
      modify_call_stack_back pf m supply a b c h
  parse_debug_command-command_text (push_call_stack a b) h = push_call_stack_back pf m supply a b h
  parse_debug_command-command_text pop_call_stack _ = pop_call_stack_back pf m supply
  parse_debug_command-command_text list_breakpoints _ = list_breakpoints_back pf m supply
  parse_debug_command-command_text (add_breakpoint a) h = add_breakpoint_back pf m supply a h
  parse_debug_command-command_text (remove_breakpoint a) h = remove_breakpoint_back pf m supply a h
  parse_debug_command-command_text (run_program a) h = run_program_back pf m supply a h
  parse_debug_command-command_text run_until_return _ = run_until_return_back pf m supply
  parse_debug_command-command_text single_step_into _ = single_step_into_back pf m supply
  parse_debug_command-command_text single_step_over _ = single_step_over_back pf m supply
  parse_debug_command-command_text quit_vm _ = quit_vm_back pf m supply
  parse_debug_command-command_text show_help _ = show_help_back pf m supply
  parse_debug_command-command_text (heap_dump none) _ = none_named
  parse_debug_command-command_text (heap_dump (some [])) (_, h) = absurd (ground (arith, h))
  parse_debug_command-command_text (heap_dump (some (c ∷ cs))) h = heap_dump_back c cs h
  parse_debug_command-command_text (lookup_symbol (some [])) (_, h) = absurd (ground (arith, h))
  parse_debug_command-command_text (lookup_symbol (some (c ∷ cs))) h = lookup_symbol_back c cs h
  parse_debug_command-command_text (lookup_symbol none) h = absurd h
  parse_debug_command-command_text (write_bytes a n bytes) h = absurd h
  parse_debug_command-command_text (command_error code details) h = absurd h

  -- Where the allocator refuses nothing, `parseDebugCommand` reads a command back from what
  -- `sprintDebugCommand` writes, if the buffer is larger than the length that the latter returns. This
  -- is so for every command but those that write bytes and the parse errors, provided that the addresses, depths and counts
  -- are below 18446744073709551610 (numbers of lines and bytes below 2^32), a file name, if there is
  -- one, is not empty and has no blanks, and the symbol to look up is there and is a name.
  pub parse_debug_command-sprint_debug_command :
      (cmd : DebugCommand) (buffer_size : ℕ)
      → IsPrintable cmd
      → (sprint_debug_command cmd buffer_size).1 < buffer_size
      → parse_debug_command pf m (sprint_debug_command cmd buffer_size).0 ≡ done (some cmd)
  unfolding sprint_debug_command
  parse_debug_command-sprint_debug_command cmd buffer_size printable fits =
      rw (take-length (buffer_size - 1) (command_text cmd) (omega arith))
        (parse_debug_command-command_text cmd printable)
