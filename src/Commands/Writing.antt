-- ===== src/Commands/Writing.antt =====
-- `parseWriteBytesCmd` of src/dbgcmd.c always answers.
use unlambda.Base.Digits.{All}
use unlambda.Base.{
  ℕ, zero, suc, ◌+◌, ◌^◌, ◌<◌, ◌≡◌, refl, inl, inr, Bool, true, some, List, [], ◌∷◌, ◌++◌, length,
  length-append, take, take-length, ◌==◌, arith, Bool-cases, Return, success, failure, subst, sym,
  ap, ◌∙◌,
}
use unlambda.Base.Run.{done, Returns, >>=-Returns}
use unlambda.Base.Text.{codes}
use unlambda.Array.{
  Array, ArrayStatus, ok, invalid_argument, sequence_too_long, out_of_memory, create_array,
}
use unlambda.Array.Edit.{Inserted, append_to_array-Inserted}
use unlambda.Array.Grow.{IsArray}
use unlambda.Commands.{
  ErrorCode, invalid_arg_error, missing_arg_error, out_of_memory_error, write_bytes, Platform,
  create_write_bytes_command,
}
use unlambda.Commands.State.{ParserState, has_error, set_parse_error}
use unlambda.Commands.Scan.{parse_next_byte, parse_next_uint64}
use unlambda.Commands.Parse.{
  max_data_length, report_full, collect_bytes, reject_bytes, write_bytes_up_to, write_collected,
  parse_write_bytes_cmd,
}
use unlambda.Commands.Outcome.{
  is_byte, Answers, IsWord, create_debug_command-some, argument_checked-IsChecked,
  make_parse_error_from_state-Answers, refusal-Answers, address_argument-Answers,
}
use unlambda.Commands.Always.{AlwaysAnswers}
use unlambda.Commands.Address.{parse_next_address-Reads}
use unlambda.Commands.Valid.{
  Supplies, IsContext, IsParserState, IsRead, set_parse_error-IsParserState,
  parse_next_uint64-IsRead, check_limit-IsRead,
}
use unlambda.Vm.Load.{Machine}

All-append : (f : ℕ → Bool) (xs ys : List ℕ) → All f xs → All f ys → All f (xs ++ ys)
All-append f [] ys _ h = h
All-append f (x ∷ xs) ys (here, more) h = (here, All-append f xs ys more h)

-- An array that holds the bytes that have been read.
abbrev IsData : Array → Type 0
IsData a = IsArray a × (a.max_size ≡ max_data_length) × All is_byte a.bytes

module _ (pf : Platform) (m : Machine) (supply : Supplies pf.host) (ctx : IsContext m) where
  parse_next_byte-IsRead :
      (s : ParserState) → IsParserState m s → IsRead m 256 (parse_next_byte pf.host s)
  parse_next_byte-IsRead s v =
      check_limit-IsRead pf.host m supply 255 (parse_next_uint64 pf.host s)
        (parse_next_uint64-IsRead pf.host m supply s v)

  abbrev IsFailed : ParserState → Type 0
  IsFailed s = IsParserState m s × (has_error s.error_code ≡ true)

  abbrev IsCollected : Array × ParserState × Return → Type 0
  IsCollected (a, s, failure) = IsFailed s
  IsCollected (a, s, success) = IsFailed s × IsData a

  report_full-IsFailed :
      (status : ArrayStatus) (s : ParserState) → s.vm ≡ m → IsFailed (report_full status pf s)
  unfolding report_full set_parse_error
  report_full-IsFailed sequence_too_long s same =
      (set_parse_error-IsParserState pf.host m supply s invalid_arg_error _ same, refl)
  report_full-IsFailed ok s same =
      (set_parse_error-IsParserState pf.host m supply s out_of_memory_error _ same, refl)
  report_full-IsFailed invalid_argument s same =
      (set_parse_error-IsParserState pf.host m supply s out_of_memory_error _ same, refl)
  report_full-IsFailed out_of_memory s same =
      (set_parse_error-IsParserState pf.host m supply s out_of_memory_error _ same, refl)

  -- What follows an attempt to store a byte.
  next_round :
      (fuel : ℕ) (a : Array) (s : ParserState) (k : ℕ)
      → IsData a
      → s.vm ≡ m
      → k < 256
      → ((b : Array)
          → IsData b
          → length b.bytes ≡ suc (length a.bytes)
          → Returns (collect_bytes fuel pf b (parse_next_byte pf.host s)) IsCollected)
      → (r : Array × Return) → Inserted pf.host a a.bytes (k ∷ []) [] r
      → Returns
          (elim r.1 [
            | failure ↦ done (r.0, report_full r.0.status pf s, failure)
            | success ↦ collect_bytes fuel pf r.0 (parse_next_byte pf.host s)
          ])
          IsCollected
  next_round fuel a s k data_a same small later (b, failure) out =
      ((b, report_full b.status pf s, failure), refl, report_full-IsFailed b.status s same)
  next_round fuel a s k (w, limit, bytes) same small later (b, success) (w', stored, kept) =
      let fresh = All-append is_byte a.bytes (k ∷ []) bytes (ground arith, tt) in
      later b (w', kept ∙ limit, subst (All is_byte) (sym stored) fresh)
        (omega (arith, ap length stored, length-append a.bytes (k ∷ [])))

  -- Every round that goes on adds a byte to an array that holds at most 65536.
  collect_bytes-IsCollected :
      (fuel : ℕ) (a : Array) (s : ParserState) (k : ℕ)
      → IsData a
      → IsParserState m s
      → k < 256
      → max_data_length < fuel + length a.bytes
      → Returns (collect_bytes fuel pf a (s, k)) IsCollected
  unfolding collect_bytes
  collect_bytes-IsCollected zero a s k (w, limit, bytes) v small enough =
      absurd (omega (arith, w.stored, w.limited))
  collect_bytes-IsCollected (suc fuel) a s k (w, limit, bytes) v small enough =
      let (s', k') = parse_next_byte pf.host s in
      let (v', small') = parse_next_byte-IsRead s v in
      let later = λ (b : Array) (w' : IsData b) (size : length b.bytes ≡ suc (length a.bytes)).
        collect_bytes-IsCollected fuel b s' k' w' v' small' (omega (arith, size)) in
      let stored = append_to_array-Inserted pf.host a (k ∷ []) w (omega arith) in
      elim (Bool-cases (has_error s.error_code)) [
        | inl e ↦ ((a, s, success), rw (collect_bytes, e) refl, ((v, e), (w, limit, bytes)))
        | inr e ↦
            rw (collect_bytes, e)
              (>>=-Returns stored (next_round fuel a s k (w, limit, bytes) v.same_vm small later))
      ]

  reject_bytes-Answers :
      (s : ParserState)
      → IsParserState m s
      → has_error s.error_code ≡ true
      → Answers (reject_bytes pf s)
  reject_bytes-Answers s v e =
      >>=-Returns
        (argument_checked-IsChecked pf m supply s.error_code s (codes "bytes to write") v.explained
          v)
        λ (s', _) ((v', bad), same).
          make_parse_error_from_state-Answers pf m supply s' v' (bad (same ∙ e))

  write_bytes_up_to-Answers :
      (code : ErrorCode) (address : ℕ) (a : Array) (s : ParserState)
      → s.error_code ≡ code
      → IsFailed s
      → IsWord address
      → IsData a
      → Answers (write_bytes_up_to code pf address a s)
  unfolding write_bytes_up_to create_write_bytes_command
  write_bytes_up_to-Answers missing_arg_error address a s same (v, e) word (w, limit, bytes) =
      elim (Bool-cases (length a.bytes == 0)) [
        | inl none_read ↦ rw none_read (
            refusal-Answers pf m supply s missing_arg_error (codes "Bytes to write are missing")
              v.same_vm refl)
        | inr some_read ↦
            let cmd = write_bytes address (length a.bytes) (take (length a.bytes) a.bytes) in
            let all = take-length (length a.bytes) a.bytes (omega arith) in
            (
              some cmd,
              rw
                  (
                    some_read,
                    create_write_bytes_command,
                    (supply (length a.bytes)).1,
                    create_debug_command-some pf m supply cmd,
                  )
                  refl,
              (
                cmd,
                refl,
                (
                  word,
                  ap length (sym all),
                  ground arith,
                  omega (arith, w.stored, w.limited),
                  subst (All is_byte) (sym all) bytes,
                ),
              ),
            )
      ]
  write_bytes_up_to-Answers _ address a s same (v, e) word d = reject_bytes-Answers s v e

  write_collected-Answers :
      (address : ℕ) (r : Array × ParserState × Return)
      → IsWord address
      → IsCollected r
      → Answers (write_collected pf address r)
  write_collected-Answers address (a, s, failure) word (v, e) =
      make_parse_error_from_state-Answers pf m supply s v e
  write_collected-Answers address (a, s, success) word (failed, d) =
      write_bytes_up_to-Answers s.error_code address a s refl failed word d

  pub parse_write_bytes_cmd-AlwaysAnswers : AlwaysAnswers pf m parse_write_bytes_cmd
  unfolding parse_write_bytes_cmd create_array
  parse_write_bytes_cmd-AlwaysAnswers s v =
      let empty : Array = record {
        data_start = 0;
        bytes = [];
        capacity = 0;
        max_size = max_data_length;
        status = ok;
      } in
      let valid : IsArray empty = record {
        stored = omega arith;
        limited = omega arith;
        word = omega arith;
      } in
      address_argument-Answers pf m supply _ (2 ^ 64)
        (λ address s₁ word v₁.
          let (v₂, small) = parse_next_byte-IsRead s₁ v₁ in
          let (s₂, k) = parse_next_byte pf.host s₁ in
          let read =
            collect_bytes-IsCollected (max_data_length + 2) empty s₂ k (valid, refl, tt) v₂ small
              (omega arith) in
          rw (supply pf.array_size).1
            (>>=-Returns read λ r. write_collected-Answers address r word))
        _ _ (parse_next_address-Reads pf.host m supply s ctx v)
