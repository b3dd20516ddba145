-- ===== src/Breakpoints/Add.antt =====
-- `addBreakpointToList` of src/brkpt.c on a list of ascending breakpoints.
use unlambda.Base.{
  ℕ, ◌+◌, ◌*◌, ◌^◌, ◌<◌, ◌≡◌, refl, ap, ◌∙◌, sym, inl, inr, ◌⊎◌, ◌||◌, true, false, none, some,
  List, [], ◌∷◌, ◌++◌, length, length-take, take, drop, get_elem?, take-append-drop, leb, ltb, ◌==◌,
  Bool-cases, arith, Return, success, failure,
}
use unlambda.Base.Host.{Host}
use unlambda.Base.Run.{done, Returns}
use unlambda.Memory.Bytes.{bytes_of, words_of, length-bytes_of}
use unlambda.Array as Arrays
use unlambda.Array.{insert_into_array}
use unlambda.Array.Grow.{IsArray}
use unlambda.Array.Edit.{Inserted, insert_into_array-Inserted}
use unlambda.Breakpoints.{
  BreakpointList, BreakpointListStatus, ok, list_full, out_of_memory_error, addresses_of,
  find_breakpoint_at_or_after, find_breakpoint_after, is_breakpoint, add_breakpoint_to_list,
  add_failure, reset_cursor,
}
use unlambda.Breakpoints.Search.{
  AllBelow, Ascending, contains, is_breakpoint-contains, find_breakpoint_at_or_after-AllBelow,
}
use unlambda.Breakpoints.Words.{
  stored, words_of-stored, stored-append, length-stored, with_address, AllBelow-with_address,
  Ascending-with_address, contains-with_address,
}

-- The array holds ascending 64-bit words and nothing else.
pub record IsBreakpointList (bl : BreakpointList) : Type 0 where
  pub array : IsArray bl.breakpoints
  pub words : bl.breakpoints.bytes ≡ stored (addresses_of bl)
  pub small : AllBelow (2 ^ 64) (addresses_of bl)
  pub ascending : Ascending (addresses_of bl)

-- A change keeps the last program counter. The cursor comes to stand behind the breakpoints up to it,
-- or nothing moves.
abbrev pub CursorReset : BreakpointList → BreakpointList → Type 0
CursorReset bl bl' =
    (bl'.last_pc ≡ bl.last_pc)
    × ((bl'.current ≡ find_breakpoint_after (addresses_of bl') bl.last_pc)
        ⊎ ((bl'.current ≡ bl.current) × (addresses_of bl' ≡ addresses_of bl)))

-- What an addition leaves, by its return code.
abbrev pub Added : BreakpointList → ℕ → BreakpointList × Return → Type 0
Added bl a (bl', success) =
    IsBreakpointList bl'
    × CursorReset bl bl'
    × ((q : ℕ) → contains (addresses_of bl') q ≡ ((a == q) || contains (addresses_of bl) q))
Added bl a (bl', failure) =
    IsBreakpointList bl'
    × CursorReset bl bl'
    × (addresses_of bl' ≡ addresses_of bl)
    × (((bl'.status ≡ list_full) × (bl.breakpoints.max_size < (length (addresses_of bl) + 1) * 8))
        ⊎ (bl'.status ≡ out_of_memory_error))

find_breakpoint_at_or_after-leb :
    (bs : List ℕ) (a : ℕ)
    → elim (get_elem? bs (find_breakpoint_at_or_after bs a)) [ none ↦ true | some b ↦ leb a b ]
      ≡ true
unfolding find_breakpoint_at_or_after
find_breakpoint_at_or_after-leb [] a = refl
find_breakpoint_at_or_after-leb (b ∷ bs) a = elim (Bool-cases (ltb b a)) [
  | inl under ↦ rw under (find_breakpoint_at_or_after-leb bs a)
  | inr over ↦ rw over (ground (arith, over))
]

contains-already :
    (bs : List ℕ) (a q : ℕ) → contains bs a ≡ true → contains bs q ≡ ((a == q) || contains bs q)
contains-already bs a q there = elim (Bool-cases (a == q)) [
  | inl e ↦ let same : q ≡ a = ground (arith, e) in rw (e, same) there
  | inr e ↦ rw e refl
]

module _ (host : Host) (bl : BreakpointList) (a : ℕ) (h : IsBreakpointList bl)
    (word : a < 2 ^ 64) where
  abbrev bs : List ℕ
  bs = addresses_of bl

  abbrev p : ℕ
  p = find_breakpoint_at_or_after bs a

  abbrev pre : List ℕ
  pre = stored (take p bs)

  abbrev post : List ℕ
  post = stored (drop p bs)

  place : length pre ≡ p * 8
  place = ground (
    arith,
    length-stored (take p bs),
    length-take p bs,
    (find_breakpoint_at_or_after-AllBelow bs a).0,
  )

  inserted :
      Returns
        (insert_into_array host bl.breakpoints (p * 8) (some (bytes_of 8 a)) 8)
        (Inserted host bl.breakpoints pre (bytes_of 8 a) post)
  inserted =
      rw (place, length-bytes_of 8 a) at
        (insert_into_array-Inserted host bl.breakpoints pre (bytes_of 8 a) post h.array
          (h.words
            ∙ sym (ap stored (take-append-drop p bs))
            ∙ stored-append (take p bs) (drop p bs))
          (omega (arith, length-bytes_of 8 a)))

  -- The list has the address among its words.
  listed :
      (b : Arrays.Array)
      → IsArray b
      → b.bytes ≡ pre ++ (bytes_of 8 a ++ post)
      → is_breakpoint bs p a ≡ false
      → Added bl a (reset_cursor (record bl { breakpoints = b }), success)
  listed b v bytes absent =
      let small = AllBelow-with_address (2 ^ 64) a bs word h.small in
      let shape : b.bytes ≡ stored (with_address bs a) =
        bytes ∙ sym (stored-append (take p bs) (a ∷ drop p bs)) in
      let same = ap words_of shape ∙ words_of-stored (with_address bs a) small in
      (
        record {
          array = v;
          words = shape ∙ ap stored (sym same);
          small = rw same small;
          ascending = rw same (Ascending-with_address bs a h.ascending absent);
        },
        (refl, inl refl),
        λ q. ap (λ ws. contains ws q) same ∙ contains-with_address bs a q,
      )

  -- The list of a failure.
  abbrev cleared : Arrays.Array → BreakpointListStatus → BreakpointList
  cleared b code = record bl { breakpoints = record b { status = Arrays.ok }; status = code }

  abbrev refused : BreakpointListStatus → BreakpointList
  refused code = cleared bl.breakpoints code

  kept : (code : BreakpointListStatus) → IsBreakpointList (refused code)
  kept code = record {
    array = record { stored = h.array.stored; limited = h.array.limited; word = h.array.word };
    words = h.words;
    small = h.small;
    ascending = h.ascending;
  }

  added :
      is_breakpoint bs p a ≡ false
      → Returns
          (insert_into_array host bl.breakpoints (p * 8) (some (bytes_of 8 a)) 8)
          (Inserted host bl.breakpoints pre (bytes_of 8 a) post)
      → Returns (add_breakpoint_to_list host bl a) (Added bl a)
  unfolding add_breakpoint_to_list add_failure
  added absent ((b, success), run, (v, bytes, limit)) = (
    (reset_cursor (record bl { breakpoints = b }), success),
    rw (find_breakpoint_at_or_after-leb bs a, absent, run) refl,
    listed b v bytes absent,
  )
  added absent ((b, failure), run, inl (same, over)) = (
    (refused list_full, failure),
    rw (find_breakpoint_at_or_after-leb bs a, absent, run, ap (λ (x : Arrays.Array). x.status) same)
        (ap (λ x. done (cleared x list_full, failure)) same),
    (
      kept list_full,
      (refl, inr (refl, refl)),
      refl,
      inl (refl, omega (arith, over, length-bytes_of 8 a, ap length h.words, length-stored bs)),
    ),
  )
  added absent ((b, failure), run, inr (same, no_memory)) = (
    (refused out_of_memory_error, failure),
    rw (find_breakpoint_at_or_after-leb bs a, absent, run, ap (λ (x : Arrays.Array). x.status) same)
        (ap (λ x. done (cleared x out_of_memory_error, failure)) same),
    (kept out_of_memory_error, (refl, inr (refl, refl)), refl, inr refl),
  )

  present : is_breakpoint bs p a ≡ true → Returns (add_breakpoint_to_list host bl a) (Added bl a)
  unfolding add_breakpoint_to_list
  present there = (
    (record bl { status = ok }, success),
    rw (find_breakpoint_at_or_after-leb bs a, there) refl,
    (
      record { array = h.array; words = h.words; small = h.small; ascending = h.ascending },
      (refl, inr (refl, refl)),
      λ q. contains-already bs a q (sym (is_breakpoint-contains bs a h.ascending) ∙ there),
    ),
  )

-- The addition of a 64-bit address to a list of ascending breakpoints always returns, without a failed
-- assertion, and leaves a list of ascending breakpoints. On success it has the address and those that
-- it had, and no other, whether the address was among them or not. On failure the breakpoints are as
-- before, and the status says that the list is full, which it then is, or that an allocation has failed.
-- The last program counter stays, and the cursor comes to stand behind the breakpoints up to it unless
-- the breakpoints are as before.
pub add_breakpoint_to_list-Added :
    (host : Host) (bl : BreakpointList) (a : ℕ)
    → IsBreakpointList bl
    → a < 2 ^ 64
    → Returns (add_breakpoint_to_list host bl a) (Added bl a)
add_breakpoint_to_list-Added host bl a h word =
    let bs = addresses_of bl in
    elim (Bool-cases (is_breakpoint bs (find_breakpoint_at_or_after bs a) a)) [
      | inl there ↦ present host bl a h word there
      | inr absent ↦ added host bl a h word absent (inserted host bl a h word)
    ]
