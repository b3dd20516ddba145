-- ===== src/Breakpoints/Remove.antt =====
-- `removeBreakpointFromList` of src/brkpt.c on a list of ascending breakpoints.
use unlambda.Base.{
  ℕ, ◌*◌, ◌^◌, ◌≤◌, ◌<◌, ◌≡◌, refl, ap, ◌∙◌, sym, inl, inr, ◌&&◌, not, false, none, some, List, [],
  ◌∷◌, ◌++◌, length, length-append, ◌==◌, Bool-cases, Option-cases, arith, Return, success,
}
use unlambda.Base.Run.{done, Returns}
use unlambda.Memory.Bytes.{bytes_of, words_of, length-bytes_of}
use unlambda.Array as Arrays
use unlambda.Array.{remove_from_array}
use unlambda.Array.Edit.{remove_from_array-append}
use unlambda.Breakpoints.{
  BreakpointList, ok, addresses_of, find_breakpoint_in_list, remove_breakpoint_from_list,
  reset_cursor,
}
use unlambda.Breakpoints.Search.{AllAbove, AllBelow, Ascending, contains, contains_none}
use unlambda.Breakpoints.Words.{stored, words_of-stored, stored-append, length-stored}
use unlambda.Breakpoints.Add.{CursorReset, IsBreakpointList}

AllAbove-without :
    (c a : ℕ) (pre post : List ℕ)
    → AllAbove c (pre ++ a ∷ post)
    → (c < a) × AllAbove c (pre ++ post)
AllAbove-without c a [] post (here, above) = (here, above)
AllAbove-without c a (b ∷ pre) post (here, above) =
    let rest = AllAbove-without c a pre post above in (rest.0, (here, rest.1))

AllBelow-without :
    (c a : ℕ) (pre post : List ℕ) → AllBelow c (pre ++ a ∷ post) → AllBelow c (pre ++ post)
AllBelow-without c a [] post (here, below) = below
AllBelow-without c a (b ∷ pre) post (here, below) = (here, AllBelow-without c a pre post below)

Ascending-without :
    (a : ℕ) (pre post : List ℕ) → Ascending (pre ++ a ∷ post) → Ascending (pre ++ post)
Ascending-without a [] post (above, up) = up
Ascending-without a (b ∷ pre) post (above, up) =
    ((AllAbove-without b a pre post above).1, Ascending-without a pre post up)

contains-without :
    (a : ℕ) (pre post : List ℕ) (q : ℕ)
    → Ascending (pre ++ a ∷ post)
    → contains (pre ++ post) q ≡ (not (a == q) && contains (pre ++ a ∷ post) q)
contains-without a [] post q (above, up) = elim (Bool-cases (a == q)) [
  | inl e ↦ rw e (contains_none q a post above (ground (arith, e)))
  | inr e ↦ rw e refl
]
contains-without a (b ∷ pre) post q (above, up) =
    ground (arith, (AllAbove-without b a pre post above).0, contains-without a pre post q up)

find_breakpoint_in_list-none :
    (bs : List ℕ) (a : ℕ) → find_breakpoint_in_list bs a ≡ none → contains bs a ≡ false
unfolding find_breakpoint_in_list
find_breakpoint_in_list-none [] a e = refl
find_breakpoint_in_list-none (b ∷ bs) a e =
    ground (arith, find_breakpoint_in_list-none bs a, Option-cases (find_breakpoint_in_list bs a))

find_breakpoint_in_list-some :
    (bs : List ℕ) (a p : ℕ)
    → find_breakpoint_in_list bs a ≡ some p
    → (pre : List ℕ) × (post : List ℕ) × (bs ≡ pre ++ a ∷ post) × (length pre ≡ p)
unfolding find_breakpoint_in_list
find_breakpoint_in_list-some [] a p e = cc
find_breakpoint_in_list-some (b ∷ bs) a p e = elim (Bool-cases (b == a)) [
  | inl same ↦
      let at_b : b ≡ a = ground (arith, same) in
      ([], bs, ap (λ c. c ∷ bs) at_b, ground (arith, same, e))
  | inr other ↦ elim (Option-cases (find_breakpoint_in_list bs a)) [
    | inl f ↦ absurd (ground (arith, other, f, e))
    | inr (k, f) ↦
        let (pre, post, shape, size) = find_breakpoint_in_list-some bs a k f in
        (b ∷ pre, post, ap (λ t. b ∷ t) shape, ground (arith, other, f, e, size))
  ]
]

contains-absent :
    (bs : List ℕ) (a q : ℕ)
    → contains bs a ≡ false
    → contains bs q ≡ (not (a == q) && contains bs q)
contains-absent bs a q absent = elim (Bool-cases (a == q)) [
  | inl e ↦ let same : q ≡ a = ground (arith, e) in rw (e, same) absent
  | inr e ↦ rw e refl
]

-- The result is a list of ascending breakpoints, those that there were but for the address.
abbrev pub Removed : BreakpointList → ℕ → BreakpointList × Return → Type 0
Removed bl a (bl', code) =
    (code ≡ success)
    × IsBreakpointList bl'
    × CursorReset bl bl'
    × ((q : ℕ) → contains (addresses_of bl') q ≡ (not (a == q) && contains (addresses_of bl) q))

module _ (bl : BreakpointList) (a : ℕ) (h : IsBreakpointList bl) where
  abbrev bs : List ℕ
  bs = addresses_of bl

  absent-Removed :
      find_breakpoint_in_list bs a ≡ none
      → Returns (remove_breakpoint_from_list bl a) (Removed bl a)
  unfolding remove_breakpoint_from_list
  absent-Removed e = (
    (record bl { status = ok }, success),
    rw (remove_breakpoint_from_list, e) refl,
    (
      refl,
      record { array = h.array; words = h.words; small = h.small; ascending = h.ascending },
      (refl, inr (refl, refl)),
      λ q. contains-absent bs a q (find_breakpoint_in_list-none bs a e),
    ),
  )

  -- The list without the word between `pre` and `post`.
  unlisted :
      (b : Arrays.Array) (pre post : List ℕ)
      → bs ≡ pre ++ a ∷ post
      → b.bytes ≡ stored pre ++ stored post
      → b.max_size ≡ bl.breakpoints.max_size
      → b.capacity ≡ bl.breakpoints.capacity
      → length b.bytes ≤ length bl.breakpoints.bytes
      → Removed bl a (reset_cursor (record bl { breakpoints = b }), success)
  unlisted b pre post shape bytes limit room less =
      let up : Ascending (pre ++ a ∷ post) = rw shape at h.ascending in
      let small = AllBelow-without (2 ^ 64) a pre post (rw shape at h.small) in
      let whole : b.bytes ≡ stored (pre ++ post) = bytes ∙ sym (stored-append pre post) in
      let same = ap words_of whole ∙ words_of-stored (pre ++ post) small in
      (
        refl,
        record {
          array = record {
            stored = omega (arith, less, room, h.array.stored);
            limited = omega (arith, limit, room, h.array.limited);
            word = omega (arith, limit, h.array.word);
          };
          words = whole ∙ ap stored (sym same);
          small = rw same small;
          ascending = rw same (Ascending-without a pre post up);
        },
        (refl, inl refl),
        λ q.
            ap (λ ws. contains ws q) same
            ∙ contains-without a pre post q up
            ∙ ap (λ ws. not (a == q) && contains ws q) (sym shape),
      )

  removed :
      (p : ℕ) (b : Arrays.Array) (code : Return)
      → find_breakpoint_in_list bs a ≡ some p
      → remove_from_array bl.breakpoints (p * 8) 8 ≡ done (b, code)
      → code ≡ success
      → remove_breakpoint_from_list bl a
        ≡ done (reset_cursor (record bl { breakpoints = b }), success)
  unfolding remove_breakpoint_from_list
  removed p b code e run ends = rw (remove_breakpoint_from_list, e, run, ends) refl

  present-Removed :
      (p : ℕ)
      → find_breakpoint_in_list bs a ≡ some p
      → Returns (remove_breakpoint_from_list bl a) (Removed bl a)
  present-Removed p e =
      let (pre, post, shape, place) = find_breakpoint_in_list-some bs a p e in
      let bytes : bl.breakpoints.bytes ≡ stored pre ++ (bytes_of 8 a ++ stored post) =
        h.words ∙ ap stored shape ∙ stored-append pre (a ∷ post) in
      let at_p : length (stored pre) ≡ p * 8 = omega (arith, length-stored pre, place) in
      let sizes = ap length bytes ∙ length-append (stored pre) (bytes_of 8 a ++ stored post) in
      let ((b, code), run, (done_well, left, limit, room)) =
        remove_from_array-append bl.breakpoints (stored pre) (bytes_of 8 a) (stored post) 8 bytes
          (omega (
            arith,
            sizes,
            length-append (bytes_of 8 a) (stored post),
            length-bytes_of 8 a,
            h.array.stored,
            h.array.limited,
            h.array.word,
          ))
          (inl (length-bytes_of 8 a)) in
      (
        (reset_cursor (record bl { breakpoints = b }), success),
        removed p b code e (ap (λ k. remove_from_array bl.breakpoints k 8) (sym at_p) ∙ run)
            done_well,
        unlisted b pre post shape left limit room (
            omega (
              arith,
              sizes,
              length-append (bytes_of 8 a) (stored post),
              ap length left,
              length-append (stored pre) (stored post),
            )),
      )

-- The removal of an address from a list of ascending breakpoints always returns, without a failed
-- assertion, and succeeds. It leaves a list of ascending breakpoints with those that there were but for
-- the address, whether the address was among them or not. The last program counter stays, and the
-- cursor comes to stand behind the breakpoints up to it unless the breakpoints are as before.
pub remove_breakpoint_from_list-Removed :
    (bl : BreakpointList) (a : ℕ)
    → IsBreakpointList bl
    → Returns (remove_breakpoint_from_list bl a) (Removed bl a)
remove_breakpoint_from_list-Removed bl a h =
    elim (Option-cases (find_breakpoint_in_list (addresses_of bl) a)) [
      | inl e ↦ absent-Removed bl a h e
      | inr (p, e) ↦ present-Removed bl a h p e
    ]
