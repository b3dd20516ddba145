-- ===== src/Breakpoints/Tracked.antt =====
-- The cursor of src/brkpt.c between queries and changes of the list.
use unlambda.Base.{
  ℕ, zero, suc, ◌+◌, ◌≤◌, ◌<◌, ◌≡◌, sym, ◌∙◌, ◌⊎◌, inl, inr, Bool, true, false, List, [], ◌∷◌,
  length, take, drop, ltb, Bool-cases, arith,
}
use unlambda.Breakpoints.{
  BreakpointList, addresses_of, find_breakpoint_at_or_after, is_breakpoint, is_at_breakpoint,
}
use unlambda.Breakpoints.Search.{
  AllBelow, AllBelow-le, contains, find_breakpoint_at_or_after-AllBelow,
  find_breakpoint_after-AllBelow, is_breakpoint-contains, move_cursor-find_breakpoint_at_or_after,
}
use unlambda.Breakpoints.Query.{next_cursor}
use unlambda.Breakpoints.Add.{CursorReset, IsBreakpointList}

-- What lies before the cursor is not above the last program counter.
pub record IsTracked (bl : BreakpointList) : Type 0 where
  pub list : IsBreakpointList bl
  pub inside : bl.current ≤ length (addresses_of bl)
  pub passed : AllBelow (suc bl.last_pc) (take bl.current (addresses_of bl))

pub CursorReset-IsTracked :
    (bl bl' : BreakpointList)
    → IsTracked bl
    → IsBreakpointList bl'
    → CursorReset bl bl'
    → IsTracked bl'
CursorReset-IsTracked bl bl' h list (pc, inl moved) =
    let (inside, passed) =
      find_breakpoint_after-AllBelow (addresses_of bl') bl.last_pc (suc bl.last_pc) (omega arith) in
    record { list = list; inside = rw moved inside; passed = rw (pc, moved) passed }
CursorReset-IsTracked bl bl' h list (pc, inr (still, same)) = record {
  list = list;
  inside = rw (still, same) h.inside;
  passed = rw (pc, still, same) h.passed;
}

-- A breakpoint at an index is one of the list.
is_breakpoint-contained :
    (bs : List ℕ) (i a : ℕ) → is_breakpoint bs i a ≡ true → contains bs a ≡ true
unfolding is_breakpoint
is_breakpoint-contained [] i a e = cc
is_breakpoint-contained (b ∷ bs) zero a e = ground (arith, e)
is_breakpoint-contained (b ∷ bs) (suc i) a e = ground (arith, is_breakpoint-contained bs i a e)

-- The walk of the cursor stays in the list, and passes what is below the counter.
walk-AllBelow :
    (bs : List ℕ) (pc c : ℕ)
    → c ≤ length bs
    → AllBelow (suc pc) (take c bs)
    → (c + find_breakpoint_at_or_after (drop c bs) pc ≤ length bs)
      × AllBelow (suc pc) (take (c + find_breakpoint_at_or_after (drop c bs) pc) bs)
walk-AllBelow bs pc zero h below =
    let at_start : 0 + find_breakpoint_at_or_after bs pc ≡ find_breakpoint_at_or_after bs pc =
      omega arith in
    let (inside, passed) = find_breakpoint_at_or_after-AllBelow bs pc in
    rw at_start (
      inside,
      AllBelow-le pc (suc pc) (take (find_breakpoint_at_or_after bs pc) bs) (omega arith) passed,
    )
walk-AllBelow [] pc (suc c) h below = absurd (omega arith)
walk-AllBelow (b ∷ bs) pc (suc c) h (here, below) =
    let rest = find_breakpoint_at_or_after (drop c bs) pc in
    let (inside, passed) = walk-AllBelow bs pc c (omega arith) below in
    let next : suc c + rest ≡ suc (c + rest) = omega arith in
    rw next (omega (arith, inside), (here, passed))

-- The answer is membership; or it denies the last program counter.
abbrev pub Answered : BreakpointList → ℕ → Bool → Type 0
Answered bl pc answer =
    (answer ≡ contains (addresses_of bl) pc) ⊎ ((pc ≡ bl.last_pc) × (answer ≡ false))

-- A query elsewhere than at the last program counter.
elsewhere :
    (bl : BreakpointList) (pc : ℕ)
    → IsTracked bl
    → (pc < bl.last_pc) ⊎ AllBelow pc (take bl.current (addresses_of bl))
    → ((is_at_breakpoint bl pc).1 ≡ contains (addresses_of bl) pc)
      × IsTracked (is_at_breakpoint bl pc).0
elsewhere bl pc h way =
    let bs = addresses_of bl in
    let next = next_cursor bl pc h.inside way in
    let (inside, passed) = find_breakpoint_at_or_after-AllBelow bs pc in
    rw next (
      is_breakpoint-contains bs pc h.list.ascending,
      record {
        list = record {
          array = h.list.array;
          words = h.list.words;
          small = h.list.small;
          ascending = h.list.ascending;
        };
        inside = inside;
        passed =
            AllBelow-le pc (suc pc) (take (find_breakpoint_at_or_after bs pc) bs) (omega arith)
              passed;
      },
    )

-- The cursor of a query at the last program counter walks on.
walk_on :
    (bl : BreakpointList) (pc : ℕ)
    → pc ≡ bl.last_pc
    → is_at_breakpoint bl pc ≡ (
      record bl {
        current = bl.current + find_breakpoint_at_or_after (drop bl.current (addresses_of bl)) pc;
        last_pc = pc;
      },
      is_breakpoint
          (addresses_of bl)
          (bl.current + find_breakpoint_at_or_after (drop bl.current (addresses_of bl)) pc)
          pc,
    )
unfolding is_at_breakpoint
walk_on bl pc e = ground (
  arith,
  e,
  move_cursor-find_breakpoint_at_or_after (drop bl.current (addresses_of bl)) pc bl.current,
)

-- A query at the last program counter.
again :
    (bl : BreakpointList) (pc : ℕ)
    → IsTracked bl
    → pc ≡ bl.last_pc
    → Answered bl pc (is_at_breakpoint bl pc).1 × IsTracked (is_at_breakpoint bl pc).0
again bl pc h e =
    let bs = addresses_of bl in
    let next = bl.current + find_breakpoint_at_or_after (drop bl.current bs) pc in
    let (inside, passed) = walk-AllBelow bs pc bl.current h.inside (rw e h.passed) in
    rw (walk_on bl pc e) (
      elim (Bool-cases (is_breakpoint bs next pc)) [
        | inl hit ↦ inl (hit ∙ sym (is_breakpoint-contained bs next pc hit))
        | inr miss ↦ inr (e, miss)
      ],
      record {
        list = record {
          array = h.list.array;
          words = h.list.words;
          small = h.list.small;
          ascending = h.list.ascending;
        };
        inside = inside;
        passed = passed;
      },
    )

pub query-Answered :
    (bl : BreakpointList) (pc : ℕ)
    → IsTracked bl
    → Answered bl pc (is_at_breakpoint bl pc).1 × IsTracked (is_at_breakpoint bl pc).0
query-Answered bl pc h =
    let bs = addresses_of bl in
    elim (Bool-cases (ltb pc bl.last_pc)) [
      | inl back ↦
          let (answer, tracked) = elsewhere bl pc h (inl (ground (arith, back))) in
          (inl answer, tracked)
      | inr forward ↦ elim (Bool-cases (ltb bl.last_pc pc)) [
        | inl over ↦
            let below =
              AllBelow-le (suc bl.last_pc) pc (take bl.current bs) (ground (arith, over))
                h.passed in
            let (answer, tracked) = elsewhere bl pc h (inr below) in (inl answer, tracked)
        | inr same ↦ again bl pc h (ground (arith, forward, same))
      ]
    ]
