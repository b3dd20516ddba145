-- ===== src/Breakpoints/Query.antt =====
-- `isAtBreakpoint` of src/brkpt.c against membership.
use unlambda.Base.{
  ℕ, ◌≤◌, ◌<◌, ◌≡◌, refl, ◌∙◌, ap, ◌⊎◌, inl, inr, false, length, take, drop, ltb, ◌==◌,
  if◌then◌else◌, Bool-cases, arith,
}
use unlambda.Breakpoints.{
  BreakpointList, addresses_of, find_breakpoint_at_or_after, find_breakpoint_after, is_breakpoint,
  is_at_breakpoint, reset_cursor,
}
use unlambda.Breakpoints.Search.{
  AllBelow, Ascending, contains, AllBelow-le, move_cursor-find_breakpoint_at_or_after,
  is_breakpoint-contains, from_cursor, find_breakpoint_at_or_after-AllBelow,
  find_breakpoint_after-AllBelow, past,
}

-- What lies before the cursor is below the last program counter.
pub record IsBehind (bl : BreakpointList) : Type 0 where
  pub ascending : Ascending (addresses_of bl)
  pub inside : bl.current ≤ length (addresses_of bl)
  pub passed : AllBelow bl.last_pc (take bl.current (addresses_of bl))

-- The cursor of a query, from a cursor that the program counter has not been behind.
pub next_cursor :
    (bl : BreakpointList) (pc : ℕ)
    → bl.current ≤ length (addresses_of bl)
    → (pc < bl.last_pc) ⊎ AllBelow pc (take bl.current (addresses_of bl))
    → is_at_breakpoint bl pc ≡ (
      record bl { current = find_breakpoint_at_or_after (addresses_of bl) pc; last_pc = pc },
      is_breakpoint (addresses_of bl) (find_breakpoint_at_or_after (addresses_of bl) pc) pc,
    )
unfolding is_at_breakpoint
next_cursor bl pc inside (inl back) = ground arith
next_cursor bl pc inside (inr below) =
    let forward =
      move_cursor-find_breakpoint_at_or_after (drop bl.current (addresses_of bl)) pc bl.current
      ∙ from_cursor (addresses_of bl) pc bl.current inside below in
    ground (arith, forward)

-- A query answers whether the program counter is one of the breakpoints, whether the counter went
-- forwards or backwards, if the list ascends and what lies before the cursor is below the last
-- counter. The cursor and the counter that it leaves satisfy this again.
pub is_at_breakpoint-contains :
    (bl : BreakpointList) (pc : ℕ)
    → IsBehind bl
    → ((is_at_breakpoint bl pc).1 ≡ contains (addresses_of bl) pc)
      × (addresses_of (is_at_breakpoint bl pc).0 ≡ addresses_of bl)
      × IsBehind (is_at_breakpoint bl pc).0
is_at_breakpoint-contains bl pc h =
    let bs = addresses_of bl in
    let way : (pc < bl.last_pc) ⊎ AllBelow pc (take bl.current bs) =
      elim (Bool-cases (ltb pc bl.last_pc)) [
        | inl back ↦ inl (ground arith)
        | inr forward ↦ inr (AllBelow-le bl.last_pc pc (take bl.current bs) (ground arith) h.passed)
      ] in
    let next = next_cursor bl pc h.inside way in
    let (inside, passed) = find_breakpoint_at_or_after-AllBelow bs pc in
    rw next (
      is_breakpoint-contains bs pc h.ascending,
      refl,
      record { ascending = h.ascending; inside = inside; passed = passed },
    )

-- The first query after the list has changed answers in the same way, except that it denies a
-- breakpoint at the last program counter.
pub is_at_breakpoint-reset_cursor :
    (bl : BreakpointList) (pc : ℕ)
    → Ascending (addresses_of bl)
    → (is_at_breakpoint (reset_cursor bl) pc).1
      ≡ (if pc == bl.last_pc then false else contains (addresses_of bl) pc)
unfolding is_at_breakpoint
is_at_breakpoint-reset_cursor bl pc up =
    let bs = addresses_of bl in
    let hit = is_breakpoint-contains bs pc up in
    elim (Bool-cases (ltb pc bl.last_pc)) [
      | inl back ↦ ground (arith, hit)
      | inr forward ↦ elim (Bool-cases (pc == bl.last_pc)) [
        | inl e ↦
            let same : bl.last_pc ≡ pc = ground arith in
            let (stays, no_hit) = past bs pc in
            let walk =
              move_cursor-find_breakpoint_at_or_after (drop (find_breakpoint_after bs pc) bs) pc
                (find_breakpoint_after bs pc) in
            ground (arith, same, ap (find_breakpoint_after bs) same, stays, no_hit, walk)
        | inr e ↦
            let (inside, below) = find_breakpoint_after-AllBelow bs bl.last_pc pc (ground arith) in
            let walk =
              move_cursor-find_breakpoint_at_or_after
                (drop (find_breakpoint_after bs bl.last_pc) bs) pc
                (find_breakpoint_after bs bl.last_pc)
              ∙ from_cursor bs pc (find_breakpoint_after bs bl.last_pc) inside below in
            ground (arith, hit, walk)
      ]
    ]
