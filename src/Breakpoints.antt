-- ===== src/Breakpoints.antt =====
-- src/brkpt.c: the breakpoints of the debugger, in an array of 64-bit words, with a cursor that
-- follows the program counter. Pointers into the list are indices.
pub mod Search
pub mod Query
pub mod Words
pub mod Add
pub mod Remove
pub mod Tracked
pub mod Runs
use unlambda.Base.{
  ℕ, zero, suc, ◌+◌, ◌*◌, ◌/◌, Bool, true, false, Option, none, some, List, [], ◌∷◌, length, drop,
  get_elem?, ltb, leb, ◌==◌, if◌then◌else◌, Return, success, failure,
}
use unlambda.Base.Host.{Host}
use unlambda.Base.Run.{Run, done, null_dereference, assertion_failed, ◌>>=◌, ◌>>◌, assert}
use unlambda.Array.{
  Array, sequence_too_long, out_of_memory, array_size, set_array_status, create_array,
  insert_into_array, remove_from_array, clear_array,
}
use unlambda.Array as Arrays
use unlambda.Memory.Bytes.{bytes_of, words_of}

-- `statusCode`: 0 and the four BreakpointList...Error constants.
pub data BreakpointListStatus : Type 0 where
  ok invalid_argument list_full out_of_memory_error other_error : BreakpointListStatus

pub record BreakpointList : Type 0 where
  pub breakpoints : Array
  pub current : ℕ
  pub max_breakpoints : ℕ
  pub last_pc : ℕ
  pub status : BreakpointListStatus

abbrev pub addresses_of : BreakpointList → List ℕ
addresses_of bl = words_of bl.breakpoints.bytes

abbrev pub set_breakpoint_list_status : BreakpointList → BreakpointListStatus → BreakpointList
set_breakpoint_list_status bl code = record bl { status = code }

-- The result of the first `malloc` is not tested. `list_size` and `array_impl_size` are the sizes
-- of the two structures.
unfoldable pub create_breakpoint_list : Host → ℕ → ℕ → ℕ → Run (Option BreakpointList)
create_breakpoint_list host list_size array_impl_size max_breakpoints =
    if max_breakpoints == 0 then done none else elim (host.malloc list_size) [
      | none ↦ null_dereference
      | some _ ↦ do
        made ← create_array host array_impl_size [] (max_breakpoints * 8)
        elim made [
          | none ↦ done none
          | some a ↦ done (
              some (record {
                breakpoints = a;
                current = 0;
                max_breakpoints = max_breakpoints;
                last_pc = 0;
                status = ok;
              }))
        ]
    ]

-- The index of the first breakpoint that is the address.
unfoldable pub find_breakpoint_in_list : List ℕ → ℕ → Option ℕ
find_breakpoint_in_list [] address = none
find_breakpoint_in_list (b ∷ bs) address =
    if b == address
    then some 0
    else elim (find_breakpoint_in_list bs address) [ none ↦ none | some i ↦ some (suc i) ]

-- The index of the first breakpoint that is not below the address, or the end; and of the first
-- that is above it.
unfoldable pub find_breakpoint_at_or_after : List ℕ → ℕ → ℕ
find_breakpoint_at_or_after [] address = 0
find_breakpoint_at_or_after (b ∷ bs) address =
    let rest = find_breakpoint_at_or_after bs address in if ltb b address then suc rest else 0

unfoldable pub find_breakpoint_after : List ℕ → ℕ → ℕ
find_breakpoint_after [] address = 0
find_breakpoint_after (b ∷ bs) address =
    let rest = find_breakpoint_after bs address in if leb b address then suc rest else 0

-- The breakpoint at an index is there, and is the address.
unfoldable pub is_breakpoint : List ℕ → ℕ → ℕ → Bool
is_breakpoint bs i address = elim (get_elem? bs i) [ none ↦ false | some b ↦ b == address ]

-- The loop that moves the cursor, over the breakpoints from the cursor on.
unfoldable pub move_cursor : List ℕ → ℕ → ℕ → ℕ
move_cursor [] pc current = current
move_cursor (b ∷ bs) pc current =
    let rest = move_cursor bs pc (suc current) in if ltb b pc then rest else current

unfoldable pub is_at_breakpoint : BreakpointList → ℕ → BreakpointList × Bool
is_at_breakpoint bl pc =
    let bs = addresses_of bl in
    let next =
      if ltb pc bl.last_pc
      then find_breakpoint_at_or_after bs pc
      else move_cursor (drop bl.current bs) pc bl.current in
    (record bl { current = next; last_pc = pc }, is_breakpoint bs next pc)

-- The cursor after the list has changed.
abbrev pub reset_cursor : BreakpointList → BreakpointList
reset_cursor bl = record bl {
  current = find_breakpoint_after (addresses_of bl) bl.last_pc;
  status = ok;
}

-- How a failed insertion is reported.
unfoldable pub add_failure : BreakpointList → Run (BreakpointList × Return)
add_failure bl =
    let cleared = record bl { breakpoints = set_array_status bl.breakpoints Arrays.ok } in
    elim bl.breakpoints.status [
      | sequence_too_long ↦ done (set_breakpoint_list_status cleared list_full, failure)
      | out_of_memory ↦ done (set_breakpoint_list_status cleared out_of_memory_error, failure)
      | _ ↦ assertion_failed
    ]

unfoldable pub add_breakpoint_to_list : Host → BreakpointList → ℕ → Run (BreakpointList × Return)
add_breakpoint_to_list host bl address =
    let bs = addresses_of bl in
    let p = find_breakpoint_at_or_after bs address in
    assert (elim (get_elem? bs p) [ none ↦ true | some b ↦ leb address b ])
    >> (if is_breakpoint bs p address then done (set_breakpoint_list_status bl ok, success) else (do
      (a, code) ← insert_into_array host bl.breakpoints (p * 8) (some (bytes_of 8 address)) 8
      let bl' = record bl { breakpoints = a }
      elim code [ success ↦ done (reset_cursor bl', success) | failure ↦ add_failure bl' ]))

unfoldable pub remove_breakpoint_from_list : BreakpointList → ℕ → Run (BreakpointList × Return)
remove_breakpoint_from_list bl address = elim (find_breakpoint_in_list (addresses_of bl) address) [
  | none ↦ done (set_breakpoint_list_status bl ok, success)
  | some p ↦ do
    (a, code) ← remove_from_array bl.breakpoints (p * 8) 8
    let bl' = record bl { breakpoints = a }
    elim code [
      | success ↦ done (reset_cursor bl', success)
      | failure ↦ done (
        set_breakpoint_list_status (record bl' { breakpoints = set_array_status a Arrays.ok })
            other_error,
        failure,
      )
    ]
]

unfoldable pub clear_breakpoint_list : BreakpointList → BreakpointList
clear_breakpoint_list bl = record bl {
  breakpoints = clear_array bl.breakpoints;
  current = 0;
  status = ok;
}
