-- ===== src/Tests/Debugging.antt =====
-- Runs of the definitions for src/brkpt.c.
use unlambda.Base.{List, ◌≡◌, refl, false, [], ◌∷◌, ◌++◌, arith, ◌==◌, if◌then◌else◌}
use unlambda.Array as Arrays
use unlambda.Memory.Bytes.{bytes_of, words_of, number_of}
use unlambda.Breakpoints.Tracked.{IsTracked}
use unlambda.Breakpoints.Runs.{Request, query, add, remove, AllReply, perform-AllReply}
use unlambda.Tests.Stacks.{host}
use unlambda.Base.Run.{Returns}
use unlambda.Breakpoints.{
  BreakpointList, ok, addresses_of, is_at_breakpoint, reset_cursor, add_breakpoint_to_list,
  remove_breakpoint_from_list,
}
use unlambda.Breakpoints.Remove.{Removed, remove_breakpoint_from_list-Removed}
use unlambda.Breakpoints.Add.{IsBreakpointList, Added, add_breakpoint_to_list-Added}
use unlambda.Breakpoints.Search.{contains}
use unlambda.Breakpoints.Query.{IsBehind, is_at_breakpoint-contains, is_at_breakpoint-reset_cursor}

-- Breakpoints at 16 and 40; the machine was last at 20, and the cursor is at the second.
abbrev two_breakpoints : BreakpointList
two_breakpoints = record {
  breakpoints = record {
    data_start = 4096;
    bytes = bytes_of 8 16 ++ bytes_of 8 40;
    capacity = 16;
    max_size = 80;
    status = Arrays.ok;
  };
  current = 1;
  max_breakpoints = 10;
  last_pc = 20;
  status = ok;
}

two_breakpoints-IsBehind : IsBehind two_breakpoints
unfolding bytes_of words_of number_of
two_breakpoints-IsBehind = record {
  ascending = ((ground arith, tt), (tt, tt));
  inside = ground arith;
  passed = (ground arith, tt);
}

is_at_breakpoint-contains_example :
    ((is_at_breakpoint two_breakpoints 16).1 ≡ contains (addresses_of two_breakpoints) 16)
    × (addresses_of (is_at_breakpoint two_breakpoints 16).0 ≡ addresses_of two_breakpoints)
    × IsBehind (is_at_breakpoint two_breakpoints 16).0
is_at_breakpoint-contains_example =
    is_at_breakpoint-contains two_breakpoints 16 two_breakpoints-IsBehind

is_at_breakpoint-reset_cursor_example :
    (is_at_breakpoint (reset_cursor two_breakpoints) 40).1
    ≡ (if 40 == 20 then false else contains (addresses_of two_breakpoints) 40)
is_at_breakpoint-reset_cursor_example =
    is_at_breakpoint-reset_cursor two_breakpoints 40 two_breakpoints-IsBehind.ascending

two_breakpoints-IsBreakpointList : IsBreakpointList two_breakpoints
unfolding bytes_of words_of number_of
two_breakpoints-IsBreakpointList = record {
  array = record { stored = ground arith; limited = ground arith; word = ground arith };
  words = refl;
  small = (ground arith, (ground arith, tt));
  ascending = ((ground arith, tt), (tt, tt));
}

add_breakpoint_to_list-Added_example :
    Returns (add_breakpoint_to_list host two_breakpoints 24) (Added two_breakpoints 24)
add_breakpoint_to_list-Added_example =
    add_breakpoint_to_list-Added host two_breakpoints 24 two_breakpoints-IsBreakpointList
      (ground arith)

remove_breakpoint_from_list-Removed_example :
    Returns (remove_breakpoint_from_list two_breakpoints 40) (Removed two_breakpoints 40)
remove_breakpoint_from_list-Removed_example =
    remove_breakpoint_from_list-Removed two_breakpoints 40 two_breakpoints-IsBreakpointList

two_breakpoints-IsTracked : IsTracked two_breakpoints
unfolding bytes_of words_of number_of
two_breakpoints-IsTracked = record {
  list = two_breakpoints-IsBreakpointList;
  inside = ground arith;
  passed = (ground arith, tt);
}

abbrev four_requests : List Request
four_requests = query 40 ∷ add 24 ∷ remove 16 ∷ query 24 ∷ []

perform-AllReply_example : AllReply host two_breakpoints four_requests
perform-AllReply_example =
    perform-AllReply host two_breakpoints four_requests two_breakpoints-IsTracked
      (tt, (ground arith, (tt, (tt, tt))))
