-- ===== src/Breakpoints/Runs.antt =====
-- Runs of queries, additions and removals on the breakpoints of src/brkpt.c.
use unlambda.Base.{ℕ, ◌^◌, ◌<◌, ◌≡◌, refl, Bool, List, [], ◌∷◌, Return, success, failure}
use unlambda.Base.Host.{Host}
use unlambda.Base.Run.{Run, done, Returns, ◌>>=◌}
use unlambda.Breakpoints.{
  BreakpointList, addresses_of, is_at_breakpoint, add_breakpoint_to_list,
  remove_breakpoint_from_list,
}
use unlambda.Breakpoints.Add.{Added, add_breakpoint_to_list-Added}
use unlambda.Breakpoints.Remove.{Removed, remove_breakpoint_from_list-Removed}
use unlambda.Breakpoints.Tracked.{IsTracked, CursorReset-IsTracked, Answered, query-Answered}

-- What the debugger asks of the list, and the reply.
pub data Request : Type 0 where
  query add remove : ℕ → Request

pub data Reply : Type 0 where
  answered : Bool → Reply
  changed : Return → Reply

unfoldable pub perform : Host → BreakpointList → Request → Run (BreakpointList × Reply)
perform host bl (query pc) =
    let (bl', answer) = is_at_breakpoint bl pc in done (bl', answered answer)
perform host bl (add a) = do
  (bl', code) ← add_breakpoint_to_list host bl a
  done (bl', changed code)
perform host bl (remove a) = do
  (bl', code) ← remove_breakpoint_from_list bl a
  done (bl', changed code)

-- The reply to a request, and what it does to the breakpoints.
abbrev pub IsReply : BreakpointList → Request → BreakpointList × Reply → Type 0
IsReply bl (query pc) (bl', answered answer) =
    Answered bl pc answer × (addresses_of bl' ≡ addresses_of bl) × (bl'.last_pc ≡ pc)
IsReply bl (add a) (bl', changed code) = Added bl a (bl', code)
IsReply bl (remove a) (bl', changed code) = Removed bl a (bl', code)
IsReply _ _ _ = ⊥

-- Each request of a run returns with such a reply.
abbrev pub AllReply : Host → BreakpointList → List Request → Type 0
AllReply host bl [] = IsTracked bl
AllReply host bl (r ∷ rs) = Returns (perform host bl r) (λ q. IsReply bl r q × AllReply host q.0 rs)

abbrev pub IsWord : Request → Type 0
IsWord (query pc) = Unit
IsWord (add a) = a < 2 ^ 64
IsWord (remove a) = Unit

abbrev pub AreWords : List Request → Type 0
AreWords [] = Unit
AreWords (r ∷ rs) = IsWord r × AreWords rs

perform-IsReply :
    (host : Host) (bl : BreakpointList) (r : Request)
    → IsTracked bl
    → IsWord r
    → Returns (perform host bl r) (λ q. IsReply bl r q × IsTracked q.0)
unfolding perform is_at_breakpoint
perform-IsReply host bl (query pc) h word =
    let (answer, tracked) = query-Answered bl pc h in
    (
      ((is_at_breakpoint bl pc).0, answered (is_at_breakpoint bl pc).1),
      refl,
      ((answer, refl, refl), tracked),
    )
perform-IsReply host bl (add a) h word =
    let ((bl', code), run, out) = add_breakpoint_to_list-Added host bl a h.list word in
    ((bl', changed code), rw (perform, run) refl, (out, added bl' code out))
  where
    added : (bl' : BreakpointList) (code : Return) → Added bl a (bl', code) → IsTracked bl'
    added bl' success (list, cursor, _) = CursorReset-IsTracked bl bl' h list cursor
    added bl' failure (list, cursor, _, _) = CursorReset-IsTracked bl bl' h list cursor
perform-IsReply host bl (remove a) h word =
    let ((bl', code), run, (good, list, cursor, finds)) =
      remove_breakpoint_from_list-Removed bl a h.list in
    (
      (bl', changed code),
      rw (perform, run) refl,
      ((good, list, cursor, finds), CursorReset-IsTracked bl bl' h list cursor),
    )

-- In every run of queries, additions of 64-bit addresses and removals, from a list of ascending
-- breakpoints whose cursor has nothing above the last program counter behind it, each request returns,
-- without a failed assertion. A query answers whether the program counter is one of the breakpoints at
-- that time, except that it may deny the last program counter, and it changes no breakpoint; an
-- addition and a removal change the one address, or fail and change none. The list that the run
-- leaves satisfies the condition again.
pub perform-AllReply :
    (host : Host) (bl : BreakpointList) (rs : List Request)
    → IsTracked bl
    → AreWords rs
    → AllReply host bl rs
perform-AllReply host bl [] h words = h
perform-AllReply host bl (r ∷ rs) h (word, words) =
    let (q, run, (reply, tracked)) = perform-IsReply host bl r h word in
    (q, run, (reply, perform-AllReply host q.0 rs tracked words))
