-- ===== src/Body/Trace/Laws.antt =====
-- internal/body/trace.go: what a finished span tells.
use hydra_db.Base.{◌+◌, ◌<◌, ◌^◌, ◌≡◌, arith, String, pos, Time}
use hydra_db.Body.Trace.{SpanStatus, Span, child, finish, duration}

-- A child span belongs to its parent's trace and head, and names the parent; until it is finished
-- its duration is zero, and finished it is the time that has passed since its start, if that is
-- less than 2 ^ 63 nanoseconds and the clock did not go back.
pub finish-child :
    (uuid action : String) (start elapsed : Time) (status : SpanStatus) (parent : Span)
    → 0 < start
    → elapsed < 2 ^ 63
    → let s = child uuid start parent action in
      (s.trace_id ≡ parent.trace_id)
      × (s.head ≡ parent.head)
      × (s.parent_id ≡ parent.id)
      × (duration s ≡ pos 0)
      × ((finish (start + elapsed) status s).trace_id ≡ parent.trace_id)
      × (duration (finish (start + elapsed) status s) ≡ pos elapsed)
unfolding child finish duration
finish-child uuid action start elapsed status parent began fits = ground arith
