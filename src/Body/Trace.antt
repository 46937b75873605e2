-- ===== src/Body/Trace.antt =====
-- internal/body/trace.go: spans of a trace.
pub mod Laws
use hydra_db.Base.{
  String, Bool, if◌then◌else◌, ℤ, sub_ℕ, pos, negsuc, GoMap, empty, put, Time, is_zero, zero_time,
  ltb,
}

pub data SpanStatus : Type 0 where
  ok error pending : SpanStatus

pub record Span : Type 0 where
  pub id : String
  pub trace_id : String
  pub parent_id : String
  pub head : String
  pub action : String
  pub status : SpanStatus
  pub started_at : Time
  pub ended_at : Time
  pub metadata : GoMap String

-- `uuid` is the generated identifier and `now` the clock, here and in `child`.
unfoldable pub new_span : (uuid : String) (now : Time) → (trace_id head action : String) → Span
new_span uuid now trace_id head action = record {
  id = uuid;
  trace_id = trace_id;
  parent_id = "";
  head = head;
  action = action;
  status = pending;
  started_at = now;
  ended_at = zero_time;
  metadata = empty;
}

unfoldable pub child : (uuid : String) (now : Time) → Span → (action : String) → Span
child uuid now parent action = record {
  id = uuid;
  trace_id = parent.trace_id;
  parent_id = parent.id;
  head = parent.head;
  action = action;
  status = pending;
  started_at = now;
  ended_at = zero_time;
  metadata = empty;
}

unfoldable pub finish : (now : Time) → SpanStatus → Span → Span
finish now status s = record s { status = status; ended_at = now }

-- `Sub` yields the nearest `Duration` where the difference does not fit.
saturate : ℤ → ℤ
saturate (pos n) = if ltb n 9223372036854775808 then pos n else pos 9223372036854775807
saturate (negsuc n) = if ltb n 9223372036854775808 then negsuc n else negsuc 9223372036854775807

unfoldable pub duration : Span → ℤ
unfolding saturate
duration s = if is_zero s.ended_at then pos 0 else saturate (sub_ℕ s.ended_at s.started_at)

-- The copy has metadata of its own.
unfoldable pub with_metadata : (key value : String) → Span → Span
with_metadata key value s = record s { metadata = put key value s.metadata }
