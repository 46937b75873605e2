-- ===== src/Base/Clock.antt =====
-- Go's `time.Time` as nanoseconds since the zero time, and `time.Duration` as an int64 of nanoseconds.
use Prim.Native.Nat.{ℕ, ◌+◌, ◌-◌}
use mathlib.Core.Bool.{Bool}
use hydra_db.Base.Tests.{◌==◌, ltb}
use hydra_db.Base.Int.{ℤ, pos_part, neg_part}

abbrev pub Time : Type 0
Time = ℕ

abbrev pub zero_time : Time
zero_time = 0

-- t.IsZero()
abbrev pub is_zero : Time → Bool
is_zero t = t == 0

-- t.Before(u)
abbrev pub before : Time → Time → Bool
before t u = ltb t u

-- t.Add(d), for a result that is not before the zero time.
abbrev pub add_duration : Time → ℤ → Time
add_duration t d = t + pos_part d - neg_part d
