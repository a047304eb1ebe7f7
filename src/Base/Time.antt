-- ===== src/Base/Time.antt =====
-- Go's `time.Time` and `time.Duration`: an instant is a number of nanoseconds from the zero time,
-- a duration a signed 64-bit number of nanoseconds.
use chain_registry_sentinel.Base.Tests.{leb, if◌then◌else◌}
use chain_registry_sentinel.Base.Int.{ℤ, pos, negsuc, ◌-ℤ◌, ltb_ℤ, max_int}
use mathlib.Core.Bool.{Bool}

abbrev pub Time : Type 0
Time = ℤ

abbrev pub Duration : Type 0
Duration = ℤ

-- `time.Time{}`.
abbrev pub zero_time : Time
zero_time = pos 0

abbrev saturate : ℤ → Duration
saturate (pos n) = if leb n max_int then pos n else pos max_int
saturate (negsuc n) = if leb n max_int then negsuc n else negsuc max_int

-- `t.Sub(u)`, which saturates at the ends of a 64-bit duration.
unfoldable pub sub : Time → Time → Duration
unfolding ◌-ℤ◌
sub t u = saturate (t -ℤ u)

-- `t.After(u)`.
abbrev pub after : Time → Time → Bool
after t u = ltb_ℤ u t
