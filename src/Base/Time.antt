-- ===== src/Base/Time.antt =====
-- Go's `time.Time` and `time.Duration`, in nanoseconds: an instant is counted from the zero time, and
-- a duration that is not positive is 0. Times before the zero time and the wrap of 64-bit durations
-- are left out.
pub mod Format
use Prim.Native.Nat.{ℕ}
use mathlib.Core.Bool.{Bool}
use home_assistant.Base.Tests.{ltb, eqb}

abbrev pub Time : Type 0
Time = ℕ

abbrev pub Duration : Type 0
Duration = ℕ

abbrev pub is_zero : Time → Bool
is_zero t = eqb t 0

abbrev pub after : Time → Time → Bool
after t u = ltb u t

abbrev pub before : Time → Time → Bool
before t u = ltb t u

abbrev pub second : Duration
second = 1_000_000_000

abbrev pub minute : Duration
minute = 60_000_000_000

abbrev pub hour : Duration
hour = 3_600_000_000_000
