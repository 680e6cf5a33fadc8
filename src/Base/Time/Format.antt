-- ===== src/Base/Time/Format.antt =====
-- Go's `Time.Format(time.RFC3339)` of an instant in UTC, as bytes.
use Prim.Native.Nat.{ℕ, ◌+◌, ◌-◌, ◌*◌, ◌/◌, ◌%◌, min}
use mathlib.Core.Path.{◌≡◌, refl}
use mathlib.Core.Bool.{Bool, ◌&&◌, ◌||◌, not}
use mathlib.Core.List.{List, [], ◌∷◌, ◌++◌}
use home_assistant.Base.Tests.{ltb, eqb, if◌then◌else◌}
use home_assistant.Base.Text.{codes}
use home_assistant.Base.Time.{Time, second}

two_digits : ℕ → List ℕ
two_digits n = (b'0' + n / 10 % 10) ∷ (b'0' + n % 10) ∷ []

four_digits : ℕ → List ℕ
unfolding two_digits
four_digits n = two_digits (n / 100) ++ two_digits n

is_leap : ℕ → Bool
is_leap year = eqb (year % 4) 0 && (not (eqb (year % 100) 0) || eqb (year % 400) 0)

-- month and day from the day of the year, counted from 0
month_day : ℕ → ℕ → List ℕ → ℕ × ℕ
month_day month day [] = (month, day + 1)
month_day month day (n ∷ lengths) =
    let rest = month_day (month + 1) (day - n) lengths in
    if ltb day n then (month, day + 1) else rest

abbrev month_lengths : Bool → List ℕ
month_lengths leap =
    31 ∷ (if leap then 29 else 28) ∷ 31 ∷ 30 ∷ 31 ∷ 30 ∷ 31 ∷ 31 ∷ 30 ∷ 31 ∷ 30 ∷ 31 ∷ []

-- The year, and the day of the year from 0, of a day counted from 0001-01-01.
year_day : ℕ → ℕ × ℕ
year_day days =
    let n400 = days / 146_097 in
    let d400 = days % 146_097 in
    let n100 = min (d400 / 36_524) 3 in
    let d100 = d400 - n100 * 36_524 in
    let n4 = d100 / 1_461 in
    let d4 = d100 % 1_461 in
    let n1 = min (d4 / 365) 3 in (400 * n400 + 100 * n100 + 4 * n4 + n1 + 1, d4 - n1 * 365)

date_bytes : ℕ → ℕ × ℕ → List ℕ
unfolding four_digits two_digits
date_bytes year (month, day) =
    four_digits year ++ (b'-' ∷ (two_digits month ++ (b'-' ∷ two_digits day)))

clock_bytes : ℕ → List ℕ
unfolding two_digits
clock_bytes s =
    two_digits (s / 3_600) ++ (b':' ∷ (two_digits (s / 60 % 60) ++ (b':' ∷ two_digits (s % 60))))

unfoldable pub format_rfc3339 : Time → List ℕ
unfolding date_bytes clock_bytes month_day year_day is_leap
format_rfc3339 t =
    let seconds = t / second in
    let (year, day) = year_day (seconds / 86_400) in
    date_bytes year (month_day 1 day (month_lengths (is_leap year)))
    ++ (b'T' ∷ (clock_bytes (seconds % 86_400) ++ b'Z' ∷ []))

-- the year, the month and the day of an instant in UTC
unfoldable pub civil_date : Time → ℕ × ℕ × ℕ
unfolding month_day year_day is_leap
civil_date t =
    let (year, year_day') = year_day (t / second / 86_400) in
    let (month, day) = month_day 1 year_day' (month_lengths (is_leap year)) in (year, month, day)

zero_time : format_rfc3339 0 ≡ codes "0001-01-01T00:00:00Z"
unfolding format_rfc3339
zero_time = refl

leap_day : format_rfc3339 63_844_761_600_000_000_000 ≡ codes "2024-02-29T00:00:00Z"
unfolding format_rfc3339
leap_day = refl
