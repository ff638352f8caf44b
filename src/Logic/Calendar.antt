-- ===== src/Logic/Calendar.antt =====
-- The fields of times, `TimeField` of drmemd/src/logic/compile.rs.
pub mod Laws
use drmem.Base.{ℕ, zero, suc, ◌+◌, ◌-◌, ◌/◌, ◌%◌, Bool, true, false, not}
use drmem.Base.{◌&&◌, ◌||◌, Option, none, some, ◌==◌, ltb, if◌then◌else◌}
use drmem.Base.Int.{ℤ, pos, negsuc}
use drmem.Api.Value.{Value, bool, int}
use drmem.Logic.Expr.{TimeField, second, minute, hour, day, dow, doy, som, eom, month, year}
use drmem.Logic.Expr.{leap_year}
use drmem.Logic.World.{Chrono}

-- `year % k == 0`; the remainder of a negative year is zero exactly if that of its size is.
abbrev pub divides_year : ℕ → ℤ → Bool
divides_year k (pos y) = y % k == 0
divides_year k (negsuc y) = suc y % k == 0

unfoldable pub is_leap_year : ℤ → Bool
is_leap_year y = (divides_year 4 y && not (divides_year 100 y)) || divides_year 400 y

abbrev pub as_number : Bool → ℕ
as_number true = 1
as_number false = 0

-- `unreachable!()` at a number that is no month is a panic, `none`.
unfoldable pub get_last_day : ℕ → ℤ → Option ℕ
get_last_day m y =
    if m == 1 || (m == 3 || (m == 5 || (m == 7 || (m == 8 || (m == 10 || m == 12)))))
    then some 31
    else if m == 2
    then some (28 + as_number (is_leap_year y))
    else if m == 4 || (m == 6 || (m == 9 || m == 11))
    then some 30
    else none

abbrev pub week_from_end : {F : Type 0} → ℕ → Option ℕ → Option (Value F)
week_from_end d none = none
week_from_end d (some last) = some (int (pos ((last + 7 - d) / 7)))

-- The day of the year with February 29th counted as the 28th.
unfoldable pub day_of_year : ℕ → ℤ → ℕ
day_of_year ordinal y = ordinal - as_number (ltb 58 ordinal && is_leap_year y)

module _ (ch : Chrono) {F : Type 0} where
  open ch use {
    DateTime, second_at, minute_at, hour_at, day_at, month_at, year_at, num_days_from_monday,
    ordinal0,
  }

  -- `none` is a panic.
  unfoldable pub project : TimeField → DateTime → Option (Value F)
  unfolding day_of_year
  project second t = some (int (pos (second_at t)))
  project minute t = some (int (pos (minute_at t)))
  project hour t = some (int (pos (hour_at t)))
  project day t = some (int (pos (day_at t)))
  project dow t = some (int (pos (num_days_from_monday t)))
  project doy t = some (int (pos (day_of_year (ordinal0 t) (year_at t))))
  project som t = some (int (pos ((day_at t + 6) / 7)))
  project eom t = week_from_end (day_at t) (get_last_day (month_at t) (year_at t))
  project month t = some (int (pos (month_at t)))
  project year t = some (int (year_at t))
  project leap_year t = some (bool (is_leap_year (year_at t)))

-- The last day of the months of a year, and the first ordinal of each, from the calendar.
abbrev pub days_in : Bool → ℕ → ℕ
days_in leap zero = 0
days_in leap (suc m) =
    if suc m == 2
    then 28 + as_number leap
    else if suc m == 4 || (suc m == 6 || (suc m == 9 || suc m == 11))
    then 30
    else 31

abbrev pub first_ordinal : Bool → ℕ → ℕ
first_ordinal leap zero = 0
first_ordinal leap (suc zero) = 0
first_ordinal leap (suc (suc m)) = first_ordinal leap (suc m) + days_in leap (suc m)
