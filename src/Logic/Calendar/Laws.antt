-- ===== src/Logic/Calendar/Laws.antt =====
-- The dates of drmemd/src/logic/compile.rs against the calendar.
use drmem.Base.{ℕ, zero, suc, ◌⊎◌, inl, inr, ◌+◌, ◌-◌, ◌/◌, ◌≤◌, ◌<◌, ◌≡◌, sym, false, some, arith}
use drmem.Base.{ltb, if◌then◌else◌}
use mathlib.Core.Path.{subst}
use drmem.Base.Int.{ℤ, pos}
use drmem.Api.Value.{int}
use drmem.Logic.Expr.{som, eom}
use drmem.Logic.World.{Chrono}
use drmem.Logic.Calendar.{project, is_leap_year, get_last_day, day_of_year, days_in, first_ordinal}

-- For a month of the calendar, `get_last_day` returns its length and does not panic.
pub get_last_day_lem :
    (m : ℕ) (y : ℤ) → 1 ≤ m → m ≤ 12 → get_last_day m y ≡ some (days_in (is_leap_year y) m)
unfolding get_last_day
get_last_day_lem m y lo hi = ground arith

-- A statement about every month of a year, a month at a time: `k` months before the last.
abbrev AllMonths : (ℕ → Type 0) → ℕ → ℕ → Type 0
AllMonths P m zero = P m
AllMonths P m (suc k) = P m × AllMonths P (suc m) k

by_month : (P : ℕ → Type 0) (k m n : ℕ) → AllMonths P m k → m ≤ n → n ≤ m + k → P n
by_month P zero m n p lo hi = subst P (omega arith) p
by_month P (suc k) m n p lo hi = elim (compare_nat m n lo) [
  | inl e ↦ subst P e p.0
  | inr lt ↦ by_month P k (suc m) n p.1 lt (omega arith)
]
  where
    compare_nat : (m n : ℕ) → m ≤ n → (m ≡ n) ⊎ (suc m ≤ n)
    compare_nat m n h = ground arith

abbrev DayRule : ℕ → ℤ → ℕ → Type 0
DayRule d y m =
    d < days_in (is_leap_year y) m
    → day_of_year (first_ordinal (is_leap_year y) m + d) y
      ≡ first_ordinal false m + (if ltb d (days_in false m) then d else d - 1)

day_rules : (d : ℕ) (y : ℤ) → AllMonths (DayRule d y) 1 11
unfolding day_of_year
day_rules d y = ground arith

-- For a date of the calendar, the day of the year does not depend on whether the year is a leap
-- year: it is that of the same month and day in a common year, and of February 28th on February
-- 29th.
day_of_year_lem :
    (m d : ℕ) (y : ℤ)
    → 1 ≤ m
    → m ≤ 12
    → d < days_in (is_leap_year y) m
    → day_of_year (first_ordinal (is_leap_year y) m + d) y
      ≡ first_ordinal false m + (if ltb d (days_in false m) then d else d - 1)
unfolding day_of_year
day_of_year_lem m d y lo hi h = by_month (DayRule d y) 11 1 m (day_rules d y) lo hi h

-- The week of a day, counted from one end of a month.
abbrev pub week : ℕ → ℕ
week days_before = days_before / 7 + 1

module _ (ch : Chrono) {F : Type 0} where
  open ch use {DateTime, day_at, month_at, year_at}

  -- For a date of the calendar, `som` and `eom` are the weeks of the day counted from the start
  -- and from the end of its month: the first seven days have the number 1, the next seven 2, and
  -- so on, and neither panics.
  project-weeks :
      (t : DateTime) (after : ℕ)
      → 1 ≤ month_at t
      → month_at t ≤ 12
      → 1 ≤ day_at t
      → day_at t + after ≡ days_in (is_leap_year (year_at t)) (month_at t)
      → (project ch {F = F} som t ≡ some (int (pos (week (day_at t - 1)))))
        × (project ch {F = F} eom t ≡ some (int (pos (week after))))
  unfolding project
  project-weeks t after lo hi first last =
      rw (get_last_day_lem (month_at t) (year_at t) lo hi, sym last) (ground arith)
