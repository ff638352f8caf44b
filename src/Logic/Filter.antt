-- ===== src/Logic/Filter.antt =====
-- The stream of times that a logic block waits for, `TimeFilter` of drmemd/src/logic/tod.rs.
pub mod Laws
use drmem.Base.{
  ℕ, Bool, true, false, not, ◌||◌, Option, none, some, List, [], ◌∷◌, ◌==◌, if◌then◌else◌,
}
use drmem.Base.Int.{eqb_ℤ}
use drmem.Logic.Expr.{Span, second, minute, hour, day, month, year}
use drmem.Logic.World.{Floats, Chrono}
use drmem.Logic.Eval.{Info}

module _ (fl : Floats) (ch : Chrono) where
  open ch use {DateTime, second_at, minute_at, hour_at, day_at, month_at, year_at}

  pub record TimeFilter : Type 0 where
    pub field : Span
    pub prev : Option (Info fl ch)

  -- What the broadcast stream yields: a time, or the error that times were dropped.
  pub data Item : Type 0 where
    tick : Info fl ch → Item
    lagged : Item

  abbrev pub differs : Span → DateTime → DateTime → Bool
  differs second t u = not (second_at t == second_at u)
  differs minute t u = not (minute_at t == minute_at u)
  differs hour t u = not (hour_at t == hour_at u)
  differs day t u = not (day_at t == day_at u)
  differs month t u = not (month_at t == month_at u)
  differs year t u = not (eqb_ℤ (year_at t) (year_at u))

  abbrev pub changed_from : Span → Option (Info fl ch) → Info fl ch → Bool
  changed_from field none curr = true
  changed_from field (some v) curr =
      differs field v.in_utc curr.in_utc || differs field v.in_local curr.in_local

  unfoldable pub changed : TimeFilter → Info fl ch → Bool
  changed f curr = changed_from f.field f.prev curr

  -- A stream that has no item yet is pending, and the one that is done has none either.
  unfoldable pub poll_next : TimeFilter → List Item → TimeFilter × Option (Info fl ch) × List Item
  unfolding changed
  poll_next f [] = (f, none, [])
  poll_next f (lagged ∷ items) = poll_next (record f { prev = none }) items
  poll_next f (tick t ∷ items) =
      let rest = poll_next f items in
      if changed f t then (record f { prev = some t }, some t, items) else rest

  unfoldable pub time_filter : Span → TimeFilter
  time_filter field = record { field = field; prev = none }
