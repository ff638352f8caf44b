-- ===== src/Examples/Logic.antt =====
-- Logic expressions of drmemd/src/logic/compile.rs at concrete times and inputs.
use drmem.Base.{ℕ, ◌-◌, ◌≡◌, refl, true, none, some, [], ◌∷◌}
use drmem.Base.{arith}
use drmem.Base.Int.{pos}
use drmem.Api.Value.{bool, int}
use drmem.Logic.Expr.{
  Zone, Span, utc, local, sooner, Expr, lit, var, time_val, lt_of, and_of, add, span_of, uses_time,
  uses_solar, minute,
}
use drmem.Logic.Calendar.{is_leap_year, get_last_day, days_in}
use drmem.Logic.Calendar.Laws.{get_last_day_lem}
use drmem.Logic.Ops.{value, undefined, op_not, op_or, op_and}
use drmem.Logic.Ops.Laws.{op-level, level, largest, smallest, is_truth}
use drmem.Logic.Eval.{eval, time_in}
use drmem.Logic.Optimize.{done, optimize}
use drmem.Logic.Optimize.Order.{Keeps}
use drmem.Logic.Optimize.Total.{optimize-Returns, IsDirect}
use drmem.Logic.Optimize.Refines.{optimize-Keeps, IsTyped}
use drmem.Logic.Reactive.{eval-Agree, Agree, SameSun, SameFrom}
use drmem.Examples.World.{numbers, clock, at}

abbrev five : Expr ℕ
five = lit (int (pos 5))

-- `{utc:minute} < 5`
abbrev early : Expr ℕ
early = lt_of (time_val utc minute) five

-- The seconds 61 and 62 of the day are in one minute.
early-Agree : Agree numbers clock [] [] (at 61) (at 62) none none (uses_time early)
unfolding uses_time span_of sooner
early-Agree z = early-SameMinute z
  where
    early-SameMinute :
        (z : Zone)
        → SameFrom numbers clock Span.minute
            (time_in numbers clock (at 61) z)
            (time_in numbers clock (at 62) z)
    early-SameMinute utc = (refl, (refl, (refl, refl, refl, (refl, refl))))
    early-SameMinute local = (refl, (refl, (refl, refl, refl, (refl, refl))))

early-SameSun : SameSun numbers clock [] [] (at 61) (at 62) none none (uses_solar early)
early-SameSun h = refl

eval-Agree_example :
    eval numbers clock [] (at 61) none early ≡ eval numbers clock [] (at 62) none early
eval-Agree_example =
    eval-Agree numbers clock [] (at 61) (at 62) none none early early-Agree early-SameSun

-- `true and (inp[0] + 0 < 5)`
abbrev guarded : Expr ℕ
guarded = and_of (lit (bool true)) (lt_of (add (var 0) (lit (int (pos 0)))) five)

guarded-IsTyped : IsTyped numbers clock (at 0) (some (int (pos 3)) ∷ []) (at 61) none guarded
unfolding IsTyped eval
guarded-IsTyped = ground arith

optimize-Keeps_example :
    (r : Expr ℕ) × (optimize numbers clock (at 0) 0 guarded ≡ done r)
    × Keeps
        (eval numbers clock (some (int (pos 3)) ∷ []) (at 61) none guarded)
        (eval numbers clock (some (int (pos 3)) ∷ []) (at 61) none r)
optimize-Keeps_example =
    optimize-Keeps numbers clock (at 0) (some (int (pos 3)) ∷ []) (at 61) none 0 guarded
      guarded-IsTyped

optimize-Returns_example : (r : Expr ℕ) × (optimize numbers clock (at 0) 0 guarded ≡ done r)
unfolding IsDirect
optimize-Returns_example = optimize-Returns numbers clock (at 0) 0 guarded (ground arith)

op-level_example :
    (level (op_or numbers undefined (value (bool true)))
      ≡ largest (level {F = ℕ} undefined) (level {F = ℕ} (value (bool true))))
    × (level (op_and numbers undefined (value (bool true)))
        ≡ smallest (level {F = ℕ} undefined) (level {F = ℕ} (value (bool true))))
    × (level (op_not numbers undefined) ≡ 2 - level {F = ℕ} undefined)
    × (is_truth (op_or numbers undefined (value (bool true))) ≡ true)
    × (is_truth (op_and numbers undefined (value (bool true))) ≡ true)
    × (is_truth (op_not numbers undefined) ≡ true)
op-level_example = op-level numbers undefined (value (bool true)) refl refl

get_last_day_lem_example : get_last_day 2 (pos 2024) ≡ some (days_in (is_leap_year (pos 2024)) 2)
get_last_day_lem_example = get_last_day_lem 2 (pos 2024) (omega arith) (omega arith)
