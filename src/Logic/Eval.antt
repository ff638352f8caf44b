-- ===== src/Logic/Eval.antt =====
-- The evaluation of logic expressions, `eval` of drmemd/src/logic/compile.rs.
use drmem.Base.{ℕ, Option, none, some, List, get_elem?}
use drmem.Api.Value.{Value, flt}
use drmem.Logic.Expr.{Zone, utc, local, SolarField, elevation, azimuth, right_ascension}
use drmem.Logic.Expr.{declination, Expr, Exprs, nothing, lit, var, time_val, solar_val, not_of}
use drmem.Logic.Expr.{and_of, or_of, if_then, if_else, coalesce, brightness, with_alpha, blend}
use drmem.Logic.Expr.{eq_of, lt_of, lt_eq_of, add, sub, mul, div, rem, end, cons}
use drmem.Logic.World.{Floats, Chrono, Solar}
use drmem.Logic.Calendar.{project}
use drmem.Logic.Ops.{Outcome, value, undefined, panic, op_not, op_or, op_and, val_eq, val_lt}
use drmem.Logic.Ops.{val_lt_eq, val_add, val_sub, val_mul, val_div, val_rem, both, op_with_alpha}
use drmem.Logic.Ops.{op_brightness, op_if, op_coalesce, Blended, blend_next, op_blend}

abbrev pub of_cell : {A : Type 0} → Option (Option A) → Outcome A
of_cell none = panic
of_cell (some none) = undefined
of_cell (some (some v)) = value v

-- `inp[idx]`, which panics out of range.
unfoldable pub eval_as_var : {A : Type 0} → ℕ → List (Option A) → Outcome A
eval_as_var n inp = of_cell (get_elem? inp n)

abbrev pub of_projection : {A : Type 0} → Option A → Outcome A
of_projection none = panic
of_projection (some v) = value v

unfoldable pub project_solar : {F : Type 0} → SolarField → Solar F → Value F
project_solar elevation s = flt s.elevation_at
project_solar azimuth s = flt s.azimuth_at
project_solar right_ascension s = flt s.right_ascension_at
project_solar declination s = flt s.declination_at

abbrev pub of_solar : {F : Type 0} → SolarField → Option (Solar F) → Outcome (Value F)
of_solar f none = undefined
of_solar f (some s) = value (project_solar f s)

module _ (fl : Floats) (ch : Chrono) where
  open fl use {F}
  open ch use {DateTime}

  -- `tod::Info`: the time in UTC and the local time.
  pub record Info : Type 0 where
    pub in_utc : DateTime
    pub in_local : DateTime

  abbrev pub time_in : Info → Zone → DateTime
  time_in t utc = t.in_utc
  time_in t local = t.in_local

  module _ (inp : List (Option (Value F))) (time : Info) (solar : Option (Solar F)) where
    unfoldable mutual
      unfolding eval_as_var project project_solar op_not op_or op_and val_eq val_lt val_lt_eq
          val_add val_sub val_mul val_div val_rem op_with_alpha op_brightness op_if op_coalesce
          blend_next op_blend

      pub eval : Expr F → Outcome (Value F)
      eval nothing = undefined
      eval (lit v) = value v
      eval (var n) = eval_as_var n inp
      eval (time_val z f) = of_projection (project ch f (time_in time z))
      eval (solar_val f) = of_solar f solar
      eval (not_of e) = op_not fl (eval e)
      eval (or_of a b) = op_or fl (eval a) (eval b)
      eval (and_of a b) = op_and fl (eval a) (eval b)
      eval (eq_of a b) = both fl (val_eq fl) (eval a) (eval b)
      eval (lt_of a b) = both fl (val_lt fl) (eval a) (eval b)
      eval (lt_eq_of a b) = both fl (val_lt_eq fl) (eval a) (eval b)
      eval (add a b) = both fl (val_add fl) (eval a) (eval b)
      eval (sub a b) = both fl (val_sub fl) (eval a) (eval b)
      eval (mul a b) = both fl (val_mul fl) (eval a) (eval b)
      eval (div a b) = both fl (val_div fl) (eval a) (eval b)
      eval (rem a b) = both fl (val_rem fl) (eval a) (eval b)
      eval (with_alpha a b) = op_with_alpha fl (eval a) (eval b)
      eval (brightness e) = op_brightness fl (eval e)
      eval (coalesce es) = eval_coalesce es
      eval (blend es) = op_blend fl (eval_blend es)
      eval (if_then a b) = op_if fl (eval a) (eval b) undefined
      eval (if_else a b c) = op_if fl (eval a) (eval b) (eval c)

      pub eval_coalesce : Exprs F → Outcome (Value F)
      eval_coalesce end = undefined
      eval_coalesce (cons e es) = op_coalesce fl (eval e) (eval_coalesce es)

      pub eval_blend : Exprs F → Blended fl
      eval_blend end = value none
      eval_blend (cons e es) = blend_next fl (eval e) (eval_blend es)
