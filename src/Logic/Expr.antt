-- ===== src/Logic/Expr.antt =====
-- The syntax of logic expressions and what they depend on, drmemd/src/logic/compile.rs and the
-- order of time fields of drmemd/src/logic/tod.rs.
use drmem.Base.{ℕ, Bool, true, false, ◌||◌, Option, none, some, leb, if◌then◌else◌}
use drmem.Api.Value.{Value}

pub data Zone : Type 0 where
  utc local : Zone

-- `TimeField` of compile.rs: the fields of a time that an expression can name.
pub data TimeField : Type 0 where
  second minute hour day dow doy som eom month year leap_year : TimeField

pub data SolarField : Type 0 where
  elevation azimuth right_ascension declination : SolarField

-- `TimeField` of tod.rs: how often a time changes.
pub data Span : Type 0 where
  second minute hour day month year : Span

-- The derived order.
abbrev pub rank : Span → ℕ
rank second = 0
rank minute = 1
rank hour = 2
rank day = 3
rank month = 4
rank year = 5

unfoldable pub min_span : Span → Span → Span
min_span a b = if leb (rank a) (rank b) then a else b

-- `If(a, b, None)` is `if_then`, `If(a, b, Some(c))` is `if_else`. `F` stands for `f64`.
mutual
  pub data Expr (F : Type 0) : Type 0 where
    nothing : Expr F
    lit : Value F → Expr F
    var : ℕ → Expr F
    time_val : Zone → TimeField → Expr F
    solar_val : SolarField → Expr F
    not_of : Expr F → Expr F
    and_of or_of : Expr F → Expr F → Expr F
    if_then : Expr F → Expr F → Expr F
    if_else : Expr F → Expr F → Expr F → Expr F
    coalesce : Exprs F → Expr F
    brightness : Expr F → Expr F
    with_alpha : Expr F → Expr F → Expr F
    blend : Exprs F → Expr F
    eq_of lt_of lt_eq_of : Expr F → Expr F → Expr F
    add sub mul div rem : Expr F → Expr F → Expr F

  pub data Exprs (F : Type 0) : Type 0 where
    end : Exprs F
    cons : Expr F → Exprs F → Exprs F

unfoldable pub precedence : {F : Type 0} → Expr F → ℕ
precedence (not_of e) = 9
precedence (mul a b) = 5
precedence (div a b) = 5
precedence (rem a b) = 5
precedence (add a b) = 4
precedence (sub a b) = 4
precedence (lt_of a b) = 3
precedence (lt_eq_of a b) = 3
precedence (eq_of a b) = 3
precedence (and_of a b) = 2
precedence (or_of a b) = 1
precedence (if_then a b) = 0
precedence (if_else a b c) = 0
precedence _ = 10

unfoldable pub span_of : TimeField → Span
span_of second = second
span_of minute = minute
span_of hour = hour
span_of day = day
span_of som = day
span_of eom = day
span_of dow = day
span_of doy = day
span_of month = month
span_of year = year
span_of leap_year = year

-- The `match` on a pair of options, and `min` of a `filter_map`.
unfoldable pub sooner : Option Span → Option Span → Option Span
unfolding min_span
sooner none b = b
sooner (some a) none = some a
sooner (some a) (some b) = some (min_span a b)

unfoldable mutual
  pub uses_time : {F : Type 0} → Expr F → Option Span
  uses_time (time_val z f) = some (span_of f)
  uses_time (solar_val f) = none
  uses_time (lit v) = none
  uses_time (var n) = none
  uses_time nothing = none
  uses_time (brightness e) = uses_time e
  uses_time (not_of e) = uses_time e
  uses_time (mul a b) = sooner (uses_time a) (uses_time b)
  uses_time (div a b) = sooner (uses_time a) (uses_time b)
  uses_time (rem a b) = sooner (uses_time a) (uses_time b)
  uses_time (add a b) = sooner (uses_time a) (uses_time b)
  uses_time (sub a b) = sooner (uses_time a) (uses_time b)
  uses_time (lt_of a b) = sooner (uses_time a) (uses_time b)
  uses_time (lt_eq_of a b) = sooner (uses_time a) (uses_time b)
  uses_time (eq_of a b) = sooner (uses_time a) (uses_time b)
  uses_time (and_of a b) = sooner (uses_time a) (uses_time b)
  uses_time (or_of a b) = sooner (uses_time a) (uses_time b)
  uses_time (with_alpha a b) = sooner (uses_time a) (uses_time b)
  uses_time (coalesce es) = use_time es
  uses_time (blend es) = use_time es
  uses_time (if_then a b) = sooner (uses_time a) (uses_time b)
  uses_time (if_else a b c) = sooner (sooner (uses_time a) (uses_time b)) (uses_time c)

  pub use_time : {F : Type 0} → Exprs F → Option Span
  use_time end = none
  use_time (cons e es) = sooner (uses_time e) (use_time es)

unfoldable mutual
  pub uses_solar : {F : Type 0} → Expr F → Bool
  uses_solar (solar_val f) = true
  uses_solar (time_val z f) = false
  uses_solar (lit v) = false
  uses_solar (var n) = false
  uses_solar nothing = false
  uses_solar (brightness e) = uses_solar e
  uses_solar (not_of e) = uses_solar e
  uses_solar (mul a b) = uses_solar a || uses_solar b
  uses_solar (div a b) = uses_solar a || uses_solar b
  uses_solar (rem a b) = uses_solar a || uses_solar b
  uses_solar (add a b) = uses_solar a || uses_solar b
  uses_solar (sub a b) = uses_solar a || uses_solar b
  uses_solar (lt_of a b) = uses_solar a || uses_solar b
  uses_solar (lt_eq_of a b) = uses_solar a || uses_solar b
  uses_solar (eq_of a b) = uses_solar a || uses_solar b
  uses_solar (and_of a b) = uses_solar a || uses_solar b
  uses_solar (or_of a b) = uses_solar a || uses_solar b
  uses_solar (with_alpha a b) = uses_solar a || uses_solar b
  uses_solar (if_then a b) = uses_solar a || uses_solar b
  uses_solar (coalesce es) = use_solar es
  uses_solar (blend es) = use_solar es
  uses_solar (if_else a b c) = uses_solar a || (uses_solar b || uses_solar c)

  pub use_solar : {F : Type 0} → Exprs F → Bool
  use_solar end = false
  use_solar (cons e es) = uses_solar e || use_solar es
