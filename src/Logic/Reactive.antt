-- ===== src/Logic/Reactive.antt =====
-- What the outcome of a logic expression depends on: `uses_time` and `uses_solar` of
-- drmemd/src/logic/compile.rs decide which time and solar events a logic block waits for.
use drmem.Base.{
  ℕ, ◌==◌, ◌≤◌, ◌≡◌, refl, Bool, true, false, ◌||◌, Option, none, some, List, arith, ap, ap₂,
}
use drmem.Api.Value.{Value}
use drmem.Logic.Expr.{Zone, TimeField, Span, rank, min_span, span_of, sooner, uses_time, use_time}
use drmem.Logic.Expr.{uses_solar, use_solar, Expr, Exprs, nothing, lit, var, time_val, solar_val}
use drmem.Logic.Expr.{not_of, and_of, or_of, if_then, if_else, coalesce, brightness, with_alpha}
use drmem.Logic.Expr.{blend, eq_of, lt_of, lt_eq_of, add, sub, mul, div, rem, end, cons}
use drmem.Logic.World.{Floats, Chrono, Solar}
use drmem.Logic.Calendar.{project}
use drmem.Logic.Ops.{undefined, op_not, op_or, op_and, op_if, both, val_eq, val_lt}
use drmem.Logic.Ops.{val_lt_eq, val_add, val_sub, val_mul, val_div, val_rem, op_with_alpha}
use drmem.Logic.Ops.{op_brightness, op_coalesce, blend_next, op_blend}
use drmem.Logic.Eval
use drmem.Logic.Eval.{eval_as_var, Info, time_in, eval, eval_coalesce, eval_blend}

-- Whether an expression reads a cell of the inputs.
unfoldable mutual
  pub reads : {F : Type 0} → Expr F → ℕ → Bool
  reads nothing k = false
  reads (lit v) k = false
  reads (var n) k = n == k
  reads (time_val z f) k = false
  reads (solar_val f) k = false
  reads (not_of e) k = reads e k
  reads (brightness e) k = reads e k
  reads (mul a b) k = reads a k || reads b k
  reads (div a b) k = reads a k || reads b k
  reads (rem a b) k = reads a k || reads b k
  reads (add a b) k = reads a k || reads b k
  reads (sub a b) k = reads a k || reads b k
  reads (lt_of a b) k = reads a k || reads b k
  reads (lt_eq_of a b) k = reads a k || reads b k
  reads (eq_of a b) k = reads a k || reads b k
  reads (and_of a b) k = reads a k || reads b k
  reads (or_of a b) k = reads a k || reads b k
  reads (with_alpha a b) k = reads a k || reads b k
  reads (if_then a b) k = reads a k || reads b k
  reads (if_else a b c) k = reads a k || (reads b k || reads c k)
  reads (coalesce es) k = read_in es k
  reads (blend es) k = read_in es k

  pub read_in : {F : Type 0} → Exprs F → ℕ → Bool
  read_in end k = false
  read_in (cons e es) k = reads e k || read_in es k

self_read : (n : ℕ) → (n == n) ≡ true
self_read n = ground arith

pub rank-min_span : (a b : Span) → (rank (min_span a b) ≤ rank a) × (rank (min_span a b) ≤ rank b)
unfolding min_span
rank-min_span a b = ground arith

pub or_left : (a b : Bool) → a ≡ true → a || b ≡ true
or_left a b h = ground arith

pub or_right : (a b : Bool) → b ≡ true → a || b ≡ true
or_right a b h = ground arith

module _ (fl : Floats) (ch : Chrono) where
  open fl use {F}
  open ch use {
    DateTime, second_at, minute_at, hour_at, day_at, month_at, year_at, num_days_from_monday,
    ordinal0,
  }

  -- Two times that differ in nothing that lasts this span or longer.
  abbrev SameYear : DateTime → DateTime → Type 0
  SameYear t u = year_at t ≡ year_at u

  abbrev SameMonth : DateTime → DateTime → Type 0
  SameMonth t u = (month_at t ≡ month_at u) × SameYear t u

  abbrev SameDay : DateTime → DateTime → Type 0
  SameDay t u =
      (day_at t ≡ day_at u)
      × (num_days_from_monday t ≡ num_days_from_monday u)
      × (ordinal0 t ≡ ordinal0 u)
      × SameMonth t u

  abbrev SameHour : DateTime → DateTime → Type 0
  SameHour t u = (hour_at t ≡ hour_at u) × SameDay t u

  abbrev SameMinute : DateTime → DateTime → Type 0
  SameMinute t u = (minute_at t ≡ minute_at u) × SameHour t u

  abbrev SameSecond : DateTime → DateTime → Type 0
  SameSecond t u = (second_at t ≡ second_at u) × SameMinute t u

  abbrev pub SameFrom : Span → DateTime → DateTime → Type 0
  SameFrom Span.second t u = SameSecond t u
  SameFrom Span.minute t u = SameMinute t u
  SameFrom Span.hour t u = SameHour t u
  SameFrom Span.day t u = SameDay t u
  SameFrom Span.month t u = SameMonth t u
  SameFrom Span.year t u = SameYear t u

  pub SameFrom-longer :
      (s s' : Span) (t u : DateTime) → rank s ≤ rank s' → SameFrom s t u → SameFrom s' t u
  SameFrom-longer s s' t u le h = ground arith

  pub SameFrom-refl : (s : Span) (t : DateTime) → SameFrom s t t
  SameFrom-refl s t = ground arith

  project-SameFrom :
      (f : TimeField) (t u : DateTime)
      → SameFrom (span_of f) t u
      → project ch {F = F} f t ≡ project ch f u
  unfolding project span_of
  project-SameFrom f t u h = ground arith

  module _ (inp inp' : List (Option (Value F))) (t t' : Info fl ch) (s s' : Option (Solar F)) where
    -- The two moments have the same times, in each zone, from this span on.
    abbrev pub Agree : Option Span → Type 0
    Agree none = Unit {0}
    Agree (some span) = (z : Zone) → SameFrom span (time_in fl ch t z) (time_in fl ch t' z)

    abbrev pub SameSun : Bool → Type 0
    SameSun b = b ≡ true → s ≡ s'

    abbrev pub SameCells : (ℕ → Bool) → Type 0
    SameCells r = (k : ℕ) → r k ≡ true → eval_as_var k inp ≡ eval_as_var k inp'

    left_time : (o o' : Option Span) → Agree (sooner o o') → Agree o
    unfolding sooner
    left_time none o' h = tt
    left_time (some a) none h = h
    left_time (some a) (some b) h =
        λ z. SameFrom-longer (min_span a b) a _ _ (rank-min_span a b).0 (h z)

    right_time : (o o' : Option Span) → Agree (sooner o o') → Agree o'
    unfolding sooner
    right_time none o' h = h
    right_time (some a) none h = tt
    right_time (some a) (some b) h =
        λ z. SameFrom-longer (min_span a b) b _ _ (rank-min_span a b).1 (h z)

    -- All that an expression depends on is the same at the two moments.
    abbrev AllSame : Option Span → Bool → (ℕ → Bool) → Type 0
    AllSame o b r = Agree o × SameSun b × SameCells r

    left :
        (o o' : Option Span) (b b' : Bool) (r r' : ℕ → Bool)
        → AllSame (sooner o o') (b || b') (λ k. r k || r' k)
        → AllSame o b r
    left o o' b b' r r' h =
        (left_time o o' h.0, λ e. h.1 (or_left b b' e), λ k e. h.2 k (or_left (r k) (r' k) e))

    right :
        (o o' : Option Span) (b b' : Bool) (r r' : ℕ → Bool)
        → AllSame (sooner o o') (b || b') (λ k. r k || r' k)
        → AllSame o' b' r'
    right o o' b b' r r' h =
        (right_time o o' h.0, λ e. h.1 (or_right b b' e), λ k e. h.2 k (or_right (r k) (r' k) e))

    abbrev SameFor : Expr F → Type 0
    SameFor e = AllSame (uses_time e) (uses_solar e) (reads e)

    first :
        (a b : Expr F)
        → AllSame
            (sooner (uses_time a) (uses_time b))
            (uses_solar a || uses_solar b)
            (λ k. reads a k || reads b k)
        → SameFor a
    first a b h =
        left (uses_time a) (uses_time b) (uses_solar a) (uses_solar b) (reads a) (reads b) h

    second :
        (a b : Expr F)
        → AllSame
            (sooner (uses_time a) (uses_time b))
            (uses_solar a || uses_solar b)
            (λ k. reads a k || reads b k)
        → SameFor b
    second a b h =
        right (uses_time a) (uses_time b) (uses_solar a) (uses_solar b) (reads a) (reads b) h

    -- The times are combined from the left, the others from the right.
    three :
        (a b c : Expr F)
        → AllSame
            (sooner (sooner (uses_time a) (uses_time b)) (uses_time c))
            (uses_solar a || (uses_solar b || uses_solar c))
            (λ k. reads a k || (reads b k || reads c k))
        → SameFor a × SameFor b × SameFor c
    three a b c h =
        let ab = left_time (sooner (uses_time a) (uses_time b)) (uses_time c) h.0 in
        (
          (
            left_time (uses_time a) (uses_time b) ab,
            λ e. h.1 (or_left (uses_solar a) _ e),
            λ k e. h.2 k (or_left (reads a k) _ e),
          ),
          (
            right_time (uses_time a) (uses_time b) ab,
            λ e. h.1 (or_right (uses_solar a) _ (or_left (uses_solar b) (uses_solar c) e)),
            λ k e. h.2 k (or_right (reads a k) _ (or_left (reads b k) (reads c k) e)),
          ),
          (
            right_time (sooner (uses_time a) (uses_time b)) (uses_time c) h.0,
            λ e. h.1 (or_right (uses_solar a) _ (or_right (uses_solar b) (uses_solar c) e)),
            λ k e. h.2 k (or_right (reads a k) _ (or_right (reads b k) (reads c k) e)),
          ),
        )

    mutual
      unfolding eval uses_time uses_solar reads

      same : (e : Expr F) → SameFor e → eval fl ch inp t s e ≡ eval fl ch inp' t' s' e
      same nothing h = refl
      same (lit v) h = refl
      same (var n) h = h.2 n (self_read n)
      same (time_val z f) h = ap Eval.of_projection (project-SameFrom f _ _ (h.0 z))
      same (solar_val f) h = ap (Eval.of_solar f) (h.1 refl)
      same (not_of e) h = ap (op_not fl) (same e h)
      same (brightness e) h = ap (op_brightness fl) (same e h)
      same (mul a b) h = ap₂ (both fl (val_mul fl)) (same a (first a b h)) (same b (second a b h))
      same (div a b) h = ap₂ (both fl (val_div fl)) (same a (first a b h)) (same b (second a b h))
      same (rem a b) h = ap₂ (both fl (val_rem fl)) (same a (first a b h)) (same b (second a b h))
      same (add a b) h = ap₂ (both fl (val_add fl)) (same a (first a b h)) (same b (second a b h))
      same (sub a b) h = ap₂ (both fl (val_sub fl)) (same a (first a b h)) (same b (second a b h))
      same (lt_of a b) h = ap₂ (both fl (val_lt fl)) (same a (first a b h)) (same b (second a b h))
      same (lt_eq_of a b) h =
          ap₂ (both fl (val_lt_eq fl)) (same a (first a b h)) (same b (second a b h))
      same (eq_of a b) h = ap₂ (both fl (val_eq fl)) (same a (first a b h)) (same b (second a b h))
      same (and_of a b) h = ap₂ (op_and fl) (same a (first a b h)) (same b (second a b h))
      same (or_of a b) h = ap₂ (op_or fl) (same a (first a b h)) (same b (second a b h))
      same (with_alpha a b) h =
          ap₂ (op_with_alpha fl) (same a (first a b h)) (same b (second a b h))
      same (if_then a b) h =
          ap₂ (λ x y. op_if fl x y undefined) (same a (first a b h)) (same b (second a b h))
      same (if_else a b c) h =
          let (p, q, r) = three a b c h in
          let pa = same a p in
          let pb = same b q in let pc = same c r in λ i. op_if fl (pa i) (pb i) (pc i)
      same (coalesce es) h = same_coalesce es h
      same (blend es) h = ap (op_blend fl) (same_blend es h)

      same_coalesce :
          (es : Exprs F)
          → AllSame (use_time es) (use_solar es) (read_in es)
          → eval_coalesce fl ch inp t s es ≡ eval_coalesce fl ch inp' t' s' es
      same_coalesce end h = refl
      same_coalesce (cons e es) h =
          ap₂ (op_coalesce fl)
            (same e (
              left (uses_time e) (use_time es) (uses_solar e) (use_solar es) (reads e) (read_in es)
                h))
            (same_coalesce es (
              right (uses_time e) (use_time es) (uses_solar e) (use_solar es) (reads e) (read_in es)
                h))

      same_blend :
          (es : Exprs F)
          → AllSame (use_time es) (use_solar es) (read_in es)
          → eval_blend fl ch inp t s es ≡ eval_blend fl ch inp' t' s' es
      same_blend end h = refl
      same_blend (cons e es) h =
          ap₂ (blend_next fl)
            (same e (
              left (uses_time e) (use_time es) (uses_solar e) (use_solar es) (reads e) (read_in es)
                h))
            (same_blend es (
              right (uses_time e) (use_time es) (uses_solar e) (use_solar es) (reads e) (read_in es)
                h))

    -- An expression has the same outcome where its times, the sun and the cells that it reads agree.
    pub eval-same :
        (e : Expr F)
        → Agree (uses_time e)
        → SameSun (uses_solar e)
        → SameCells (reads e)
        → eval fl ch inp t s e ≡ eval fl ch inp' t' s' e
    eval-same e h k r = same e (h, k, r)

  module _ (inp : List (Option (Value F))) (t t' : Info fl ch) (s s' : Option (Solar F)) where
    -- An expression has the same outcome at two moments whose times, in each zone, differ in
    -- nothing that lasts as long as the span that `uses_time` gives, or longer, and that have the
    -- same sun if `uses_solar` is true. Where `uses_time` gives none, the times may differ.
    pub eval-Agree :
        (e : Expr F)
        → Agree inp inp t t' s s' (uses_time e)
        → SameSun inp inp t t' s s' (uses_solar e)
        → eval fl ch inp t s e ≡ eval fl ch inp t' s' e
    eval-Agree e h k = eval-same inp inp t t' s s' e h k (λ n r. refl)
