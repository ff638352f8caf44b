-- ===== src/Logic/Optimize.antt =====
-- The optimiser of logic expressions, `optimize` of drmemd/src/logic/compile.rs.
pub mod Total
pub mod Order
pub mod Operands
pub mod Branches
pub mod Refines
use drmem.Base.{ℕ, zero, suc, Bool, true, false, not, ◌&&◌, none, [], if◌then◌else◌}
use drmem.Base.Int.{pos, eqb_ℤ}
use drmem.Api.Value.{Value, bool, int, flt, color, rgba}
use drmem.Logic.Expr.{Expr, Exprs, nothing, lit, not_of, and_of, or_of, if_then, if_else, coalesce}
use drmem.Logic.Expr.{blend, eq_of, lt_of, lt_eq_of, add, sub, mul, div, rem, end, cons}
use drmem.Logic.World.{Floats, Chrono}
use drmem.Logic.Ops.{Outcome, value, undefined, panic}
use drmem.Logic.Eval.{Info, eval}

-- The new expression, a panic (of an evaluation of literals), or a model that ran out of fuel.
pub data Folded (A : Type 0) : Type 0 where
  done : A → Folded A
  crash : Folded A
  no_fuel : Folded A

infixl 5 ◌>>=◌
abbrev pub ◌>>=◌ : {A B : Type 0} → Folded A → (A → Folded B) → Folded B
done a >>= f = f a
crash >>= f = crash
no_fuel >>= f = no_fuel

abbrev pub is_lit : {F : Type 0} → Expr F → Bool
is_lit (lit v) = true
is_lit _ = false

abbrev pub is_nothing : {F : Type 0} → Expr F → Bool
is_nothing nothing = true
is_nothing _ = false

-- The patterns `Expr::Lit(v) if p(v)`.
abbrev pub lit_is : {F : Type 0} → (Value F → Bool) → Expr F → Bool
lit_is p (lit v) = p v
lit_is p _ = false

abbrev pub is_true : {F : Type 0} → Value F → Bool
is_true (bool true) = true
is_true _ = false

abbrev pub is_false : {F : Type 0} → Value F → Bool
is_false (bool false) = true
is_false _ = false

abbrev pub coalesce_of : {F : Type 0} → Exprs F → Expr F
coalesce_of end = nothing
coalesce_of (cons e end) = e
coalesce_of (cons e (cons f es)) = coalesce (cons e (cons f es))

abbrev pub blend_of : {F : Type 0} → Exprs F → Expr F
blend_of end = lit (color (rgba (record { red = 0; green = 0; blue = 0; alpha = 0 })))
blend_of (cons e es) = blend (cons e es)

-- An expression that became `Nothing` is dropped.
unfoldable pub keep : {F : Type 0} → Expr F → Exprs F → Exprs F
keep e rest = if is_nothing e then rest else cons e rest

unfoldable pub stop_at : {F : Type 0} → Expr F → Folded (Exprs F) → Folded (Exprs F)
stop_at e rest = if is_lit e then done (cons e end) else rest

unfoldable pub and_opt : {F : Type 0} → Expr F → Expr F → Expr F
and_opt a b =
    if lit_is is_false a
    then a
    else if lit_is is_false b
    then b
    else if lit_is is_true a
    then b
    else if lit_is is_true b
    then a
    else and_of a b

unfoldable pub or_opt : {F : Type 0} → Expr F → Expr F → Expr F
or_opt a b =
    if lit_is is_true a
    then a
    else if lit_is is_true b
    then b
    else if lit_is is_false a
    then b
    else if lit_is is_false b
    then a
    else or_of a b

-- `dummy_time` is `tod::Info::default()`.
module _ (fl : Floats) (ch : Chrono) (dummy_time : Info fl ch) where
  open fl use {F, feq, of_i32}

  abbrev pub is_zero : Value F → Bool
  is_zero (int i) = eqb_ℤ i (pos 0)
  is_zero (flt f) = feq f (of_i32 (pos 0))
  is_zero _ = false

  abbrev pub is_one : Value F → Bool
  is_one (int i) = eqb_ℤ i (pos 1)
  is_one (flt f) = feq f (of_i32 (pos 1))
  is_one _ = false

  abbrev pub folded : Expr F → Outcome (Value F) → Folded (Expr F)
  folded e (value v) = done (lit v)
  folded e undefined = done e
  folded e panic = crash

  -- The end of `fold_binary`, on arguments that are optimised.
  unfoldable pub fold_opt : (Expr F → Expr F → Expr F) → Expr F → Expr F → Folded (Expr F)
  fold_opt constructor a b =
      if is_lit a && is_lit b
      then folded (constructor a b) (eval fl ch [] dummy_time none (constructor a b))
      else done (constructor a b)

  -- In these arms `fold_binary` is called on two literals, which `optimize` leaves as they are.
  unfoldable pub add_opt : Expr F → Expr F → Folded (Expr F)
  unfolding fold_opt
  add_opt a b =
      if lit_is is_zero a then done b else if lit_is is_zero b then done a else fold_opt add a b

  unfoldable pub mul_opt : Expr F → Expr F → Folded (Expr F)
  unfolding fold_opt
  mul_opt a b =
      if lit_is is_zero a
      then done a
      else if lit_is is_zero b
      then done b
      else if lit_is is_one a
      then done b
      else if lit_is is_one b
      then done a
      else fold_opt mul a b

  unfoldable pub div_opt : Expr F → Expr F → Folded (Expr F)
  unfolding fold_opt
  div_opt a b =
      if lit_is is_zero a
      then done a
      else if lit_is is_zero b
      then done nothing
      else if lit_is is_one b
      then done a
      else fold_opt div a b

  unfoldable pub rem_opt : Expr F → Expr F → Folded (Expr F)
  unfolding fold_opt
  rem_opt a b =
      if lit_is is_zero a
      then done a
      else if lit_is is_zero b
      then done nothing
      else fold_opt rem a b

  -- The literals of the arm of `Sub` are only those on the right, and `fold_binary` optimises the
  -- left argument again, which is `again`.
  unfoldable pub sub_opt : (Expr F → Folded (Expr F)) → Expr F → Expr F → Folded (Expr F)
  unfolding fold_opt
  sub_opt again a b =
      if lit_is is_zero b
      then done a
      else if is_lit b
      then (again a >>= λ a'. fold_opt sub a' b)
      else done (sub a b)

  -- The arms of `If`, with what the branches become.
  unfoldable pub if_opt :
      Expr F → Folded (Expr F) → Folded (Expr F) → (Expr F → Folded (Expr F)) → Folded (Expr F)
  if_opt a b c rebuild =
      if is_nothing a
      then done nothing
      else if lit_is is_true a
      then b
      else if lit_is is_false a
      then c
      else rebuild a

  unfoldable mutual
    unfolding keep stop_at and_opt or_opt fold_opt add_opt mul_opt div_opt rem_opt sub_opt if_opt

    pub optimize_with : (Expr F → Folded (Expr F)) → Expr F → Folded (Expr F)
    optimize_with again (not_of (not_of e)) = optimize_with again e
    optimize_with again (not_of (lit (bool v))) = done (lit (bool (not v)))
    optimize_with again (and_of a b) = do
      a' ← optimize_with again a
      b' ← optimize_with again b
      done (and_opt a' b')
    optimize_with again (or_of a b) = do
      a' ← optimize_with again a
      b' ← optimize_with again b
      done (or_opt a' b')
    optimize_with again (coalesce es) = do es' ← optimize_until again es; done (coalesce_of es')
    optimize_with again (blend es) = do es' ← optimize_all again es; done (blend_of es')
    optimize_with again (if_then a b) = do
      a' ← optimize_with again a
      if_opt a' (optimize_with again b) (done nothing)
          λ cond. optimize_with again b >>= λ b'. done (if_then cond b')
    optimize_with again (if_else a b c) = do
      a' ← optimize_with again a
      if_opt a' (optimize_with again b) (optimize_with again c) λ cond.
          optimize_with again b >>= λ b'. optimize_with again c >>= λ c'. done (if_else cond b' c')
    optimize_with again (add a b) = do
      a' ← optimize_with again a
      b' ← optimize_with again b
      add_opt a' b'
    optimize_with again (sub a b) = do
      a' ← optimize_with again a
      b' ← optimize_with again b
      sub_opt again a' b'
    optimize_with again (mul a b) = do
      a' ← optimize_with again a
      b' ← optimize_with again b
      mul_opt a' b'
    optimize_with again (div a b) = do
      a' ← optimize_with again a
      b' ← optimize_with again b
      div_opt a' b'
    optimize_with again (rem a b) = do
      a' ← optimize_with again a
      b' ← optimize_with again b
      rem_opt a' b'
    optimize_with again (eq_of a b) = do
      a' ← optimize_with again a
      b' ← optimize_with again b
      fold_opt eq_of a' b'
    optimize_with again (lt_of a b) = do
      a' ← optimize_with again a
      b' ← optimize_with again b
      fold_opt lt_of a' b'
    optimize_with again (lt_eq_of a b) = do
      a' ← optimize_with again a
      b' ← optimize_with again b
      fold_opt lt_eq_of a' b'
    optimize_with again e = done e

    -- The loop of `Coalesce`, which ends at the first literal.
    pub optimize_until : (Expr F → Folded (Expr F)) → Exprs F → Folded (Exprs F)
    optimize_until again end = done end
    optimize_until again (cons e es) = do
      e' ← optimize_with again e
      stop_at e' (optimize_until again es >>= λ rest. done (keep e' rest))

    -- The chain of `Blend`.
    pub optimize_all : (Expr F → Folded (Expr F)) → Exprs F → Folded (Exprs F)
    optimize_all again end = done end
    optimize_all again (cons e es) = do
      e' ← optimize_with again e
      rest ← optimize_all again es
      done (keep e' rest)

  -- Fuel is spent by the arm of `Sub` alone.
  unfoldable pub optimize : ℕ → Expr F → Folded (Expr F)
  unfolding optimize_with
  optimize zero e = optimize_with (λ _. no_fuel) e
  optimize (suc fuel) e = optimize_with (optimize fuel) e
