-- ===== src/Logic/Optimize/Total.antt =====
-- Where the optimiser of drmemd/src/logic/compile.rs returns with no panic.
use drmem.Base.{ℕ, zero, suc, ◌≡◌, ◌≢◌, refl, sym, ◌∙◌, Bool, true, false, none, [], arith}
use drmem.Base.{if◌then◌else◌}
use drmem.Api.Value.{Value, bool}
use drmem.Logic.Expr.{Expr, Exprs, nothing, lit, not_of, and_of, or_of, if_then, if_else, coalesce}
use drmem.Logic.Expr.{blend, eq_of, lt_of, lt_eq_of, add, sub, mul, div, rem, end, cons}
use drmem.Logic.World.{Floats, Chrono}
use drmem.Logic.Ops.{Outcome, value, undefined, panic, val_eq, val_lt, val_lt_eq, val_add}
use drmem.Logic.Ops.{val_mul, val_rem}
use drmem.Logic.Eval.{Info, eval}
use drmem.Logic.Optimize
use drmem.Logic.Optimize.{Folded, done, if_opt, fold_opt, add_opt, mul_opt, rem_opt, is_lit, keep}
use drmem.Logic.Optimize.{stop_at, optimize_until, optimize_all, optimize_with, optimize, is_true}
use drmem.Logic.Optimize.{is_false, lit_is, is_nothing, and_opt, or_opt, coalesce_of, blend_of}

-- No subtraction, whose literals make the optimiser run again, and no division, which can panic,
-- is reached by the optimiser.
unfoldable mutual
  pub IsDirect : {F : Type 0} → Expr F → Type 0
  IsDirect (not_of (not_of e)) = IsDirect e
  IsDirect (and_of a b) = IsDirect a × IsDirect b
  IsDirect (or_of a b) = IsDirect a × IsDirect b
  IsDirect (eq_of a b) = IsDirect a × IsDirect b
  IsDirect (lt_of a b) = IsDirect a × IsDirect b
  IsDirect (lt_eq_of a b) = IsDirect a × IsDirect b
  IsDirect (if_then a b) = IsDirect a × IsDirect b
  IsDirect (if_else a b c) = IsDirect a × IsDirect b × IsDirect c
  IsDirect (add a b) = IsDirect a × IsDirect b
  IsDirect (mul a b) = IsDirect a × IsDirect b
  IsDirect (rem a b) = IsDirect a × IsDirect b
  IsDirect (sub a b) = ⊥
  IsDirect (div a b) = ⊥
  IsDirect (coalesce es) = AreDirect es
  IsDirect (blend es) = AreDirect es
  IsDirect _ = Unit {0}

  pub AreDirect : {F : Type 0} → Exprs F → Type 0
  AreDirect end = Unit {0}
  AreDirect (cons e es) = IsDirect e × AreDirect es

abbrev Returns : {A : Type 0} → Folded A → Type 0
Returns {A} m = (a : A) × (m ≡ done a)

module _ (fl : Floats) (ch : Chrono) (dummy : Info fl ch) where
  open fl use {F}

  abbrev Harmless : (Value F → Value F → Outcome (Value F)) → Type 0
  Harmless f = (u w : Value F) → f u w ≢ panic

  eq-Harmless : Harmless (val_eq fl)
  unfolding val_eq
  eq-Harmless u w = ground arith

  lt-Harmless : Harmless (val_lt fl)
  unfolding val_lt
  lt-Harmless u w = ground arith

  lt_eq-Harmless : Harmless (val_lt_eq fl)
  unfolding val_lt_eq
  lt_eq-Harmless u w = ground arith

  add-Harmless : Harmless (val_add fl)
  unfolding val_add
  add-Harmless u w = ground arith

  mul-Harmless : Harmless (val_mul fl)
  unfolding val_mul
  mul-Harmless u w = ground arith

  rem-Harmless : Harmless (val_rem fl)
  unfolding val_rem
  rem-Harmless u w = ground arith

  folded-Returns :
      (e : Expr F) (o : Outcome (Value F)) → o ≢ panic → Returns (Optimize.folded fl ch dummy e o)
  folded-Returns e (value v) h = (lit v, refl)
  folded-Returns e undefined h = (e, refl)
  folded-Returns e panic h = absurd (h refl)

  fold_opt-Returns :
      (c : Expr F → Expr F → Expr F) (f : Value F → Value F → Outcome (Value F))
      → Harmless f
      → ((u w : Value F) → eval fl ch [] dummy none (c (lit u) (lit w)) ≡ f u w)
      → (a b : Expr F) → Returns (fold_opt fl ch dummy c a b)
  unfolding fold_opt
  fold_opt-Returns c f hf st (lit u) (lit w) =
      folded-Returns (c (lit u) (lit w)) _ (λ e. hf u w (sym (st u w) ∙ e))
  fold_opt-Returns c f hf st (lit u) b = (c (lit u) b, refl)
  fold_opt-Returns c f hf st a b = (c a b, refl)

  if-Returns :
      {A : Type 0} (b : Bool) (x y : Folded A)
      → Returns x
      → Returns y
      → Returns (if b then x else y)
  if-Returns true x y hx hy = hx
  if-Returns false x y hx hy = hy

  abbrev zero? : Value F → Bool
  zero? = Optimize.is_zero fl ch dummy

  abbrev one? : Value F → Bool
  one? = Optimize.is_one fl ch dummy

  add_opt-Returns : (a b : Expr F) → Returns (add_opt fl ch dummy a b)
  unfolding add_opt eval
  add_opt-Returns a b =
      if-Returns _ _ _ (b, refl)
        (if-Returns _ _ _ (a, refl)
          (fold_opt-Returns add (val_add fl) add-Harmless (λ u w. refl) a b))

  mul_opt-Returns : (a b : Expr F) → Returns (mul_opt fl ch dummy a b)
  unfolding mul_opt eval
  mul_opt-Returns a b =
      if-Returns (lit_is zero? a) _ _ (a, refl)
        (if-Returns (lit_is zero? b) _ _ (b, refl)
          (if-Returns (lit_is one? a) _ _ (b, refl)
            (if-Returns (lit_is one? b) _ _ (a, refl)
              (fold_opt-Returns mul (val_mul fl) mul-Harmless (λ u w. refl) a b))))

  rem_opt-Returns : (a b : Expr F) → Returns (rem_opt fl ch dummy a b)
  unfolding rem_opt eval
  rem_opt-Returns a b =
      if-Returns _ _ _ (a, refl)
        (if-Returns _ _ _ (nothing, refl)
          (fold_opt-Returns rem (val_rem fl) rem-Harmless (λ u w. refl) a b))

  if_opt-Returns :
      (a : Expr F) (b c : Folded (Expr F)) (rebuild : Expr F → Folded (Expr F))
      → Returns b
      → Returns c
      → Returns (rebuild a)
      → Returns (if_opt fl ch dummy a b c rebuild)
  unfolding if_opt
  if_opt-Returns a b c rebuild hb hc hr =
      if-Returns _ _ _ (nothing, refl) (if-Returns _ _ _ hb (if-Returns _ _ _ hc hr))

  bind-Returns :
      {A B : Type 0} (m : Folded A) (f : A → Folded B)
      → Returns m
      → ((a : A) → Returns (f a))
      → Returns (Optimize.◌>>=◌ m f)
  bind-Returns m f (a, e) h = rw e (h a)

  module _ (again : Expr F → Folded (Expr F)) where
    abbrev opt : Expr F → Folded (Expr F)
    opt = optimize_with fl ch dummy again

    mutual
      unfolding optimize_with stop_at IsDirect eval

      optimize_with-Returns : (e : Expr F) → IsDirect e → Returns (opt e)
      optimize_with-Returns (not_of (not_of e)) t = optimize_with-Returns e t
      optimize_with-Returns (not_of (lit (bool v))) t = (_, refl)
      optimize_with-Returns (and_of a b) t =
          bind-Returns (opt a) _ (optimize_with-Returns a t.0)
            λ a'. bind-Returns (opt b) _ (optimize_with-Returns b t.1) λ b'. (and_opt a' b', refl)
      optimize_with-Returns (or_of a b) t =
          bind-Returns (opt a) _ (optimize_with-Returns a t.0)
            λ a'. bind-Returns (opt b) _ (optimize_with-Returns b t.1) λ b'. (or_opt a' b', refl)
      optimize_with-Returns (add a b) t =
          bind-Returns (opt a) _ (optimize_with-Returns a t.0)
            λ a'. bind-Returns (opt b) _ (optimize_with-Returns b t.1) λ b'. add_opt-Returns a' b'
      optimize_with-Returns (mul a b) t =
          bind-Returns (opt a) _ (optimize_with-Returns a t.0)
            λ a'. bind-Returns (opt b) _ (optimize_with-Returns b t.1) λ b'. mul_opt-Returns a' b'
      optimize_with-Returns (rem a b) t =
          bind-Returns (opt a) _ (optimize_with-Returns a t.0)
            λ a'. bind-Returns (opt b) _ (optimize_with-Returns b t.1) λ b'. rem_opt-Returns a' b'
      optimize_with-Returns (eq_of a b) t =
          bind-Returns (opt a) _ (optimize_with-Returns a t.0) λ a'.
            bind-Returns (opt b) _ (optimize_with-Returns b t.1)
              λ b'. fold_opt-Returns eq_of (val_eq fl) eq-Harmless (λ u w. refl) a' b'
      optimize_with-Returns (lt_of a b) t =
          bind-Returns (opt a) _ (optimize_with-Returns a t.0) λ a'.
            bind-Returns (opt b) _ (optimize_with-Returns b t.1)
              λ b'. fold_opt-Returns lt_of (val_lt fl) lt-Harmless (λ u w. refl) a' b'
      optimize_with-Returns (lt_eq_of a b) t =
          bind-Returns (opt a) _ (optimize_with-Returns a t.0) λ a'.
            bind-Returns (opt b) _ (optimize_with-Returns b t.1)
              λ b'. fold_opt-Returns lt_eq_of (val_lt_eq fl) lt_eq-Harmless (λ u w. refl) a' b'
      optimize_with-Returns (if_then a b) t =
          bind-Returns (opt a) _ (optimize_with-Returns a t.0) λ a'.
            if_opt-Returns a' (opt b) (done nothing)
              (λ cond. Optimize.◌>>=◌ (opt b) (λ b'. done (if_then cond b')))
              (optimize_with-Returns b t.1) (nothing, refl)
              (bind-Returns (opt b) _ (optimize_with-Returns b t.1) λ b'. (if_then a' b', refl))
      optimize_with-Returns (if_else a b c) t =
          bind-Returns (opt a) _ (optimize_with-Returns a t.0) λ a'.
            if_opt-Returns a' (opt b) (opt c)
              (λ cond.
                Optimize.◌>>=◌ (opt b)
                  (λ b'. Optimize.◌>>=◌ (opt c) (λ c'. done (if_else cond b' c'))))
              (optimize_with-Returns b t.1) (optimize_with-Returns c t.2)
              (bind-Returns (opt b) _ (optimize_with-Returns b t.1) λ b'.
                bind-Returns (opt c) _ (optimize_with-Returns c t.2) λ c'. (if_else a' b' c', refl))
      optimize_with-Returns (coalesce es) t =
          bind-Returns (optimize_until fl ch dummy again es) _ (optimize_until-Returns es t)
            λ es'. (coalesce_of es', refl)
      optimize_with-Returns (blend es) t =
          bind-Returns (optimize_all fl ch dummy again es) _ (optimize_all-Returns es t)
            λ es'. (blend_of es', refl)
      optimize_with-Returns (sub a b) t = absurd t
      optimize_with-Returns (div a b) t = absurd t
      optimize_with-Returns _ t = (_, refl)

      optimize_until-Returns :
          (es : Exprs F) → AreDirect es → Returns (optimize_until fl ch dummy again es)
      optimize_until-Returns end t = (end, refl)
      optimize_until-Returns (cons e es) t =
          bind-Returns (opt e) _ (optimize_with-Returns e t.0) λ e'.
            if-Returns (is_lit e') _ _ (cons e' end, refl)
              (bind-Returns (optimize_until fl ch dummy again es) _ (optimize_until-Returns es t.1)
                λ es'. (keep e' es', refl))

      optimize_all-Returns :
          (es : Exprs F) → AreDirect es → Returns (optimize_all fl ch dummy again es)
      optimize_all-Returns end t = (end, refl)
      optimize_all-Returns (cons e es) t =
          bind-Returns (opt e) _ (optimize_with-Returns e t.0) λ e'.
            bind-Returns (optimize_all fl ch dummy again es) _ (optimize_all-Returns es t.1)
              λ es'. (keep e' es', refl)

  -- Where neither a subtraction nor a division is reached, the optimiser returns an expression.
  pub optimize-Returns :
      (fuel : ℕ) (e : Expr F) → IsDirect e → (r : Expr F) × (optimize fl ch dummy fuel e ≡ done r)
  unfolding optimize
  optimize-Returns zero e t = optimize_with-Returns _ e t
  optimize-Returns (suc fuel) e t = optimize_with-Returns _ e t
