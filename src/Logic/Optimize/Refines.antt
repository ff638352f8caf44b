-- ===== src/Logic/Optimize/Refines.antt =====
-- The optimiser of drmemd/src/logic/compile.rs keeps the outcome of well-typed expressions.
use drmem.Base.{ℕ, zero, suc, ◌≡◌, refl, sym, Option}
use drmem.Base.{List, inr, ◌∙◌, ap}
use mathlib.Core.Path.{subst}
use drmem.Api.Value.{Value, bool}
use drmem.Logic.Expr.{Expr, Exprs, lit, not_of, and_of, or_of}
use drmem.Logic.Expr.{if_then, if_else, coalesce, blend, eq_of, lt_of}
use drmem.Logic.Expr.{lt_eq_of, add, sub, mul, div, rem, end, cons}
use drmem.Logic.World.{Floats, Chrono, Solar}
use drmem.Logic.Ops.{Outcome, val_eq}
use drmem.Logic.Ops.{val_lt, val_lt_eq, blend_next}
use drmem.Logic.Eval.{Info, eval, eval_coalesce, eval_blend}
use drmem.Logic.Optimize.{Folded, done}
use drmem.Logic.Optimize.{optimize_until, optimize_all}
use drmem.Logic.Optimize.{optimize_with, optimize}
use drmem.Logic.Optimize.Total.{IsDirect, AreDirect, optimize-Returns}
use drmem.Logic.Optimize.Order.{Keeps, IsBoolish}
use drmem.Logic.Optimize.Order.{IsIntish, op_blend-Keeps}
use drmem.Logic.Optimize.Operands.{bind_done, done-injective}
use drmem.Logic.Optimize.Operands.{and_opt-Keeps, or_opt-Keeps, fold_opt-Keeps, add_opt-Keeps}
use drmem.Logic.Optimize.Branches.{
  not_not, coalesce_of-eval, blend_of-eval, if_then-rule, if_else-rule, keep-blend, stop_at-Keeps,
}

module _ (fl : Floats) (ch : Chrono) (dummy : Info fl ch) where
  open fl use {F}

  module _ (inp : List (Option (Value F))) (time : Info fl ch) (solar : Option (Solar F)) where
    abbrev ev : Expr F → Outcome (Value F)
    ev = eval fl ch inp time solar

    -- The arguments of `and`, `or` and a double `not` are no values of another type than Boolean,
    -- and those of `+` are integers, as far as they have values. The other arithmetic is left out.
    unfoldable mutual
      pub IsTyped : Expr F → Type 0
      IsTyped (not_of (not_of e)) = IsTyped e × IsBoolish (ev e)
      IsTyped (and_of a b) = IsTyped a × IsTyped b × IsBoolish (ev a) × IsBoolish (ev b)
      IsTyped (or_of a b) = IsTyped a × IsTyped b × IsBoolish (ev a) × IsBoolish (ev b)
      IsTyped (eq_of a b) = IsTyped a × IsTyped b
      IsTyped (lt_of a b) = IsTyped a × IsTyped b
      IsTyped (lt_eq_of a b) = IsTyped a × IsTyped b
      IsTyped (if_then a b) = IsTyped a × IsTyped b
      IsTyped (if_else a b c) = IsTyped a × IsTyped b × IsTyped c
      IsTyped (add a b) = IsTyped a × IsTyped b × IsIntish (ev a) × IsIntish (ev b)
      IsTyped (sub a b) = ⊥
      IsTyped (mul a b) = ⊥
      IsTyped (div a b) = ⊥
      IsTyped (rem a b) = ⊥
      IsTyped (coalesce es) = AreTyped es
      IsTyped (blend es) = AreTyped es
      IsTyped _ = Unit {0}

      pub AreTyped : Exprs F → Type 0
      AreTyped end = Unit {0}
      AreTyped (cons e es) = IsTyped e × AreTyped es

    module _ (again : Expr F → Folded (Expr F)) where
      mutual
        unfolding optimize_with eval IsTyped

        optimize_with-Keeps :
            (e r : Expr F)
            → IsTyped e
            → optimize_with fl ch dummy again e ≡ done r
            → Keeps (ev e) (ev r)
        optimize_with-Keeps (not_of (not_of e)) r t h =
            subst (λ o. Keeps o (ev r)) (sym (not_not fl ch dummy inp time solar (ev e) t.1))
              (optimize_with-Keeps e r t.0 h)
        optimize_with-Keeps (not_of (lit (bool v))) r t h = inr (ap ev (done-injective h))
        optimize_with-Keeps (and_of a b) r t h =
            let (a', ea, h') = bind_done _ _ h in
            let (b', eb, h'') = bind_done _ _ h' in
            subst (λ r. Keeps (ev (and_of a b)) (ev r)) (done-injective h'')
              (and_opt-Keeps fl ch dummy inp time solar _ _ a' b' (optimize_with-Keeps a a' t.0 ea)
                (optimize_with-Keeps b b' t.1 eb) t.2 t.3)
        optimize_with-Keeps (or_of a b) r t h =
            let (a', ea, h') = bind_done _ _ h in
            let (b', eb, h'') = bind_done _ _ h' in
            subst (λ r. Keeps (ev (or_of a b)) (ev r)) (done-injective h'')
              (or_opt-Keeps fl ch dummy inp time solar _ _ a' b' (optimize_with-Keeps a a' t.0 ea)
                (optimize_with-Keeps b b' t.1 eb) t.2 t.3)
        optimize_with-Keeps (add a b) r t h =
            let (a', ea, h') = bind_done _ _ h in
            let (b', eb, h'') = bind_done _ _ h' in
            add_opt-Keeps fl ch dummy inp time solar _ _ a' b' r (optimize_with-Keeps a a' t.0 ea)
              (optimize_with-Keeps b b' t.1 eb) t.2 t.3 h''
        optimize_with-Keeps (eq_of a b) r t h =
            let (a', ea, h') = bind_done _ _ h in
            let (b', eb, h'') = bind_done _ _ h' in
            fold_opt-Keeps fl ch dummy inp time solar _ _ a' b' r (optimize_with-Keeps a a' t.0 ea)
              (optimize_with-Keeps b b' t.1 eb) eq_of (val_eq fl) (λ i t s x y. refl) h''
        optimize_with-Keeps (lt_of a b) r t h =
            let (a', ea, h') = bind_done _ _ h in
            let (b', eb, h'') = bind_done _ _ h' in
            fold_opt-Keeps fl ch dummy inp time solar _ _ a' b' r (optimize_with-Keeps a a' t.0 ea)
              (optimize_with-Keeps b b' t.1 eb) lt_of (val_lt fl) (λ i t s x y. refl) h''
        optimize_with-Keeps (lt_eq_of a b) r t h =
            let (a', ea, h') = bind_done _ _ h in
            let (b', eb, h'') = bind_done _ _ h' in
            fold_opt-Keeps fl ch dummy inp time solar _ _ a' b' r (optimize_with-Keeps a a' t.0 ea)
              (optimize_with-Keeps b b' t.1 eb) lt_eq_of (val_lt_eq fl) (λ i t s x y. refl) h''
        optimize_with-Keeps (if_then a b) r t h =
            let (a', ea, h') = bind_done _ _ h in
            if_then-rule fl ch dummy inp time solar (ev a) (ev b) a'
              (optimize_with fl ch dummy again b) r (optimize_with-Keeps a a' t.0 ea)
              (λ b' eb. optimize_with-Keeps b b' t.1 eb) h'
        optimize_with-Keeps (if_else a b c) r t h =
            let (a', ea, h') = bind_done _ _ h in
            if_else-rule fl ch dummy inp time solar (ev a) (ev b) (ev c) a'
              (optimize_with fl ch dummy again b) (optimize_with fl ch dummy again c) r
              (optimize_with-Keeps a a' t.0 ea) (λ b' eb. optimize_with-Keeps b b' t.1 eb)
              (λ c' ec. optimize_with-Keeps c c' t.2 ec) h'
        optimize_with-Keeps (coalesce es) r t h =
            let (es', e, h') = bind_done _ _ h in
            subst (Keeps (ev (coalesce es)))
              (sym (coalesce_of-eval fl ch dummy inp time solar es') ∙ ap ev (done-injective h'))
              (optimize_until-Keeps es es' t e)
        optimize_with-Keeps (blend es) r t h =
            let (es', e, h') = bind_done _ _ h in
            subst (Keeps (ev (blend es)))
              (sym (blend_of-eval fl ch dummy inp time solar es') ∙ ap ev (done-injective h'))
              (op_blend-Keeps fl _ _ (optimize_all-Keeps es es' t e))
        optimize_with-Keeps (sub a b) r t h = absurd t
        optimize_with-Keeps (mul a b) r t h = absurd t
        optimize_with-Keeps (div a b) r t h = absurd t
        optimize_with-Keeps (rem a b) r t h = absurd t
        optimize_with-Keeps _ r t h = inr (ap ev (done-injective h))

        optimize_until-Keeps :
            (es rs : Exprs F)
            → AreTyped es
            → optimize_until fl ch dummy again es ≡ done rs
            → Keeps (eval_coalesce fl ch inp time solar es) (eval_coalesce fl ch inp time solar rs)
        optimize_until-Keeps end rs t h =
            inr (ap (eval_coalesce fl ch inp time solar) (done-injective h))
        optimize_until-Keeps (cons e es) rs t h =
            let (e', ee, h') = bind_done _ _ h in
            stop_at-Keeps fl ch dummy inp time solar e' _ _ rs _ (optimize_with-Keeps e e' t.0 ee)
              (λ xs ex. optimize_until-Keeps es xs t.1 ex) h'

        optimize_all-Keeps :
            (es rs : Exprs F)
            → AreTyped es
            → optimize_all fl ch dummy again es ≡ done rs
            → Keeps (eval_blend fl ch inp time solar es) (eval_blend fl ch inp time solar rs)
        optimize_all-Keeps end rs t h =
            inr (ap (eval_blend fl ch inp time solar) (done-injective h))
        optimize_all-Keeps (cons e es) rs t h =
            let (e', ee, h') = bind_done _ _ h in
            let (xs, ex, h'') = bind_done _ _ h' in
            subst
              (λ rs.
                Keeps (blend_next fl (ev e) (eval_blend fl ch inp time solar es))
                  (eval_blend fl ch inp time solar rs))
              (done-injective h'')
              (keep-blend fl ch dummy inp time solar e' xs _ _ (optimize_with-Keeps e e' t.0 ee)
                (optimize_all-Keeps es xs t.1 ex))

    mutual
      unfolding IsTyped IsDirect

      IsTyped-IsDirect : (e : Expr F) → IsTyped e → IsDirect e
      IsTyped-IsDirect (not_of (not_of e)) t = IsTyped-IsDirect e t.0
      IsTyped-IsDirect (and_of a b) t = (IsTyped-IsDirect a t.0, IsTyped-IsDirect b t.1)
      IsTyped-IsDirect (or_of a b) t = (IsTyped-IsDirect a t.0, IsTyped-IsDirect b t.1)
      IsTyped-IsDirect (eq_of a b) t = (IsTyped-IsDirect a t.0, IsTyped-IsDirect b t.1)
      IsTyped-IsDirect (lt_of a b) t = (IsTyped-IsDirect a t.0, IsTyped-IsDirect b t.1)
      IsTyped-IsDirect (lt_eq_of a b) t = (IsTyped-IsDirect a t.0, IsTyped-IsDirect b t.1)
      IsTyped-IsDirect (if_then a b) t = (IsTyped-IsDirect a t.0, IsTyped-IsDirect b t.1)
      IsTyped-IsDirect (if_else a b c) t =
          (IsTyped-IsDirect a t.0, IsTyped-IsDirect b t.1, IsTyped-IsDirect c t.2)
      IsTyped-IsDirect (add a b) t = (IsTyped-IsDirect a t.0, IsTyped-IsDirect b t.1)
      IsTyped-IsDirect (coalesce es) t = AreTyped-AreDirect es t
      IsTyped-IsDirect (blend es) t = AreTyped-AreDirect es t
      IsTyped-IsDirect (sub a b) t = t
      IsTyped-IsDirect (mul a b) t = absurd t
      IsTyped-IsDirect (div a b) t = t
      IsTyped-IsDirect (rem a b) t = absurd t
      IsTyped-IsDirect _ t = tt

      AreTyped-AreDirect : (es : Exprs F) → AreTyped es → AreDirect es
      AreTyped-AreDirect end t = tt
      AreTyped-AreDirect (cons e es) t = (IsTyped-IsDirect e t.0, AreTyped-AreDirect es t.1)

    -- For an expression without `-`, `*`, `/` and `%`, the optimiser returns an expression, and
    -- where the outcomes of the arguments of `and`, `or` and a double `not` are Booleans or
    -- undefined, and those of `+` are `i32` integers or undefined, the new expression has the
    -- outcome of the original, unless the original panics.
    pub optimize-Keeps :
        (fuel : ℕ) (e : Expr F)
        → IsTyped e
        → (r : Expr F) × (optimize fl ch dummy fuel e ≡ done r) × Keeps (ev e) (ev r)
    unfolding optimize
    optimize-Keeps zero e t =
        let (r, h) = optimize-Returns fl ch dummy zero e (IsTyped-IsDirect e t) in
        (r, h, optimize_with-Keeps _ e r t h)
    optimize-Keeps (suc fuel) e t =
        let (r, h) = optimize-Returns fl ch dummy (suc fuel) e (IsTyped-IsDirect e t) in
        (r, h, optimize_with-Keeps _ e r t h)
