-- ===== src/Logic/Optimize/Branches.antt =====
-- What the optimiser of drmemd/src/logic/compile.rs does with conditions and with lists.
use drmem.Base.{◌≡◌, refl, true, false, Option}
use drmem.Base.{List, arith, Bool-cases, inl, inr, ◌∙◌, ap}
use mathlib.Core.Path.{subst}
use drmem.Api.Value.{Value, bool, int, flt, str, color}
use drmem.Logic.Expr.{Expr, Exprs, nothing, lit}
use drmem.Logic.Expr.{if_then, if_else}
use drmem.Logic.Expr.{end, cons}
use drmem.Logic.World.{Floats, Chrono, Solar}
use drmem.Logic.Ops.{Outcome, value, undefined, panic, op_not, op_if}
use drmem.Logic.Ops.{op_coalesce, blend_next, op_blend, Blended}
use drmem.Logic.Eval.{Info, eval, eval_coalesce, eval_blend}
use drmem.Logic.Optimize
use drmem.Logic.Optimize.{Folded, done, crash, no_fuel, and_opt, or_opt, if_opt, fold_opt, add_opt}
use drmem.Logic.Optimize.{
  is_lit, keep, stop_at, coalesce_of, blend_of, optimize_until, optimize_all,
}
use drmem.Logic.Optimize.{optimize_with, optimize, is_true, is_false, lit_is, is_nothing}
use drmem.Logic.Optimize.Order.{Keeps, IsBoolish, if-Keeps}
use drmem.Logic.Optimize.Order.{coalesce-Keeps, blend_next-Keeps}
use drmem.Logic.Optimize.Operands.{bind_done, done-injective, lit_is-true, lit_is-false}
use drmem.Logic.Optimize.Operands.{is_nothing-undefined}

module _ (fl : Floats) (ch : Chrono) (dummy : Info fl ch) where
  open fl use {F}

  module _ (inp : List (Option (Value F))) (time : Info fl ch) (solar : Option (Solar F)) where
    abbrev ev : Expr F → Outcome (Value F)
    ev = eval fl ch inp time solar

    pub not_not : (o : Outcome (Value F)) → IsBoolish o → op_not fl (op_not fl o) ≡ o
    unfolding op_not
    not_not (value (bool true)) h = refl
    not_not (value (bool false)) h = refl
    not_not (value (int z)) h = absurd h
    not_not (value (flt z)) h = absurd h
    not_not (value (str z)) h = absurd h
    not_not (value (color z)) h = absurd h
    not_not undefined h = refl
    not_not panic h = refl

    pub coalesce_of-eval :
        (es : Exprs F) → ev (coalesce_of es) ≡ eval_coalesce fl ch inp time solar es
    unfolding eval op_coalesce
    coalesce_of-eval end = refl
    coalesce_of-eval (cons e end) = go (ev e)
      where
        go : (o : Outcome (Value F)) → o ≡ op_coalesce fl o undefined
        go (value v) = refl
        go undefined = refl
        go panic = refl
    coalesce_of-eval (cons e (cons f es)) = refl

    pub blend_of-eval :
        (es : Exprs F) → ev (blend_of es) ≡ op_blend fl (eval_blend fl ch inp time solar es)
    unfolding eval op_blend
    blend_of-eval end = refl
    blend_of-eval (cons e es) = refl

    if_opt-Keeps :
        (a b c : Outcome (Value F)) (a' : Expr F) (fb fc : Folded (Expr F))
        → (rebuild : Expr F → Folded (Expr F)) (r : Expr F) → Keeps a (ev a')
        → ((b' : Expr F) → fb ≡ done b' → Keeps b (ev b'))
        → ((c' : Expr F) → fc ≡ done c' → Keeps c (ev c'))
        → (rebuild a' ≡ done r → Keeps (op_if fl a b c) (ev r))
        → if_opt fl ch dummy a' fb fc rebuild ≡ done r
        → Keeps (op_if fl a b c) (ev r)
    unfolding if_opt op_if eval
    if_opt-Keeps a b c a' fb fc rebuild r ha hb hc hr h = elim (Bool-cases (is_nothing a')) [
      | inl e ↦
          subst (λ r. Keeps (op_if fl a b c) (ev r)) (done-injective (rw e at h))
            (ground (arith, is_nothing-undefined fl ch dummy inp time solar a' e))
      | inr e ↦ elim (Bool-cases (lit_is is_true a')) [
        | inl f ↦ chosen (hb r (rw (e, f) at h)) (lit_is-true fl ch dummy inp time solar a' f)
        | inr f ↦ elim (Bool-cases (lit_is is_false a')) [
          | inl g ↦
              skipped (hc r (rw (e, f, g) at h)) (lit_is-false fl ch dummy inp time solar a' g)
          | inr g ↦ hr (rw (e, f, g) at h)
        ]
      ]
    ]
      where
        chosen : Keeps b (ev r) → ev a' ≡ value (bool true) → Keeps (op_if fl a b c) (ev r)
        chosen k e = elim ha [ inl p ↦ rw p (inl refl) | inr p ↦ rw (p ∙ e) k ]

        skipped : Keeps c (ev r) → ev a' ≡ value (bool false) → Keeps (op_if fl a b c) (ev r)
        skipped k e = elim ha [ inl p ↦ rw p (inl refl) | inr p ↦ rw (p ∙ e) k ]

    pub if_then-rule :
        (a b : Outcome (Value F)) (a' : Expr F) (fb : Folded (Expr F)) (r : Expr F)
        → Keeps a (ev a')
        → ((b' : Expr F) → fb ≡ done b' → Keeps b (ev b'))
        → if_opt fl ch dummy a' fb
            (done nothing)
            (λ cond. Optimize.◌>>=◌ fb (λ b'. done (if_then cond b')))
          ≡ done r
        → Keeps (op_if fl a b undefined) (ev r)
    unfolding eval
    if_then-rule a b a' fb r ha hb h =
        if_opt-Keeps a b undefined a' fb (done nothing)
          (λ cond. Optimize.◌>>=◌ fb (λ b'. done (if_then cond b'))) r ha hb
          (λ c' ec. inr (ap ev (done-injective ec)))
          (λ k.
            let (b', eb, k') = bind_done fb (λ b'. done (if_then a' b')) k in
            subst (λ r. Keeps (op_if fl a b undefined) (ev r)) (done-injective k')
              (if-Keeps fl a (ev a') b (ev b') undefined undefined ha (hb b' eb) (inr refl)))
          h

    pub if_else-rule :
        (a b c : Outcome (Value F)) (a' : Expr F) (fb fc : Folded (Expr F)) (r : Expr F)
        → Keeps a (ev a')
        → ((b' : Expr F) → fb ≡ done b' → Keeps b (ev b'))
        → ((c' : Expr F) → fc ≡ done c' → Keeps c (ev c'))
        → if_opt fl ch dummy a' fb fc
            (λ cond. Optimize.◌>>=◌ fb (λ b'. Optimize.◌>>=◌ fc (λ c'. done (if_else cond b' c'))))
          ≡ done r
        → Keeps (op_if fl a b c) (ev r)
    unfolding eval
    if_else-rule a b c a' fb fc r ha hb hc h =
        if_opt-Keeps a b c a' fb fc
          (λ cond. Optimize.◌>>=◌ fb (λ b'. Optimize.◌>>=◌ fc (λ c'. done (if_else cond b' c')))) r
          ha hb hc
          (λ k.
            let (b', eb, k') =
              bind_done fb (λ b'. Optimize.◌>>=◌ fc (λ c'. done (if_else a' b' c'))) k in
            let (c', ec, k'') = bind_done fc (λ c'. done (if_else a' b' c')) k' in
            subst (λ r. Keeps (op_if fl a b c) (ev r)) (done-injective k'')
              (if-Keeps fl a (ev a') b (ev b') c (ev c') ha (hb b' eb) (hc c' ec)))
          h

    pub keep-blend :
        (e' : Expr F) (rest : Exprs F) (o : Outcome (Value F)) (acc : Blended fl)
        → Keeps o (ev e')
        → Keeps acc (eval_blend fl ch inp time solar rest)
        → Keeps (blend_next fl o acc) (eval_blend fl ch inp time solar (keep e' rest))
    unfolding keep blend_next
    keep-blend e' rest o acc h k = elim (Bool-cases (is_nothing e')) [
      | inl e ↦ rw e (dropped (is_nothing-undefined fl ch dummy inp time solar e' e) h)
      | inr e ↦ rw e (unfold eval in blend_next-Keeps fl o (ev e') acc _ h k)
    ]
      where
        bare :
            (acc : Blended fl)
            → Keeps acc (eval_blend fl ch inp time solar rest)
            → Keeps (blend_next fl undefined acc) (eval_blend fl ch inp time solar rest)
        bare (value v) k = k
        bare undefined k = k
        bare panic k = inl refl

        panicked :
            (acc : Blended fl)
            → Keeps acc (eval_blend fl ch inp time solar rest)
            → Keeps (blend_next fl panic acc) (eval_blend fl ch inp time solar rest)
        panicked (value v) k = inl refl
        panicked undefined k = k
        panicked panic k = inl refl

        dropped :
            ev e' ≡ undefined
            → Keeps o (ev e')
            → Keeps (blend_next fl o acc) (eval_blend fl ch inp time solar rest)
        dropped u (inl p) = rw p (panicked acc k)
        dropped u (inr q) = rw (q ∙ u) (bare acc k)

    pub stop_at-Keeps :
        (e' : Expr F) (o c : Outcome (Value F)) (rs : Exprs F) (m : Folded (Exprs F))
        → Keeps o (ev e')
        → ((xs : Exprs F) → m ≡ done xs → Keeps c (eval_coalesce fl ch inp time solar xs))
        → stop_at e' (Optimize.◌>>=◌ m (λ rest. done (keep e' rest))) ≡ done rs
        → Keeps (op_coalesce fl o c) (eval_coalesce fl ch inp time solar rs)
    unfolding stop_at keep op_coalesce eval
    stop_at-Keeps e' o c rs m h k l = elim (Bool-cases (is_lit e')) [
      | inl e ↦
          subst (λ rs. Keeps (op_coalesce fl o c) (eval_coalesce fl ch inp time solar rs))
            (done-injective (rw e at l)) (last e' e h)
      | inr e ↦
          let (xs, ex, l') = bind_done m (λ rest. done (keep e' rest)) (rw e at l) in
          subst (λ rs. Keeps (op_coalesce fl o c) (eval_coalesce fl ch inp time solar rs))
            (done-injective l') (kept xs (k xs ex))
    ]
      where
        last :
            (e' : Expr F)
            → is_lit e' ≡ true
            → Keeps o (ev e')
            → Keeps (op_coalesce fl o c) (eval_coalesce fl ch inp time solar (cons e' end))
        last (lit v) e h = ground arith
        last _ e h = cc

        kept :
            (xs : Exprs F)
            → Keeps c (eval_coalesce fl ch inp time solar xs)
            → Keeps (op_coalesce fl o c) (eval_coalesce fl ch inp time solar (keep e' xs))
        kept xs q = elim (Bool-cases (is_nothing e')) [
          | inl e ↦ rw e (ground (arith, is_nothing-undefined fl ch dummy inp time solar e' e))
          | inr e ↦ rw e (coalesce-Keeps fl o (ev e') c _ h q)
        ]
