-- ===== src/Logic/Optimize/Operands.antt =====
-- What the optimiser of drmemd/src/logic/compile.rs does with `and`, `or` and the operators on
-- two values.
use drmem.Base.{◌≡◌, refl, sym, Bool, true, false, ◌&&◌, Option, none}
use drmem.Base.{List, [], arith, if◌then◌else◌, Bool-cases, ◌⊎◌, inl, inr, ◌∙◌, ap}
use mathlib.Core.Path.{subst}
use drmem.Base.Int.{pos, eqb_ℤ_sound}
use drmem.Api.Value.{Value, bool, int, flt}
use drmem.Logic.Expr.{Expr, nothing, lit}
use drmem.Logic.Expr.{add}
use drmem.Logic.World.{Floats, Chrono, Solar}
use drmem.Logic.Ops.{Outcome, value, undefined, panic, op_or, op_and, both}
use drmem.Logic.Ops.{val_add}
use drmem.Logic.Eval.{Info, eval}
use drmem.Logic.Optimize
use drmem.Logic.Optimize.{Folded, done, crash, no_fuel, and_opt, or_opt, if_opt, fold_opt, add_opt}
use drmem.Logic.Optimize.{
  is_lit, keep, stop_at, coalesce_of, blend_of, optimize_until, optimize_all,
}
use drmem.Logic.Optimize.{optimize_with, optimize, is_true, is_false, lit_is, is_nothing}
use drmem.Logic.Optimize.Order.{Keeps, IsBoolish, and-Keeps, or-Keeps, both-Keeps}
use drmem.Logic.Optimize.Order.{IsIntish, add-zero_left, add-zero_right}

-- Inversion of a bind that is done.
pub bind_done :
    {A B : Type 0} (m : Folded A) (f : A → Folded B) {b : B}
    → Optimize.◌>>=◌ m f ≡ done b
    → (a : A) × (m ≡ done a) × (f a ≡ done b)
bind_done (done a) f h = (a, refl, h)
bind_done crash f h = cc
bind_done no_fuel f h = cc

pub done-injective : {A : Type 0} {a b : A} → done a ≡ done b → a ≡ b
done-injective h = cc

module _ (fl : Floats) (ch : Chrono) (dummy : Info fl ch) where
  open fl use {F}

  module _ (inp : List (Option (Value F))) (time : Info fl ch) (solar : Option (Solar F)) where
    abbrev ev : Expr F → Outcome (Value F)
    ev = eval fl ch inp time solar

    pub lit_is-false : (e : Expr F) → lit_is is_false e ≡ true → ev e ≡ value (bool false)
    unfolding eval
    lit_is-false (lit (bool false)) h = refl
    lit_is-false _ h = cc

    pub lit_is-true : (e : Expr F) → lit_is is_true e ≡ true → ev e ≡ value (bool true)
    unfolding eval
    lit_is-true (lit (bool true)) h = refl
    lit_is-true _ h = cc

    pub is_nothing-undefined : (e : Expr F) → is_nothing e ≡ true → ev e ≡ undefined
    unfolding eval
    is_nothing-undefined nothing h = refl
    is_nothing-undefined _ h = cc

    module _ (a b : Outcome (Value F)) (a' b' : Expr F) (ha : Keeps a (ev a'))
        (hb : Keeps b (ev b')) where
      pub and_opt-Keeps : IsBoolish a → IsBoolish b → Keeps (op_and fl a b) (ev (and_opt a' b'))
      unfolding and_opt op_and
      and_opt-Keeps ta tb = elim (Bool-cases (lit_is is_false a')) [
        | inl e ↦ rw e (ground (arith, lit_is-false a' e))
        | inr e ↦ elim (Bool-cases (lit_is is_false b')) [
          | inl f ↦ rw (e, f) (ground (arith, lit_is-false b' f))
          | inr f ↦ elim (Bool-cases (lit_is is_true a')) [
            | inl g ↦ rw (e, f, g) (ground (arith, lit_is-true a' g))
            | inr g ↦ elim (Bool-cases (lit_is is_true b')) [
              | inl k ↦ rw (e, f, g, k) (ground (arith, lit_is-true b' k))
              | inr k ↦ rw (e, f, g, k) (unfold eval in and-Keeps fl a (ev a') b (ev b') ha hb)
            ]
          ]
        ]
      ]

      pub or_opt-Keeps : IsBoolish a → IsBoolish b → Keeps (op_or fl a b) (ev (or_opt a' b'))
      unfolding or_opt op_or
      or_opt-Keeps ta tb = elim (Bool-cases (lit_is is_true a')) [
        | inl e ↦ rw e (ground (arith, lit_is-true a' e))
        | inr e ↦ elim (Bool-cases (lit_is is_true b')) [
          | inl f ↦ rw (e, f) (ground (arith, lit_is-true b' f))
          | inr f ↦ elim (Bool-cases (lit_is is_false a')) [
            | inl g ↦ rw (e, f, g) (ground (arith, lit_is-false a' g))
            | inr g ↦ elim (Bool-cases (lit_is is_false b')) [
              | inl k ↦ rw (e, f, g, k) (ground (arith, lit_is-false b' k))
              | inr k ↦ rw (e, f, g, k) (unfold eval in or-Keeps fl a (ev a') b (ev b') ha hb)
            ]
          ]
        ]
      ]

    both_panic :
        (f : Value F → Value F → Outcome (Value F)) (a b : Outcome (Value F))
        {o : Outcome (Value F)}
        → Keeps a o
        → b ≡ panic
        → Keeps (both fl f a b) o
    both_panic f (value v) b k p = rw p (inl refl)
    both_panic f undefined b k p = k
    both_panic f panic b k p = inl refl

    -- A constructor that evaluates both of its arguments under `?`, in any environment.
    abbrev Strict : (Expr F → Expr F → Expr F) → (Value F → Value F → Outcome (Value F)) → Type 0
    Strict c f =
        (i : List (Option (Value F))) (t : Info fl ch) (s : Option (Solar F)) (x y : Expr F)
        → eval fl ch i t s (c x y) ≡ both fl f (eval fl ch i t s x) (eval fl ch i t s y)

    fold_lits :
        (c : Expr F → Expr F → Expr F) (f : Value F → Value F → Outcome (Value F))
        → Strict c f
        → (a' b' r : Expr F) → is_lit a' && is_lit b' ≡ true
        → Optimize.folded fl ch dummy (c a' b') (eval fl ch [] dummy none (c a' b')) ≡ done r
        → ev (c a' b') ≡ ev r
    unfolding eval
    fold_lits c f st (lit u) (lit w) r l h =
        st inp time solar (lit u) (lit w)
        ∙ go (f u w) refl (rw (st [] dummy none (lit u) (lit w)) at h)
      where
        go :
            (o : Outcome (Value F))
            → f u w ≡ o
            → Optimize.folded fl ch dummy (c (lit u) (lit w)) o ≡ done r
            → o ≡ ev r
        go (value v) e k = ap ev (done-injective k)
        go undefined e k =
            sym (ap ev (sym (done-injective k)) ∙ st inp time solar (lit u) (lit w) ∙ e)
        go panic e k = cc
    fold_lits c f st (lit u) _ r l h = cc
    fold_lits c f st _ b' r l h = cc

    lit_zero :
        (o : Outcome (Value F)) (e : Expr F)
        → lit_is (Optimize.is_zero fl ch dummy) e ≡ true
        → Keeps o (ev e)
        → IsIntish o
        → (o ≡ panic) ⊎ (o ≡ value (int (pos 0)))
    unfolding eval
    lit_zero o e h (inl p) t = inl p
    lit_zero o (lit (int z)) h (inr p) t =
        inr (p ∙ ap (λ z. value (int z)) (eqb_ℤ_sound z (pos 0) h))
    lit_zero o (lit (flt x)) h (inr p) t = absurd (subst IsIntish p t)
    lit_zero o _ h (inr p) t = cc

    module _ (a b : Outcome (Value F)) (a' b' r : Expr F) (ha : Keeps a (ev a'))
        (hb : Keeps b (ev b')) where
      pub fold_opt-Keeps :
          (c : Expr F → Expr F → Expr F) (f : Value F → Value F → Outcome (Value F))
          → Strict c f
          → fold_opt fl ch dummy c a' b' ≡ done r
          → Keeps (both fl f a b) (ev r)
      unfolding fold_opt
      fold_opt-Keeps c f st h =
          subst (Keeps (both fl f a b))
            (sym (st inp time solar a' b') ∙ same (is_lit a' && is_lit b') refl h)
            (both-Keeps fl f a (ev a') b (ev b') ha hb)
        where
          same :
              (l : Bool)
              → is_lit a' && is_lit b' ≡ l
              → (if l
                  then Optimize.folded fl ch dummy (c a' b') (eval fl ch [] dummy none (c a' b'))
                  else done (c a' b'))
                ≡ done r
              → ev (c a' b') ≡ ev r
          same true l k = fold_lits c f st a' b' r l k
          same false l k = ap ev (done-injective k)

      pub add_opt-Keeps :
          IsIntish a
          → IsIntish b
          → add_opt fl ch dummy a' b' ≡ done r
          → Keeps (both fl (val_add fl) a b) (ev r)
      unfolding add_opt eval
      add_opt-Keeps ta tb h = elim (Bool-cases (lit_is (Optimize.is_zero fl ch dummy) a')) [
        | inl e ↦
            subst (λ r. Keeps (both fl (val_add fl) a b) (ev r)) (done-injective (rw e at h))
              (elim (lit_zero a a' e ha ta) [
                | inl p ↦ rw p (inl refl)
                | inr p ↦ rw p (rw (add-zero_left fl b tb) hb)
              ])
        | inr e ↦ elim (Bool-cases (lit_is (Optimize.is_zero fl ch dummy) b')) [
          | inl f ↦
              subst (λ r. Keeps (both fl (val_add fl) a b) (ev r)) (done-injective (rw (e, f) at h))
                (elim (lit_zero b b' f hb tb) [
                  | inl p ↦ both_panic (val_add fl) a b ha p
                  | inr p ↦ rw p (rw (add-zero_right fl a ta) ha)
                ])
          | inr f ↦ fold_opt-Keeps add (val_add fl) (λ i t s x y. refl) (rw (e, f) at h)
        ]
      ]
