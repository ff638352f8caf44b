-- ===== src/Logic/Node/Defs.antt =====
-- The definitions of a logic block, which drmemd/src/logic.rs computes in the order of a hash map.
use drmem.Base.{ℕ, ◌≤◌, ◌<◌, ◌≡◌, ◌≢◌, refl, sym, ap, ◌∙◌, Bool, true, false, Option, none, some}
use drmem.Base.{
  List, [], ◌∷◌, length, get_elem?, set, ltb, Bool-cases, Option-cases, inl, inr, arith,
}
use drmem.Base.{get_elem?-set_self, get_elem?-set_ne, ltb→lt}
use mathlib.Core.Path.{subst}
use mathlib.Core.Option.{some-injective}
use drmem.Api.Value.{Value}
use drmem.Logic.World.{Floats, Chrono, Solar}
use drmem.Logic.Ops.{Outcome, value, undefined, panic}
use drmem.Logic.Expr.{Span, uses_time}
use drmem.Logic.Eval.{Info, eval, eval_as_var, of_cell}
use drmem.Logic.Reactive.{reads, eval-same, Agree, SameFrom-refl}
use drmem.Logic.Node.{
  Program, Output, Running, Event, solar_info, solar_lagged, solar_closed, tick, reading,
}
use drmem.Logic.Node.{Answer, Round, next, stopped, panicked, put, put_outcome, run_defs, run_exprs}
use drmem.Logic.Node.{settle, recalculate, step}

abbrev cell_of : {A : Type 0} → Outcome A → Option (Option A)
cell_of (value v) = some (some v)
cell_of undefined = some none
cell_of panic = none

-- A definition reads the first `n` cells only, the device inputs, and sets a cell behind them.
pub record IsDef {F : Type 0} (n : ℕ) (p : Program F) : Type 0 where
  pub reads_below : (k : ℕ) → reads p.expr k ≡ true → k < n
  pub sets_above : n ≤ p.target

abbrev pub NoTarget : {F : Type 0} → ℕ → List (Program F) → Type 0
NoTarget j [] = Unit {0}
NoTarget j (p ∷ ps) = (p.target ≢ j) × NoTarget j ps

-- Each sets a cell of its own.
abbrev pub AreDefs : {F : Type 0} → ℕ → List (Program F) → Type 0
AreDefs n [] = Unit {0}
AreDefs n (p ∷ ps) = IsDef n p × NoTarget p.target ps × AreDefs n ps

NoTarget-below :
    {F : Type 0} (n j : ℕ) (ps : List (Program F)) → AreDefs n ps → j < n → NoTarget j ps
NoTarget-below n j [] a h = tt
NoTarget-below n j (p ∷ ps) a h =
    let above = a.0.sets_above in
    (λ e. absurd (omega (arith, above, e)), NoTarget-below n j ps a.2 h)

module _ (fl : Floats) (ch : Chrono) where
  open fl use {F}

  put_lem :
      (inp out : List (Option (Value F))) (i : ℕ) (c : Option (Value F))
      → put fl ch inp i c ≡ some out
      → (i < length inp) × (out ≡ set inp i c)
  put_lem inp out i c h = elim (Bool-cases (ltb i (length inp))) [
    | inl e ↦
        let h' : some (set inp i c) ≡ some out = rw e at h in
        (ltb→lt i (length inp) e, sym (some-injective _ _ h'))
    | inr e ↦ let h' : none ≡ some out = rw e at h in cc
  ]

  put_cell :
      (inp out : List (Option (Value F))) (i : ℕ) (o : Outcome (Value F))
      → put_outcome fl ch inp i o ≡ some out
      → (c : Option (Value F)) × (cell_of o ≡ some c) × (i < length inp) × (out ≡ set inp i c)
  put_cell inp out i (value v) h =
      let (lt, eq) = put_lem inp out i (some v) h in (some v, refl, lt, eq)
  put_cell inp out i undefined h = let (lt, eq) = put_lem inp out i none h in (none, refl, lt, eq)
  put_cell inp out i panic h = cc

  module _ (time : Info fl ch) (solar : Option (Solar F)) where
    -- What a run of definitions is made of: the cell that the first sets, and the run of the rest.
    run-cons :
        (p : Program F) (ps : List (Program F)) (inp out : List (Option (Value F)))
        → run_defs fl ch time solar (p ∷ ps) inp ≡ some out
        → (c : Option (Value F)) × (cell_of (eval fl ch inp time solar p.expr) ≡ some c)
          × (p.target < length inp)
          × (run_defs fl ch time solar ps (set inp p.target c) ≡ some out)
    unfolding run_defs
    run-cons p ps inp out h =
        elim (Option-cases (put_outcome fl ch inp p.target (eval fl ch inp time solar p.expr))) [
          | inl e ↦ let h' : none ≡ some out = rw (e, run_defs) at h in cc
          | inr (mid, e) ↦
              let h' : run_defs fl ch time solar ps mid ≡ some out = rw (e, run_defs) at h in
              let (c, is, lt, eq) = put_cell inp mid p.target _ e in
              (c, is, lt, subst (λ m. run_defs fl ch time solar ps m ≡ some out) eq h')
        ]

    -- The cells that no definition sets are kept.
    run_defs-others :
        (ps : List (Program F)) (inp out : List (Option (Value F))) (j : ℕ)
        → NoTarget j ps
        → run_defs fl ch time solar ps inp ≡ some out
        → get_elem? out j ≡ get_elem? inp j
    unfolding run_defs
    run_defs-others [] inp out j n h = ap (λ l. get_elem? l j) (sym (some-injective _ _ h))
    run_defs-others (p ∷ ps) inp out j n h =
        let (c, is, lt, h') = run-cons p ps inp out h in
        run_defs-others ps (set inp p.target c) out j n.1 h' ∙ get_elem?-set_ne inp c n.0

    -- The cell of each definition holds what its expression gives for these inputs.
    abbrev pub Current : List (Option (Value F)) → List (Program F) → Type 0
    Current inp [] = Unit {0}
    Current inp (p ∷ ps) =
        (get_elem? inp p.target ≡ cell_of (eval fl ch inp time solar p.expr)) × Current inp ps

    run_defs-keep :
        (n : ℕ) (p : Program F) (ps : List (Program F)) (inp out : List (Option (Value F)))
        → AreDefs n (p ∷ ps)
        → run_defs fl ch time solar (p ∷ ps) inp ≡ some out
        → eval fl ch out time solar p.expr ≡ eval fl ch inp time solar p.expr
    unfolding eval_as_var
    run_defs-keep n p ps inp out a h =
        eval-same fl ch out inp time time solar solar p.expr (same_times (uses_time p.expr))
          (λ b. refl)
          (λ k r. ap of_cell (
            run_defs-others (p ∷ ps) inp out k (NoTarget-below n k (p ∷ ps) a (a.0.reads_below k r))
              h))
      where
        same_times : (o : Option Span) → Agree fl ch out inp time time solar solar o
        same_times none = tt
        same_times (some s) = λ z. SameFrom-refl fl ch s _

    pub run_defs-Current :
        (n : ℕ) (ps : List (Program F)) (inp out : List (Option (Value F)))
        → AreDefs n ps
        → run_defs fl ch time solar ps inp ≡ some out
        → Current out ps
    run_defs-Current n [] inp out a h = tt
    run_defs-Current n (p ∷ ps) inp out a h =
        let (c, is, lt, h') = run-cons p ps inp out h in
        (
          run_defs-others ps (set inp p.target c) out p.target a.1 h'
              ∙ get_elem?-set_self inp p.target c lt
              ∙ sym is
              ∙ ap cell_of (sym (run_defs-keep n p ps inp out a h)),
          run_defs-Current n ps (set inp p.target c) out a.2 h',
        )

  abbrev pub IsCurrent : List (Program F) → Running fl ch → Type 0
  IsCurrent defs r = Current r.time r.solar r.inputs defs

  -- Whether the expressions are computed again after this event.
  abbrev pub recalculates : Event fl ch → Bool
  recalculates solar_lagged = false
  recalculates (solar_info s) = true
  recalculates solar_closed = true
  recalculates (tick t) = true
  recalculates (reading i v) = true

  -- The device inputs after this event.
  abbrev pub heard : List (Option (Value F)) → Event fl ch → List (Option (Value F))
  heard inp (reading i v) = set inp i (some v)
  heard inp solar_lagged = inp
  heard inp (solar_info s) = inp
  heard inp solar_closed = inp
  heard inp (tick t) = inp

  abbrev pub SameBelow : ℕ → List (Option (Value F)) → List (Option (Value F)) → Type 0
  SameBelow n inp out = (j : ℕ) → j < n → get_elem? out j ≡ get_elem? inp j

  abbrev after_round : Running fl ch → Round fl ch → Running fl ch
  after_round r (next r' msgs) = r'
  after_round r stopped = r
  after_round r panicked = r

  settle-next :
      (r r' : Running fl ch) (o : Option (List (Program F × Output F) × List (ℕ × Value F)))
      → (msgs : List (ℕ × Value F)) → settle fl ch r o ≡ next r' msgs
      → (r'.inputs ≡ r.inputs) × (r'.time ≡ r.time) × (r'.solar ≡ r.solar)
  settle-next r r' none msgs h = cc
  settle-next r r' (some (exprs, m)) msgs h =
      let e = ap (after_round r) (sym h) in
      (ap (λ q. q.inputs) e, ap (λ q. q.time) e, ap (λ q. q.solar) e)

  module _ (n : ℕ) (defs : List (Program F)) (answer : ℕ → Value F → Answer F) where
    recalculate-Current :
        (r r' : Running fl ch) (msgs : List (ℕ × Value F))
        → AreDefs n defs
        → recalculate fl ch defs answer r ≡ next r' msgs
        → IsCurrent defs r' × SameBelow n r.inputs r'.inputs
    unfolding recalculate
    recalculate-Current r r' msgs a h =
        elim (Option-cases (run_defs fl ch r.time r.solar defs r.inputs)) [
          | inl e ↦ let h' : panicked ≡ next r' msgs = rw e at h in cc
          | inr (inp, e) ↦
              let h' : settle fl ch (record r { inputs = inp })
                    (run_exprs fl ch r.time r.solar answer inp r.exprs)
                  ≡ next r' msgs =
                rw e at h in
              let (ei, et, es) = settle-next (record r { inputs = inp }) r' _ msgs h' in
              rw (ei, et, es)
                (
                  run_defs-Current r.time r.solar n defs r.inputs inp a e,
                  λ j lt.
                      run_defs-others r.time r.solar defs r.inputs inp j
                        (NoTarget-below n j defs a lt) e,
                )
        ]

    -- Where the definitions read the device inputs only and each sets a cell of its own behind
    -- them, then after a round of the loop the cell of each definition holds what its expression
    -- gives for the inputs, the time and the sun of the new state, in whatever order the
    -- definitions stand, if the cells held that before or the round computed them again. The
    -- device inputs are as before, but for the reading that the round is about.
    pub step-Current :
        (r r' : Running fl ch) (e : Event fl ch) (msgs : List (ℕ × Value F))
        → AreDefs n defs
        → (recalculates e ≡ false → IsCurrent defs r)
        → step fl ch defs answer r e ≡ next r' msgs
        → IsCurrent defs r' × SameBelow n (heard r.inputs e) r'.inputs
    unfolding step
    step-Current r r' (solar_info s) msgs a c h =
        recalculate-Current (record r { solar = some s }) r' msgs a h
    step-Current r r' solar_closed msgs a c h = cc
    step-Current r r' (tick t) msgs a c h = recalculate-Current (record r { time = t }) r' msgs a h
    step-Current r r' solar_lagged msgs a c h =
        let e = ap (after_round r) h in
        subst (λ q. IsCurrent defs q × SameBelow n r.inputs q.inputs) e (c refl, λ j lt. refl)
    step-Current r r' (reading i v) msgs a c h =
        elim (Option-cases (put fl ch r.inputs i (some v))) [
          | inl e ↦ let h' : panicked ≡ next r' msgs = rw e at h in cc
          | inr (inp, e) ↦
              let h' : recalculate fl ch defs answer (record r { inputs = inp }) ≡ next r' msgs =
                rw e at h in
              let (cur, keep) = recalculate-Current (record r { inputs = inp }) r' msgs a h' in
              (
                cur,
                λ j lt. keep j lt ∙ ap (λ l. get_elem? l j) (put_lem r.inputs inp i (some v) e).1,
              )
        ]
