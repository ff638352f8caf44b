-- ===== src/Logic/Node.antt =====
-- Logic blocks, `Output` and `Node` of drmemd/src/logic.rs.
pub mod Outputs
pub mod Pairs
pub mod Complete
pub mod Defs
pub mod Times
use drmem.Base.{ℕ, zero, suc, ◌≤◌, Bool, true, false, ◌||◌, Option, none, some, List, [], ◌∷◌, ◌++◌}
use drmem.Base.{length, set, ltb, leb, replicate, if◌then◌else◌}
use drmem.Api.Value.{Value, value_eq}
use drmem.Logic.Expr.{Span, sooner, Expr, uses_time, uses_solar}
use drmem.Logic.World.{Floats, Chrono, Solar}
use drmem.Logic.Ops.{Outcome, value, undefined, panic}
use drmem.Logic.Eval.{Info, eval}

-- `Program` of compile.rs: an expression and the index of the cell or of the output that it sets.
pub record Program (F : Type 0) : Type 0 where
  pub expr : Expr F
  pub target : ℕ

-- An output is named by the number of its channel.
pub record Output (F : Type 0) : Type 0 where
  pub prev : Option (Value F)
  pub chan : ℕ

-- How a setting ends: the driver replies with a value or an error, drops the reply channel, or does
-- not take settings any more.
pub data Answer (F : Type 0) : Type 0 where
  accepted : Value F → Answer F
  rejected : Answer F
  dropped : Answer F
  not_accepting : Answer F

unfoldable pub create : {F : Type 0} → ℕ → Output F
create chan = record { prev = none; chan = chan }

module _ {F : Type 0} (feq : F → F → Bool) where
  abbrev pub is_prev : Option (Value F) → Value F → Bool
  is_prev none v = false
  is_prev (some p) v = value_eq feq p v

  abbrev pub answered : Output F → Value F → Answer F → Output F × Bool
  answered o v (accepted w) = (record o { prev = some v }, true)
  answered o v rejected = (o, false)
  answered o v dropped = (o, false)
  answered o v not_accepting = (o, false)

  -- The new output, the setting that was tried if there was one, and the result.
  unfoldable pub send : Output F → Value F → Answer F → Output F × Option (Value F) × Bool
  send o v a =
      if is_prev o.prev v
      then (o, none, true)
      else (let (o', done) = answered o v a in (o', some v, done))

-- The order in which a hash map lists the outputs is that of the channels here: 0, 1 and so on.
module _ {F : Type 0} where
  abbrev pub insert : Program F → List (Program F) → List (Program F)
  insert p [] = p ∷ []
  insert p (q ∷ qs) =
      let rest = insert p qs in if leb p.target q.target then p ∷ q ∷ qs else q ∷ rest

  -- `sort_unstable_by`
  unfoldable pub sort_by_target : List (Program F) → List (Program F)
  sort_by_target [] = []
  sort_by_target (p ∷ ps) = insert p (sort_by_target ps)

  unfoldable pub zip : List (Program F) → List (Output F) → List (Program F × Output F)
  zip [] outs = []
  zip (p ∷ ps) [] = []
  zip (p ∷ ps) (o ∷ outs) = (p, o) ∷ zip ps outs

  -- The outputs of `setup_outputs`.
  unfoldable pub channels : ℕ → ℕ → List (Output F)
  unfolding create
  channels first zero = []
  channels first (suc n) = create first ∷ channels (suc first) n

  -- The last expressions of `Node::init`, for a number of outputs.
  unfoldable pub pair_up : List (Program F) → ℕ → List (Program F × Output F)
  unfolding sort_by_target zip channels
  pair_up exprs outputs = zip (sort_by_target exprs) (channels 0 outputs)

  -- `filter_map(uses_time).min()`
  unfoldable pub needs_time : List (Program F) → Option Span
  unfolding sooner
  needs_time [] = none
  needs_time (p ∷ ps) = sooner (uses_time p.expr) (needs_time ps)

  -- `any(uses_solar)`
  unfoldable pub needs_solar : List (Program F) → Bool
  needs_solar [] = false
  needs_solar (p ∷ ps) = uses_solar p.expr || needs_solar ps

module _ (fl : Floats) (ch : Chrono) where
  open fl use {F, feq}

  -- The fields of `Node` that change, with the variables of `run`.
  pub record Running : Type 0 where
    pub inputs : List (Option (Value F))
    pub exprs : List (Program F × Output F)
    pub time : Info fl ch
    pub solar : Option (Solar F)

  pub data Event : Type 0 where
    solar_info : Solar F → Event
    solar_lagged : Event
    solar_closed : Event
    tick : Info fl ch → Event
    reading : ℕ → Value F → Event

  -- The result of a round of the loop.
  pub data Round : Type 0 where
    next : Running → List (ℕ × Value F) → Round
    -- `run` returns an error
    stopped : Round
    panicked : Round

  -- An index out of range is a panic, `none`.
  abbrev pub put : List (Option (Value F)) → ℕ → Option (Value F) → Option (List (Option (Value F)))
  put inp i c = if ltb i (length inp) then some (set inp i c) else none

  abbrev pub put_outcome :
      List (Option (Value F)) → ℕ → Outcome (Value F) → Option (List (Option (Value F)))
  put_outcome inp i (value v) = put inp i (some v)
  put_outcome inp i undefined = put inp i none
  put_outcome inp i panic = none

  module _ (time : Info fl ch) (solar : Option (Solar F)) where
    unfoldable pub run_defs :
        List (Program F) → List (Option (Value F)) → Option (List (Option (Value F)))
    run_defs [] inp = some inp
    run_defs (p ∷ ps) inp = elim (put_outcome inp p.target (eval fl ch inp time solar p.expr)) [
      | none ↦ none
      | some inp' ↦ run_defs ps inp'
    ]

    abbrev pub sent_on : ℕ → Option (Value F) → List (ℕ × Value F)
    sent_on chan none = []
    sent_on chan (some v) = (chan, v) ∷ []

    -- What one expression does with its output.
    abbrev pub send_outcome :
        (ℕ → Value F → Answer F)
        → Output F
        → Outcome (Value F)
        → Option (Output F × List (ℕ × Value F))
    send_outcome answer o (value v) =
        let (o', msg, done) = send feq o v (answer o.chan v) in some (o', sent_on o.chan msg)
    send_outcome answer o undefined = some (o, [])
    send_outcome answer o panic = none

    -- `join_all` of the settings: they are independent, each for its own output.
    unfoldable pub run_exprs :
        (ℕ → Value F → Answer F)
        → List (Option (Value F))
        → List (Program F × Output F)
        → Option (List (Program F × Output F) × List (ℕ × Value F))
    unfolding send
    run_exprs answer inp [] = some ([], [])
    run_exprs answer inp ((p, o) ∷ rest) =
        elim (send_outcome answer o (eval fl ch inp time solar p.expr)) [
          | none ↦ none
          | some (o', msgs) ↦ elim (run_exprs answer inp rest) [
            | none ↦ none
            | some (rest', later) ↦ some ((p, o') ∷ rest', msgs ++ later)
          ]
        ]

  -- What follows `select!`.
  abbrev pub settle : Running → Option (List (Program F × Output F) × List (ℕ × Value F)) → Round
  settle r none = panicked
  settle r (some (exprs, msgs)) = next (record r { exprs = exprs }) msgs

  abbrev pub recalculate_with :
      (ℕ → Value F → Answer F) → Running → Option (List (Option (Value F))) → Round
  recalculate_with answer r none = panicked
  recalculate_with answer r (some inp) =
      settle (record r { inputs = inp }) (run_exprs r.time r.solar answer inp r.exprs)

  unfoldable pub recalculate : List (Program F) → (ℕ → Value F → Answer F) → Running → Round
  unfolding run_defs run_exprs
  recalculate defs answer r = recalculate_with answer r (run_defs r.time r.solar defs r.inputs)

  abbrev pub recalculate_after :
      List (Program F)
      → (ℕ → Value F → Answer F)
      → Running
      → Option (List (Option (Value F)))
      → Round
  recalculate_after defs answer r none = panicked
  recalculate_after defs answer r (some inp) = recalculate defs answer (record r { inputs = inp })

  -- One round of the loop of `run`.
  unfoldable pub step : List (Program F) → (ℕ → Value F → Answer F) → Running → Event → Round
  unfolding recalculate
  step defs answer r (solar_info s) = recalculate defs answer (record r { solar = some s })
  step defs answer r solar_lagged = next r []
  step defs answer r solar_closed = stopped
  step defs answer r (tick t) = recalculate defs answer (record r { time = t })
  step defs answer r (reading i v) = recalculate_after defs answer r (put r.inputs i (some v))
