-- ===== src/Examples/Node.antt =====
-- Logic blocks of drmemd/src/logic.rs with concrete expressions.
use drmem.Base.{ℕ, ◌≡◌, refl, true, none, some, List, [], ◌∷◌, get_elem?, arith}
use mathlib.Core.List.Memᴰ
use drmem.Api.Value.{Value, bool, int}
use drmem.Base.Int.{pos}
use drmem.Logic.Expr.{
  Span, utc, local, sooner, span_of, Expr, lit, var, time_val, lt_of, uses_time, minute,
}
use drmem.Logic.Eval.{eval}
use drmem.Logic.Reactive.{reads}
use drmem.Logic.Filter.{Item, tick}
use drmem.Logic.Filter.Laws.{SameBoth}
use drmem.Logic.Node.{
  Program, create, Answer, accepted, rejected, Running, reading, next, step, pair_up,
}
use drmem.Logic.Node.{needs_time, needs_solar, send, run_defs, run_exprs, recalculate}
use drmem.Logic.Node.Defs.{AreDefs, IsCurrent, SameBelow, heard, step-Current}
use drmem.Logic.Node.Pairs.{rank, IsDistinct, pair_up-rank}
use drmem.Logic.Node.Outputs.{sent, NoRepeat, sent-NoRepeat}
use drmem.Logic.Node.Times.{time_after, solar_after, IsSteady, needs_time-eval}
use drmem.Examples.World.{numbers, clock, at}

abbrev five : Expr ℕ
five = lit (int (pos 5))

-- `inp[0] < 5 -> {inp[1]}`
abbrev small : Program ℕ
small = record { expr = lt_of (var 0) five; target = 1 }

-- `inp[1] -> {out[0]}`
abbrev shown : Program ℕ
shown = record { expr = var 1; target = 0 }

abbrev idle : Running numbers clock
idle = record {
  inputs = none ∷ none ∷ [];
  exprs = (shown, create 0) ∷ [];
  time = at 0;
  solar = none;
}

abbrev accepts_all : ℕ → Value ℕ → Answer ℕ
accepts_all c v = accepted v

abbrev after_three : Running numbers clock
after_three = record {
  inputs = some (int (pos 3)) ∷ some (bool true) ∷ [];
  exprs = (shown, record { prev = some (bool true); chan = 0 }) ∷ [];
  time = at 0;
  solar = none;
}

small-AreDefs : AreDefs 1 (small ∷ [])
unfolding reads
small-AreDefs = (record { reads_below = λ k h. ground arith; sets_above = omega arith }, tt, tt)

three_read :
    step numbers clock (small ∷ []) accepts_all idle (reading 0 (int (pos 3)))
    ≡ next after_three ((0, bool true) ∷ [])
unfolding step run_defs run_exprs recalculate send eval create
three_read = refl

step-Current_example :
    IsCurrent numbers clock (small ∷ []) after_three
    × SameBelow numbers clock 1
        (heard numbers clock idle.inputs (reading 0 (int (pos 3))))
        after_three.inputs
step-Current_example =
    step-Current numbers clock 1 (small ∷ []) accepts_all idle after_three (reading 0 (int (pos 3)))
      ((0, bool true) ∷ []) small-AreDefs (λ e. cc) three_read

-- `{utc:minute} < 5`
abbrev early : Program ℕ
early = record { expr = lt_of (time_val utc minute) five; target = 0 }

abbrev two_ticks : List (Item numbers clock)
two_ticks = tick (at 61) ∷ tick (at 62) ∷ []

same_minute : SameBoth numbers clock Span.minute (at 61) (at 62)
same_minute utc = (refl, (refl, (refl, refl, refl, (refl, refl))))
same_minute local = (refl, (refl, (refl, refl, refl, (refl, refl))))

two_ticks-IsSteady : IsSteady numbers clock (needs_time (early ∷ [])) two_ticks
unfolding needs_time uses_time sooner span_of
two_ticks-IsSteady = (λ e. same_minute, tt)

needs_time-eval_example :
    eval numbers clock []
      (time_after numbers clock (needs_time (early ∷ [])) (at 0) two_ticks)
      (solar_after numbers clock (needs_solar (early ∷ [])) none)
      early.expr
    ≡ eval numbers clock [] (at 62) none early.expr
needs_time-eval_example =
    needs_time-eval numbers clock early (early ∷ []) [] none (at 0) (at 62) two_ticks
      (Memᴰ.head refl) two_ticks-IsSteady refl

abbrev second_output : Program ℕ
second_output = record { expr = five; target = 1 }

-- The only expression is for the second of two outputs, and gets the first.
pair_up-rank_example :
    get_elem? (pair_up (second_output ∷ []) 2) (rank 1 (second_output ∷ []))
    ≡ some (second_output, create (rank 1 (second_output ∷ [])))
unfolding rank
pair_up-rank_example =
    pair_up-rank second_output (second_output ∷ []) 2 (tt, tt) (Memᴰ.head refl) (omega arith)

distinct : IsDistinct (second_output ∷ shown ∷ [])
distinct = ((λ e. absurd (omega (arith, e)), tt), (tt, tt))

abbrev wants : List (Value ℕ × Answer ℕ)
wants =
    (int (pos 3), accepted (int (pos 3)))
    ∷ (int (pos 3), accepted (int (pos 3)))
    ∷ (int (pos 4), rejected)
    ∷ (int (pos 4), accepted (int (pos 4)))
    ∷ []

sent-NoRepeat_example :
    NoRepeat numbers.feq none (sent numbers.feq (record { prev = none; chan = 0 }) wants)
sent-NoRepeat_example = sent-NoRepeat numbers.feq (record { prev = none; chan = 0 }) wants
