-- ===== src/Examples/Drivers.antt =====
-- Runs of the drivers of drmemd/src/driver.
use drmem.Base.{ℕ, ◌≡◌, refl, Bool, true, false, none, List, [], ◌∷◌, ◌++◌, ◌==◌}
use drmem.Base.{some, map}
use drmem.Base.{arith}
use drmem.Base.Int.{pos}
use drmem.Api.Value.{Value, int}
use drmem.Driver.Timer
use drmem.Driver.Timer.Laws.{Reach-Shows, input_of}
use drmem.Driver.Cycle
use drmem.Driver.Cycle.Laws.{run-Shows, Handled}
use drmem.Driver.Map
use drmem.Driver.Map.Search.{lookup}
use drmem.Driver.Map.Laws.{parse-map_to}
use drmem.Driver.Latch
use drmem.Driver.Latch.Laws.{latch-Shows, is_tripped, last_output}
use drmem.Driver.Counter
use drmem.Driver.Counter.Laws.{run-edges, counted, transitions, repeated, length_events}

abbrev on : Value ℕ
on = int (pos 1)

abbrev off : Value ℕ
off = int (pos 0)

abbrev eq : ℕ → ℕ → Bool
eq a b = a == b

abbrev timer : Timer.Run ℕ
timer = (Timer.start (Timer.new on off 1000) 5).0

abbrev timer_sent : List (Timer.Action ℕ)
timer_sent = (Timer.start (Timer.new on off 1000) 5).1

Reach-Shows_example :
    Timer.Laws.Shows on off
      (Timer.on_setting timer true 7).0
      (timer_sent ++ (Timer.on_setting timer true 7).1)
Reach-Shows_example =
    Reach-Shows on off 1000 5 (Timer.Reach.next Timer.Reach.here (Timer.Step.setting timer true 7))

run-Shows_example : Handled eq off (on ∷ off ∷ []) off (
    Cycle.run eq
      (Cycle.new false 500 off (on ∷ off ∷ []))
      (Cycle.Event.setting true ∷ Cycle.Event.tick ∷ []))
run-Shows_example =
    run-Shows eq (λ a b c h k. ground arith) false 500 off (on ∷ off ∷ [])
      (Cycle.Event.setting true ∷ Cycle.Event.tick ∷ []) (omega arith) (omega arith)

abbrev latch : Latch.Run ℕ
latch = record {
  inst = record { state = Latch.LatchState.tripped; active_value = on; inactive_value = off };
  reset = false;
  trigger = true;
}

latch-Shows_example :
    let (r, acts) = Latch.start (Latch.new on off) in
    let es = Latch.Event.set_trigger true ∷ Latch.Event.set_reset true ∷ [] in
    Latch.Laws.Shows on off
      (Latch.run_from r es).0
      (last_output (last_output on acts) (Latch.run_from r es).1)
latch-Shows_example =
    latch-Shows on off (Latch.Event.set_trigger true ∷ Latch.Event.set_reset true ∷ [])

-- The second true is no transition, but follows a reset.
abbrev presses : List Counter.Event
presses =
    Counter.Event.set_increment true
    ∷ Counter.Event.set_reset true
    ∷ Counter.Event.set_increment true
    ∷ []

run-edges_example :
    Counter.get_count (Counter.run_from Counter.new presses).0
    ≡ pos (counted (transitions false 0 presses) (repeated false false false presses))
unfolding length_events
run-edges_example = run-edges presses (omega arith)

presses-transitions : transitions false 0 presses ≡ 0
unfolding transitions
presses-transitions = refl

abbrev low_range : Map.ConfigEntry ℕ
low_range = record { start = pos 1; end = some (pos 5); value = on }

abbrev high_range : Map.ConfigEntry ℕ
high_range = record { start = pos 8; end = none; value = off }

abbrev ranges : Map.Params ℕ
ranges = record { initial = none; default = off; values = high_range ∷ low_range ∷ [] }

abbrev sorted_ranges : Map.Params ℕ
sorted_ranges = record { initial = none; default = off; values = low_range ∷ high_range ∷ [] }

parse-map_to_example :
    Map.map_to (Map.new sorted_ranges) (pos 3)
    ≡ lookup (map Map.to_entry ranges.values) (pos 3) ranges.default
unfolding Map.parse
parse-map_to_example = parse-map_to ranges sorted_ranges (pos 3) refl refl
