-- ===== src/External/Sump.antt =====
-- The sump pump monitor, drivers/drmem-drv-sump/src/driver.rs.
pub mod Laws
use drmem.Base.{
  ℕ, ◌+◌, ◌-◌, ◌*◌, ◌≤◌, Bool, true, false, not, Option, none, some, List, [], ◌∷◌, ◌++◌, ◌==◌, ltb,
  leb,
}
use drmem.Base.{if◌then◌else◌}

-- Times are those of the frames, in milliseconds.
pub data State : Type 0 where
  unknown : State
  off : ℕ → State
  on : ℕ → ℕ → State

-- The arithmetic of `f64`. The numbers of the source are integers here.
pub record Floats : Type 1 where
  pub F : Type 0
  pub of_u64 : ℕ → F
  pub fmul : F → F → F
  pub fdiv : F → F → F
  pub fround : F → F

unfoldable pub on_event : State → ℕ → State × Bool
on_event unknown stamp = (unknown, false)
on_event (off off_time) stamp =
    if ltb off_time stamp then (on off_time stamp, true) else (off off_time, false)
on_event (on off_time on_time) stamp = (on off_time on_time, false)

module _ (fl : Floats) where
  open fl use {F, of_u64, fmul, fdiv, fround}

  abbrev duty_of : ℕ → ℕ → F
  duty_of on_time off_time = fdiv (fmul (of_u64 on_time) (of_u64 1000)) (of_u64 off_time)

  abbrev in_flow_of : F → F → F
  in_flow_of gpm duty = fdiv (fround (fdiv (fmul gpm duty) (of_u64 10))) (of_u64 100)

  abbrev pub cycle_of : ℕ → ℕ → F → ℕ × F × F
  cycle_of on_time off_time gpm =
      let duty = duty_of on_time off_time in
      (off_time, fdiv (fround duty) (of_u64 10), in_flow_of gpm duty)

  -- The time on is compared with 500 before it is made a float.
  unfoldable pub off_event : State → ℕ → F → State × Option (ℕ × F × F)
  off_event unknown stamp gpm = (off stamp, none)
  off_event (off off_time) stamp gpm = (off off_time, none)
  off_event (on off_time on_time) stamp gpm =
      if leb stamp on_time
      then (off stamp, none)
      else if ltb 500 (stamp - on_time)
      then (off stamp, some (cycle_of (stamp - on_time) (stamp - off_time) gpm))
      else (on off_time on_time, none)

  -- What is reported to the devices.
  pub data Report : Type 0 where
    state : Bool → Report
    duty : F → Report
    inflow : F → Report
    duration : F → Report
    service : Bool → Report

  -- The first reports of `run`.
  abbrev pub initial : List Report
  initial = state false ∷ duty (of_u64 0) ∷ inflow (of_u64 0) ∷ service true ∷ []

  abbrev of_cycle : Option (ℕ × F × F) → List Report
  of_cycle none = []
  of_cycle (some (cycle, d, in_flow)) =
      state false
      ∷ duty d
      ∷ inflow in_flow
      ∷ duration (fdiv (fround (fdiv (of_u64 cycle) (of_u64 600))) (of_u64 100))
      ∷ []

  abbrev of_start : Bool → List Report
  of_start false = []
  of_start true = state true ∷ []

  abbrev pub on_reading : State → F → ℕ → State × List Report
  on_reading s gpm stamp = let (s', started) = on_event s stamp in (s', of_start started)

  abbrev pub off_reading : State → F → ℕ → State × List Report
  off_reading s gpm stamp = let (s', cycle) = off_event s stamp gpm in (s', of_cycle cycle)

  -- A frame is a time and a number, of which `get_reading` makes a Boolean.
  unfoldable pub handle : State → F → ℕ × ℕ → State × List Report
  unfolding on_event off_event
  handle s gpm (stamp, value) =
      if not (value == 0) then on_reading s gpm stamp else off_reading s gpm stamp

  -- The loop of `run` for these frames, from a state on, with all that it reports.
  unfoldable pub run_from : State → F → List (ℕ × ℕ) → State × List Report
  unfolding handle
  run_from s gpm [] = (s, [])
  run_from s gpm (frame ∷ frames) =
      let (s', first) = handle s gpm frame in
      let (s'', later) = run_from s' gpm frames in (s'', first ++ later)

  -- When the connection fails, these are reported and the driver panics.
  abbrev pub disconnected : List Report
  disconnected = state false ∷ service false ∷ []

  unfoldable pub run : F → List (ℕ × ℕ) → State × List Report
  unfolding run_from
  run gpm frames = let (s, reports) = run_from unknown gpm frames in (s, initial ++ reports)
