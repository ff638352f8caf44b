-- ===== src/Driver/Timer/Laws.antt =====
-- The promises of the timer driver, drmemd/src/driver/timer/driver.rs.
use drmem.Base.{ℕ, ◌+◌, ◌≡◌, refl, Bool, true, false, not, ◌&&◌, Option, none, some, List, [], ◌∷◌}
use drmem.Base.{◌++◌, arith, if◌then◌else◌}
use drmem.Api.Value.{Value}
use drmem.Driver.Timer.{TimerState, armed, timing, timing_and_armed, timed_out, is_timing}
use drmem.Driver.Timer.{Action, reply, report_enable, report_output, Run, start, on_timeout}
use drmem.Driver.Timer.{on_setting, Step, sleep, setting, Reach, here, next, new}

-- The `enable` input that a state stands for.
unfoldable pub input_of : TimerState → Bool
input_of armed = false
input_of timing = true
input_of timing_and_armed = false
input_of timed_out = true

module _ {F : Type 0} where
  -- The last values that the two devices reported.
  unfoldable pub last_output : Option (Value F) → List (Action F) → Option (Value F)
  last_output o [] = o
  last_output o (report_output v ∷ acts) = last_output (some v) acts
  last_output o (_ ∷ acts) = last_output o acts

  unfoldable pub last_enable : Option Bool → List (Action F) → Option Bool
  last_enable o [] = o
  last_enable o (report_enable b ∷ acts) = last_enable (some b) acts
  last_enable o (_ ∷ acts) = last_enable o acts

  last_output-append :
      (o : Option (Value F)) (xs ys : List (Action F))
      → last_output o (xs ++ ys) ≡ last_output (last_output o xs) ys
  unfolding last_output
  last_output-append o [] ys = refl
  last_output-append o (report_output v ∷ xs) ys = last_output-append (some v) xs ys
  last_output-append o (reply b ∷ xs) ys = last_output-append o xs ys
  last_output-append o (report_enable b ∷ xs) ys = last_output-append o xs ys

  last_enable-append :
      (o : Option Bool) (xs ys : List (Action F))
      → last_enable o (xs ++ ys) ≡ last_enable (last_enable o xs) ys
  unfolding last_enable
  last_enable-append o [] ys = refl
  last_enable-append o (report_output v ∷ xs) ys = last_enable-append o xs ys
  last_enable-append o (reply b ∷ xs) ys = last_enable-append o xs ys
  last_enable-append o (report_enable b ∷ xs) ys = last_enable-append (some b) xs ys

  -- What the devices show agrees with the state, and the configuration is kept.
  pub record Shows (active inactive : Value F) (r : Run F) (sent : List (Action F)) : Type 0 where
    pub output : last_output none sent ≡ some (if is_timing r.inst.state then active else inactive)
    pub enable : last_enable none sent ≡ some (input_of r.inst.state)
    pub active_kept : r.inst.active_value ≡ active
    pub inactive_kept : r.inst.inactive_value ≡ inactive

  start-Shows :
      (active inactive : Value F) (millis now : ℕ)
      → Shows active inactive
          (start (new active inactive millis) now).0
          (start (new active inactive millis) now).1
  unfolding start new last_output last_enable input_of
  start-Shows active inactive millis now = ground arith

  Step-Shows :
      {active inactive : Value F} {r u : Run F} {sent acts : List (Action F)}
      → Shows active inactive r sent
      → Step r acts u
      → Shows active inactive u (sent ++ acts)
  unfolding on_timeout on_setting last_output last_enable input_of
  Step-Shows {sent} s (sleep r now t le) = ground (
    arith,
    last_output-append none sent (on_timeout r).1,
    last_enable-append none sent (on_timeout r).1,
  )
  Step-Shows {sent} s (setting r b now) = ground (
    arith,
    last_output-append none sent (on_setting r b now).1,
    last_enable-append none sent (on_setting r b now).1,
  )

  -- In every run, whatever the times and the settings, the output device last reported the active
  -- value if the driver is timing and the inactive value if not, the enable device last reported
  -- the input that the state stands for, and the configured values are as they were.
  pub Reach-Shows :
      (active inactive : Value F) (millis now : ℕ) {r : Run F} {sent : List (Action F)}
      → Reach
          (start (new active inactive millis) now).0
          (start (new active inactive millis) now).1
          r
          sent
      → Shows active inactive r sent
  Reach-Shows active inactive millis now here = start-Shows active inactive millis now
  Reach-Shows active inactive millis now (next rs st) =
      Step-Shows (Reach-Shows active inactive millis now rs) st

  -- A setting that turns the input from false to true, and no other, sets the deadline to the
  -- configured time from now; otherwise the deadline is kept. The state then stands for the new
  -- input. The setting is answered and reported, and the active value is reported only if such a
  -- setting finds the driver not timing.
  on_setting_edge :
      (r : Run F) (b : Bool) (now : ℕ)
      → let edge = b && not (input_of r.inst.state) in
        ((on_setting r b now).0.timeout ≡ (if edge then now + r.inst.millis else r.timeout))
        × (input_of (on_setting r b now).0.inst.state ≡ b)
        × ((on_setting r b now).1
            ≡ reply b
              ∷ report_enable b
              ∷ (if edge && not (is_timing r.inst.state)
                  then report_output r.inst.active_value ∷ []
                  else []))
  unfolding on_setting input_of
  on_setting_edge r b now = ground arith
