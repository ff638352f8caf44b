-- ===== src/Driver/Timer.antt =====
-- The timer driver, drmemd/src/driver/timer/driver.rs.
pub mod Laws
use drmem.Base.{ℕ, ◌+◌, ◌≤◌, ◌≡◌, Bool, true, false, Option, none, some, List, [], ◌∷◌, ◌++◌}
use drmem.Api.Value.{Value}

pub data TimerState : Type 0 where
  armed timing timing_and_armed timed_out : TimerState

-- `F` stands for `f64`. Durations and instants are in milliseconds.
pub record Instance (F : Type 0) : Type 0 where
  pub state : TimerState
  pub active_value : Value F
  pub inactive_value : Value F
  pub millis : ℕ

unfoldable pub new : {F : Type 0} → Value F → Value F → ℕ → Instance F
new active inactive millis = record {
  state = armed;
  active_value = active;
  inactive_value = inactive;
  millis = millis;
}

abbrev pub is_timing : TimerState → Bool
is_timing timing = true
is_timing timing_and_armed = true
is_timing _ = false

abbrev expired : TimerState → TimerState
expired timing = timed_out
expired timing_and_armed = armed
expired s = s

unfoldable pub time_expired : {F : Type 0} → Instance F → Instance F
time_expired t = record t { state = expired t.state }

-- `now` is what `Instant::now()` returns. The result is the new instance, the value for the output
-- and the new deadline.
abbrev Updated : Type 0 → Type 0
Updated F = Instance F × Option (Value F) × Option ℕ

abbrev update_in : {F : Type 0} → TimerState → Bool → ℕ → Instance F → Updated F
update_in timing_and_armed true now t = (record t { state = timing }, none, some (now + t.millis))
update_in timing_and_armed false now t = (t, none, none)
update_in armed true now t =
    (record t { state = timing }, some t.active_value, some (now + t.millis))
update_in armed false now t = (t, none, none)
update_in timing true now t = (t, none, none)
update_in timing false now t = (record t { state = timing_and_armed }, none, none)
update_in timed_out true now t = (t, none, none)
update_in timed_out false now t = (record t { state = armed }, none, none)

unfoldable pub update_state : {F : Type 0} → Instance F → Bool → ℕ → Updated F
update_state t val now = update_in t.state val now t

-- What the driver sends: the reply to a setting, and the reports of its two devices.
pub data Action (F : Type 0) : Type 0 where
  reply : Bool → Action F
  report_enable : Bool → Action F
  report_output : Value F → Action F

-- The variables of `run`: the instance and the deadline of its sleep.
pub record Run (F : Type 0) : Type 0 where
  pub inst : Instance F
  pub timeout : ℕ

abbrev report_if : {F : Type 0} → Option (Value F) → List (Action F)
report_if none = []
report_if (some v) = report_output v ∷ []

abbrev deadline_or : Option ℕ → ℕ → ℕ
deadline_or none old = old
deadline_or (some t) old = t

-- Before the loop.
unfoldable pub start : {F : Type 0} → Instance F → ℕ → Run F × List (Action F)
start t now =
    (record { inst = t; timeout = now }, report_enable false ∷ report_output t.inactive_value ∷ [])

-- The branch of `select!` that the sleep wakes, if the driver is timing.
unfoldable pub on_timeout : {F : Type 0} → Run F → Run F × List (Action F)
unfolding time_expired
on_timeout r = (
  record r { inst = time_expired r.inst },
  report_output (time_expired r.inst).inactive_value ∷ [],
)

-- The branch of a setting of the `enable` device.
unfoldable pub on_setting : {F : Type 0} → Run F → Bool → ℕ → Run F × List (Action F)
unfolding update_state
on_setting r b now =
    let (t, out, tmo) = update_state r.inst b now in
    (
      record { inst = t; timeout = deadline_or tmo r.timeout },
      reply b ∷ report_enable b ∷ report_if out,
    )

-- One round of the loop. The sleep is polled only while the driver is timing, and wakes at the
-- deadline or later.
pub data Step {F : Type 0} : Run F → List (Action F) → Run F → Type 0 where
  sleep :
      (r : Run F) (now : ℕ)
      → is_timing r.inst.state ≡ true
      → r.timeout ≤ now
      → Step r (on_timeout r).1 (on_timeout r).0
  setting : (r : Run F) (b : Bool) (now : ℕ) → Step r (on_setting r b now).1 (on_setting r b now).0

-- The rounds since the loop began, and all that was sent.
pub data Reach {F : Type 0} (r : Run F) (sent : List (Action F))
    : Run F → List (Action F) → Type 0 where
  here : Reach r sent r sent
  next :
      {s u : Run F} {old acts : List (Action F)}
      → Reach r sent s old
      → Step s acts u
      → Reach r sent u (old ++ acts)
