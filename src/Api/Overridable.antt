-- ===== src/Api/Overridable.antt =====
-- Devices that are also controlled from outside, drmem-api/src/driver/overridable_device.rs.
pub mod Laws
use drmem.Base.{ℕ, ◌+◌, Bool, true, false, Option, none, some, List, [], ◌∷◌, leb, if◌then◌else◌}

-- The channel to the client that made a setting, by number.
abbrev pub Responder : Type 0
Responder = ℕ

pub data State (T : Type 0) : Type 0 where
  unknown : State T
  unknown_trans : T → Responder → State T
  synced : T → State T
  synced_trans : T → State T
  unreported_setting : T → State T
  setting : T → State T
  setting_trans : T → Option Responder → State T
  reassert_setting : T → State T
  -- the setting, the override and the deadline
  overridden : T → T → ℕ → State T

-- The reporter and the stream of settings are what the actions and the wakeups below stand for.
pub record Device (T : Type 0) : Type 0 where
  pub state : State T
  pub override_duration : Option ℕ

pub data Action (T : Type 0) : Type 0 where
  report : T → Action T
  ok : Responder → T → Action T

abbrev Acted : Type 0 → Type 0
Acted T = State T × List (Action T)

-- What ends a wait: nothing was waited for, a setting, the end of the stream, or the sleep.
pub data Wakeup (T : Type 0) : Type 0 where
  ready : Wakeup T
  message : T → Responder → Wakeup T
  closed : Wakeup T
  elapsed : Wakeup T

-- How a round of the loop of `next_setting` ends: with the next round, or by `break`.
pub data Flow (T : Type 0) : Type 0 where
  again : Flow T
  break_none : Flow T
  break_some : T → Option Responder → Flow T

abbrev Rounded : Type 0 → Type 0
Rounded T = Option (State T × List (Action T) × Flow T)

abbrev initial : {T : Type 0} → Option T → State T
initial none = unknown
initial (some v) = setting_trans v none

unfoldable pub new : {T : Type 0} → Option T → Option ℕ → Device T
new desired duration = record { state = initial desired; override_duration = duration }

abbrev pub deadline_after : Option ℕ → ℕ → ℕ
deadline_after none now = now
deadline_after (some d) now = now + d

abbrev pub reply_if : {T : Type 0} → Option Responder → T → List (Action T)
reply_if none v = []
reply_if (some r) v = ok r v ∷ []

abbrev last_in : {T : Type 0} → State T → Option T
last_in unknown = none
last_in (unknown_trans v r) = some v
last_in (synced v) = some v
last_in (synced_trans v) = some v
last_in (setting v) = some v
last_in (setting_trans v r) = some v
last_in (reassert_setting v) = some v
last_in (unreported_setting v) = some v
last_in (overridden s o d) = some o

unfoldable pub get_last : {T : Type 0} → Device T → Option T
get_last d = last_in d.state

unfoldable pub reset_state : {T : Type 0} → Device T → Device T
reset_state d = record d { state = unknown }

-- `eq` is the `PartialEq` of the device's type.
module _ {T : Type 0} (eq : T → T → Bool) where
  abbrev report_in : State T → T → ℕ → Acted T
  report_in unknown v next = (synced v, report v ∷ [])
  report_in (unknown_trans w r) v next = (unknown_trans w r, [])
  report_in (overridden s o d) v next =
      if eq s v
      then (synced s, report v ∷ [])
      else if eq o v
      then (overridden s o d, [])
      else (overridden o v next, report v ∷ [])
  report_in (synced w) v next =
      if eq w v then (synced w, []) else (overridden w v next, report v ∷ [])
  report_in (setting w) v next = if eq w v then (synced v, []) else (reassert_setting w, [])
  report_in (reassert_setting w) v next =
      if eq w v then (synced v, []) else (reassert_setting w, [])
  report_in (unreported_setting w) v next =
      if eq w v then (synced v, []) else (unreported_setting w, [])
  report_in (setting_trans w r) v next =
      if eq w v then (synced_trans w, reply_if r w) else (setting_trans w r, [])
  report_in (synced_trans w) v next =
      if eq w v then (synced_trans w, []) else (overridden w v next, report w ∷ report v ∷ [])

  unfoldable pub report_update : Device T → T → ℕ → Device T × List (Action T)
  report_update d v now =
      let (s, acts) = report_in d.state v (deadline_after d.override_duration now) in
      (record d { state = s }, acts)

  -- The override is over.
  abbrev cancel : T → T → State T
  cancel s o = if eq s o then synced o else setting_trans s none

  -- A wait for the stream or, with a deadline that is not reached, for the sleep too.
  abbrev overridden_wait : T → T → ℕ → Bool → Wakeup T → Rounded T
  overridden_wait s o d timed (message v r) = some (overridden v o d, ok r v ∷ [], again)
  overridden_wait s o d timed closed = some (overridden s o d, [], break_none)
  overridden_wait s o d true elapsed = some (cancel s o, [], again)
  overridden_wait s o d timed _ = none

  abbrev overridden_round : Option ℕ → T → T → ℕ → Wakeup T → ℕ → Rounded T
  overridden_round none s o d w now = overridden_wait s o d false w
  overridden_round (some duration) s o d ready now =
      if leb d now then some (cancel s o, [], again) else none
  overridden_round (some duration) s o d w now =
      if leb d now then none else overridden_wait s o d true w

  -- One round of the loop, begun at the time `now`: `none` if the state does not wait for this.
  abbrev round_in : Option ℕ → State T → Wakeup T → ℕ → Rounded T
  round_in duration unknown (message v r) now = some (unknown_trans v r, [], again)
  round_in duration unknown closed now = some (unknown, [], break_none)
  round_in duration (unknown_trans v r) ready now =
      some (setting v, report v ∷ [], break_some v (some r))
  round_in duration (unreported_setting v) ready now = some (setting v, report v ∷ [], again)
  round_in duration (reassert_setting v) ready now = some (setting v, [], break_some v none)
  round_in duration (setting w) (message v r) now = some (
      if eq v w
      then (unreported_setting v, ok r v ∷ [], again)
      else (setting_trans v (some r), [], again))
  round_in duration (setting w) closed now = some (setting w, [], break_none)
  round_in duration (synced w) (message v r) now = some (
      if eq v w
      then (synced_trans v, ok r v ∷ [], again)
      else (setting_trans v (some r), [], again))
  round_in duration (synced w) closed now = some (synced w, [], break_none)
  round_in duration (setting_trans v r) ready now = some (setting v, report v ∷ [], break_some v r)
  round_in duration (synced_trans v) ready now = some (synced v, report v ∷ [], again)
  round_in duration (overridden s o d) w now = overridden_round duration s o d w now
  round_in duration _ _ now = none

  unfoldable pub round : Device T → Wakeup T → ℕ → Option (Device T × List (Action T) × Flow T)
  round d w now = elim (round_in d.override_duration d.state w now) [
    | none ↦ none
    | some (s, acts, flow) ↦ some (record d { state = s }, acts, flow)
  ]
