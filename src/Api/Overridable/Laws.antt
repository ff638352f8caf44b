-- ===== src/Api/Overridable/Laws.antt =====
-- The promises of drmem-api/src/driver/overridable_device.rs.
use drmem.Base.{
  ℕ, ◌+◌, ◌≤◌, ◌≡◌, refl, Bool, true, false, Option, none, some, List, [], ◌∷◌, ◌++◌, arith,
}
use drmem.Base.{◌⊎◌, leb, if◌then◌else◌}
use drmem.Api.Overridable.{Responder, State, unknown_trans, synced, setting}
use drmem.Api.Overridable.{unreported_setting, setting_trans, reassert_setting, overridden, Device}
use drmem.Api.Overridable.{Action, report, ok, Wakeup, ready, elapsed, message, Flow, again}
use drmem.Api.Overridable.{break_some, report_update, round, new}

-- The client whose setting the device still holds.
abbrev pub held : {T : Type 0} → State T → List Responder
held (unknown_trans v r) = r ∷ []
held (setting_trans v (some r)) = r ∷ []
held _ = []

abbrev pub received : {T : Type 0} → Wakeup T → List Responder
received (message v r) = r ∷ []
received _ = []

abbrev pub replied : {T : Type 0} → List (Action T) → List Responder
replied [] = []
replied (ok r v ∷ acts) = r ∷ replied acts
replied (report v ∷ acts) = replied acts

abbrev pub handed : {T : Type 0} → Flow T → List Responder
handed (break_some v (some r)) = r ∷ []
handed _ = []

module _ {T : Type 0} (eq : T → T → Bool) where
  -- No client is forgotten and none is answered twice: in each round of `next_setting` the
  -- clients that were held or just received are those that are replied to, handed to the driver,
  -- or held.
  pub round-clients :
      (d d' : Device T) (w : Wakeup T) (now : ℕ) {acts : List (Action T)} {flow : Flow T}
      → round eq d w now ≡ some (d', acts, flow)
      → held d.state ++ received w ≡ replied acts ++ handed flow ++ held d'.state
  unfolding round
  round-clients d d' w now h = ground arith

  -- When a polled value is reported, a client that was held is replied to or still held, once and
  -- in order.
  report_update-clients :
      (d : Device T) (v : T) (now : ℕ)
      → held d.state
        ≡ replied (report_update eq d v now).1 ++ held (report_update eq d v now).0.state
  unfolding report_update
  report_update-clients d v now = ground arith

  -- Where the device has a pending setting or none at all, nothing is said of the last report.
  -- Elsewhere it is the value of the hardware, as far as the state knows.
  abbrev pub Reported : State T → Option T → Type 0
  Reported (synced v) last = last ≡ some v
  Reported (setting v) last = last ≡ some v
  Reported (unreported_setting v) last = last ≡ some v
  Reported (reassert_setting v) last = last ≡ some v
  Reported (overridden s o d) last = last ≡ some o
  Reported _ last = Unit {0}

  abbrev pub last_report : Option T → List (Action T) → Option T
  last_report o [] = o
  last_report o (report v ∷ acts) = last_report (some v) acts
  last_report o (ok r v ∷ acts) = last_report o acts

  last_report-append :
      (o : Option T) (xs ys : List (Action T))
      → last_report o (xs ++ ys) ≡ last_report (last_report o xs) ys
  last_report-append o [] ys = refl
  last_report-append o (report v ∷ xs) ys = last_report-append (some v) xs ys
  last_report-append o (ok r v ∷ xs) ys = last_report-append o xs ys

  -- What can happen to a device, with all that it sent: a round of `next_setting`, whatever ends
  -- its wait, or a report of a polled value.
  pub data Reach (d : Device T) : Device T → List (Action T) → Type 0 where
    here : Reach d d []
    rounds :
        {e f : Device T} {sent acts : List (Action T)}
        → Reach d e sent
        → (w : Wakeup T) (now : ℕ) (flow : Flow T) → round eq e w now ≡ some (f, acts, flow)
        → Reach d f (sent ++ acts)
    polls :
        {e : Device T} {sent : List (Action T)}
        → Reach d e sent
        → (v : T) (now : ℕ)
        → Reach d (report_update eq e v now).0 (sent ++ (report_update eq e v now).1)

  module _ (eq_sound : (a b : T) → eq a b ≡ true → a ≡ b) where
    round-Reported :
        (d d' : Device T) (w : Wakeup T) (now : ℕ) (last : Option T)
        → (acts : List (Action T)) (flow : Flow T) → round eq d w now ≡ some (d', acts, flow)
        → Reported d.state last
        → Reported d'.state (last_report last acts)
    unfolding round
    round-Reported d d' w now last acts flow h r = grind (arith, eq_sound)

    report_update-Reported :
        (d : Device T) (v : T) (now : ℕ) (last : Option T)
        → Reported d.state last
        → Reported
            (report_update eq d v now).0.state
            (last_report last (report_update eq d v now).1)
    unfolding report_update
    report_update-Reported d v now last r = grind (arith, eq_sound)

    -- With an equality test that is true of equal values only: in every run of a new device, the
    -- last value that was reported is the value of the state, wherever the state has no setting
    -- in progress.
    pub Reach-Reported :
        (desired : Option T) (duration : Option ℕ) {d : Device T} {sent : List (Action T)}
        → Reach (new desired duration) d sent
        → Reported d.state (last_report none sent)
    unfolding new
    Reach-Reported none duration here = tt
    Reach-Reported (some v) duration here = tt
    Reach-Reported desired duration (rounds {e} {f} {sent} {acts} rs w now flow h) =
        rw (last_report-append none sent acts)
          (round-Reported e f w now _ acts flow h (Reach-Reported desired duration rs))
    Reach-Reported desired duration (polls {e} {sent} rs v now) =
        rw (last_report-append none sent (report_update eq e v now).1)
          (report_update-Reported e v now _ (Reach-Reported desired duration rs))

  -- What can happen while a device `d` with the setting `s` is overridden by `v`: polls that find
  -- `v` again, and settings of clients in rounds of the loop. The index is the setting from then on.
  pub data Waits (d : Device T) (v s : T) : T → Device T → Type 0 where
    here : Waits d v s s d
    polls :
        {s' : T} {e : Device T}
        → Waits d v s s' e
        → (w : T) (now : ℕ) → eq s' w ≡ false
        → eq v w ≡ true
        → Waits d v s s' (report_update eq e w now).0
    sets :
        {s' : T} {e f : Device T} {acts : List (Action T)} {flow : Flow T}
        → Waits d v s s' e
        → (u : T) (r : Responder) (now : ℕ) → round eq e (message u r) now ≡ some (f, acts, flow)
        → Waits d v s u f

  poll_kept :
      (d : Device T) (s v w : T) (deadline now : ℕ)
      → eq s w ≡ false
      → eq v w ≡ true
      → (report_update eq (record d { state = overridden s v deadline }) w now).0
        ≡ record d { state = overridden s v deadline }
  unfolding report_update
  poll_kept d s v w deadline now h k = ground arith

  set_kept :
      (d f : Device T) (s v u : T) (deadline duration now : ℕ) (r : Responder)
      → (acts : List (Action T)) (flow : Flow T) → d.override_duration ≡ some duration
      → round eq (record d { state = overridden s v deadline }) (message u r) now
        ≡ some (f, acts, flow)
      → f ≡ record d { state = overridden u v deadline }
  unfolding round
  set_kept d f s v u deadline duration now r acts flow k h = ground arith

  Waits-overridden :
      (d e : Device T) (s v : T) (deadline duration : ℕ)
      → d.override_duration ≡ some duration
      → e ≡ record d { state = overridden s v deadline }
      → {s' : T} {f : Device T} → Waits e v s s' f
      → f ≡ record d { state = overridden s' v deadline }
  Waits-overridden d e s v deadline duration k h here = h
  Waits-overridden d e s v deadline duration k h (polls {s'} ws w now i j) =
      rw (Waits-overridden d e s v deadline duration k h ws) (poll_kept d s' v w deadline now i j)
  Waits-overridden d e s v deadline duration k h (sets {s'} {f} {acts} {flow} ws u r now i) =
      set_kept d f s' v u deadline duration now r acts flow k
        (rw (Waits-overridden d e s v deadline duration k h ws) at i)

  overridden-reverts :
      (d : Device T) (s v : T) (deadline duration later last : ℕ)
      → d.override_duration ≡ some duration
      → eq s v ≡ false
      → let f = record d { state = overridden s v deadline } in
        let reverted = record d { state = setting_trans s none } in
        (round eq f ready later ≡ (if leb deadline later then some (reverted, [], again) else none))
        × (round eq f elapsed later
            ≡ (if leb deadline later then none else some (reverted, [], again)))
        × (round eq reverted ready last
            ≡ some (record d { state = setting s }, report s ∷ [], break_some s none))
  unfolding round
  overridden-reverts d s v deadline duration later last k ne = ground arith

  report-overridden :
      (d : Device T) (s v : T) (duration now : ℕ)
      → d.state ≡ synced s
      → d.override_duration ≡ some duration
      → eq s v ≡ false
      → (report_update eq d v now).0 ≡ record d { state = overridden s v (now + duration) }
  unfolding report_update
  report-overridden d s v duration now h k ne = ground arith

  -- A device in step with its setting that is found at another value goes back to its setting, or
  -- to the last one that clients made meanwhile, if this differs from the value found: whatever
  -- polls find that value again, where it is not the setting by then, and whatever settings come,
  -- a round begun from the deadline on reverts at once, one begun before it waits and reverts
  -- when the sleep ends, and the round after that reports the setting and hands it to the driver,
  -- with no client to reply to.
  pub override_reverts :
      (d f : Device T) (s s' v : T) (duration now later last : ℕ)
      → d.state ≡ synced s
      → d.override_duration ≡ some duration
      → eq s v ≡ false
      → Waits (report_update eq d v now).0 v s s' f
      → eq s' v ≡ false
      → let reverted = record d { state = setting_trans s' none } in
        (round eq f ready later
          ≡ (if leb (now + duration) later then some (reverted, [], again) else none))
        × (round eq f elapsed later
            ≡ (if leb (now + duration) later then none else some (reverted, [], again)))
        × (round eq reverted ready last
            ≡ some (record d { state = setting s' }, report s' ∷ [], break_some s' none))
  override_reverts d f s s' v duration now later last h k ne ws ne' =
      rw
        (Waits-overridden d _ s v (now + duration) duration k
          (report-overridden d s v duration now h k ne) ws)
        (overridden-reverts d s' v (now + duration) duration later last k ne')

  -- A device that is overridden a second time, by a value other than its setting and its first
  -- override, goes back to the first override when the second ends: the setting is lost.
  second_override :
      (d : Device T) (s o v : T) (deadline duration now later : ℕ)
      → d.state ≡ overridden s o deadline
      → d.override_duration ≡ some duration
      → eq s v ≡ false
      → eq o v ≡ false
      → now + duration ≤ later
      → round eq (report_update eq d v now).0 ready later
        ≡ some (record d { state = setting_trans o none }, [], again)
  unfolding report_update round
  second_override d s o v deadline duration now later h k hs ho le = ground arith

  abbrev pub is_over : Option (Device T × List (Action T) × Flow T) → Bool
  is_over none = true
  is_over (some (d, acts, again)) = false
  is_over (some (d, acts, _)) = true

  abbrev pub state_after : Option (Device T × List (Action T) × Flow T) → Device T → Device T
  state_after none d = d
  state_after (some (d', acts, flow)) d = d'

  -- With no message, the loop of `next_setting` makes at most two rounds: then it has ended, or
  -- it waits for a setting or for the sleep.
  round_settles :
      (d : Device T) (now later : ℕ)
      → (is_over (round eq d ready now) ≡ true)
        ⊎ (is_over (round eq (state_after (round eq d ready now) d) ready later) ≡ true)
  unfolding round
  round_settles d now later = ground arith
