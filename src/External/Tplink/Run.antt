-- ===== src/External/Tplink/Run.antt =====
-- Settings, polls and connections of a TP-Link device, `Instance` of
-- drivers/drmem-drv-tplink/src/driver.rs.
use drmem.Base.{ℕ, Bool, true, false, not, List, [], ◌∷◌, ◌++◌, Option, none, some, if◌then◌else◌}
use drmem.External.Tplink.Rpc.{
  Levels, Cmd, Reply, Result, ok, err, Instance, DeviceState, Action, reply_bool, reply_level,
  reply_invalid, report_indicator, report_state, report_error, report_brightness, relay_state_rpc,
  led_state_rpc, info_rpc, set_brightness,
}

-- A setting, and whether a client waits for its reply.
pub data Setting (F : Type 0) : Type 0 where
  set_state set_led : Bool → Bool → Setting F
  set_level : F → Bool → Setting F

-- What ends the wait of a round: the poll timeout, or a setting.
pub data Event (F : Type 0) : Type 0 where
  poll : Event F
  setting : Setting F → Event F

-- A connection: the settings while it is made, whether it is made, what happens until the device
-- fails, and the settings of the minute that follows.
pub record Session (F : Type 0) : Type 0 where
  pub connecting : List (Setting F)
  pub connected : Bool
  pub events : List (Event F)
  pub pausing : List (Setting F)

abbrev pub eqb_error : Option Bool → Bool → Bool
eqb_error none v = false
eqb_error (some true) v = v
eqb_error (some false) true = false
eqb_error (some false) false = true

unfoldable pub create_instance : Instance
create_instance = record { reported_error = none; poll_timeout = 0; asked = 0 }

module _ (L : Levels) where
  abbrev pub when : Bool → Action L → List (Action L)
  when false a = []
  when true a = a ∷ []

  unfoldable pub sync_error_state : Instance → Bool → Instance × List (Action L)
  sync_error_state st v =
      if eqb_error st.reported_error v
      then (st, [])
      else (record st { reported_error = some v }, report_error v ∷ [])

  -- While there is no connection a setting is only acknowledged.
  unfoldable pub acknowledge : List (Setting L.F) → List (Action L)
  acknowledge [] = []
  acknowledge (set_state v client ∷ ss) = when client (reply_bool v) ++ acknowledge ss
  acknowledge (set_led v client ∷ ss) = when client (reply_bool v) ++ acknowledge ss
  acknowledge (set_level v client ∷ ss) = when client (reply_level v) ++ acknowledge ss

  unfoldable pub clip : L.F → L.F
  clip v =
      if L.feq v L.infinity
      then L.of_u8 100
      else if L.feq v L.neg_infinity
      then L.of_u8 0
      else if L.flt v (L.of_u8 0)
      then L.of_u8 0
      else if L.flt (L.of_u8 100) v
      then L.of_u8 100
      else v

  module _ (answer : ℕ → Cmd → Result Reply) where
    abbrev pub behind :
        List (Action L)
        → Instance × List (Action L) × Result (Unit {0})
        → Instance × List (Action L) × Result (Unit {0})
    behind before (st, sent, r) = (st, before ++ sent, r)

    unfoldable pub handle_brightness_setting :
        Instance → L.F → Bool → Instance × List (Action L) × Result (Unit {0})
    unfolding clip set_brightness
    handle_brightness_setting st v client =
        if L.is_nan v
        then (st, when client reply_invalid, ok tt)
        else behind (when client (reply_level (clip v))) (set_brightness L answer st (clip v))

    unfoldable pub handle_led_setting :
        Instance → Bool → Bool → Instance × List (Action L) × Result (Unit {0})
    unfolding led_state_rpc
    handle_led_setting st v client =
        behind (when client (reply_bool v)) (led_state_rpc L answer st v)

    abbrev pub handle_state_setting :
        Instance → Bool → Bool → Instance × List (Action L) × Result (Unit {0})
    unfolding relay_state_rpc
    handle_state_setting st v client =
        behind (when client (reply_bool v)) (relay_state_rpc L answer st v)

    -- A round goes on, with the poll timeout at once, if the setting reached the device.
    abbrev pub settled :
        Instance × List (Action L) × Result (Unit {0}) → Instance × List (Action L) × Bool
    settled (st, sent, ok u) = (record st { poll_timeout = 0 }, sent, true)
    settled (st, sent, err e) = (st, sent, false)

    abbrev some_state : Option Bool → List (Action L)
    some_state none = []
    some_state (some v) = report_state v ∷ []

    abbrev some_indicator : Option Bool → List (Action L)
    some_indicator none = []
    some_indicator (some v) = report_indicator v ∷ []

    abbrev some_brightness : Option L.F → List (Action L)
    some_brightness none = []
    some_brightness (some v) = report_brightness v ∷ []

    -- The device is a dimmer or a switch.
    abbrev pub shown_by : Bool → DeviceState L → List (Action L)
    shown_by true i = some_indicator i.indicator ++ some_brightness i.bright
    shown_by false i = some_indicator i.indicator ++ some_state i.relay

    abbrev pub polled :
        Bool
        → Instance × List (Action L) × Result (DeviceState L)
        → Instance × List (Action L) × Bool
    polled is_dimmer (st, sent, ok i) = (st, sent ++ shown_by is_dimmer i, true)
    polled is_dimmer (st, sent, err e) = (st, sent, false)

    -- `manage_dimmer` and `manage_switch`. A dimmer gets no state, and a switch no level.
    unfoldable pub manage : Bool → Instance → Event L.F → Instance × List (Action L) × Bool
    unfolding handle_brightness_setting handle_led_setting handle_state_setting info_rpc
    manage is_dimmer st poll = polled is_dimmer (info_rpc L answer (record st { poll_timeout = 5 }))
    manage is_dimmer st (setting (set_state v client)) = settled (handle_state_setting st v client)
    manage is_dimmer st (setting (set_led v client)) = settled (handle_led_setting st v client)
    manage is_dimmer st (setting (set_level v client)) =
        settled (handle_brightness_setting st v client)

    -- The rounds up to one that fails, if there is one, and the events that are left.
    unfoldable pub rounds :
        Bool → Instance → List (Event L.F) → Instance × List (Action L) × Bool × List (Event L.F)
    unfolding manage
    rounds is_dimmer st [] = (st, [], false, [])
    rounds is_dimmer st (ev ∷ evs) =
        let (st', sent, on) = manage is_dimmer st ev in
        let (st2, more, failed, left) = rounds is_dimmer st' evs in
        if on then (st2, sent ++ more, failed, left) else (st', sent, true, evs)

    -- `main_loop`: it returns when a round has failed.
    unfoldable pub main_loop :
        Bool → Instance → List (Event L.F) → Instance × List (Action L) × Bool × List (Event L.F)
    unfolding rounds sync_error_state
    main_loop is_dimmer st evs =
        let (st1, up) = sync_error_state st false in
        let (st2, sent, failed, left) = rounds is_dimmer st1 evs in
        let (st3, down) = sync_error_state st2 true in
        if failed then (st3, up ++ (sent ++ down), true, left) else (st2, up ++ sent, false, left)

    -- One connection of `run`, and whether it has ended.
    unfoldable pub session : Bool → Instance → Session L.F → Instance × List (Action L) × Bool
    unfolding main_loop acknowledge
    session is_dimmer st s =
        let (st', sent, failed, left) = main_loop is_dimmer st s.events in
        let before = acknowledge s.connecting in
        let after = acknowledge s.pausing in
        if not s.connected
        then (st, before ++ after, true)
        else if failed
        then (st', before ++ (sent ++ after), true)
        else (st', before ++ sent, false)

    -- The loop of `run` over connections, up to one that has not ended.
    unfoldable pub run_from :
        Bool → Instance → List (Session L.F) → Instance × List (Action L) × Bool
    unfolding session
    run_from is_dimmer st [] = (st, [], true)
    run_from is_dimmer st (s ∷ ss) =
        let (st', sent, ended) = session is_dimmer st s in
        let (st2, more, all_ended) = run_from is_dimmer st' ss in
        if ended then (st2, sent ++ more, all_ended) else (st', sent, false)

    unfoldable pub run : Bool → List (Session L.F) → Instance × List (Action L) × Bool
    unfolding run_from create_instance sync_error_state
    run is_dimmer ss =
        let (st, up) = sync_error_state create_instance true in
        let (st', sent, ended) = run_from is_dimmer st ss in (st', up ++ sent, ended)
