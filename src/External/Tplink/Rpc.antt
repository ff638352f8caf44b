-- ===== src/External/Tplink/Rpc.antt =====
-- The commands to a TP-Link device and its replies, `Instance` of
-- drivers/drmem-drv-tplink/src/driver.rs with driver/tplink.rs and tplink/cmd.rs beside it.
use drmem.Base.{
  ℕ, suc, Bool, true, false, not, List, [], ◌∷◌, ◌++◌, Option, none, some, ◌==◌, if◌then◌else◌,
}
use drmem.Base.Int.{ℤ, pos, eqb_ℤ}
use drmem.Api.Value.{Text}

-- `f64` with its tests, its cast to `u8` and `From<u8>`.
pub record Levels : Type 1 where
  pub F : Type 0
  pub is_nan : F → Bool
  pub feq : F → F → Bool
  pub flt : F → F → Bool
  pub infinity : F
  pub neg_infinity : F
  pub of_u8 : ℕ → F
  pub to_u8 : F → ℕ

pub data Cmd : Type 0 where
  active_cmd brightness_cmd led_cmd : ℕ → Cmd
  info_cmd : Cmd

pub record ErrorStatus : Type 0 where
  pub err_code : ℤ
  pub err_msg : Option Text

-- The fields of `InfoReply` that the driver reads.
pub record InfoReply : Type 0 where
  pub led_off : Option ℕ
  pub relay_state : Option ℕ
  pub level : Option ℕ

pub data Reply : Type 0 where
  system : Option ErrorStatus → Option ErrorStatus → Option InfoReply → Reply
  dimmer : Option ErrorStatus → Reply

-- `transport` stands for the errors of `send_cmd` and `read_reply` and for their time-outs.
pub data Error : Type 0 where
  protocol : Text → Error
  unexpected transport : Error

pub data Result (A : Type 0) : Type 0 where
  ok : A → Result A
  err : Error → Result A

-- `reported_error`, `poll_timeout` in seconds, and the number of the requests made so far.
pub record Instance : Type 0 where
  pub reported_error : Option Bool
  pub poll_timeout : ℕ
  pub asked : ℕ

abbrev byte_of : Bool → ℕ
byte_of false = 0
byte_of true = 1

unfoldable pub mk_active_cmd : ℕ → Cmd
mk_active_cmd v = active_cmd v

unfoldable pub mk_brightness_cmd : ℕ → Cmd
mk_brightness_cmd v = brightness_cmd v

unfoldable pub mk_info_cmd : Cmd
mk_info_cmd = info_cmd

unfoldable pub mk_led_cmd : Bool → Cmd
mk_led_cmd v = led_cmd (byte_of (not v))

abbrev or_byte : Option ℕ → ℕ → ℕ
or_byte none d = d
or_byte (some v) d = v

module _ (L : Levels) where
  -- What the driver does: replies to clients, commands, and reports of its devices.
  pub data Action : Type 0 where
    reply_bool : Bool → Action
    reply_level : L.F → Action
    reply_invalid : Action
    send : Cmd → Action
    report_indicator report_state report_error : Bool → Action
    report_brightness : L.F → Action

  pub record DeviceState : Type 0 where
    pub indicator : Option Bool
    pub bright : Option L.F
    pub relay : Option Bool

  abbrev state_with : Bool → Option Bool → L.F → DeviceState
  state_with led relay v = record { indicator = some led; bright = some v; relay = relay }

  -- The device answers request number `n`.
  module _ (answer : ℕ → Cmd → Result Reply) where
    abbrev rpc : Instance → Cmd → Instance × List Action × Result Reply
    rpc st cmd = (record st { asked = suc st.asked }, send cmd ∷ [], answer st.asked cmd)

    abbrev status_of : Option ErrorStatus → Result (Unit {0})
    status_of none = err unexpected
    status_of (some s) =
        if eqb_ℤ s.err_code (pos 0)
        then ok tt
        else elim s.err_msg [ none ↦ err unexpected | some em ↦ err (protocol em) ]

    abbrev relay_result : Result Reply → Result (Unit {0})
    relay_result (err e) = err e
    relay_result (ok (system relay led info)) = status_of relay
    relay_result (ok (dimmer s)) = err unexpected

    abbrev led_result : Result Reply → Result (Unit {0})
    led_result (err e) = err e
    led_result (ok (system relay led info)) = status_of led
    led_result (ok (dimmer s)) = err unexpected

    abbrev brightness_result : Result Reply → Result (Unit {0})
    brightness_result (err e) = err e
    brightness_result (ok (system relay led info)) = err unexpected
    brightness_result (ok (dimmer s)) = status_of s

    abbrev state_of : Bool → Option ℕ → Option ℕ → DeviceState
    state_of led none br = state_with led none (L.of_u8 0)
    state_of led (some v) br =
        if v == 0
        then state_with led (some false) (L.of_u8 0)
        else state_with led (some true) (L.of_u8 (or_byte br 100))

    abbrev info_result : Result Reply → Result DeviceState
    info_result (ok (system relay led (some i))) =
        ok (state_of (or_byte i.led_off 1 == 0) i.relay_state i.level)
    info_result (ok (system relay led none)) = err unexpected
    info_result (ok (dimmer s)) = err unexpected
    info_result (err e) = err e

    unfoldable pub relay_state_rpc : Instance → Bool → Instance × List Action × Result (Unit {0})
    unfolding mk_active_cmd
    relay_state_rpc st v =
        let (st', sent, r) = rpc st (mk_active_cmd (byte_of v)) in (st', sent, relay_result r)

    unfoldable pub led_state_rpc : Instance → Bool → Instance × List Action × Result (Unit {0})
    unfolding mk_led_cmd
    led_state_rpc st v = let (st', sent, r) = rpc st (mk_led_cmd v) in (st', sent, led_result r)

    unfoldable pub info_rpc : Instance → Instance × List Action × Result DeviceState
    unfolding mk_info_cmd
    info_rpc st = let (st', sent, r) = rpc st mk_info_cmd in (st', sent, info_result r)

    unfoldable pub brightness_rpc : Instance → ℕ → Instance × List Action × Result (Unit {0})
    unfolding mk_brightness_cmd
    brightness_rpc st v =
        let (st', sent, r) = rpc st (mk_brightness_cmd v) in (st', sent, brightness_result r)

    unfoldable pub and_on :
        Instance × List Action × Result (Unit {0}) → Instance × List Action × Result (Unit {0})
    unfolding relay_state_rpc
    and_on (st, sent, err e) = (st, sent, err e)
    and_on (st, sent, ok u) = let (st', more, r) = relay_state_rpc st true in (st', sent ++ more, r)

    unfoldable pub set_brightness : Instance → L.F → Instance × List Action × Result (Unit {0})
    unfolding and_on brightness_rpc relay_state_rpc
    set_brightness st v =
        if L.flt (L.of_u8 0) v
        then and_on (brightness_rpc st (L.to_u8 v))
        else relay_state_rpc st false
