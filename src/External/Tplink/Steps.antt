-- ===== src/External/Tplink/Steps.antt =====
-- What every round of the TP-Link driver keeps, drivers/drmem-drv-tplink/src/driver.rs.
use drmem.Base.{
  ℕ, ◌+◌, ◌≤◌, ◌≡◌, refl, ◌∙◌, Bool, true, false, List, [], ◌∷◌, ◌++◌, ◌<◌, arith, Bool-cases, inl,
  inr,
}
use drmem.External.Tplink.Rpc.{
  Levels, Cmd, brightness_cmd, Reply, Result, ok, err, Instance, DeviceState, Action, reply_bool,
  reply_level, reply_invalid, send, report_error, relay_state_rpc, led_state_rpc, info_rpc,
  brightness_rpc, set_brightness, and_on, mk_active_cmd, mk_led_cmd, mk_info_cmd, mk_brightness_cmd,
}
use drmem.External.Tplink.Run.{
  set_state, set_led, set_level, Event, poll, setting, when, clip, behind,
  handle_brightness_setting, handle_led_setting, handle_state_setting, settled, shown_by, polled,
  manage,
}

abbrev pub count : Bool → ℕ
count false = 0
count true = 1

abbrev pub clients : {F : Type 0} → Event F → ℕ
clients poll = 0
clients (setting (set_state v client)) = count client
clients (setting (set_led v client)) = count client
clients (setting (set_level v client)) = count client

module _ (L : Levels) where
  -- No report of an error, and no brightness above 100.
  abbrev pub Fine : Action L → Type 0
  Fine (report_error b) = true ≡ false
  Fine (send (brightness_cmd v)) = v ≤ 100
  Fine _ = Unit {0}

  abbrev pub AllFine : List (Action L) → Type 0
  AllFine [] = Unit {0}
  AllFine (a ∷ sent) = Fine a × AllFine sent

  -- How many replies clients get.
  abbrev reply_of : Action L → ℕ
  reply_of (reply_bool b) = 1
  reply_of (reply_level v) = 1
  reply_of reply_invalid = 1
  reply_of _ = 0

  abbrev pub replies : List (Action L) → ℕ
  replies [] = 0
  replies (a ∷ sent) = reply_of a + replies sent

  pub AllFine-append : (xs ys : List (Action L)) → AllFine xs → AllFine ys → AllFine (xs ++ ys)
  AllFine-append [] ys h k = k
  AllFine-append (x ∷ xs) ys h k = (h.0, AllFine-append xs ys h.1 k)

  pub replies-append : (xs ys : List (Action L)) → replies (xs ++ ys) ≡ replies xs + replies ys
  replies-append [] ys = omega arith
  replies-append (x ∷ xs) ys = omega (arith, replies-append xs ys)

  -- The state of the error device is kept, nothing is out of range, and `n` clients get a reply.
  abbrev pub Keeps : {A : Type 0} → Instance → ℕ → Instance × List (Action L) × A → Type 0
  Keeps st n (st', sent, a) =
      (st'.reported_error ≡ st.reported_error) × AllFine sent × (replies sent ≡ n)

  module _ (answer : ℕ → Cmd → Result Reply) where
    relay-Keeps : (st : Instance) (v : Bool) → Keeps st 0 (relay_state_rpc L answer st v)
    unfolding relay_state_rpc mk_active_cmd
    relay-Keeps st v = (refl, (tt, tt), refl)

    led-Keeps : (st : Instance) (v : Bool) → Keeps st 0 (led_state_rpc L answer st v)
    unfolding led_state_rpc mk_led_cmd
    led-Keeps st v = (refl, (tt, tt), refl)

    brightness-Keeps : (st : Instance) (v : ℕ) → v ≤ 100 → Keeps st 0 (brightness_rpc L answer st v)
    unfolding brightness_rpc mk_brightness_cmd
    brightness-Keeps st v h = (refl, (h, tt), refl)

    and_on-Keeps :
        (st : Instance) (p : Instance × List (Action L) × Result (Unit {0}))
        → Keeps st 0 p
        → Keeps st 0 (and_on L answer p)
    unfolding and_on
    and_on-Keeps st (st', sent, err e) h = h
    and_on-Keeps st (st', sent, ok u) (e, fine, n) =
        let (e', fine', n') = relay-Keeps st' true in
        let more = (relay_state_rpc L answer st' true).1 in
        (
          e' ∙ e,
          AllFine-append sent more fine fine',
          omega (arith, replies-append sent more, n, n'),
        )

    set_brightness-Keeps :
        (st : Instance) (v : L.F) → L.to_u8 v ≤ 100 → Keeps st 0 (set_brightness L answer st v)
    unfolding set_brightness
    set_brightness-Keeps st v h = elim (Bool-cases (L.flt (L.of_u8 0) v)) [
      | inl e ↦
          rw (e, set_brightness)
            (and_on-Keeps st (brightness_rpc L answer st (L.to_u8 v))
              (brightness-Keeps st (L.to_u8 v) h))
      | inr e ↦ rw (e, set_brightness) (relay-Keeps st false)
    ]

    when-Keeps :
        (st : Instance) (client : Bool) (a : Action L)
        (p : Instance × List (Action L) × Result (Unit {0}))
        → Fine a
        → reply_of a ≡ 1
        → Keeps st 0 p
        → Keeps st (count client) (behind L answer (when L client a) p)
    when-Keeps st false a (st', sent, r) fine one h = h
    when-Keeps st true a (st', sent, r) fine one (e, h, n) = (e, (fine, h), omega (arith, one, n))

    settled-Keeps :
        (st : Instance) (n : ℕ) (p : Instance × List (Action L) × Result (Unit {0}))
        → Keeps st n p
        → Keeps st n (settled L answer p)
    settled-Keeps st n (st', sent, ok u) h = h
    settled-Keeps st n (st', sent, err e) h = h

    led_setting-Keeps :
        (st : Instance) (v client : Bool)
        → Keeps st (count client) (handle_led_setting L answer st v client)
    unfolding handle_led_setting
    led_setting-Keeps st v client =
        when-Keeps st client (reply_bool v) (led_state_rpc L answer st v) tt refl (led-Keeps st v)

    shown_by-AllFine :
        (is_dimmer : Bool) (i : DeviceState L) → AllFine (shown_by L answer is_dimmer i)
    shown_by-AllFine is_dimmer i = ground arith

    replies-shown_by :
        (is_dimmer : Bool) (i : DeviceState L) → replies (shown_by L answer is_dimmer i) ≡ 0
    replies-shown_by is_dimmer i = ground arith

    polled-Keeps :
        (is_dimmer : Bool) (st : Instance) (p : Instance × List (Action L) × Result (DeviceState L))
        → Keeps st 0 p
        → Keeps st 0 (polled L answer is_dimmer p)
    polled-Keeps is_dimmer st (st', sent, err e) h = h
    polled-Keeps is_dimmer st (st', sent, ok i) (e, fine, n) =
        let more = shown_by L answer is_dimmer i in
        (
          e,
          AllFine-append sent more fine (shown_by-AllFine is_dimmer i),
          omega (arith, replies-append sent more, n, replies-shown_by is_dimmer i),
        )

    info-Keeps : (st : Instance) → Keeps st 0 (info_rpc L answer st)
    unfolding info_rpc mk_info_cmd
    info-Keeps st = (refl, (tt, tt), refl)

    module _ (exact : (n : ℕ) → n < 256 → L.to_u8 (L.of_u8 n) ≡ n)
        (low : (v : L.F)
          → L.is_nan v ≡ false
          → L.flt (L.of_u8 100) v ≡ false
          → L.to_u8 v ≤ 100) where
      clip-low : (v : L.F) → L.is_nan v ≡ false → L.to_u8 (clip L v) ≤ 100
      unfolding clip
      clip-low v h =
          let zero_low : L.to_u8 (L.of_u8 0) ≤ 100 = omega (arith, exact 0 (omega arith)) in
          let full_low : L.to_u8 (L.of_u8 100) ≤ 100 = omega (arith, exact 100 (omega arith)) in
          elim (Bool-cases (L.feq v L.infinity)) [
            | inl e ↦ rw e full_low
            | inr e1 ↦ rw e1 (elim (Bool-cases (L.feq v L.neg_infinity)) [
              | inl e ↦ rw e zero_low
              | inr e2 ↦ rw e2 (elim (Bool-cases (L.flt v (L.of_u8 0))) [
                | inl e ↦ rw e zero_low
                | inr e3 ↦ rw e3 (elim (Bool-cases (L.flt (L.of_u8 100) v)) [
                  | inl e ↦ rw e full_low
                  | inr e4 ↦ rw e4 (low v h e4)
                ])
              ])
            ])
          ]

      level-Keeps :
          (st : Instance) (v : L.F) (client : Bool)
          → Keeps st (count client) (handle_brightness_setting L answer st v client)
      unfolding handle_brightness_setting
      level-Keeps st v client = elim (Bool-cases (L.is_nan v)) [
        | inl e ↦
            rw (e, handle_brightness_setting)
              (elim client as (λ c. Keeps st (count c) (st, when L c reply_invalid, ok tt)) [
                | false ↦ (refl, tt, refl)
                | true ↦ (refl, (tt, tt), refl)
              ])
        | inr e ↦
            rw (e, handle_brightness_setting)
              (when-Keeps st client (reply_level (clip L v)) (set_brightness L answer st (clip L v))
                tt refl (set_brightness-Keeps st (clip L v) (clip-low v e)))
      ]

      -- A round answers each client once, reports no error, keeps what was reported of errors, and
      -- asks for no brightness above 100.
      pub manage-Keeps :
          (is_dimmer : Bool) (st : Instance) (ev : Event L.F)
          → Keeps st (clients ev) (manage L answer is_dimmer st ev)
      unfolding manage
      manage-Keeps is_dimmer st poll =
          polled-Keeps is_dimmer st (info_rpc L answer (record st { poll_timeout = 5 }))
            (info-Keeps (record st { poll_timeout = 5 }))
      manage-Keeps is_dimmer st (setting (set_state v client)) =
          settled-Keeps st (count client) (handle_state_setting L answer st v client) (
            when-Keeps st client (reply_bool v) (relay_state_rpc L answer st v) tt refl
              (relay-Keeps st v))
      manage-Keeps is_dimmer st (setting (set_led v client)) =
          settled-Keeps st (count client) (handle_led_setting L answer st v client)
            (led_setting-Keeps st v client)
      manage-Keeps is_dimmer st (setting (set_level v client)) =
          settled-Keeps st (count client) (handle_brightness_setting L answer st v client)
            (level-Keeps st v client)
