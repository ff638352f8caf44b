-- ===== src/External/Tplink/Errors.antt =====
-- The error device of the TP-Link driver, and the replies to its clients,
-- drivers/drmem-drv-tplink/src/driver.rs.
use drmem.Base.{
  ℕ, ◌+◌, ◌≤◌, ◌<◌, ◌≡◌, refl, sym, ap, ◌∙◌, Bool, true, false, List, [], ◌∷◌, ◌++◌, append_assoc,
  Option, none, some, arith, Bool-cases, inl, inr,
}
use drmem.External.Tplink.Rpc.{
  Levels, Cmd, brightness_cmd, Reply, Result, Instance, Action, send, report_error,
}
use drmem.External.Tplink.Run.{Event, eqb_error, sync_error_state, manage, rounds, main_loop}
use drmem.External.Tplink.Steps.{
  clients, Fine, AllFine, AllFine-append, replies, replies-append, manage-Keeps,
}

abbrev pub all_clients : {F : Type 0} → List (Event F) → ℕ
all_clients [] = 0
all_clients (ev ∷ evs) = clients ev + all_clients evs

eqb_error_sound : (e : Option Bool) (v : Bool) → eqb_error e v ≡ true → e ≡ some v
eqb_error_sound none v h = cc
eqb_error_sound (some true) v h = ap some (sym h)
eqb_error_sound (some false) true h = cc
eqb_error_sound (some false) false h = refl

module _ (L : Levels) where
  -- What the error device last reported.
  abbrev pub error_after : Option Bool → Action L → Option Bool
  error_after v (report_error b) = some b
  error_after v _ = v

  abbrev pub last_error : Option Bool → List (Action L) → Option Bool
  last_error v [] = v
  last_error v (a ∷ sent) = last_error (error_after v a) sent

  -- The brightness of a command is at most 100.
  abbrev pub InRange : Action L → Type 0
  InRange (send (brightness_cmd v)) = v ≤ 100
  InRange _ = Unit {0}

  abbrev pub AllInRange : List (Action L) → Type 0
  AllInRange [] = Unit {0}
  AllInRange (a ∷ sent) = InRange a × AllInRange sent

  pub last_error-append :
      (v : Option Bool) (xs ys : List (Action L))
      → last_error v (xs ++ ys) ≡ last_error (last_error v xs) ys
  last_error-append v [] ys = refl
  last_error-append v (x ∷ xs) ys = last_error-append (error_after v x) xs ys

  error_after-Fine : (v : Option Bool) (a : Action L) → Fine L a → error_after v a ≡ v
  error_after-Fine v a h = ground arith

  last_error-AllFine :
      (v : Option Bool) (sent : List (Action L)) → AllFine L sent → last_error v sent ≡ v
  last_error-AllFine v [] h = refl
  last_error-AllFine v (a ∷ sent) h =
      ap (λ w. last_error w sent) (error_after-Fine v a h.0) ∙ last_error-AllFine v sent h.1

  AllInRange-append :
      (xs ys : List (Action L)) → AllInRange xs → AllInRange ys → AllInRange (xs ++ ys)
  AllInRange-append [] ys h k = k
  AllInRange-append (x ∷ xs) ys h k = (h.0, AllInRange-append xs ys h.1 k)

  InRange-Fine : (a : Action L) → Fine L a → InRange a
  InRange-Fine a h = ground arith

  AllInRange-AllFine : (sent : List (Action L)) → AllFine L sent → AllInRange sent
  AllInRange-AllFine [] h = tt
  AllInRange-AllFine (a ∷ sent) h = (InRange-Fine a h.0, AllInRange-AllFine sent h.1)

  -- The report of the error device, its state, and that nothing else happens.
  pub sync_lem :
      (st : Instance) (v : Bool)
      → ((sync_error_state L st v).0.reported_error ≡ some v)
        × (last_error st.reported_error (sync_error_state L st v).1 ≡ some v)
        × (replies L (sync_error_state L st v).1 ≡ 0)
        × AllInRange (sync_error_state L st v).1
  unfolding sync_error_state
  sync_lem st v = elim (Bool-cases (eqb_error st.reported_error v)) [
    | inl e ↦
        let same = eqb_error_sound st.reported_error v e in
        rw (e, sync_error_state) (same, same, refl, tt)
    | inr e ↦ rw (e, sync_error_state) (refl, refl, refl, (tt, tt))
  ]

  module _ (answer : ℕ → Cmd → Result Reply) (exact : (n : ℕ) → n < 256 → L.to_u8 (L.of_u8 n) ≡ n)
      (low : (v : L.F) → L.is_nan v ≡ false → L.flt (L.of_u8 100) v ≡ false → L.to_u8 v ≤ 100) where
    abbrev RoundsKeep : Instance → ℕ → Instance × List (Action L) × Bool × List (Event L.F) → Type 0
    RoundsKeep st n (st', sent, failed, left) =
        (st'.reported_error ≡ st.reported_error)
        × AllFine L sent
        × (replies L sent + all_clients left ≡ n)

    rounds-RoundsKeep :
        (is_dimmer : Bool) (st : Instance) (evs : List (Event L.F))
        → RoundsKeep st (all_clients evs) (rounds L answer is_dimmer st evs)
    unfolding rounds
    rounds-RoundsKeep is_dimmer st [] = (refl, tt, refl)
    rounds-RoundsKeep is_dimmer st (ev ∷ evs) =
        let m = manage L answer is_dimmer st ev in
        let (e, fine, n) = manage-Keeps L answer exact low is_dimmer st ev in
        let rest = rounds L answer is_dimmer m.0 evs in
        let (e', fine', n') = rounds-RoundsKeep is_dimmer m.0 evs in
        elim (Bool-cases m.2) [
          | inl on ↦
              rw (on, rounds)
                (
                  e' ∙ e,
                  AllFine-append L m.1 rest.1 fine fine',
                  omega (arith, replies-append L m.1 rest.1, n, n'),
                )
          | inr on ↦ rw (on, rounds) (e, fine, omega (arith, n))
        ]

    -- After `main_loop` the error device is true if a round has failed, and false if it still runs.
    pub main_loop-error :
        (is_dimmer : Bool) (st : Instance) (evs : List (Event L.F))
        → (let (st', sent, failed, left) = main_loop L answer is_dimmer st evs in
            (st'.reported_error ≡ some failed) × (last_error st.reported_error sent ≡ some failed))
    unfolding main_loop
    main_loop-error is_dimmer st evs =
        let up = sync_error_state L st false in
        let r = rounds L answer is_dimmer up.0 evs in
        let down = sync_error_state L r.0 true in
        let (e0, l0, n0, i0) = sync_lem st false in
        let (e1, fine, n1) = rounds-RoundsKeep is_dimmer up.0 evs in
        let (e2, l2, n2, i2) = sync_lem r.0 true in
        let before : last_error st.reported_error (up.1 ++ r.1) ≡ some false =
          last_error-append st.reported_error up.1 r.1
          ∙ last_error-AllFine (last_error st.reported_error up.1) r.1 fine
          ∙ l0 in
        elim (Bool-cases r.2) [
          | inl failed ↦
              let after : last_error st.reported_error (up.1 ++ (r.1 ++ down.1)) ≡ some true =
                ap (last_error st.reported_error) (sym (append_assoc up.1 r.1 down.1))
                ∙ last_error-append st.reported_error (up.1 ++ r.1) down.1
                ∙ ap (λ v. last_error v down.1) (before ∙ sym (e1 ∙ e0))
                ∙ l2 in
              rw (failed, main_loop) (e2, after)
          | inr on ↦ rw (on, main_loop) (e1 ∙ e0, before)
        ]

    -- If the cast to `u8` gives back a number below 256, and at most 100 for a float that is not
    -- NaN and not above 100: in `main_loop` each client of a setting that was taken gets one
    -- reply, and no command asks for a brightness above 100.
    pub main_loop-replies :
        (is_dimmer : Bool) (st : Instance) (evs : List (Event L.F))
        → (let (st', sent, failed, left) = main_loop L answer is_dimmer st evs in
            (replies L sent + all_clients left ≡ all_clients evs) × AllInRange sent)
    unfolding main_loop
    main_loop-replies is_dimmer st evs =
        let up = sync_error_state L st false in
        let r = rounds L answer is_dimmer up.0 evs in
        let down = sync_error_state L r.0 true in
        let (e0, l0, n0, i0) = sync_lem st false in
        let (e1, fine, n1) = rounds-RoundsKeep is_dimmer up.0 evs in
        let (e2, l2, n2, i2) = sync_lem r.0 true in
        let i1 = AllInRange-AllFine r.1 fine in
        elim (Bool-cases r.2) [
          | inl failed ↦
              rw (failed, main_loop)
                (
                  omega (
                    arith,
                    replies-append L up.1 (r.1 ++ down.1),
                    replies-append L r.1 down.1,
                    n0,
                    n1,
                    n2,
                  ),
                  AllInRange-append up.1 (r.1 ++ down.1) i0 (AllInRange-append r.1 down.1 i1 i2),
                )
          | inr on ↦
              rw (on, main_loop)
                (omega (arith, replies-append L up.1 r.1, n0, n1), AllInRange-append up.1 r.1 i0 i1)
        ]
