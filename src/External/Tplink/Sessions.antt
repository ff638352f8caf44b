-- ===== src/External/Tplink/Sessions.antt =====
-- The error device of the TP-Link driver over its connections,
-- drivers/drmem-drv-tplink/src/driver.rs.
use drmem.Base.{
  ℕ, ◌≤◌, ◌<◌, ◌≡◌, refl, sym, ap, ◌∙◌, Bool, true, false, List, [], ◌∷◌, ◌++◌, append_assoc,
  Option, none, some, Bool-cases, inl, inr,
}
use drmem.External.Tplink.Rpc.{Levels, Cmd, Reply, Result, Instance, Action}
use drmem.External.Tplink.Run.{
  Setting, set_state, set_led, set_level, Session, sync_error_state, acknowledge, main_loop,
  session, run_from, run, create_instance,
}
use drmem.External.Tplink.Errors.{last_error, last_error-append, sync_lem, main_loop-error}

-- The error device holds, and last reported, this value.
abbrev pub Reports : (L : Levels) → Option Bool → Instance × List (Action L) × Bool → Type 0
Reports L before (st, sent, ended) =
    (st.reported_error ≡ some ended) × (last_error L before sent ≡ some ended)

module _ (L : Levels) (answer : ℕ → Cmd → Result Reply)
    (exact : (n : ℕ) → n < 256 → L.to_u8 (L.of_u8 n) ≡ n)
    (low : (v : L.F) → L.is_nan v ≡ false → L.flt (L.of_u8 100) v ≡ false → L.to_u8 v ≤ 100) where
  last_error-acknowledge :
      (v : Option Bool) (ss : List (Setting L.F)) → last_error L v (acknowledge L ss) ≡ v
  unfolding acknowledge
  last_error-acknowledge v [] = refl
  last_error-acknowledge v (set_state b true ∷ ss) = last_error-acknowledge v ss
  last_error-acknowledge v (set_state b false ∷ ss) = last_error-acknowledge v ss
  last_error-acknowledge v (set_led b true ∷ ss) = last_error-acknowledge v ss
  last_error-acknowledge v (set_led b false ∷ ss) = last_error-acknowledge v ss
  last_error-acknowledge v (set_level b true ∷ ss) = last_error-acknowledge v ss
  last_error-acknowledge v (set_level b false ∷ ss) = last_error-acknowledge v ss

  session-Reports :
      (is_dimmer : Bool) (st : Instance) (s : Session L.F)
      → st.reported_error ≡ some true
      → Reports L (some true) (session L answer is_dimmer st s)
  unfolding session
  session-Reports is_dimmer st s h =
      let m = main_loop L answer is_dimmer st s.events in
      let before = acknowledge L s.connecting in
      let after = acknowledge L s.pausing in
      let (e, l) = main_loop-error L answer exact low is_dimmer st s.events in
      let begun : last_error L (some true) (before ++ m.1) ≡ some m.2 =
        last_error-append L (some true) before m.1
        ∙ ap (λ v. last_error L v m.1) (last_error-acknowledge (some true) s.connecting ∙ sym h)
        ∙ l in
      elim (Bool-cases s.connected) [
        | inr off ↦
            rw (off, session)
              (
                h,
                last_error-append L (some true) before after
                    ∙ last_error-acknowledge (last_error L (some true) before) s.pausing
                    ∙ last_error-acknowledge (some true) s.connecting,
              )
        | inl on ↦
            rw (on, session)
              (elim (Bool-cases m.2) [
                | inl failed ↦
                    let gone : last_error L (some true) (before ++ (m.1 ++ after)) ≡ some true =
                      ap (last_error L (some true)) (sym (append_assoc before m.1 after))
                      ∙ last_error-append L (some true) (before ++ m.1) after
                      ∙ last_error-acknowledge (last_error L (some true) (before ++ m.1)) s.pausing
                      ∙ begun
                      ∙ ap some failed in
                    rw failed (e ∙ ap some failed, gone)
                | inr runs ↦ rw runs (e ∙ ap some runs, begun ∙ ap some runs)
              ])
      ]

  run_from-Reports :
      (is_dimmer : Bool) (st : Instance) (ss : List (Session L.F))
      → st.reported_error ≡ some true
      → Reports L (some true) (run_from L answer is_dimmer st ss)
  unfolding run_from
  run_from-Reports is_dimmer st [] h = (h, refl)
  run_from-Reports is_dimmer st (s ∷ ss) h =
      let p = session L answer is_dimmer st s in
      let (e, l) = session-Reports is_dimmer st s h in
      elim (Bool-cases p.2) [
        | inl ended ↦
            let rest = run_from L answer is_dimmer p.0 ss in
            let (e', l') = run_from-Reports is_dimmer p.0 ss (e ∙ ap some ended) in
            rw (ended, run_from)
              (
                e',
                last_error-append L (some true) p.1 rest.1
                    ∙ ap (λ v. last_error L v rest.1) (l ∙ ap some ended)
                    ∙ l',
              )
        | inr runs ↦ rw (runs, run_from) (e ∙ ap some runs, l ∙ ap some runs)
      ]

  -- If the cast to `u8` gives back a number below 256, and at most 100 for a float that is not
  -- NaN and not above 100: after any connections the error device last reported true, unless the
  -- device of the last one is connected and has not failed; then it last reported false.
  pub run-Reports :
      (is_dimmer : Bool) (ss : List (Session L.F)) → Reports L none (run L answer is_dimmer ss)
  unfolding run create_instance
  run-Reports is_dimmer ss =
      let up = sync_error_state L create_instance true in
      let (e, l, n, i) = sync_lem L create_instance true in
      let r = run_from L answer is_dimmer up.0 ss in
      let (e', l') = run_from-Reports is_dimmer up.0 ss e in
      (e', last_error-append L none up.1 r.1 ∙ ap (λ v. last_error L v r.1) l ∙ l')
