-- ===== src/External/Ntp/Devices.antt =====
-- The devices of the NTP monitor show what it found, drivers/drmem-drv-ntp/src/driver.rs.
use drmem.Base.{
  ℕ, ◌≡◌, refl, sym, Bool, true, false, List, [], ◌∷◌, ◌++◌, Option, none, some, ◌⊎◌, inl, inr,
  Bool-cases,
}
use mathlib.Core.Path.{subst}
use drmem.Api.Value.{Text}
use drmem.External.Ntp.Info.{Parsers, Info, bad_value}
use drmem.External.Ntp.Reply.{Host, waiting, returned}
use drmem.External.Ntp.Run.{
  Round, Report, source, offset, delay, state, Instance, Next, stuck, next, lost, is_same, found,
  asked, round, create_instance, run_from, run,
}

module _ (P : Parsers) where
  -- What the devices last reported.
  pub record Shown : Type 0 where
    pub host : Option Text
    pub off : Option P.F
    pub dly : Option P.F
    pub synced : Option Bool

  abbrev pub report : Shown → Report P → Shown
  report v (source h) = record v { host = some h }
  report v (offset o) = record v { off = some o }
  report v (delay d) = record v { dly = some d }
  report v (state b) = record v { synced = some b }

  abbrev pub reports : Shown → List (Report P) → Shown
  reports v [] = v
  reports v (r ∷ rs) = reports (report v r) rs

  abbrev pub blank : Shown
  blank = record { host = none; off = none; dly = none; synced = none }

  -- Nothing was reported since the start, or the state is that of the last round, with the values
  -- of the host if there is one.
  abbrev pub Displays : Shown → Option (Info P) → Type 0
  Displays v none = v.synced ≡ some false
  Displays v (some i) =
      ((v ≡ blank) × (i ≡ bad_value P))
      ⊎ (v ≡ record {
        host = some i.host;
        off = some i.offset_ms;
        dly = some i.delay_ms;
        synced = some true;
      })

  abbrev Kept : Shown → Next P → Type 0
  Kept v stuck = Unit {0}
  Kept v (next st sent) = Displays (reports v sent) st.info

  lost-Kept :
      (seq : ℕ) (info : Option (Info P)) (v : Shown) → Displays v info → Kept v (lost P seq info)
  lost-Kept seq none v h = h
  lost-Kept seq (some i) v h = refl

  found-Kept :
      (seq : ℕ) (info : Option (Info P)) (host : Host P) (v : Shown)
      → Displays v info
      → Kept v (found P seq info host)
  unfolding found
  found-Kept seq info waiting v h = tt
  found-Kept seq info (returned none) v h = lost-Kept seq info v h
  found-Kept seq info (returned (some i)) v h = elim (Bool-cases (is_same P info i)) [
    | inl e ↦ rw e h
    | inr e ↦ rw e (inr refl)
  ]

  asked-Kept :
      (st : Instance P) (r : Round) (seq : ℕ) (id : Option ℕ) (v : Shown)
      → Displays v st.info
      → Kept v (asked P st r seq id)
  unfolding asked
  asked-Kept st r seq none v h = lost-Kept seq st.info v h
  asked-Kept st r seq (some id) v h = found-Kept _ st.info _ v h

  round-Kept :
      (st : Instance P) (r : Round) (v : Shown) → Displays v st.info → Kept v (round P st r)
  unfolding round
  round-Kept st r v h = asked-Kept st r _ _ v h

  reports-append :
      (v : Shown) (xs ys : List (Report P)) → reports v (xs ++ ys) ≡ reports (reports v xs) ys
  reports-append v [] ys = refl
  reports-append v (x ∷ xs) ys = reports-append (report v x) xs ys

  Next-cases :
      (n : Next P)
      → (n ≡ stuck) ⊎ ((st : Instance P) × (sent : List (Report P)) × (n ≡ next st sent))
  Next-cases stuck = inl refl
  Next-cases (next st sent) = inr (st, sent, refl)

  run_from-Displays :
      (st : Instance P) (rs : List Round) (v : Shown)
      → Displays v st.info
      → Displays (reports v (run_from P st rs).1) (run_from P st rs).0.info
  unfolding run_from
  run_from-Displays st [] v h = h
  run_from-Displays st (r ∷ rs) v h = elim (Next-cases (round P st r)) [
    | inl e ↦ rw (e, run_from) h
    | inr (st', sent, e) ↦
        let more = (run_from P st' rs).1 in
        let kept : Displays (reports v sent) st'.info = subst (Kept v) e (round-Kept st r v h) in
        rw (e, run_from)
          (subst (λ w. Displays w (run_from P st' rs).0.info) (sym (reports-append v sent more))
            (run_from-Displays st' rs (reports v sent) kept))
  ]

  -- After any rounds, either the monitor has reported nothing and still holds the value that it
  -- started with, or the state that it reported last says whether it holds the values of a host,
  -- and then the other devices last reported these values.
  pub run-Displays : (rs : List Round) → Displays (reports blank (run P rs).1) (run P rs).0.info
  unfolding run create_instance
  run-Displays rs = run_from-Displays (create_instance P) rs blank (inl (refl, refl))
