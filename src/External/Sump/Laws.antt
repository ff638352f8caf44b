-- ===== src/External/Sump/Laws.antt =====
-- The invariants of the sump pump monitor, drivers/drmem-drv-sump/src/driver.rs.
use drmem.Base.{ℕ, ◌+◌, ◌-◌, ◌≤◌, ◌<◌, ◌≡◌, refl, sym, ap, ◌∙◌, Bool, true, false, none, some}
use drmem.Base.{List, [], ◌∷◌, ◌++◌, ◌==◌, ltb, leb, Bool-cases, inl, inr, arith, lt→ltb, ltb→lt}
use mathlib.Core.Option.{some-injective}
use drmem.External.Sump.{
  State, unknown, off, on, Floats, on_event, off_event, Report, state, duty, inflow,
}
use drmem.External.Sump.{
  duration, service, on_reading, off_reading, cycle_of, handle, run_from, run,
}

-- The pump went on after it went off.
abbrev pub IsValid : State → Type 0
IsValid unknown = Unit {0}
IsValid (off t) = Unit {0}
IsValid (on off_time on_time) = off_time < on_time

abbrev pub is_pumping : State → Bool
is_pumping unknown = false
is_pumping (off t) = false
is_pumping (on a b) = true

on_event-IsValid : (s : State) (stamp : ℕ) → IsValid s → IsValid (on_event s stamp).0
unfolding on_event
on_event-IsValid unknown stamp h = tt
on_event-IsValid (off t) stamp h = ground arith
on_event-IsValid (on a b) stamp h = h

-- The state knows no time after this one.
abbrev Until : ℕ → State → Type 0
Until t unknown = Unit {0}
Until t (off a) = a ≤ t
Until t (on a b) = (a ≤ t) × (b ≤ t)

abbrev pub Increasing : ℕ → List (ℕ × ℕ) → Type 0
Increasing t [] = Unit {0}
Increasing t ((stamp, value) ∷ frames) = (t < stamp) × Increasing stamp frames

module _ (fl : Floats) where
  -- The state of the pump that was reported last.
  abbrev pub shown : Bool → List (Report fl) → Bool
  shown b [] = b
  shown b (state b' ∷ rs) = shown b' rs
  shown b (duty x ∷ rs) = shown b rs
  shown b (inflow x ∷ rs) = shown b rs
  shown b (duration x ∷ rs) = shown b rs
  shown b (service x ∷ rs) = shown b rs

  shown-append :
      (b : Bool) (rs later : List (Report fl)) → shown b (rs ++ later) ≡ shown (shown b rs) later
  shown-append b [] later = refl
  shown-append b (state b' ∷ rs) later = shown-append b' rs later
  shown-append b (duty x ∷ rs) later = shown-append b rs later
  shown-append b (inflow x ∷ rs) later = shown-append b rs later
  shown-append b (duration x ∷ rs) later = shown-append b rs later
  shown-append b (service x ∷ rs) later = shown-append b rs later

  module _ (gpm : fl.F) where
    off_event-IsValid : (s : State) (stamp : ℕ) → IsValid s → IsValid (off_event fl s stamp gpm).0
    unfolding off_event
    off_event-IsValid unknown stamp h = tt
    off_event-IsValid (off t) stamp h = tt
    off_event-IsValid (on a b) stamp h = ground arith

    handle-IsValid : (s : State) (frame : ℕ × ℕ) → IsValid s → IsValid (handle fl s gpm frame).0
    unfolding handle
    handle-IsValid s (stamp, value) h = elim (Bool-cases (value == 0)) [
      | inl e ↦ rw e (off_event-IsValid s stamp h)
      | inr e ↦ rw e (on_event-IsValid s stamp h)
    ]

    pub run_from-IsValid :
        (s : State) (frames : List (ℕ × ℕ)) → IsValid s → IsValid (run_from fl s gpm frames).0
    unfolding run_from
    run_from-IsValid s [] h = h
    run_from-IsValid s (frame ∷ frames) h =
        run_from-IsValid (handle fl s gpm frame).0 frames (handle-IsValid s frame h)

    -- What a reading that is later than all before it does to the state and to what is shown.
    OnStep : State → ℕ → State × List (Report fl) → Type 0
    OnStep s stamp (s', reports) = Until stamp s' × (shown (is_pumping s) reports ≡ is_pumping s')

    on_step :
        (t : ℕ) (s : State) (stamp : ℕ)
        → Until t s
        → t < stamp
        → OnStep s stamp (on_reading fl s gpm stamp)
    unfolding on_event OnStep
    on_step t unknown stamp u lt = (tt, refl)
    on_step t (off a) stamp u lt =
        let e : ltb a stamp ≡ true = lt→ltb a stamp (omega (arith, u, lt)) in
        rw e ((omega (arith, u, lt), omega arith), refl)
    on_step t (on a b) stamp u lt = ((omega (arith, u, lt), omega (arith, u, lt)), refl)

    off_step :
        (t : ℕ) (s : State) (stamp : ℕ)
        → Until t s
        → t < stamp
        → OnStep s stamp (off_reading fl s gpm stamp)
    unfolding off_event OnStep
    off_step t unknown stamp u lt = (omega arith, refl)
    off_step t (off a) stamp u lt = (omega (arith, u, lt), refl)
    off_step t (on a b) stamp u lt =
        let e : leb stamp b ≡ false = ground (arith, u.1) in
        elim (Bool-cases (ltb 500 (stamp - b))) [
          | inl f ↦ rw (e, f) (omega arith, refl)
          | inr f ↦ rw (e, f) ((omega (arith, u, lt), omega (arith, u, lt)), refl)
        ]

    step-shown :
        (t : ℕ) (s : State) (stamp value : ℕ)
        → Until t s
        → t < stamp
        → OnStep s stamp (handle fl s gpm (stamp, value))
    unfolding handle OnStep
    step-shown t s stamp value u lt = elim (Bool-cases (value == 0)) [
      | inl e ↦ rw e (off_step t s stamp u lt)
      | inr e ↦ rw e (on_step t s stamp u lt)
    ]

    run_from-shown :
        (t : ℕ) (s : State) (frames : List (ℕ × ℕ))
        → Until t s
        → Increasing t frames
        → shown (is_pumping s) (run_from fl s gpm frames).1
          ≡ is_pumping (run_from fl s gpm frames).0
    unfolding run_from OnStep
    run_from-shown t s [] u h = refl
    run_from-shown t s ((stamp, value) ∷ frames) u h =
        let (u', e) = step-shown t s stamp value u h.0 in
        let s' = (handle fl s gpm (stamp, value)).0 in
        shown-append (is_pumping s) (handle fl s gpm (stamp, value)).1 (run_from fl s' gpm frames).1
        ∙ ap (λ b. shown b (run_from fl s' gpm frames).1) e
        ∙ run_from-shown stamp s' frames u' h.1

    -- Where the times of the frames increase, the state of the pump that was reported last is
    -- that of the state machine.
    pub run-shown :
        (t : ℕ) (frames : List (ℕ × ℕ))
        → Increasing t frames
        → shown false (run fl gpm frames).1 ≡ is_pumping (run fl gpm frames).0
    unfolding run
    run-shown t frames h = run_from-shown t unknown frames tt h

    from_cycle :
        (s : State) (stamp : ℕ) (c : ℕ × fl.F × fl.F)
        → IsValid s
        → (off_event fl s stamp gpm).1 ≡ some c
        → (a : ℕ) × (b : ℕ) × (s ≡ on a b)
          × (a < b)
          × (b + 500 < stamp)
          × (c ≡ cycle_of fl (stamp - b) (stamp - a) gpm)
    unfolding off_event
    from_cycle unknown stamp c v h = cc
    from_cycle (off t) stamp c v h = cc
    from_cycle (on a b) stamp c v h = elim (Bool-cases (leb stamp b)) [
      | inl e ↦ let h' : none ≡ some c = rw e at h in cc
      | inr e ↦ elim (Bool-cases (ltb 500 (stamp - b))) [
        | inl f ↦
            let h' : some (cycle_of fl (stamp - b) (stamp - a) gpm) ≡ some c = rw (e, f) at h in
            (a, b, refl, v, omega (arith, ltb→lt 500 (stamp - b) f), sym (some-injective _ _ h'))
        | inr f ↦ let h' : none ≡ some c = rw (e, f) at h in cc
      ]
    ]

    -- After any frames, a frame that makes `off_event` give a cycle finds the pump on, since a
    -- time that is later than that at which it went off and more than half a second before the
    -- frame; the subtractions of times therefore do not go below zero, and the cycle is computed
    -- from these differences.
    pub run-cycle :
        (frames : List (ℕ × ℕ)) (stamp : ℕ) (c : ℕ × fl.F × fl.F)
        → (off_event fl (run fl gpm frames).0 stamp gpm).1 ≡ some c
        → (a : ℕ) × (b : ℕ) × ((run fl gpm frames).0 ≡ on a b)
          × (a < b)
          × (b + 500 < stamp)
          × (c ≡ cycle_of fl (stamp - b) (stamp - a) gpm)
    unfolding run
    run-cycle frames stamp c h =
        from_cycle (run_from fl unknown gpm frames).0 stamp c (run_from-IsValid unknown frames tt) h
