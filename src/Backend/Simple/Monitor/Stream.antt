-- ===== src/Backend/Simple/Monitor/Stream.antt =====
-- A client that monitors a device while its driver reports values, drmemd/src/backends/simple.rs.
use drmem.Base.{ℕ, ◌≤◌, ◌<◌, ◌≡◌, ◌⊎◌, ap, Bool, true, false, Option, none, some}
use drmem.Base.{List, [], ◌∷◌, if◌then◌else◌, arith}
use drmem.Api.Name.{Name}
use drmem.Backend.Simple.{Reading, next_ts, reading_of, ok, DeviceInfo, Store, find, last_at}
use drmem.Backend.Simple.Monitor.{Entry, item, lagged, received, filter, after_last, monitor_device}
use drmem.Backend.Simple.Monitor.Window.{in_window, NotBefore, monitor-window}

module _ {V : Type 0} (max_time : ℕ) where
  -- The time is not after the largest.
  abbrev pub Fits : Option (Reading V) → Type 0
  Fits none = Unit {0}
  Fits (some r) = r.ts ≤ max_time

  -- Where neither the clock nor the previous reading is after the largest time, the time of a
  -- reading is later than that of the previous one or the largest, never earlier and never beyond
  -- the largest, and it is that of the clock unless this is not later than the previous reading.
  next_ts-later :
      (now : ℕ) (prev : Reading V)
      → now ≤ max_time
      → prev.ts ≤ max_time
      → (prev.ts < next_ts max_time now (some prev) ⊎ (next_ts max_time now (some prev) ≡ max_time))
        × (prev.ts ≤ next_ts max_time now (some prev))
        × (next_ts max_time now (some prev) ≤ max_time)
        × (now ≤ prev.ts ⊎ (next_ts max_time now (some prev) ≡ now))
  unfolding next_ts
  next_ts-later now prev h k = ground arith

  -- What a client receives of these reports, each with its clock and value, and whether the client
  -- was too slow for it.
  unfoldable pub stream : Option (Reading V) → List (Bool × ℕ × V) → List (Entry V)
  unfolding next_ts
  stream prev [] = []
  stream prev ((missed, now, v) ∷ reports) =
      let r = reading_of max_time now v prev in
      let rest = stream (some r) reports in (if missed then lagged else item r) ∷ rest

  abbrev pub AllFit : List (Bool × ℕ × V) → Type 0
  AllFit [] = Unit {0}
  AllFit ((missed, now, v) ∷ reports) = (now ≤ max_time) × AllFit reports

  NotBefore-weaker : (t u : ℕ) (rs : List (Reading V)) → t ≤ u → NotBefore u rs → NotBefore t rs
  NotBefore-weaker t u [] h n = tt
  NotBefore-weaker t u (r ∷ rs) h n = (omega (arith, n.0), n.1)

  entry-NotBefore :
      (t : ℕ) (missed : Bool) (r : Reading V) (es : List (Entry V))
      → t ≤ r.ts
      → NotBefore r.ts (received es)
      → NotBefore t (received ((if missed then lagged else item r) ∷ es))
  unfolding received
  entry-NotBefore t true r es le n = NotBefore-weaker t r.ts (received es) le n
  entry-NotBefore t false r es le n = (le, n)

  stream-NotBefore :
      (prev : Reading V) (reports : List (Bool × ℕ × V))
      → prev.ts ≤ max_time
      → AllFit reports
      → NotBefore prev.ts (received (stream (some prev) reports))
  unfolding received stream
  stream-NotBefore prev [] h a = tt
  stream-NotBefore prev ((missed, now, v) ∷ reports) h a =
      let r : Reading V = reading_of max_time now v (some prev) in
      let (late, le, fit, eq) = next_ts-later now prev a.0 h in
      let rest = stream-NotBefore r reports fit a.1 in entry-NotBefore prev.ts missed r _ le rest

  first-NotBefore :
      (prev : Option (Reading V)) (reports : List (Bool × ℕ × V))
      → Fits prev
      → AllFit reports
      → NotBefore 0 (after_last prev (received (stream prev reports)))
  unfolding received stream
  first-NotBefore (some prev) reports h a = (omega arith, stream-NotBefore prev reports h a)
  first-NotBefore none [] h a = tt
  first-NotBefore none ((missed, now, v) ∷ reports) h a =
      let r : Reading V = reading_of max_time now v none in
      entry-NotBefore 0 missed r _ (omega arith) (stream-NotBefore r reports a.0 a.1)

  -- A client that monitors a known device receives exactly those of its last reading and the
  -- later ones it was not too slow for that lie between the two times, in whichever order these
  -- are given, where no clock reads more than the largest time.
  pub monitor_device-window :
      (name : Name) (start end : Option ℕ) (st : Store V) (di : DeviceInfo)
      → (reports : List (Bool × ℕ × V)) → find name st.table ≡ some di
      → Fits (last_at di.reading st)
      → AllFit reports
      → monitor_device name start end st (stream (last_at di.reading st) reports)
        ≡ ok (
            filter (in_window start end) (
              after_last
                (last_at di.reading st)
                (received (stream (last_at di.reading st) reports))))
  unfolding monitor_device
  monitor_device-window name start end st di reports f h a = rw f (
      ap ok (
        monitor-window start end (last_at di.reading st) (stream (last_at di.reading st) reports) 0
          (first-NotBefore (last_at di.reading st) reports h a)))
