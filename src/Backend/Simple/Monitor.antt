-- ===== src/Backend/Simple/Monitor.antt =====
-- The stream of readings that `monitor_device` of drmemd/src/backends/simple.rs makes.
pub mod Window
pub mod Stream
use drmem.Base.{
  ℕ, ◌≤◌, ◌≡◌, refl, ap, Bool, true, false, ◌&&◌, Option, none, some, List, [], ◌∷◌, ◌++◌, min, max,
}
use drmem.Base.{leb, if◌then◌else◌, Bool-cases, inl, inr, arith}
use drmem.Api.Name.{Name}
use drmem.Backend.Simple.{
  Reading, Result, ok, err, not_found, StoreError, DeviceInfo, Store, find, last_at,
}
use drmem.Backend.Simple.{next_ts, reading_of}

-- What a subscription to the broadcast channel yields: a reading, or that some were missed.
pub data Entry (V : Type 0) : Type 0 where
  item : Reading V → Entry V
  lagged : Entry V

module _ {V : Type 0} where
  -- The `filter_map` that drops the errors.
  unfoldable pub received : List (Entry V) → List (Reading V)
  received [] = []
  received (item r ∷ es) = r ∷ received es
  received (lagged ∷ es) = received es

  -- `StreamExt::filter` and `StreamExt::take_while`
  unfoldable pub filter : (Reading V → Bool) → List (Reading V) → List (Reading V)
  filter p [] = []
  filter p (r ∷ rs) = let rest = filter p rs in if p r then r ∷ rest else rest

  unfoldable pub take_while : (Reading V → Bool) → List (Reading V) → List (Reading V)
  take_while p [] = []
  take_while p (r ∷ rs) = let rest = take_while p rs in if p r then r ∷ rest else []

  abbrev pub after_last : Option (Reading V) → List (Reading V) → List (Reading V)
  after_last none rs = rs
  after_last (some prev) rs = prev ∷ rs

  abbrev pub from : ℕ → Reading V → Bool
  from start r = leb start r.ts

  abbrev pub until : ℕ → Reading V → Bool
  until end r = leb r.ts end

  unfoldable pub monitor :
      Option ℕ → Option ℕ → Option (Reading V) → List (Entry V) → List (Reading V)
  unfolding received filter take_while
  monitor none none prev es = after_last prev (received es)
  monitor none (some end) prev es = take_while (until end) (after_last prev (received es))
  monitor (some start) none prev es = filter (from start) (after_last prev (received es))
  monitor (some start) (some end) prev es =
      take_while (until (max start end))
        (filter (from (min start end)) (after_last prev (received es)))

  abbrev monitor_in :
      Option ℕ → Option ℕ → Store V → List (Entry V) → Option DeviceInfo → Result (List (Reading V))
  monitor_in start end st es none = err not_found
  monitor_in start end st es (some di) = ok (monitor start end (last_at di.reading st) es)

  -- Where the subscription yields these entries.
  unfoldable pub monitor_device :
      Name → Option ℕ → Option ℕ → Store V → List (Entry V) → Result (List (Reading V))
  unfolding monitor find
  monitor_device name start end st es = monitor_in start end st es (find name st.table)
