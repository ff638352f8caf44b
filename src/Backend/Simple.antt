-- ===== src/Backend/Simple.antt =====
-- The store of the last values, `SimpleStore` of drmemd/src/backends/simple.rs.
pub mod Monitor
pub mod Query
pub mod Lookup
pub mod View
pub mod Register
pub mod Update
pub mod History
use drmem.Base.{
  ℕ, zero, suc, ◌+◌, ◌≤◌, Bool, true, false, ◌&&◌, Option, none, some, List, [], ◌∷◌, ◌++◌, min,
  max,
}
use drmem.Base.{length, get_elem?, get_or, set, ltb, leb, if◌then◌else◌}
use drmem.Api.Value.{Text, eqb_text}
use drmem.Api.Name.{Name, Created, created, failed, create_name, show_name}
use drmem.Api.Name.Equality.{eqb_name}
use drmem.Glob.{matches}

pub data StoreError : Type 0 where
  in_use not_found broke_connection ignoring_settings read_only : StoreError

pub data Result (A : Type 0) : Type 0 where
  ok : A → Result A
  err : StoreError → Result A

-- A time is the number of nanoseconds since the first that `SystemTime` stands for, and the values
-- of devices are those of `device::Value`.
pub record Reading (V : Type 0) : Type 0 where
  pub ts : ℕ
  pub value : V

-- The mutex that the clones of a device share is named by its place in the list of them, and the
-- channel for settings by its number.
pub record DeviceInfo : Type 0 where
  pub owner : Text
  pub units : Option Text
  pub tx_setting : Option ℕ
  pub reading : ℕ

pub record Report : Type 0 where
  pub di : DeviceInfo
  pub name : Name

abbrev pub Table : Type 0
Table = List (Name × DeviceInfo)

-- The table, the last readings that the mutexes hold, and the number of channels made so far.
pub record Store (V : Type 0) : Type 0 where
  pub table : Table
  pub readings : List (Option (Reading V))
  pub channels : ℕ

unfoldable pub create : Text → Option Text → Option ℕ → ℕ → DeviceInfo
create owner units tx_setting reading = record {
  owner = owner;
  units = units;
  tx_setting = tx_setting;
  reading = reading;
}

-- `HashMap::get`
unfoldable pub find : Name → Table → Option DeviceInfo
find name [] = none
find name ((k, di) ∷ t) = let rest = find name t in if eqb_name k name then some di else rest

-- The entry of a name gets another channel for settings.
unfoldable pub set_tx : Name → ℕ → Table → Table
set_tx name tx [] = []
set_tx name tx ((k, di) ∷ t) =
    let rest = set_tx name tx t in
    if eqb_name k name then (k, record di { tx_setting = some tx }) ∷ t else (k, di) ∷ rest

-- How the driver answers a setting: a reply, a reply channel that it drops, or none at all.
pub data Reply (V : Type 0) : Type 0 where
  replied : Result V → Reply V
  dropped : Reply V
  not_accepted : Reply V

abbrev chan_in : Option DeviceInfo → Result ℕ
chan_in none = err not_found
chan_in (some di) = elim di.tx_setting [ none ↦ err not_found | some tx ↦ ok tx ]

module _ {V : Type 0} where
  unfoldable pub empty : Store V
  empty = record { table = []; readings = []; channels = 0 }

  abbrev add : Name → Text → Option Text → Option ℕ → Store V → Store V × Report
  add name driver units tx st =
      let di = create driver units tx (length st.readings) in
      (
        record st { table = (name, di) ∷ st.table; readings = st.readings ++ (none ∷ []) },
        record { di = di; name = name },
      )

  abbrev pub ro_of :
      Text → Name → Option Text → Store V → Option DeviceInfo → Store V × Result Report
  ro_of driver name units st none = let (st', r) = add name driver units none st in (st', ok r)
  ro_of driver name units st (some di) =
      if eqb_text di.owner driver
      then (st, ok (record { di = di; name = name }))
      else (st, err in_use)

  unfoldable pub register_read_only_device :
      Text → Name → Option Text → Store V → Store V × Result Report
  unfolding create find
  register_read_only_device driver name units st = ro_of driver name units st (find name st.table)

  abbrev pub last_at : ℕ → Store V → Option (Reading V)
  last_at i st = get_or st.readings i none

  abbrev pub value_of : Option (Reading V) → Option V
  value_of none = none
  value_of (some r) = some r.value

  abbrev pub rw_of :
      Text
      → Name
      → Option Text
      → Store V
      → Option DeviceInfo
      → Store V × Result (Report × ℕ × Option V)
  rw_of driver name units st none =
      let (st', r) = add name driver units (some st.channels) st in
      (record st' { channels = suc st.channels }, ok (r, st.channels, none))
  rw_of driver name units st (some di) =
      if eqb_text di.owner driver
      then (
        record st { table = set_tx name st.channels st.table; channels = suc st.channels },
        ok (
          record { di = record di { tx_setting = some st.channels }; name = name },
          st.channels,
          value_of (last_at di.reading st),
        ),
      )
      else (st, err in_use)

  unfoldable pub register_read_write_device :
      Text → Name → Option Text → Store V → Store V × Result (Report × ℕ × Option V)
  unfolding create find set_tx
  register_read_write_device driver name units st = rw_of driver name units st (find name st.table)

  -- The largest `SystemTime`. One more microsecond is 1000 ns.
  module _ (max_time : ℕ) where
    unfoldable pub next_ts : ℕ → Option (Reading V) → ℕ
    next_ts now none = now
    next_ts now (some prev) =
        if leb now prev.ts
        then (if leb (prev.ts + 1000) max_time then prev.ts + 1000 else max_time)
        else now

    abbrev pub reading_of : ℕ → V → Option (Reading V) → Reading V
    reading_of now v prev = record { ts = next_ts now prev; value = v }

    -- The store, and the reading that those who monitor the device receive.
    unfoldable pub report_value : Report → ℕ → V → Store V → Store V × Reading V
    unfolding next_ts
    report_value r now v st =
        let reading = reading_of now v (last_at r.di.reading st) in
        (record st { readings = set st.readings r.di.reading (some reading) }, reading)

  abbrev set_with : (ℕ → V → Reply V) → Option ℕ → V → Result V
  set_with driver none v = err read_only
  set_with driver (some tx) v = elim (driver tx v) [
    | replied r ↦ r
    | dropped ↦ err broke_connection
    | not_accepted ↦ err ignoring_settings
  ]

  abbrev set_in : (ℕ → V → Reply V) → Option DeviceInfo → V → Result V
  set_in driver none v = err not_found
  set_in driver (some di) v = set_with driver di.tx_setting v

  unfoldable pub set_device : (ℕ → V → Reply V) → Name → V → Store V → Result V
  unfolding find
  set_device driver name v st = set_in driver (find name st.table) v

  unfoldable pub get_setting_chan : Name → Store V → Result ℕ
  unfolding find
  get_setting_chan name st = chan_in (find name st.table)
