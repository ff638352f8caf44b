-- ===== src/Backend/Redis/Register.antt =====
-- Registering devices and sending them settings, `RedisStore` of drmemd/src/backends/redis.rs.
pub mod Laws
use drmem.Base.{ℕ, suc, Bool, true, false, Option, none, some, List, [], ◌∷◌, if◌then◌else◌}
use drmem.Api.Value.{Text, eqb_text, Value}
use drmem.Api.Name.{Name}
use drmem.Api.Name.Equality.{eqb_name}
use drmem.Backend.Simple.{Reading}
use drmem.Backend.Redis.Codec.{Doubles, Result, ok, err, RedisValue}
use drmem.Backend.Redis.Codec.{Error, type_error, not_found, missing_peer}
use drmem.Backend.Redis.Stamp.{Clock}
use drmem.Backend.Redis.Stream.{Fields, hist_key, info_key}
use drmem.Backend.Redis.Server.{Server, RedisResult, done, failed, init_device_cmd, mapped}
use drmem.Backend.Redis.Device.{SettingTable, find_tx, to_string, last_value}

-- What a driver gets to report its values with.
pub record Report : Type 0 where
  pub name : Text
  pub max_history : Option ℕ
  pub key : Text

pub record RedisStore (Db : Type 0) : Type 0 where
  pub db_con : Db
  pub table : SettingTable
  pub channels : ℕ

abbrev pub hash_type : Text
hash_type = b'h' ∷ b'a' ∷ b's' ∷ b'h' ∷ []

abbrev pub stream_type : Text
stream_type = b's' ∷ b't' ∷ b'r' ∷ b'e' ∷ b'a' ∷ b'm' ∷ []

unfoldable pub new : Text → Option ℕ → Report
unfolding hist_key
new name max_history = record { name = name; max_history = max_history; key = hist_key name }

-- `HashMap::insert`
unfoldable pub insert : Name → ℕ → SettingTable → SettingTable
insert name tx [] = (name, tx) ∷ []
insert name tx ((k, old) ∷ t) =
    let rest = insert name tx t in if eqb_name k name then (k, tx) ∷ t else (k, old) ∷ rest

abbrev of_type : Text → RedisResult Text → Result (Unit {0})
of_type want (failed e) = err not_found
of_type want (done got) = if eqb_text got want then ok tt else err type_error

module _ {Db : Type 0} (R : Server Db) where
  unfoldable pub validate_device : Db → Text → Result (Unit {0})
  unfolding hist_key info_key
  validate_device db name = elim (of_type hash_type (R.key_type db (info_key name))) [
    | err e ↦ err e
    | ok u ↦ of_type stream_type (R.key_type db (hist_key name))
  ]

  unfoldable pub init_device : Db → Text → Text → Option Text → Db × Result (Unit {0})
  unfolding init_device_cmd mapped
  init_device db name driver units =
      let (db', r) = R.pipeline db (init_device_cmd name driver units) in (db', mapped r)

  -- Both forms of registration begin so.
  unfoldable pub ensure : Db → Text → Text → Option Text → Db × Result (Unit {0})
  unfolding validate_device init_device
  ensure db name driver units = elim (validate_device db name) [
    | ok u ↦ (db, ok tt)
    | err e ↦ init_device db name driver units
  ]

  unfoldable pub ro_of :
      Text → Option ℕ → RedisStore Db → Db × Result (Unit {0}) → RedisStore Db × Result Report
  unfolding new
  ro_of name max_history st (db, err e) = (record st { db_con = db }, err e)
  ro_of name max_history st (db, ok u) = (record st { db_con = db }, ok (new name max_history))

  unfoldable pub register_read_only_device :
      Text → Name → Option Text → Option ℕ → RedisStore Db → RedisStore Db × Result Report
  unfolding ensure to_string ro_of
  register_read_only_device driver name units max_history st =
      ro_of (to_string name) max_history st (ensure st.db_con (to_string name) driver units)

  module _ (D : Doubles) (K : Clock)
      (from_reply : RedisValue → Option (Text × Fields RedisValue)) where
    abbrev pub value_of : Option (Reading (Value D.F)) → Option (Value D.F)
    value_of none = none
    value_of (some r) = some r.value

    unfoldable pub rw_of :
        Name
        → Option ℕ
        → RedisStore Db
        → Db × Result (Unit {0})
        → RedisStore Db × Result (Report × ℕ × Option (Value D.F))
    unfolding new to_string insert last_value
    rw_of name max_history st (db, err e) = (record st { db_con = db }, err e)
    rw_of name max_history st (db, ok u) = (
      record st {
        db_con = db;
        table = insert name st.channels st.table;
        channels = suc st.channels;
      },
      ok (
        new (to_string name) max_history,
        st.channels,
        value_of (last_value D K R from_reply db (to_string name)),
      ),
    )

    unfoldable pub register_read_write_device :
        Text
        → Name
        → Option Text
        → Option ℕ
        → RedisStore Db
        → RedisStore Db × Result (Report × ℕ × Option (Value D.F))
    unfolding ensure to_string rw_of
    register_read_write_device driver name units max_history st =
        rw_of name max_history st (ensure st.db_con (to_string name) driver units)

-- How the driver answers a setting: a reply, a reply channel that it drops, or a queue that it
-- closed.
pub data Answer (V : Type 0) : Type 0 where
  replied : Result V → Answer V
  dropped not_accepted : Answer V

abbrev pub answered : {V : Type 0} → Answer V → Result V
answered (replied r) = r
answered _ = err missing_peer

unfoldable pub set_device :
    {Db V : Type 0} → (ℕ → V → Answer V) → Name → V → RedisStore Db → Result V
unfolding find_tx
set_device driver name value st = elim (find_tx name st.table) [
  | none ↦ err not_found
  | some tx ↦ answered (driver tx value)
]

unfoldable pub get_setting_chan : {Db : Type 0} → Name → Bool → RedisStore Db → Result ℕ
unfolding find_tx
get_setting_chan name own st = elim (find_tx name st.table) [
  | none ↦ err not_found
  | some tx ↦ ok tx
]
