-- ===== src/Backend/Redis/Device.antt =====
-- What the store tells of a device, drmemd/src/backends/redis.rs.
use drmem.Base.{
  ℕ, zero, suc, ◌-◌, ◌%◌, ◌^◌, Bool, true, false, ◌&&◌, Option, none, some, List, [], ◌∷◌, ◌==◌,
  length, leb, take, drop, if◌then◌else◌,
}
use drmem.Api.Value.{Text, eqb_text, Value}
use drmem.Api.Name.{Name, created, failed, create_name, show_name}
use drmem.Api.Name.Equality.{eqb_name}
use drmem.Backend.Simple.{Reading}
use drmem.Backend.Simple.Query.{DevInfoReply}
use drmem.Backend.Redis.Codec.{Doubles, Result, ok, err, type_error, not_found, RedisValue}
use drmem.Backend.Redis.Codec.{empty_array, from_value}
use drmem.Backend.Redis.Stamp.{Clock, id_to_ts}
use drmem.Backend.Redis.Stream.{Fields, get, value_key, hist_key, info_key}
use drmem.Backend.Redis.Server.{Server, mapped, StreamId, StreamInfo, driver_key, match_pattern_cmd}

-- The channels for settings of the devices, by number.
abbrev pub SettingTable : Type 0
SettingTable = List (Name × ℕ)

unfoldable pub find_tx : Name → SettingTable → Option ℕ
find_tx name [] = none
find_tx name ((k, tx) ∷ t) = let rest = find_tx name t in if eqb_name k name then some tx else rest

abbrev pub is_some : {A : Type 0} → Option A → Bool
is_some none = false
is_some (some a) = true

-- A name has a path, so that its `Display` is no panic.
unfoldable pub to_string : Name → Text
unfolding show_name
to_string name = elim (show_name name) [ none ↦ [] | some s ↦ s ]

abbrev missing : Text
missing = b'*' ∷ b'm' ∷ b'i' ∷ b's' ∷ b's' ∷ b'i' ∷ b'n' ∷ b'g' ∷ b'*' ∷ []

abbrev units_key : Text
units_key = b'u' ∷ b'n' ∷ b'i' ∷ b't' ∷ b's' ∷ []

abbrev or_missing : Option Text → Text
or_missing none = missing
or_missing (some driver) = driver

module _ {V : Type 0} where
  -- Redis gives no fields for a key that does not exist.
  unfoldable pub hash_to_info : SettingTable → Name → Fields Text → Result (DevInfoReply V)
  unfolding find_tx get
  hash_to_info st name [] = err not_found
  hash_to_info st name (f ∷ hmap) = ok (record {
    name = name;
    units = get units_key (f ∷ hmap);
    settable = is_some (find_tx name st);
    driver = or_missing (get driver_key (f ∷ hmap));
    total_points = 0;
    first_point = none;
    last_point = none;
  })

abbrev with_value : {V : Type 0} → Result ℕ → Result V → Result (Reading V)
with_value (err e) v = err e
with_value (ok ts) (err e) = err e
with_value (ok ts) (ok v) = ok (record { ts = ts; value = v })

abbrev pub to_option : {A : Type 0} → Result A → Option A
to_option (ok a) = some a
to_option (err e) = none

abbrev with_points :
    {V : Type 0}
    → DevInfoReply V
    → ℕ
    → Result (Reading V)
    → Result (Reading V)
    → Result (DevInfoReply V)
with_points info n (err e) l = err e
with_points info n (ok f) (err e) = err e
with_points info n (ok f) (ok l) =
    ok (record info { total_points = n; first_point = some f; last_point = some l })

-- `trim_end_matches("#info")`, on fuel.
abbrev info_end : Text
info_end = b'#' ∷ b'i' ∷ b'n' ∷ b'f' ∷ b'o' ∷ []

unfoldable pub trim_info : ℕ → Text → Text
trim_info zero key = key
trim_info (suc fuel) key =
    let n = length key in
    let rest = trim_info fuel (take (n - 5) key) in
    if leb 5 n && eqb_text (drop (n - 5) key) info_end then rest else key

abbrev pub is_empty : RedisValue → Bool
is_empty empty_array = true
is_empty _ = false

module _ (D : Doubles) (K : Clock) where
  unfoldable pub entry_reading : Text → Option RedisValue → Result (Reading (Value D.F))
  unfolding id_to_ts from_value
  entry_reading id none = err type_error
  entry_reading id (some val) = with_value (id_to_ts K id) (from_value D val)

  unfoldable pub stream_id_to_reading : StreamId → Result (Reading (Value D.F))
  unfolding entry_reading get
  stream_id_to_reading sid = entry_reading sid.id (get value_key sid.map)

  -- The length is stored in a `u32`.
  abbrev pub info_of : DevInfoReply (Value D.F) → StreamInfo → Result (DevInfoReply (Value D.F))
  unfolding stream_id_to_reading
  info_of info v =
      if v.length == 0
      then ok (record info { total_points = 0; first_point = none; last_point = none })
      else with_points info (v.length % 2 ^ 32) (stream_id_to_reading v.first_entry)
          (stream_id_to_reading v.last_entry)

  module _ {Db : Type 0} (R : Server Db) where
    unfoldable pub lookup_device : SettingTable → Db → Name → Result (DevInfoReply (Value D.F))
    unfolding hash_to_info info_of to_string info_key hist_key mapped
    lookup_device st db name = elim (mapped (R.hgetall db (info_key (to_string name)))) [
      | err e ↦ err e
      | ok hmap ↦ elim (hash_to_info st name hmap) [
        | err e ↦ err e
        | ok info ↦ elim (mapped (R.xinfo_stream db (hist_key (to_string name)))) [
          | err e ↦ err e
          | ok v ↦ info_of info v
        ]
      ]
    ]

    module _ (is_alphanumeric : ℕ → Bool) where
      abbrev add_info :
          Result (DevInfoReply (Value D.F))
          → Result (List (DevInfoReply (Value D.F)))
          → Result (List (DevInfoReply (Value D.F)))
      add_info (err e) is = err e
      add_info (ok i) (err e) = err e
      add_info (ok i) (ok is) = ok (i ∷ is)

      -- Keys that are no device names are passed over; the first error ends the loop.
      unfoldable pub collect :
          SettingTable → Db → List Text → Result (List (DevInfoReply (Value D.F)))
      unfolding lookup_device trim_info create_name
      collect st db [] = ok []
      collect st db (key ∷ keys) =
          let rest = collect st db keys in
          elim (create_name is_alphanumeric (trim_info (length key) key)) [
            | failed e ↦ rest
            | created name ↦ add_info (lookup_device st db name) rest
          ]

      unfoldable pub get_device_info :
          SettingTable → Db → Option Text → Result (List (DevInfoReply (Value D.F)))
      unfolding collect match_pattern_cmd mapped
      get_device_info st db pattern = elim (mapped (R.keys db (match_pattern_cmd pattern))) [
        | err e ↦ err e
        | ok keys ↦ collect st db keys
      ]

    -- `redis::from_redis_value` of the reply to XREVRANGE: the id of the entry and its fields.
    module _ (from_reply : RedisValue → Option (Text × Fields RedisValue)) where
      unfoldable pub parse_last_value : RedisValue → Option (Reading (Value D.F))
      unfolding entry_reading get
      parse_last_value reply = if is_empty reply then none else elim (from_reply reply) [
        | none ↦ none
        | some (key, m) ↦ to_option (entry_reading key (get value_key m))
      ]

      unfoldable pub last_value : Db → Text → Option (Reading (Value D.F))
      unfolding parse_last_value hist_key mapped
      last_value db name = elim (mapped (R.xrevrange db (hist_key name))) [
        | err e ↦ none
        | ok reply ↦ parse_last_value reply
      ]
