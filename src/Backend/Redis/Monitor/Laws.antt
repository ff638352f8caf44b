-- ===== src/Backend/Redis/Monitor/Laws.antt =====
-- A monitor without a start sees the last value and all that follow it,
-- drmemd/src/backends/redis.rs.
use drmem.Base.{
  ℕ, ◌+◌, ◌<◌, ◌≡◌, refl, ap, ◌∙◌, Bool, true, false, List, ◌∷◌, map, take, length, Option, none,
  some, arith,
}
use drmem.Api.Value.{Text, Value}
use drmem.Api.Name.{Name}
use drmem.Backend.Simple.{Reading}
use drmem.Backend.Simple.Monitor.{take_while, until}
use drmem.Backend.Redis.Codec.{Doubles, ok, RedisValue, bulk_string, to_redis}
use drmem.Backend.Redis.Codec.Laws.{from_value-to_redis}
use drmem.Backend.Redis.Stamp.{Clock, st_minus_1us}
use drmem.Backend.Redis.Stamp.Laws.{
  id_before, id_to_ts-stream_id, msus_to_st_in_range, ts_to_id-st_minus_1us,
}
use drmem.Backend.Redis.Stream.{
  Fields, ReadingStream, Outcome, report_value, hist_key, new, drain, get,
}
use drmem.Backend.Redis.Stream.Laws.{
  Entry, id_of, Sound, AllSound, shown, wire, Serves, in_time, drain-Serves,
}
use drmem.Backend.Redis.Server.{Server, done, mapped}
use drmem.Backend.Redis.Device.{
  to_string, last_value, parse_last_value, is_empty, entry_reading, to_option,
}
use drmem.Backend.Redis.Monitor.{reads, monitor_device, items, less_1us, reads_from}

-- What a monitor with this end shows of the readings that the stream yields.
abbrev pub up_to : {V : Type 0} → Option ℕ → List (Reading V) → List (Reading V)
unfolding take_while
up_to none rs = rs
up_to (some end) rs = take_while (until end) rs

items-reads :
    (D : Doubles) (K : Clock) (from_redis_value : RedisValue → Option (Text × Fields RedisValue))
    (xread : ℕ → Text → Text → Outcome) (ready : ℕ) (st : ReadingStream) (end : Option ℕ)
    → items D K from_redis_value xread ready (reads st end)
      ≡ up_to end (drain D K from_redis_value xread ready ready st)
unfolding items up_to
items-reads D K from_redis_value xread ready st none = refl
items-reads D K from_redis_value xread ready st (some end) = refl

module _ (D : Doubles) (K : Clock) (eight : (x : D.F) → length (D.to_be_bytes x) ≡ 8)
    (back : (x : D.F) → D.from_be_bytes (D.to_be_bytes x) ≡ x)
    (from_redis_value : RedisValue → Option (Text × Fields RedisValue))
    (from_reply : RedisValue → Option (Text × Fields RedisValue)) {Db : Type 0}
    (R : Server Db) where
  -- The reply to XREVRANGE holds this entry of the device.
  abbrev pub IsLast : Db → Name → Option ℕ → Entry (Value D.F) → Type 0
  IsLast db name mh e =
      (v : RedisValue) × (R.xrevrange db (hist_key (to_string name)) ≡ done v)
      × (is_empty v ≡ false)
      × (from_reply v
          ≡ some (id_of e, wire D K (report_value D (to_string name) mh e.value).fields))

  entry_reading-entry :
      (e : Entry (Value D.F))
      → Sound D K e
      → entry_reading D K (id_of e) (some (bulk_string (to_redis D e.value))) ≡ ok (shown D K e)
  unfolding entry_reading
  entry_reading-entry e (hm, hs, hi, hv) =
      rw
        (
          id_to_ts-stream_id K e.ms e.seq hm hs,
          msus_to_st_in_range K e.ms e.seq hi,
          from_value-to_redis D eight back e.value hv,
          entry_reading,
        )
        refl

  last_value-entry :
      (db : Db) (name : Name) (mh : Option ℕ) (e : Entry (Value D.F))
      → Sound D K e
      → IsLast db name mh e
      → last_value D K R from_reply db (to_string name) ≡ some (shown D K e)
  unfolding last_value parse_last_value mapped report_value get
  last_value-entry db name mh e sound (v, asked, full, parsed) =
      rw (asked, full, parsed, last_value, parse_last_value)
        (ap to_option (entry_reading-entry e sound))

  -- If `f64` is read back from its eight bytes, redis answers XREVRANGE with an entry whose
  -- second number is below 1000 and which is not 0-0, every request for the entry behind an id
  -- with the next one or, if it is late, with nothing, and all entries are in range and hold
  -- values that the store keeps: a monitor of the device without a start shows that last reading
  -- and then the further ones, in their order and each once, one for each request that is
  -- answered in time, up to the end of the monitor if it has one.
  pub monitor_latest :
      (db : Db) (name : Name) (end : Option ℕ) (mh : Option ℕ) (e : Entry (Value D.F))
      (log : List (Entry (Value D.F))) (xread : ℕ → Text → Text → Outcome) (late : ℕ → Bool)
      (ready : ℕ)
      → AllSound D K (e ∷ log)
      → e.seq < 1000
      → 0 < e.ms + e.seq
      → IsLast db name mh e
      → Serves D K from_redis_value (to_string name) mh xread late (id_before e.ms e.seq) (e ∷ log)
      → items D K from_redis_value xread ready
          (monitor_device D K R from_reply true db name none end)
        ≡ up_to end (take (in_time late 0 ready) (map (shown D K) (e ∷ log)))
  unfolding items monitor_device new
  monitor_latest db name end mh e log xread late ready sound small pos last serves =
      let key = hist_key (to_string name) in
      let st : ReadingStream = record { key = key; id = id_before e.ms e.seq; sent = 0 } in
      let ts = (shown D K e).ts in
      let latest : less_1us (last_value D K R from_reply db (to_string name))
          ≡ some (st_minus_1us ts) =
        rw (last_value-entry db name mh e sound.0 last, less_1us) refl in
      let started : new D K key (some (st_minus_1us ts)) ≡ some st =
        rw (ts_to_id-st_minus_1us K e.ms e.seq small pos, new) refl in
      ap (λ o. items D K from_redis_value xread ready (reads_from (new D K key o) end)) latest
      ∙ ap (λ s. items D K from_redis_value xread ready (reads_from s end)) started
      ∙ items-reads D K from_redis_value xread ready st end
      ∙ ap (up_to end) (
          drain-Serves D K from_redis_value eight back (to_string name) mh xread late (e ∷ log)
            ready ready st (omega arith) sound refl serves)
