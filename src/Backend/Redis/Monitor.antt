-- ===== src/Backend/Redis/Monitor.antt =====
-- The stream of readings that `monitor_device` of drmemd/src/backends/redis.rs makes.
pub mod Laws
use drmem.Base.{ℕ, Bool, true, false, Option, none, some, List, [], min, max, if◌then◌else◌}
use drmem.Api.Value.{Text, Value}
use drmem.Api.Name.{Name}
use drmem.Backend.Simple.{Reading}
use drmem.Backend.Simple.Monitor.{take_while, until}
use drmem.Backend.Redis.Codec.{Doubles, RedisValue}
use drmem.Backend.Redis.Stamp.{Clock, st_minus_1us}
use drmem.Backend.Redis.Stream.{Fields, ReadingStream, Outcome, hist_key, new, drain}
use drmem.Backend.Redis.Server.{Server}
use drmem.Backend.Redis.Device.{to_string, last_value}

-- A stream of no items, where no connection is made; the panic for a time before the epoch; or a
-- stream of redis, which may end with the first reading after a time.
pub data Monitor : Type 0 where
  empty panics : Monitor
  reads : ReadingStream → Option ℕ → Monitor

abbrev pub reads_from : Option ReadingStream → Option ℕ → Monitor
reads_from none end = panics
reads_from (some st) end = reads st end

abbrev less_1us : {V : Type 0} → Option (Reading V) → Option ℕ
unfolding st_minus_1us
less_1us none = none
less_1us (some tmp) = some (st_minus_1us tmp.ts)

module _ (D : Doubles) (K : Clock) where
  module _ {Db : Type 0} (R : Server Db)
      (from_reply : RedisValue → Option (Text × Fields RedisValue)) (connects : Bool) where
    unfoldable pub monitor_device : Db → Name → Option ℕ → Option ℕ → Monitor
    unfolding new hist_key to_string last_value less_1us st_minus_1us
    monitor_device db name start end =
        let key = hist_key (to_string name) in
        let opened : Option ℕ → Option ℕ → Monitor =
          λ from end. reads_from (new D K key from) end in
        let latest = less_1us (last_value D K R from_reply db (to_string name)) in
        if connects
        then elim start [
          | none ↦ opened latest end
          | some a ↦ elim end [
            | none ↦ opened (some (st_minus_1us a)) none
            | some b ↦ opened (some (st_minus_1us (min a b))) (some (max a b))
          ]
        ]
        else empty

  -- The items of the stream when `ready` requests complete.
  unfoldable pub items :
      (RedisValue → Option (Text × Fields RedisValue))
      → (ℕ → Text → Text → Outcome)
      → ℕ
      → Monitor
      → List (Reading (Value D.F))
  unfolding drain take_while
  items from_redis_value xread ready empty = []
  items from_redis_value xread ready panics = []
  items from_redis_value xread ready (reads st none) =
      drain D K from_redis_value xread ready ready st
  items from_redis_value xread ready (reads st (some end)) =
      take_while (until end) (drain D K from_redis_value xread ready ready st)
