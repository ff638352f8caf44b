-- ===== src/Examples/Redis.antt =====
-- Runs of the store in redis, drmemd/src/backends/redis.rs.
use drmem.Base.{
  ℕ, zero, suc, ◌^◌, ◌≡◌, refl, Bool, true, false, List, [], ◌∷◌, ◌++◌, length, take, map, Option,
  none, some, if◌then◌else◌, arith,
}
use drmem.Api.Value.{Text, Value, int, color, ccta, eqb_text}
use drmem.Api.Name.{Name}
use drmem.Api.Name.Equality.{eqb_text_refl, eqb_name}
use drmem.Base.Int.{pos}
use drmem.Base.Split.{split}
use drmem.Backend.Redis.Codec.{Doubles, ok, RedisValue, nil, other, bulk_string}
use drmem.Backend.Redis.Codec.{to_redis, from_value, decode, decode_integer}
use drmem.Backend.Redis.Codec.Laws.{from_value-to_redis}
use drmem.Backend.Redis.Stamp.{Clock, id_to_ts, ts_to_id, msus_to_st}
use drmem.Backend.Redis.Stamp.Laws.{id_to_ts-ts_to_id}
use drmem.Backend.Redis.Stream.{
  get, Fields, Outcome, replied, ReadingStream, report_value, drain, hist_key, info_key,
}
use drmem.Backend.Redis.Stream.Laws.{
  Entry, id_of, AllSound, shown, wire, Serves, Answers, in_time, drain-Serves,
}
use drmem.Backend.Redis.Server.{
  Server, RedisResult, done, Cmd, hset_multiple, StreamInfo, StreamId, init_device_cmd, mapped,
}
use drmem.Backend.Redis.Stamp.Decimal.{print, parse_u64}
use drmem.Backend.Redis.Device.{to_string, entry_reading}
use drmem.Backend.Redis.Register
use drmem.Backend.Redis.Register.{
  hash_type, stream_type, RedisStore, Report, register_read_only_device, register_read_write_device,
  ro_of, rw_of, new, Answer, answered, set_device, ensure, validate_device, init_device,
}
use drmem.Backend.Redis.Register.Laws.{MakesKeys, register_twice, set_device-register}
use drmem.Backend.Redis.Monitor.{items, monitor_device}
use drmem.Backend.Redis.Monitor.Laws.{monitor_latest, up_to}

-- The eight bytes of an `f64`.
record Bits : Type 0 where
  b0 : ℕ
  b1 : ℕ
  b2 : ℕ
  b3 : ℕ
  b4 : ℕ
  b5 : ℕ
  b6 : ℕ
  b7 : ℕ

abbrev to_bytes : Bits → List ℕ
to_bytes x = x.b0 ∷ x.b1 ∷ x.b2 ∷ x.b3 ∷ x.b4 ∷ x.b5 ∷ x.b6 ∷ x.b7 ∷ []

abbrev of_bytes : List ℕ → Bits
of_bytes (b0 ∷ b1 ∷ b2 ∷ b3 ∷ b4 ∷ b5 ∷ b6 ∷ b7 ∷ _) = record {
  b0 = b0;
  b1 = b1;
  b2 = b2;
  b3 = b3;
  b4 = b4;
  b5 = b5;
  b6 = b6;
  b7 = b7;
}
of_bytes _ = record { b0 = 0; b1 = 0; b2 = 0; b3 = 0; b4 = 0; b5 = 0; b6 = 0; b7 = 0 }

abbrev doubles : Doubles
doubles = record { F = Bits; to_be_bytes = to_bytes; from_be_bytes = of_bytes }

eight : (x : Bits) → length (to_bytes x) ≡ 8
eight x = refl

back : (x : Bits) → of_bytes (to_bytes x) ≡ x
back x = refl

abbrev clock : Clock
clock = record { epoch = 0; last = 2 ^ 80 }

-- 30050 K comes back as 4400 K.
from_value-to_redis_example :
    from_value doubles (bulk_string (to_redis doubles (color (ccta 30050 7))))
    ≡ ok (color (ccta 4400 7))
from_value-to_redis_example = from_value-to_redis doubles eight back (color (ccta 30050 7)) tt

id_to_ts-ts_to_id_example :
    (id : Text) × (ts_to_id clock 1700000000123456789 ≡ some id)
    × (id_to_ts clock id ≡ ok 1700000000123456000)
id_to_ts-ts_to_id_example =
    id_to_ts-ts_to_id clock 1700000000123456789 (omega arith) (omega arith) (omega arith)

abbrev entry_1 : Entry (Value Bits)
entry_1 = record { ms = 5; seq = 1; value = int (pos 7) }

abbrev entry_2 : Entry (Value Bits)
entry_2 = record { ms = 9; seq = 0; value = int (pos 8) }

abbrev device : Name
device = record { path = (b'a' ∷ []) ∷ []; base = b'x' ∷ [] }

abbrev device_text : Text
device_text = b'a' ∷ b':' ∷ b'x' ∷ []

-- Reply 0 holds the first entry, and any other the second.
abbrev parsed : RedisValue → Option (Text × Fields RedisValue)
parsed (other zero) =
    some (
      id_of entry_1,
      wire doubles clock (report_value doubles device_text none entry_1.value).fields,
    )
parsed _ =
    some (
      id_of entry_2,
      wire doubles clock (report_value doubles device_text none entry_2.value).fields,
    )

-- The first request is late.
abbrev late : ℕ → Bool
late zero = true
late (suc n) = false

abbrev next_of : Text → Outcome
next_of id =
    if eqb_text id (b'5' ∷ b'-' ∷ b'0' ∷ [])
    then replied (other 0)
    else if eqb_text id (b'5' ∷ b'-' ∷ b'1' ∷ [])
    then replied (other 1)
    else replied nil

abbrev xread : ℕ → Text → Text → Outcome
xread n key id = if late n then replied nil else next_of id

abbrev log : List (Entry (Value Bits))
log = entry_1 ∷ entry_2 ∷ []

abbrev start : Text
start = b'5' ∷ b'-' ∷ b'0' ∷ []

first_next :
    (n : ℕ)
    → Answers doubles clock parsed device_text none
        (late n)
        (xread n (hist_key device_text) start)
        entry_1
first_next zero = refl
first_next (suc n) = (other 0, refl, refl, refl)

second_next :
    (n : ℕ)
    → Answers doubles clock parsed device_text none
        (late n)
        (xread n (hist_key device_text) (id_of entry_1))
        entry_2
unfolding print
second_next zero = refl
second_next (suc n) = (other 1, refl, refl, refl)

none_next : (n : ℕ) → xread n (hist_key device_text) (id_of entry_2) ≡ replied nil
unfolding print
none_next zero = refl
none_next (suc n) = refl

serves : Serves doubles clock parsed device_text none xread late start log
serves = (first_next, (second_next, none_next))

sound : AllSound doubles clock log
sound = (
  (omega arith, omega arith, omega arith, (omega arith, omega arith)),
  ((omega arith, omega arith, omega arith, (omega arith, omega arith)), tt),
)

abbrev opened : ReadingStream
opened = record {
  key = device_text ++ (b'#' ∷ b'h' ∷ b'i' ∷ b's' ∷ b't' ∷ []);
  id = start;
  sent = 0;
}

drain-Serves_example :
    drain doubles clock parsed xread 2 2 opened
    ≡ take (in_time late 0 2) (map (shown doubles clock) log)
unfolding hist_key
drain-Serves_example =
    drain-Serves doubles clock parsed eight back device_text none xread late log 2 2 opened
      (omega arith) sound refl serves

-- A database is the key of the last device's record; every other key is a stream.
abbrev type_in : Option Text → Text → RedisResult Text
type_in none key = done (b'n' ∷ b'o' ∷ b'n' ∷ b'e' ∷ [])
type_in (some info) key = if eqb_text key info then done hash_type else done stream_type

abbrev recorded : List Cmd → Option Text
recorded [] = none
recorded (hset_multiple key fields ∷ cmds) = some key
recorded (cmd ∷ cmds) = recorded cmds

abbrev no_stream : StreamInfo
no_stream =
    let entry : StreamId = record { id = []; map = [] } in
    record { length = 0; first_entry = entry; last_entry = entry }

abbrev server : Server (Option Text)
server = record {
  key_type = type_in;
  pipeline = λ db cmds. (recorded cmds, done tt);
  xrevrange = λ db key. done (other 0);
  hgetall = λ db key. done [];
  xinfo_stream = λ db key. done no_stream;
  keys = λ db key. done [];
}

hist_ne_info : (name : Text) → eqb_text (hist_key name) (info_key name) ≡ false
unfolding hist_key info_key
hist_ne_info [] = refl
hist_ne_info (c ∷ name) = ground (arith, hist_ne_info name)

makes : MakesKeys server
unfolding init_device_cmd
makes db name driver units =
    λ h. (rw (eqb_text_refl (info_key name)) refl, rw (hist_ne_info name) refl)

abbrev replied_with : Value Bits → Answer (Value Bits)
replied_with v = Register.replied (ok v)

abbrev empty_store : RedisStore (Option Text)
empty_store = record { db_con = none; table = []; channels = 0 }

registered :
    (register_read_only_device server (b'd' ∷ []) device none none empty_store).1
    ≡ ok (new (to_string device) none)
unfolding register_read_only_device ro_of ensure validate_device init_device mapped
registered = refl

register_twice_example :
    (let st1 = (register_read_only_device server (b'd' ∷ []) device none none empty_store).0 in
      let (st2, again) =
        register_read_write_device server doubles clock parsed (b'e' ∷ []) device none none st1 in
      (st2.db_con ≡ st1.db_con)
      × (tx : ℕ) × (v : Option (Value Bits)) × (again ≡ ok (new (to_string device) none, tx, v)))
register_twice_example =
    register_twice server doubles clock parsed makes device (b'd' ∷ []) (b'e' ∷ []) none none none
      none empty_store (new (to_string device) none) registered

registered_rw :
    (register_read_write_device server doubles clock parsed
      (b'd' ∷ [])
      device
      none
      none
      empty_store).1
    ≡ ok (new (to_string device) none, 0, some (int (pos 7)))
unfolding register_read_write_device rw_of ensure validate_device init_device mapped entry_reading
    get report_value id_to_ts print split msus_to_st parse_u64 from_value decode decode_integer
    to_redis
registered_rw = refl

set_device-register_example :
    (let st' =
        (register_read_write_device server doubles clock parsed
          (b'd' ∷ [])
          device
          none
          none
          empty_store).0 in
      set_device (λ tx v. replied_with v) device (int (pos 3)) st' ≡ (
        if eqb_name device device
        then answered (replied_with (int (pos 3)))
        else set_device (λ tx v. replied_with v) device (int (pos 3)) empty_store))
set_device-register_example =
    set_device-register server doubles clock parsed (b'd' ∷ []) device device none none empty_store
      (new (to_string device) none) 0 (some (int (pos 7))) (λ tx v. replied_with v) (int (pos 3))
      registered_rw

monitor_latest_example :
    items doubles clock parsed xread 2
      (monitor_device doubles clock server parsed true none device none (some 9000000))
    ≡ up_to (some 9000000) (take (in_time late 0 2) (map (shown doubles clock) log))
unfolding to_string print
monitor_latest_example =
    monitor_latest doubles clock eight back parsed parsed server none device (some 9000000) none
      entry_1 (entry_2 ∷ []) xread late 2 sound (omega arith) (omega arith)
      (other 0, refl, refl, refl) serves
