-- ===== src/Backend/Redis/Stream.antt =====
-- The stream of a device's readings, `ReadingStream` of drmemd/src/backends/redis.rs, and the
-- commands that report a value.
pub mod Laws
use drmem.Base.{
  ℕ, zero, suc, Bool, true, false, Option, none, some, List, [], ◌∷◌, ◌++◌, if◌then◌else◌,
}
use drmem.Api.Value.{Text, eqb_text, Value}
use drmem.Backend.Simple.{Reading}
use drmem.Backend.Redis.Codec.{Doubles, Result, ok, err, RedisValue, nil, bulk_string}
use drmem.Backend.Redis.Codec.{from_value, to_redis}
use drmem.Backend.Redis.Stamp.{Clock, id_to_ts, ts_to_id}

abbrev pub Fields : Type 0 → Type 0
Fields A = List (Text × A)

-- `HashMap::get`
unfoldable pub get : {A : Type 0} → Text → Fields A → Option A
get key [] = none
get key ((k, v) ∷ m) = let rest = get key m in if eqb_text k key then some v else rest

abbrev pub value_key : Text
value_key = b'v' ∷ b'a' ∷ b'l' ∷ b'u' ∷ b'e' ∷ []

unfoldable pub hist_key : Text → Text
hist_key name = name ++ (b'#' ∷ b'h' ∷ b'i' ∷ b's' ∷ b't' ∷ [])

unfoldable pub info_key : Text → Text
info_key name = name ++ (b'#' ∷ b'i' ∷ b'n' ∷ b'f' ∷ b'o' ∷ [])

-- `XADD key * field value`, kept to about so many entries if a bound is given.
pub record Xadd : Type 0 where
  pub key : Text
  pub maxlen : Option ℕ
  pub fields : Fields (List ℕ)

-- What a request gives: the redis error, or a value.
pub data Outcome : Type 0 where
  failed : Outcome
  replied : RedisValue → Outcome

-- The future that a stream waits for is its request number `sent`, for the entry behind `id`.
pub record ReadingStream : Type 0 where
  pub key : Text
  pub id : Text
  pub sent : ℕ

pub data Polled (A : Type 0) : Type 0 where
  pending finished : Polled A
  item : A → Polled A

abbrev pub is_nil : RedisValue → Bool
is_nil nil = true
is_nil _ = false

abbrev with_ts : {V : Type 0} → Result ℕ → Result V → Option (Reading V)
with_ts (ok ts) (ok v) = some (record { ts = ts; value = v })
with_ts _ _ = none

module _ (D : Doubles) where
  -- The command of `report_value`: the bounded form if the device has a bound on its history.
  unfoldable pub report_value : Text → Option ℕ → Value D.F → Xadd
  unfolding to_redis hist_key
  report_value name max_history val = record {
    key = hist_key name;
    maxlen = max_history;
    fields = (value_key, to_redis D val) ∷ [];
  }

  module _ (K : Clock) where
    unfoldable pub new : Text → Option ℕ → Option ReadingStream
    unfolding ts_to_id
    new key none = some (record { key = key; id = b'$' ∷ []; sent = 0 })
    new key (some ts) = elim (ts_to_id K ts) [
      | none ↦ none
      | some id ↦ some (record { key = key; id = id; sent = 0 })
    ]

    -- `redis::from_redis_value` of the reply to XREAD: the id of the entry and its fields.
    module _ (from_redis_value : RedisValue → Option (Text × Fields RedisValue)) where
      abbrev pub reading_of : Text → Option RedisValue → Option (Text × Reading (Value D.F))
      unfolding id_to_ts from_value
      reading_of id none = none
      reading_of id (some v) = elim (with_ts (id_to_ts K id) (from_value D v)) [
        | none ↦ none
        | some r ↦ some (id, r)
      ]

      unfoldable pub parse_reading : RedisValue → Option (Text × Reading (Value D.F))
      unfolding reading_of get
      parse_reading reply = elim (from_redis_value reply) [
        | none ↦ none
        | some (id, rmap) ↦ reading_of id (get value_key rmap)
      ]

      -- What redis answers to request number `n` for the entry behind an id.
      module _ (xread : ℕ → Text → Text → Outcome) where
        abbrev polled_of :
            ReadingStream
            → ℕ
            → Option (Text × Reading (Value D.F))
            → Polled (Reading (Value D.F)) × ReadingStream × ℕ
        polled_of st left none = (finished, st, left)
        polled_of st left (some (id, r)) = (item r, record st { id = id; sent = suc st.sent }, left)

        -- `ready` requests complete before one is pending; the rest of them is returned.
        unfoldable pub poll_next :
            ℕ → ReadingStream → Polled (Reading (Value D.F)) × ReadingStream × ℕ
        unfolding parse_reading
        poll_next zero st = (pending, st, 0)
        poll_next (suc ready) st =
            let again = poll_next ready (record st { sent = suc st.sent }) in
            elim (xread st.sent st.key st.id) [
              | failed ↦ (finished, st, ready)
              | replied v ↦ if is_nil v then again else polled_of st ready (parse_reading v)
            ]

        -- The items of the stream until it is pending or has ended, on fuel.
        unfoldable pub drain : ℕ → ℕ → ReadingStream → List (Reading (Value D.F))
        unfolding poll_next
        drain zero ready st = []
        drain (suc fuel) ready st =
            let (p, st', left) = poll_next ready st in
            let rest = drain fuel left st' in
            elim p [ pending ↦ [] | finished ↦ [] | item r ↦ r ∷ rest ]
