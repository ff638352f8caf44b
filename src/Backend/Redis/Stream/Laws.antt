-- ===== src/Backend/Redis/Stream/Laws.antt =====
-- What a monitor of a device in redis sees of its history, drmemd/src/backends/redis.rs.
use drmem.Base.{
  ℕ, zero, suc, ◌+◌, ◌*◌, ◌^◌, ◌≤◌, ◌<◌, ◌≡◌, refl, sym, ap, ◌∙◌, Bool, true, false, List, [], ◌∷◌,
  map, take, length, min, Option, some, arith, if◌then◌else◌, Bool-cases, inl, inr,
}
use mathlib.Core.Path.{subst}
use drmem.Api.Value.{Text, Value}
use drmem.Backend.Simple.{Reading}
use drmem.Backend.Redis.Codec.{Doubles, RedisValue, nil, bulk_string, to_redis}
use drmem.Backend.Redis.Codec.Laws.{Fits, stored, from_value-to_redis}
use drmem.Backend.Redis.Stamp.{Clock}
use drmem.Backend.Redis.Stamp.Laws.{stream_id, id_to_ts-stream_id, msus_to_st_in_range}
use drmem.Backend.Redis.Stream.{
  Fields, get, Outcome, replied, ReadingStream, parse_reading, reading_of, poll_next, drain,
  report_value, Polled, pending, finished, item, is_nil, hist_key,
}

-- An entry of a stream, with the value that was reported.
pub record Entry (V : Type 0) : Type 0 where
  pub ms : ℕ
  pub seq : ℕ
  pub value : V

abbrev pub id_of : {V : Type 0} → Entry V → Text
id_of e = stream_id e.ms e.seq

module _ (D : Doubles) (K : Clock) where
  -- The id is in range, and the value is one that the store keeps.
  abbrev pub Sound : Entry (Value D.F) → Type 0
  Sound e =
      (e.ms < 2 ^ 64)
      × (e.seq < 2 ^ 64)
      × (K.epoch + e.ms * 1000000 + min e.seq 999 * 1000 ≤ K.last)
      × Fits e.value

  abbrev pub AllSound : List (Entry (Value D.F)) → Type 0
  AllSound [] = Unit {0}
  AllSound (e ∷ log) = Sound e × AllSound log

  abbrev pub shown : Entry (Value D.F) → Reading (Value D.F)
  shown e = record { ts = K.epoch + e.ms * 1000000 + min e.seq 999 * 1000; value = stored e.value }

  -- The fields of an entry as redis returns them.
  abbrev pub wire : Fields (List ℕ) → Fields RedisValue
  wire [] = []
  wire ((k, v) ∷ m) = (k, bulk_string v) ∷ wire m

  module _ (from_redis_value : RedisValue → Option (Text × Fields RedisValue)) where
    module _ (name : Text) (max_history : Option ℕ) where
      -- The reply that holds one entry, with the fields that `report_value` gave it.
      abbrev pub Gives : Outcome → Entry (Value D.F) → Type 0
      Gives o e =
          (v : RedisValue) × (o ≡ replied v)
          × (is_nil v ≡ false)
          × (from_redis_value v
              ≡ some (id_of e, wire (report_value D name max_history e.value).fields))

      abbrev pub Answers : Bool → Outcome → Entry (Value D.F) → Type 0
      Answers true o e = o ≡ replied nil
      Answers false o e = Gives o e

      -- Behind an id the stream of the device holds the entries of `log`. A request for the entry
      -- behind an id gets the next one, or nothing if it is late or there is none.
      abbrev pub Serves :
          (ℕ → Text → Text → Outcome) → (ℕ → Bool) → Text → List (Entry (Value D.F)) → Type 0
      Serves xread late id [] = (n : ℕ) → xread n (hist_key name) id ≡ replied nil
      Serves xread late id (e ∷ log) =
          ((n : ℕ) → Answers (late n) (xread n (hist_key name) id) e)
          × Serves xread late (id_of e) log

-- How many of the requests from number `n` on are in time.
abbrev pub in_time : (ℕ → Bool) → ℕ → ℕ → ℕ
in_time late n zero = 0
in_time late n (suc ready) =
    let rest = in_time late (suc n) ready in if late n then rest else suc rest

take_nil : {A : Type 0} (n : ℕ) → take {A = A} n [] ≡ []
take_nil zero = refl
take_nil (suc n) = refl

module _ (D : Doubles) (K : Clock)
    (from_redis_value : RedisValue → Option (Text × Fields RedisValue))
    (eight : (x : D.F) → length (D.to_be_bytes x) ≡ 8)
    (back : (x : D.F) → D.from_be_bytes (D.to_be_bytes x) ≡ x) where
  reading_of-entry :
      (e : Entry (Value D.F))
      → Sound D K e
      → reading_of D K from_redis_value (id_of e) (some (bulk_string (to_redis D e.value)))
        ≡ some (id_of e, shown D K e)
  unfolding reading_of
  reading_of-entry e (hm, hs, hi, hv) =
      rw
        (
          id_to_ts-stream_id K e.ms e.seq hm hs,
          msus_to_st_in_range K e.ms e.seq hi,
          from_value-to_redis D eight back e.value hv,
          reading_of,
        )
        refl

  module _ (xread : ℕ → Text → Text → Outcome) where
    -- What `drain` makes of what `poll_next` gives.
    abbrev follow :
        ℕ → Polled (Reading (Value D.F)) × ReadingStream × ℕ → List (Reading (Value D.F))
    follow fuel p = elim p.0 [
      | pending ↦ []
      | finished ↦ []
      | item r ↦ r ∷ drain D K from_redis_value xread fuel p.2 p.1
    ]

    drain_late :
        (fuel ready : ℕ) (st : ReadingStream)
        → xread st.sent st.key st.id ≡ replied nil
        → drain D K from_redis_value xread (suc fuel) (suc ready) st
          ≡ drain D K from_redis_value xread (suc fuel) ready (record st { sent = suc st.sent })
    unfolding drain poll_next
    drain_late fuel ready st h =
        let again : poll_next D K from_redis_value xread (suc ready) st
            ≡ poll_next D K from_redis_value xread ready (record st { sent = suc st.sent }) =
          rw (h, poll_next) refl in
        ap (follow fuel) again

    drain_item :
        (fuel ready : ℕ) (st : ReadingStream) (v : RedisValue) (id : Text) (r : Reading (Value D.F))
        → xread st.sent st.key st.id ≡ replied v
        → is_nil v ≡ false
        → parse_reading D K from_redis_value v ≡ some (id, r)
        → drain D K from_redis_value xread (suc fuel) (suc ready) st
          ≡ r
            ∷ drain D K from_redis_value xread fuel ready
                (record st { id = id; sent = suc st.sent })
    unfolding drain poll_next
    drain_item fuel ready st v id r h some_data parsed =
        let got : poll_next D K from_redis_value xread (suc ready) st
            ≡ (item r, record st { id = id; sent = suc st.sent }, ready) =
          rw (h, some_data, parsed, poll_next) refl in
        ap (follow fuel) got

  module _ (name : Text) (max_history : Option ℕ) where
    parse_reading-entry :
        (e : Entry (Value D.F)) (v : RedisValue)
        → Sound D K e
        → from_redis_value v
          ≡ some (id_of e, wire D K (report_value D name max_history e.value).fields)
        → parse_reading D K from_redis_value v ≡ some (id_of e, shown D K e)
    unfolding parse_reading report_value get
    parse_reading-entry e v h parsed = rw (parsed, parse_reading) (reading_of-entry e h)

    module _ (xread : ℕ → Text → Text → Outcome) (late : ℕ → Bool) where
      -- If `f64` is read back from its eight bytes, redis answers each request for the entry
      -- behind an id with the next one or, if it is late or there is none, with nothing, and the
      -- entries are in range and hold values that the store keeps: a stream behind an id yields
      -- the readings of the entries that follow it, in their order and each once, as many as
      -- requests were answered in time. Its fuel is at least the number of requests.
      pub drain-Serves :
          (log : List (Entry (Value D.F))) (fuel ready : ℕ) (st : ReadingStream)
          → ready ≤ fuel
          → AllSound D K log
          → st.key ≡ hist_key name
          → Serves D K from_redis_value name max_history xread late st.id log
          → drain D K from_redis_value xread fuel ready st
            ≡ take (in_time late st.sent ready) (map (shown D K) log)
      unfolding drain poll_next
      drain-Serves log zero zero st enough sound at serves = refl
      drain-Serves log (suc fuel) zero st enough sound at serves = refl
      drain-Serves log zero (suc ready) st enough sound at serves = absurd (omega (arith, enough))
      drain-Serves [] (suc fuel) (suc ready) st enough sound at serves =
          let asked : xread st.sent st.key st.id ≡ replied nil =
            ap (λ key. xread st.sent key st.id) at ∙ serves st.sent in
          drain_late xread fuel ready st asked
          ∙ drain-Serves [] (suc fuel) ready (record st { sent = suc st.sent })
              (omega (arith, enough)) sound at serves
          ∙ take_nil _
          ∙ sym (take_nil _)
      drain-Serves (e ∷ log) (suc fuel) (suc ready) st enough sound at (now, later) =
          let on_key : xread st.sent st.key st.id ≡ xread st.sent (hist_key name) st.id =
            ap (λ key. xread st.sent key st.id) at in
          elim (Bool-cases (late st.sent)) [
            | inl l ↦
                let asked : xread st.sent (hist_key name) st.id ≡ replied nil =
                  subst
                    (λ b.
                      Answers D K from_redis_value name max_history b
                        (xread st.sent (hist_key name) st.id) e)
                    l (now st.sent) in
                rw l (
                  drain_late xread fuel ready st (on_key ∙ asked)
                  ∙ drain-Serves (e ∷ log) (suc fuel) ready (record st { sent = suc st.sent })
                      (omega (arith, enough)) sound at (now, later))
            | inr l ↦
                let (v, asked, some_data, parsed) : Gives D K from_redis_value name max_history
                    (xread st.sent (hist_key name) st.id) e =
                  subst
                    (λ b.
                      Answers D K from_redis_value name max_history b
                        (xread st.sent (hist_key name) st.id) e)
                    l (now st.sent) in
                let st' = record st { id = id_of e; sent = suc st.sent } in
                rw l (
                  drain_item xread fuel ready st v (id_of e) (shown D K e) (on_key ∙ asked)
                    some_data (parse_reading-entry e v sound.0 parsed)
                  ∙ ap (λ l. shown D K e ∷ l)
                      (drain-Serves log fuel ready st' (omega (arith, enough)) sound.1 at later))
          ]
