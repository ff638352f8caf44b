-- ===== src/Backend/Redis/Stamp/Laws.antt =====
-- What the ids of redis streams give back, drmemd/src/backends/redis.rs.
use drmem.Base.{
  ℕ, ◌+◌, ◌-◌, ◌*◌, ◌/◌, ◌%◌, ◌^◌, ◌≤◌, ◌<◌, ◌≡◌, refl, sym, ap, ap₂, ◌∙◌, true, false, [], ◌∷◌,
  ◌++◌, some, leb, ◌==◌, min, if◌then◌else◌, arith, Bool-cases, inl, inr,
}
use mathlib.Core.Path.{subst}
use drmem.Api.Value.{Text}
use drmem.Base.Split.{split}
use drmem.Backend.Redis.Codec.{ok}
use drmem.Backend.Redis.Stamp.Decimal.{print, AllDigits, Numeral, print-Numeral, parse_u64-print}
use drmem.Backend.Redis.Stamp.{
  Clock, dash, st_minus_1us, msus_to_st, of_parts, of_fields, id_to_ts, ts_to_id,
}

split_field : (a b : Text) → AllDigits a → split dash (a ++ dash ∷ b) ≡ a ∷ split dash b
unfolding split
split_field [] b h = refl
split_field (c ∷ a) b h =
    let e : (c == dash) ≡ false = ground (arith, h.0) in rw (e, split_field a b h.1) refl

split_end : (b : Text) → AllDigits b → split dash b ≡ b ∷ []
unfolding split
split_end [] h = refl
split_end (c ∷ b) h =
    let e : (c == dash) ≡ false = ground (arith, h.0) in rw (e, split_end b h.1) refl

Numeral-AllDigits : (t : Text) → Numeral t → AllDigits t
Numeral-AllDigits t (c, s, e, d) = subst AllDigits (sym e) d

-- The ids that redis makes: milliseconds, and a number that tells entries of one millisecond apart.
abbrev pub stream_id : ℕ → ℕ → Text
stream_id ms n = print ms ++ dash ∷ print n

pub id_to_ts-stream_id :
    (K : Clock) (ms n : ℕ)
    → ms < 2 ^ 64
    → n < 2 ^ 64
    → id_to_ts K (stream_id ms n) ≡ msus_to_st K ms n
unfolding id_to_ts of_fields of_parts
id_to_ts-stream_id K ms n hm hn =
    let digits_of = λ (k : ℕ). Numeral-AllDigits (print k) (print-Numeral k) in
    rw
      (
        split_field (print ms) (print n) (digits_of ms),
        split_end (print n) (digits_of n),
        parse_u64-print ms hm,
        parse_u64-print n hn,
      )
      refl

pub msus_to_st_in_range :
    (K : Clock) (ms n : ℕ)
    → K.epoch + ms * 1000000 + min n 999 * 1000 ≤ K.last
    → msus_to_st K ms n ≡ ok (K.epoch + ms * 1000000 + min n 999 * 1000)
unfolding msus_to_st
msus_to_st_in_range K ms n h = ground arith

-- A time from the epoch on that is not after the last one and whose milliseconds fit 64 bits has
-- an id, and the id is read back as that time rounded down to a microsecond.
pub id_to_ts-ts_to_id :
    (K : Clock) (ts : ℕ)
    → K.epoch ≤ ts
    → ts ≤ K.last
    → (ts - K.epoch) / 1000000 < 2 ^ 64
    → (id : Text) × (ts_to_id K ts ≡ some id)
      × (id_to_ts K id ≡ ok (K.epoch + (ts - K.epoch) / 1000 * 1000))
unfolding ts_to_id
id_to_ts-ts_to_id K ts lo hi fits =
    let us = (ts - K.epoch) / 1000 in
    let from : leb K.epoch ts ≡ true = ground arith in
    let whole : K.epoch + us / 1000 * 1000000 + min (us % 1000) 999 * 1000 ≡ K.epoch + us * 1000 =
      omega arith in
    (
      stream_id (us / 1000) (us % 1000),
      rw from refl,
      id_to_ts-stream_id K (us / 1000) (us % 1000) (omega arith) (omega arith)
          ∙ msus_to_st_in_range K (us / 1000) (us % 1000) (omega arith)
          ∙ ap ok whole,
    )

-- The id before a given one, if the second number counts microseconds.
abbrev pub id_before : ℕ → ℕ → Text
id_before ms n = if n == 0 then stream_id (ms - 1) 999 else stream_id ms (n - 1)

-- One microsecond before the time of an id whose second number is below 1000 is the time of the id
-- just before it.
pub ts_to_id-st_minus_1us :
    (K : Clock) (ms n : ℕ)
    → n < 1000
    → 0 < ms + n
    → ts_to_id K (st_minus_1us (K.epoch + ms * 1000000 + min n 999 * 1000)) ≡ some (id_before ms n)
unfolding ts_to_id st_minus_1us
ts_to_id-st_minus_1us K ms n small pos =
    let ts = K.epoch + ms * 1000000 + min n 999 * 1000 in
    let back : leb 1000 ts ≡ true = ground arith in
    let from : leb K.epoch (ts - 1000) ≡ true = ground arith in
    let us : (ts - 1000 - K.epoch) / 1000 ≡ ms * 1000 + n - 1 = omega arith in
    rw (back, from, us)
      (elim (Bool-cases (n == 0)) [
        | inl e ↦
            let z : n ≡ 0 = ground arith in
            let q : (ms * 1000 + n - 1) / 1000 ≡ ms - 1 = omega arith in
            let r : (ms * 1000 + n - 1) % 1000 ≡ 999 = omega arith in
            rw e (ap some (ap₂ stream_id q r))
        | inr e ↦
            let z : 0 < n = ground arith in
            let q : (ms * 1000 + n - 1) / 1000 ≡ ms = omega arith in
            let r : (ms * 1000 + n - 1) % 1000 ≡ n - 1 = omega arith in
            rw e (ap some (ap₂ stream_id q r))
      ])
