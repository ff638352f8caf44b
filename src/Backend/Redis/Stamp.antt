-- ===== src/Backend/Redis/Stamp.antt =====
-- Times and the ids of redis streams, drmemd/src/backends/redis.rs.
pub mod Decimal
pub mod Laws
use drmem.Base.{
  ℕ, ◌+◌, ◌-◌, ◌*◌, ◌/◌, ◌%◌, Bool, true, false, List, [], ◌∷◌, ◌++◌, Option, none, some, leb, ◌==◌,
  min, if◌then◌else◌,
}
use drmem.Api.Value.{Text}
use drmem.Base.Split.{split}
use drmem.Backend.Redis.Codec.{Result, ok, err, inv_argument}
use drmem.Backend.Redis.Stamp.Decimal.{print, parse_u64}

-- A time is the number of nanoseconds since the first that `SystemTime` stands for: `epoch` is
-- `UNIX_EPOCH`, and `last` the last time.
pub record Clock : Type 0 where
  pub epoch : ℕ
  pub last : ℕ

abbrev pub dash : ℕ
dash = b'-'

-- `checked_sub` gives no time before the first.
unfoldable pub st_minus_1us : ℕ → ℕ
st_minus_1us st = if leb 1000 st then st - 1000 else st

-- `checked_add`
abbrev checked_add : ℕ → ℕ → ℕ → Option ℕ
checked_add last ts ns = if leb (ts + ns) last then some (ts + ns) else none

module _ (K : Clock) where
  unfoldable pub msus_to_st : ℕ → ℕ → Result ℕ
  msus_to_st ms us = elim (checked_add K.last K.epoch (ms * 1000000)) [
    | none ↦ err inv_argument
    | some ts ↦ elim (checked_add K.last ts (min us 999 * 1000)) [
      | none ↦ err inv_argument
      | some ts ↦ ok ts
    ]
  ]

  abbrev of_parts : Option ℕ → Option ℕ → Result ℕ
  unfolding msus_to_st
  of_parts (some ms) (some us) = msus_to_st ms us
  of_parts _ _ = err inv_argument

  abbrev of_fields : List Text → Result ℕ
  unfolding of_parts parse_u64
  of_fields (a ∷ b ∷ []) = of_parts (parse_u64 a) (parse_u64 b)
  of_fields _ = err inv_argument

  unfoldable pub id_to_ts : Text → Result ℕ
  unfolding split of_fields
  id_to_ts id = of_fields (split dash id)

  -- `none` is the panic of the `unwrap` for a time before the epoch.
  unfoldable pub ts_to_id : ℕ → Option Text
  unfolding print
  ts_to_id ts =
      if leb K.epoch ts
      then (let us = (ts - K.epoch) / 1000 in some (print (us / 1000) ++ dash ∷ print (us % 1000)))
      else none
