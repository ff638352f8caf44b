-- ===== src/Backend/Redis/Codec.antt =====
-- Values as the bytes that redis holds, drmemd/src/backends/redis.rs and redis/cmd.rs.
pub mod Laws
use drmem.Base.{
  ℕ, ◌+◌, ◌*◌, ◌/◌, ◌%◌, ◌^◌, Bool, true, false, List, [], ◌∷◌, ◌++◌, Option, none, some, length,
  take, leb, ◌==◌, if◌then◌else◌,
}
use drmem.Base.Int.{ℤ, word_of, signed_of}
use drmem.Api.Value.{Text, ColorType, rgba, ccta, Value, bool, int, flt, str, color}
use drmem.Base.Utf8.{as_bytes, from_utf8}

-- The errors of `drmem_api::Error` that the store returns.
pub data Error : Type 0 where
  type_error inv_argument not_found missing_peer : Error
  authentication_error operation_error backend_error : Error

pub data Result (A : Type 0) : Type 0 where
  ok : A → Result A
  err : Error → Result A

-- `redis::Value`, by the forms that the store tells apart; `other` is any other form, by number.
pub data RedisValue : Type 0 where
  nil empty_array : RedisValue
  bulk_string : List ℕ → RedisValue
  other : ℕ → RedisValue

-- `f64` with `to_be_bytes` and `from_be_bytes`.
pub record Doubles : Type 1 where
  pub F : Type 0
  pub to_be_bytes : F → List ℕ
  pub from_be_bytes : List ℕ → F

-- The bytes of a 32-bit word, the highest first.
abbrev be_bytes : ℕ → List ℕ
be_bytes w = w / 2 ^ 24 % 256 ∷ w / 2 ^ 16 % 256 ∷ w / 2 ^ 8 % 256 ∷ w % 256 ∷ []

abbrev be_word : ℕ → ℕ → ℕ → ℕ → ℕ
be_word a b c d = ((a * 256 + b) * 256 + c) * 256 + d

abbrev bool_byte : Bool → ℕ
bool_byte true = b'T'
bool_byte false = b'F'

abbrev color_bytes : ColorType → List ℕ
color_bytes (rgba v) = v.red ∷ v.green ∷ v.blue ∷ v.alpha ∷ []
color_bytes (ccta k a) = k / 100 % 2 ^ 8 ∷ a ∷ []

unfoldable pub decode_string : {F : Type 0} → List ℕ → Result (Value F)
decode_string (a ∷ b ∷ c ∷ d ∷ buf) =
    let len = be_word a b c d in
    if leb len (length buf)
    then elim (from_utf8 (take len buf)) [ none ↦ err type_error | some s ↦ ok (str s) ]
    else err type_error
decode_string _ = err type_error

unfoldable pub decode_integer : {F : Type 0} → List ℕ → Result (Value F)
decode_integer (a ∷ b ∷ c ∷ d ∷ buf) = ok (int (signed_of (be_word a b c d)))
decode_integer _ = err type_error

unfoldable pub decode_color : {F : Type 0} → List ℕ → Result (Value F)
decode_color (k ∷ a ∷ []) = ok (color (ccta (k * 100) a))
decode_color (r ∷ g ∷ b ∷ []) =
    ok (color (rgba (record { red = r; green = g; blue = b; alpha = 255 })))
decode_color (r ∷ g ∷ b ∷ a ∷ []) =
    ok (color (rgba (record { red = r; green = g; blue = b; alpha = a })))
decode_color _ = err type_error

abbrev decode_bool : {F : Type 0} → List ℕ → Result (Value F)
decode_bool [] = err type_error
decode_bool (b ∷ buf) =
    if b == b'F' then ok (bool false) else if b == b'T' then ok (bool true) else err type_error

module _ (D : Doubles) where
  unfoldable pub to_redis : Value D.F → List ℕ
  unfolding as_bytes
  to_redis (bool v) = b'B' ∷ bool_byte v ∷ []
  to_redis (int v) = b'I' ∷ be_bytes (word_of v)
  to_redis (flt v) = b'D' ∷ D.to_be_bytes v
  to_redis (str s) = let s = as_bytes s in b'S' ∷ (be_bytes (length s % 2 ^ 32) ++ s)
  to_redis (color c) = b'C' ∷ color_bytes c

  unfoldable pub decode_float : List ℕ → Result (Value D.F)
  decode_float buf =
      if leb 8 (length buf) then ok (flt (D.from_be_bytes (take 8 buf))) else err type_error

  unfoldable pub decode : List ℕ → Result (Value D.F)
  unfolding decode_integer decode_float decode_string decode_color
  decode [] = err type_error
  decode (t ∷ buf) =
      if t == b'B'
      then decode_bool buf
      else if t == b'I'
      then decode_integer buf
      else if t == b'D'
      then decode_float buf
      else if t == b'S'
      then decode_string buf
      else if t == b'C'
      then decode_color buf
      else err type_error

  unfoldable pub from_value : RedisValue → Result (Value D.F)
  unfolding decode
  from_value (bulk_string buf) = decode buf
  from_value _ = err type_error
