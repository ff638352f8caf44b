-- ===== src/Backend/Redis/Codec/Laws.antt =====
-- What the bytes of a value give back, drmemd/src/backends/redis.rs.
use drmem.Base.{
  ℕ, ◌*◌, ◌/◌, ◌%◌, ◌^◌, ◌<◌, ◌≡◌, refl, ap, ◌∙◌, length, take_all, ◌++◌, true, false, leb, arith,
}
use drmem.Base.Int.{ℤ, IsI32, word_of, signed_of}
use drmem.Api.Value.{Text, rgba, ccta, Value, bool, int, flt, str, color}
use drmem.Base.Utf8.{as_bytes, AllChars, from_utf8-as_bytes}
use drmem.Backend.Redis.Codec.{Doubles, ok, bulk_string, to_redis, from_value}
use drmem.Backend.Redis.Codec.{
  decode, decode_float, decode_color, decode_string, decode_integer, be_bytes, be_word,
}

-- Integers of 32 bits, and strings whose bytes a 32-bit word counts.
abbrev pub Fits : {F : Type 0} → Value F → Type 0
Fits (int v) = IsI32 v
Fits (str s) = AllChars s × (length (as_bytes s) < 2 ^ 32)
Fits _ = Unit {0}

-- A colour temperature comes back as hundreds of kelvin, modulo 256 of them.
abbrev pub stored : {F : Type 0} → Value F → Value F
stored (color (ccta k a)) = color (ccta (k / 100 % 256 * 100) a)
stored v = v

be_word-be_bytes :
    (w : ℕ)
    → w < 2 ^ 32
    → be_word (w / 2 ^ 24 % 256) (w / 2 ^ 16 % 256) (w / 2 ^ 8 % 256) (w % 256) ≡ w
be_word-be_bytes w h = omega (arith, h)

signed_of-word_of : (v : ℤ) → IsI32 v → signed_of (word_of v) ≡ v
signed_of-word_of v h = ground arith

word_of_lt : (v : ℤ) → word_of v < 2 ^ 32
word_of_lt v = ground arith

decode_integer-be_bytes :
    {F : Type 0} (v : ℤ) → IsI32 v → decode_integer {F = F} (be_bytes (word_of v)) ≡ ok (int v)
unfolding decode_integer
decode_integer-be_bytes v h =
    ap (λ w. ok (int (signed_of w))) (be_word-be_bytes (word_of v) (word_of_lt v))
    ∙ ap (λ z. ok (int z)) (signed_of-word_of v h)

decode_string-be_bytes :
    {F : Type 0} (s : Text)
    → AllChars s
    → length (as_bytes s) < 2 ^ 32
    → decode_string {F = F} (be_bytes (length (as_bytes s) % 2 ^ 32) ++ as_bytes s) ≡ ok (str s)
unfolding decode_string
decode_string-be_bytes s h lt =
    let n = length (as_bytes s) in
    let small : n % 2 ^ 32 ≡ n = omega (arith, lt) in
    let all : leb n n ≡ true = ground arith in
    rw (small, be_word-be_bytes n lt, all, take_all n (as_bytes s) refl, from_utf8-as_bytes s h)
      refl

-- If `f64` is read back from its eight bytes, what the store keeps for a value is read back as
-- the value, for an `i32`, and for a string of characters with fewer than 2 ^ 32 bytes; a colour
-- temperature comes back as hundreds of kelvin modulo 256 of them.
pub from_value-to_redis :
    (D : Doubles)
    → ((x : D.F) → length (D.to_be_bytes x) ≡ 8)
    → ((x : D.F) → D.from_be_bytes (D.to_be_bytes x) ≡ x)
    → (v : Value D.F) → Fits v
    → from_value D (bulk_string (to_redis D v)) ≡ ok (stored v)
unfolding from_value to_redis decode decode_float decode_color
from_value-to_redis D eight back (bool true) h = refl
from_value-to_redis D eight back (bool false) h = refl
from_value-to_redis D eight back (int v) h = decode_integer-be_bytes v h
from_value-to_redis D eight back (flt v) h =
    let all : leb 8 (length (D.to_be_bytes v)) ≡ true = ground (arith, eight v) in
    rw (all, take_all 8 (D.to_be_bytes v) (eight v), back v) refl
from_value-to_redis D eight back (str s) h = decode_string-be_bytes s h.0 h.1
from_value-to_redis D eight back (color (rgba c)) h = refl
from_value-to_redis D eight back (color (ccta k a)) h = refl
