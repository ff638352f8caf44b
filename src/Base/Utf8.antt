-- ===== src/Base/Utf8.antt =====
-- UTF-8, which `str::as_bytes` and `from_utf8` stand for in drmemd/src/backends/redis.rs and in
-- drivers/drmem-drv-ntp/src/driver.rs.
use drmem.Base.{
  ℕ, zero, suc, ◌+◌, ◌-◌, ◌*◌, ◌/◌, ◌%◌, ◌≤◌, ◌<◌, ◌≡◌, refl, ap, ◌∙◌, Bool, true, ◌&&◌, ◌||◌, inl,
  inr,
}
use drmem.Base.{List, [], ◌∷◌, ◌++◌, Option, none, some, ltb, leb, if◌then◌else◌, Bool-cases, arith}
use drmem.Api.Value.{Text}

-- A `char`: no surrogate, and below 0x110000.
abbrev pub is_char : ℕ → Bool
is_char c = ltb c 0xd800 || (leb 0xe000 c && ltb c 0x110000)

abbrev pub AllChars : Text → Type 0
AllChars [] = Unit {0}
AllChars (c ∷ s) = (is_char c ≡ true) × AllChars s

abbrev encode_char : ℕ → List ℕ
encode_char c =
    if ltb c 0x80
    then c ∷ []
    else if ltb c 0x800
    then (0xc0 + c / 64) ∷ (0x80 + c % 64) ∷ []
    else if ltb c 0x10000
    then (0xe0 + c / 4096) ∷ (0x80 + c / 64 % 64) ∷ (0x80 + c % 64) ∷ []
    else (0xf0 + c / 262144) ∷ (0x80 + c / 4096 % 64) ∷ (0x80 + c / 64 % 64) ∷ (0x80 + c % 64) ∷ []

unfoldable pub as_bytes : Text → List ℕ
as_bytes [] = []
as_bytes (c ∷ s) = encode_char c ++ as_bytes s

-- What a first byte announces: a character, or how many bytes follow, its bits, and the least
-- character that needs that many.
pub data Lead : Type 0 where
  alone bad : Lead
  more : ℕ → ℕ → ℕ → Lead

abbrev lead : ℕ → Lead
lead b =
    if ltb b 0x80
    then alone
    else if ltb b 0xc0
    then bad
    else if ltb b 0xe0
    then more 1 (b - 0xc0) 0x80
    else if ltb b 0xf0
    then more 2 (b - 0xe0) 0x800
    else if ltb b 0xf8
    then more 3 (b - 0xf0) 0x10000
    else bad

abbrev follows : ℕ → Bool
follows b = leb 0x80 b && ltb b 0xc0

abbrev push : ℕ → Option Text → Option Text
push c none = none
push c (some s) = some (c ∷ s)

-- `n` more bytes belong to the character whose bits so far are `c`.
unfoldable scan : ℕ → ℕ → ℕ → List ℕ → Option Text
scan zero c least [] = some []
scan (suc n) c least [] = none
scan zero c least (b ∷ s) = elim (lead b) [
  | alone ↦ push b (scan 0 0 0 s)
  | bad ↦ none
  | more n bits floor ↦ scan n bits floor s
]
scan (suc zero) c least (b ∷ s) =
    let rest = scan 0 0 0 s in
    let char = c * 64 + (b - 0x80) in
    if follows b && (leb least char && is_char char) then push char rest else none
scan (suc (suc n)) c least (b ∷ s) =
    let rest = scan (suc n) (c * 64 + (b - 0x80)) least s in if follows b then rest else none

unfoldable pub from_utf8 : List ℕ → Option Text
unfolding scan
from_utf8 buf = scan 0 0 0 buf

lead_2 : (x : ℕ) → x < 32 → lead (0xc0 + x) ≡ more 1 x 0x80
lead_2 x h = ground arith

lead_3 : (x : ℕ) → x < 16 → lead (0xe0 + x) ≡ more 2 x 0x800
lead_3 x h = ground arith

lead_4 : (x : ℕ) → x < 8 → lead (0xf0 + x) ≡ more 3 x 0x10000
lead_4 x h = ground arith

scan_next :
    (n c least x : ℕ) (s : List ℕ)
    → x < 64
    → scan (suc (suc n)) c least ((0x80 + x) ∷ s) ≡ scan (suc n) (c * 64 + x) least s
unfolding scan
scan_next n c least x s h = ground arith

scan_last :
    (c least x : ℕ) (s : List ℕ)
    → x < 64
    → least ≤ c * 64 + x
    → is_char (c * 64 + x) ≡ true
    → scan 1 c least ((0x80 + x) ∷ s) ≡ push (c * 64 + x) (scan 0 0 0 s)
unfolding scan
scan_last c least x s h low char = ground arith

scan-lead :
    (b n bits floor : ℕ) (s : List ℕ)
    → lead b ≡ more n bits floor
    → scan 0 0 0 (b ∷ s) ≡ scan n bits floor s
unfolding scan
scan-lead b n bits floor s h = rw (h, scan) refl

one_byte : (c : ℕ) (s : List ℕ) → ltb c 0x80 ≡ true → scan 0 0 0 (c ∷ s) ≡ push c (scan 0 0 0 s)
unfolding scan
one_byte c s h = rw (h, scan) refl

two_bytes :
    (c : ℕ) (s : List ℕ)
    → 0x80 ≤ c
    → c < 0x800
    → is_char c ≡ true
    → scan 0 0 0 ((0xc0 + c / 64) ∷ (0x80 + c % 64) ∷ s) ≡ push c (scan 0 0 0 s)
unfolding scan
two_bytes c s lo hi h =
    let e : c / 64 * 64 + c % 64 ≡ c = omega arith in
    scan-lead (0xc0 + c / 64) _ _ _ ((0x80 + c % 64) ∷ s) (lead_2 (c / 64) (omega arith))
    ∙ scan_last (c / 64) 0x80 (c % 64) s (omega arith) (omega arith) (rw e h)
    ∙ ap (λ k. push k (scan 0 0 0 s)) e

three_bytes :
    (c : ℕ) (s : List ℕ)
    → 0x800 ≤ c
    → c < 0x10000
    → is_char c ≡ true
    → scan 0 0 0 ((0xe0 + c / 4096) ∷ (0x80 + c / 64 % 64) ∷ (0x80 + c % 64) ∷ s)
      ≡ push c (scan 0 0 0 s)
unfolding scan
three_bytes c s lo hi h =
    let bits = c / 4096 * 64 + c / 64 % 64 in
    let e : bits * 64 + c % 64 ≡ c = omega arith in
    scan-lead (0xe0 + c / 4096) _ _ _ ((0x80 + c / 64 % 64) ∷ (0x80 + c % 64) ∷ s)
      (lead_3 (c / 4096) (omega arith))
    ∙ scan_next 0 (c / 4096) 0x800 (c / 64 % 64) ((0x80 + c % 64) ∷ s) (omega arith)
    ∙ scan_last bits 0x800 (c % 64) s (omega arith) (omega arith) (rw e h)
    ∙ ap (λ k. push k (scan 0 0 0 s)) e

four_bytes :
    (c : ℕ) (s : List ℕ)
    → 0x10000 ≤ c
    → is_char c ≡ true
    → scan 0 0 0
        ((0xf0 + c / 262144) ∷ (0x80 + c / 4096 % 64) ∷ (0x80 + c / 64 % 64) ∷ (0x80 + c % 64) ∷ s)
      ≡ push c (scan 0 0 0 s)
unfolding scan
four_bytes c s lo h =
    let b1 = c / 262144 * 64 + c / 4096 % 64 in
    let b2 = b1 * 64 + c / 64 % 64 in
    let top : c < 0x110000 = ground arith in
    let e : b2 * 64 + c % 64 ≡ c = omega arith in
    let tail = (0x80 + c % 64) ∷ s in
    scan-lead (0xf0 + c / 262144) _ _ _ ((0x80 + c / 4096 % 64) ∷ (0x80 + c / 64 % 64) ∷ tail)
      (lead_4 (c / 262144) (omega arith))
    ∙ scan_next 1 (c / 262144) 0x10000 (c / 4096 % 64) ((0x80 + c / 64 % 64) ∷ tail) (omega arith)
    ∙ scan_next 0 b1 0x10000 (c / 64 % 64) tail (omega arith)
    ∙ scan_last b2 0x10000 (c % 64) s (omega arith) (omega arith) (rw e h)
    ∙ ap (λ k. push k (scan 0 0 0 s)) e

scan-encode_char :
    (c : ℕ) (s : List ℕ)
    → is_char c ≡ true
    → scan 0 0 0 (encode_char c ++ s) ≡ push c (scan 0 0 0 s)
scan-encode_char c s h = elim (Bool-cases (ltb c 0x80)) [
  | inl e ↦ rw e (one_byte c s e)
  | inr e ↦ rw e (elim (Bool-cases (ltb c 0x800)) [
    | inl e' ↦ rw e' (two_bytes c s (ground arith) (ground arith) h)
    | inr e' ↦ rw e' (elim (Bool-cases (ltb c 0x10000)) [
      | inl e'' ↦ rw e'' (three_bytes c s (ground arith) (ground arith) h)
      | inr e'' ↦ rw e'' (four_bytes c s (ground arith) h)
    ])
  ])
]

-- Text is read back from its UTF-8 bytes.
pub from_utf8-as_bytes : (s : Text) → AllChars s → from_utf8 (as_bytes s) ≡ some s
unfolding from_utf8 as_bytes scan
from_utf8-as_bytes [] h = refl
from_utf8-as_bytes (c ∷ s) h =
    scan-encode_char c (as_bytes s) h.0 ∙ ap (push c) (from_utf8-as_bytes s h.1)
