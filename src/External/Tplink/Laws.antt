-- ===== src/External/Tplink/Laws.antt =====
-- What one side of the TP-Link protocol sends is what the other side reads,
-- drivers/drmem-drv-tplink/src/driver.
use drmem.Base.{ℕ, zero, suc, ◌+◌, ◌*◌, ◌/◌, ◌%◌, ◌^◌, ◌<◌, ◌≡◌, refl, sym, ap, ap₂, ◌∙◌, false}
use drmem.Base.{
  List, [], ◌∷◌, length, take_all, leb, ltb, if◌then◌else◌, Bool-cases, inl, inr, arith,
}
use mathlib.Core.Path.{subst}
use drmem.External.Tplink.{xor, byte_xor, decode_from, decode, encode_from, encode, frame, reply}
use drmem.External.Tplink.{read_exact, read_reply, buf_total, too_long}

-- Numbers of `n` binary digits.
abbrev Fits : ℕ → ℕ → Type 0
Fits zero a = a ≡ 0
Fits (suc n) a = Fits n (a / 2)

xor_twice : (n k b : ℕ) → Fits n b → xor n (xor n k b) k ≡ b
xor_twice zero k b f = sym f
xor_twice (suc n) k b f =
    let r = xor n (k / 2) (b / 2) in
    let ih : xor n r (k / 2) ≡ b / 2 = xor_twice n (k / 2) (b / 2) f in
    let half : ((k + b) % 2 + 2 * r) / 2 ≡ r = omega arith in
    let digit : ((k + b) % 2 + 2 * r + k) % 2 ≡ b % 2 = omega arith in
    ap (λ q. ((k + b) % 2 + 2 * r + k) % 2 + 2 * xor n q (k / 2)) half ∙ omega (arith, ih, digit)

abbrev pub AllBytes : List ℕ → Type 0
AllBytes [] = Unit {0}
AllBytes (b ∷ buf) = (b < 256) × AllBytes buf

decode_from-encode_from :
    (key : ℕ) (buf : List ℕ) → AllBytes buf → decode_from key (encode_from key buf) ≡ buf
unfolding decode_from encode_from
decode_from-encode_from key [] h = refl
decode_from-encode_from key (b ∷ buf) h =
    let byte : Fits 8 b = omega (arith, h.0) in
    ap₂ (λ c rest. c ∷ rest) (xor_twice 8 key b byte)
      (decode_from-encode_from (byte_xor key b) buf h.1)

length-encode_from : (key : ℕ) (buf : List ℕ) → length (encode_from key buf) ≡ length buf
unfolding encode_from
length-encode_from key [] = refl
length-encode_from key (b ∷ buf) = ap suc (length-encode_from (byte_xor key b) buf)

header :
    (sz : ℕ)
    → sz < 2 ^ 32
    → ((sz / 2 ^ 24 % 2 ^ 8 * 256 + sz / 2 ^ 16 % 2 ^ 8) * 256 + sz / 2 ^ 8 % 2 ^ 8) * 256
        + sz % 2 ^ 8
      ≡ sz
header sz h = omega (arith, h)

read_exact-encode :
    (json : List ℕ) → AllBytes json → read_exact (length json) (encode json) ≡ reply json
unfolding encode decode
read_exact-encode json h =
    let e : ltb (length (encode_from 171 json)) (length json) ≡ false =
      ground (arith, length-encode_from 171 json) in
    rw e (
      ap reply (
        ap (decode_from 171)
          (take_all (length json) (encode_from 171 json) (length-encode_from 171 json))
        ∙ decode_from-encode_from 171 json h))

-- What `Cmd::encode` makes of a text of fewer than 2 ^ 32 bytes is read back by `read_reply` as
-- that text, or refused with its length if it is longer than the buffer.
pub read_reply-frame :
    (json : List ℕ)
    → AllBytes json
    → length json < 2 ^ 32
    → read_reply (frame json)
      ≡ (if leb (length json) buf_total then reply json else too_long (length json))
unfolding read_reply frame
read_reply-frame json h lt =
    let n = length json in
    subst
      (λ sz.
        (if leb sz buf_total then read_exact sz (encode json) else too_long sz)
        ≡ (if leb n buf_total then reply json else too_long n))
      (sym (header n lt))
      (elim (Bool-cases (leb n buf_total)) [
        | inl e ↦ rw e (read_exact-encode json h)
        | inr e ↦ rw e refl
      ])
