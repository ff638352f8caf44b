-- ===== src/External/Tplink.antt =====
-- The protocol of TP-Link devices: the frames of drivers/drmem-drv-tplink/src/driver/tplink/cmd.rs
-- and driver.rs beside it, with the cipher of crypt.rs.
pub mod Laws
pub mod Rpc
pub mod Run
pub mod Steps
pub mod Errors
pub mod Sessions
use drmem.Base.{
  ℕ, zero, suc, ◌+◌, ◌-◌, ◌*◌, ◌/◌, ◌%◌, ◌^◌, ◌≤◌, ◌<◌, ◌≡◌, refl, sym, ap, ap₂, ◌∙◌, Bool, true,
  false,
}
use drmem.Base.{
  Option, none, some, List, [], ◌∷◌, ◌++◌, length, take, drop, leb, ltb, if◌then◌else◌, arith,
}
use drmem.Base.{Bool-cases, inl, inr}

-- The exclusive or of numbers of `n` binary digits.
abbrev pub xor : ℕ → ℕ → ℕ → ℕ
xor zero a b = 0
xor (suc n) a b = (a + b) % 2 + 2 * xor n (a / 2) (b / 2)

abbrev pub byte_xor : ℕ → ℕ → ℕ
byte_xor a b = xor 8 a b

unfoldable pub decode_from : ℕ → List ℕ → List ℕ
decode_from key [] = []
decode_from key (b ∷ buf) = byte_xor b key ∷ decode_from b buf

unfoldable pub decode : List ℕ → List ℕ
unfolding decode_from
decode buf = decode_from 171 buf

unfoldable pub encode_from : ℕ → List ℕ → List ℕ
encode_from key [] = []
encode_from key (b ∷ buf) = let key' = byte_xor key b in key' ∷ encode_from key' buf

unfoldable pub encode : List ℕ → List ℕ
unfolding encode_from
encode buf = encode_from 171 buf

-- `Cmd::encode`, for the text that serde_json writes. A cast to `u8` keeps the last eight bits.
unfoldable pub frame : List ℕ → List ℕ
unfolding encode
frame json =
    let sz = length json in
    sz / 2 ^ 24 % 2 ^ 8 ∷ sz / 2 ^ 16 % 2 ^ 8 ∷ sz / 2 ^ 8 % 2 ^ 8 ∷ sz % 2 ^ 8 ∷ encode json

pub data Received : Type 0 where
  missing_peer : Received
  too_long : ℕ → Received
  reply : List ℕ → Received

abbrev pub buf_total : ℕ
buf_total = 4096

abbrev pub read_exact : ℕ → List ℕ → Received
read_exact sz s = if ltb (length s) sz then missing_peer else reply (decode (take sz s))

-- `read_reply` up to the reading of the text by serde_json, where the peer sends these bytes and
-- closes. `read_u32` reads four bytes, the highest first.
unfoldable pub read_reply : List ℕ → Received
unfolding decode
read_reply (a ∷ b ∷ c ∷ d ∷ s) =
    let sz = ((a * 256 + b) * 256 + c) * 256 + d in
    if leb sz buf_total then read_exact sz s else too_long sz
read_reply _ = missing_peer
