-- ===== src/External/Ntp/Reply.antt =====
-- The requests to an NTP server and the packets of its replies, `Instance` of
-- drivers/drmem-drv-ntp/src/driver.rs.
use drmem.Base.{
  ℕ, suc, ◌+◌, ◌-◌, ◌*◌, ◌/◌, ◌%◌, ◌^◌, Bool, List, [], ◌∷◌, ◌++◌, Option, none, some, not, length,
  take, drop, get_or, replicate, ltb, ◌==◌, if◌then◌else◌,
}
use drmem.Base.Utf8.{from_utf8}
use drmem.External.Ntp.Info.{Parsers, Info, decode_info}

-- How the wait for a packet ends: with the datagram, of which the buffer takes 500 bytes, with an
-- error of the socket, or after a second.
pub data Recv : Type 0 where
  datagram : List ℕ → Recv
  recv_error timed_out : Recv

abbrev pub buf_size : ℕ
buf_size = 500

abbrev pub payload_size : ℕ
payload_size = 2048

-- The two bytes of a buffer from a place on, as a number.
abbrev pub read_u16 : List ℕ → ℕ → ℕ
read_u16 buf i = get_or buf i 0 * 256 + get_or buf (suc i) 0

abbrev pub padding : ℕ → ℕ
padding total = (4 - total % 4) % 4

abbrev pub request : ℕ → ℕ → ℕ → List ℕ
request kind seq id =
    0x26 ∷ kind ∷ seq / 256 ∷ seq % 256 ∷ 0 ∷ 0 ∷ id / 256 ∷ id % 256 ∷ 0 ∷ 0 ∷ 0 ∷ 0 ∷ []

-- `chunks_exact(4)`: the first association whose status is that of the system peer.
unfoldable pub find_synced : List ℕ → Option ℕ
find_synced (a ∷ b ∷ c ∷ d ∷ rest) =
    let later = find_synced rest in if c % 8 == 6 then some (a * 256 + b) else later
find_synced _ = none

abbrev pub synced_in : List ℕ → Option ℕ
unfolding find_synced
synced_in buf =
    let len = length buf in
    let total = read_u16 buf 10 in
    if ltb len 12
    then none
    else if total + 12 + padding total == len
    then find_synced (drop 12 buf)
    else none

abbrev synced_of : Recv → Option ℕ
unfolding synced_in
synced_of (datagram d) = synced_in (take buf_size d)
synced_of _ = none

-- The request that is sent, the next `seq`, and the association. `seq` wraps around as in a
-- release build.
unfoldable pub get_synced_host : ℕ → Bool → Recv → List ℕ × ℕ × Option ℕ
unfolding synced_of
get_synced_host seq sent reply =
    (request 1 seq 0, (seq + 1) % 2 ^ 16, if sent then synced_of reply else none)

-- The loop of `get_host_info`: the next offset and the buffer.
pub record Assembly : Type 0 where
  pub next_offset : ℕ
  pub payload : List ℕ

pub data Step : Type 0 where
  gave_up : Step
  more last : Assembly → Step

-- `payload[offset..offset + total].clone_from_slice(&buf[12..12 + total])`
abbrev pub copied : List ℕ → ℕ → ℕ → List ℕ → List ℕ
copied payload offset total buf =
    take offset payload ++ (take total (drop 12 buf) ++ drop (offset + total) payload)

unfoldable pub on_packet : Assembly → List ℕ → Step
on_packet s buf =
    let len = length buf in
    let offset = read_u16 buf 8 in
    let total = read_u16 buf 10 in
    let s' : Assembly = record {
      next_offset = s.next_offset + total;
      payload = copied s.payload offset total buf;
    } in
    if ltb len 12
    then gave_up
    else if not (offset == s.next_offset)
    then gave_up
    else if not (total + 12 + padding total == len)
    then gave_up
    else if ltb payload_size (offset + total)
    then gave_up
    else if get_or buf 1 0 / 32 % 2 == 0
    then last s'
    else more s'

unfoldable pub fresh : Assembly
fresh = record { next_offset = 0; payload = replicate payload_size 0 }

module _ (P : Parsers) where
  -- What a call gives: nothing yet, `None`, or what the text says.
  pub data Host : Type 0 where
    waiting : Host
    returned : Option (Info P) → Host

  abbrev pub decoded : Option (List ℕ) → Option (Info P)
  unfolding decode_info
  decoded none = none
  decoded (some text) = decode_info P text

  -- A time-out is logged, and the loop goes on.
  unfoldable pub receive : Assembly → List Recv → Host
  unfolding on_packet decoded from_utf8
  receive s [] = waiting
  receive s (timed_out ∷ evs) = receive s evs
  receive s (recv_error ∷ evs) = returned none
  receive s (datagram d ∷ evs) = elim (on_packet s (take buf_size d)) [
    | gave_up ↦ returned none
    | last s' ↦ returned (decoded (from_utf8 (take s'.next_offset s'.payload)))
    | more s' ↦ receive s' evs
  ]

  unfoldable pub get_host_info : ℕ → ℕ → Bool → List Recv → List ℕ × ℕ × Host
  unfolding receive fresh
  get_host_info seq id sent evs =
      (request 2 seq id, (seq + 1) % 2 ^ 16, if sent then receive fresh evs else returned none)
