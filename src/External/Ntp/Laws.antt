-- ===== src/External/Ntp/Laws.antt =====
-- A reply in several packets is put together, drivers/drmem-drv-ntp/src/driver.rs.
use drmem.Base.{
  ℕ, ◌+◌, ◌*◌, ◌/◌, ◌%◌, ◌^◌, ◌≤◌, ◌≡◌, refl, sym, ap, ◌∙◌, Bool, true, false, List, [], ◌∷◌, ◌++◌,
  map, append_assoc, length, take, drop, replicate, ltb, ◌==◌, length-append, length-take,
  length-drop, length-replicate, take_longer, take-append, arith, if◌then◌else◌,
}
use mathlib.Core.Path.{subst}
use drmem.External.Ntp.Info.{Parsers}
use drmem.External.Ntp.Reply.{
  Recv, datagram, Assembly, more, last, on_packet, padding, payload_size, buf_size, fresh, returned,
  receive, get_host_info, request, decoded,
}
use drmem.Base.Utf8.{from_utf8}

-- A packet of a reply: twelve bytes of header, with the offset and the length of the fragment and
-- a flag for more to come, and the fragment up to a multiple of four bytes.
abbrev pub header : ℕ → ℕ → ℕ → ℕ → Bool → List ℕ
header seq id offset n is_more =
    0x26
    ∷ (if is_more then 0xa2 else 0x82)
    ∷ seq / 256
    ∷ seq % 256
    ∷ 0
    ∷ 0
    ∷ id / 256
    ∷ id % 256
    ∷ offset / 256
    ∷ offset % 256
    ∷ n / 256
    ∷ n % 256
    ∷ []

abbrev pub packet : ℕ → ℕ → ℕ → List ℕ → Bool → List ℕ
packet seq id offset frag is_more =
    header seq id offset (length frag) is_more ++ (frag ++ replicate (padding (length frag)) 0)

abbrev pub packets : ℕ → ℕ → ℕ → List ℕ → List (List ℕ) → List (List ℕ)
packets seq id offset f [] = packet seq id offset f false ∷ []
packets seq id offset f (g ∷ fs) =
    packet seq id offset f true ∷ packets seq id (offset + length f) g fs

abbrev pub joined : List ℕ → List (List ℕ) → List ℕ
joined f [] = f
joined f (g ∷ fs) = f ++ joined g fs

abbrev pub AllShort : List (List ℕ) → Type 0
AllShort [] = Unit {0}
AllShort (f ∷ fs) = (length f ≤ 488) × AllShort fs

length-packet :
    (seq id offset : ℕ) (frag : List ℕ) (m : Bool)
    → length (packet seq id offset frag m) ≡ 12 + (length frag + padding (length frag))
length-packet seq id offset frag m = omega (
  arith,
  length-append frag (replicate (padding (length frag)) 0),
  length-replicate {A = ℕ} (padding (length frag)) 0,
)

packet_fits :
    (seq id offset : ℕ) (frag : List ℕ) (m : Bool)
    → length frag ≤ 488
    → take buf_size (packet seq id offset frag m) ≡ packet seq id offset frag m
packet_fits seq id offset frag m h =
    take_longer buf_size (packet seq id offset frag m)
      (omega (arith, length-packet seq id offset frag m, h))

-- The assembly after a fragment.
abbrev grown : Assembly → ℕ → List ℕ → Assembly
grown s offset frag = record {
  next_offset = s.next_offset + length frag;
  payload = take offset s.payload ++ (frag ++ drop (offset + length frag) s.payload);
}

on_packet-packet :
    (s : Assembly) (seq id : ℕ) (frag : List ℕ) (m : Bool)
    → s.next_offset + length frag ≤ payload_size
    → on_packet s (packet seq id s.next_offset frag m)
      ≡ (if m then more (grown s s.next_offset frag) else last (grown s s.next_offset frag))
unfolding on_packet
on_packet-packet s seq id frag true fits =
    let n = length frag in
    let pkt = packet seq id s.next_offset frag true in
    let o : s.next_offset / 256 * 256 + s.next_offset % 256 ≡ s.next_offset = omega arith in
    let t : n / 256 * 256 + n % 256 ≡ n = omega arith in
    let sum = length-packet seq id s.next_offset frag true in
    let long : ltb (length pkt) 12 ≡ false = ground (arith, sum) in
    let here : (s.next_offset == s.next_offset) ≡ true = ground arith in
    let whole : (n + 12 + padding n == length pkt) ≡ true = ground (arith, sum) in
    let room : ltb payload_size (s.next_offset + n) ≡ false = ground arith in
    rw (o, t, long, here, whole, room, take-append frag (replicate (padding n) 0), on_packet) refl
on_packet-packet s seq id frag false fits =
    let n = length frag in
    let pkt = packet seq id s.next_offset frag false in
    let o : s.next_offset / 256 * 256 + s.next_offset % 256 ≡ s.next_offset = omega arith in
    let t : n / 256 * 256 + n % 256 ≡ n = omega arith in
    let sum = length-packet seq id s.next_offset frag false in
    let long : ltb (length pkt) 12 ≡ false = ground (arith, sum) in
    let here : (s.next_offset == s.next_offset) ≡ true = ground arith in
    let whole : (n + 12 + padding n == length pkt) ≡ true = ground (arith, sum) in
    let room : ltb payload_size (s.next_offset + n) ≡ false = ground arith in
    rw (o, t, long, here, whole, room, take-append frag (replicate (padding n) 0), on_packet) refl

take-grown :
    (s : Assembly) (frag : List ℕ)
    → length s.payload ≡ payload_size
    → s.next_offset + length frag ≤ payload_size
    → take (s.next_offset + length frag) (grown s s.next_offset frag).payload
      ≡ take s.next_offset s.payload ++ frag
take-grown s frag size fits =
    let a = take s.next_offset s.payload in
    let c = drop (s.next_offset + length frag) s.payload in
    let n : length (a ++ frag) ≡ s.next_offset + length frag =
      omega (arith, length-append a frag, length-take s.next_offset s.payload, size, fits) in
    subst (λ k. take k (a ++ (frag ++ c)) ≡ a ++ frag) n
      (ap (take (length (a ++ frag))) (sym (append_assoc a frag c)) ∙ take-append (a ++ frag) c)

length-grown :
    (s : Assembly) (frag : List ℕ)
    → length s.payload ≡ payload_size
    → s.next_offset + length frag ≤ payload_size
    → length (grown s s.next_offset frag).payload ≡ payload_size
length-grown s frag size fits =
    let a = take s.next_offset s.payload in
    let c = drop (s.next_offset + length frag) s.payload in
    omega (
      arith,
      length-append a (frag ++ c),
      length-append frag c,
      length-take s.next_offset s.payload,
      length-drop (s.next_offset + length frag) s.payload,
      size,
      fits,
    )

module _ (P : Parsers) where
  receive_last :
      (s s' : Assembly) (pkt : List ℕ) (evs : List Recv)
      → take buf_size pkt ≡ pkt
      → on_packet s pkt ≡ last s'
      → receive P s (datagram pkt ∷ evs)
        ≡ returned (decoded P (from_utf8 (take s'.next_offset s'.payload)))
  unfolding receive
  receive_last s s' pkt evs whole h = rw (whole, h, receive) refl

  receive_more :
      (s s' : Assembly) (pkt : List ℕ) (evs : List Recv)
      → take buf_size pkt ≡ pkt
      → on_packet s pkt ≡ more s'
      → receive P s (datagram pkt ∷ evs) ≡ receive P s' evs
  unfolding receive
  receive_more s s' pkt evs whole h = rw (whole, h, receive) refl

  receive-packets :
      (seq id : ℕ) (f : List ℕ) (fs : List (List ℕ)) (s : Assembly) (evs : List Recv)
      → AllShort (f ∷ fs)
      → length s.payload ≡ payload_size
      → s.next_offset + length (joined f fs) ≤ payload_size
      → receive P s (map datagram (packets seq id s.next_offset f fs) ++ evs)
        ≡ returned (decoded P (from_utf8 (take s.next_offset s.payload ++ joined f fs)))
  receive-packets seq id f [] s evs short size fits =
      receive_last s (grown s s.next_offset f) (packet seq id s.next_offset f false) evs
        (packet_fits seq id s.next_offset f false short.0) (on_packet-packet s seq id f false fits)
      ∙ ap (λ text. returned (decoded P (from_utf8 text))) (take-grown s f size fits)
  receive-packets seq id f (g ∷ fs) s evs short size fits =
      let rest = joined g fs in
      let sum = length-append f rest in
      let room : s.next_offset + length f ≤ payload_size = omega (arith, sum, fits) in
      let s' = grown s s.next_offset f in
      receive_more s s' (packet seq id s.next_offset f true)
        (map datagram (packets seq id (s.next_offset + length f) g fs) ++ evs)
        (packet_fits seq id s.next_offset f true short.0) (on_packet-packet s seq id f true room)
      ∙ receive-packets seq id g fs s' evs short.1 (length-grown s f size room)
          (omega (arith, sum, fits))
      ∙ ap (λ text. returned (decoded P (from_utf8 text)))
          (ap (λ l. l ++ rest) (take-grown s f size room)
            ∙ append_assoc (take s.next_offset s.payload) f rest)

  -- A reply of at most 2048 bytes that arrives in order, in packets of at most 488 bytes, is put
  -- together and decoded as the text that was sent.
  pub get_host_info-packets :
      (seq id : ℕ) (f : List ℕ) (fs : List (List ℕ)) (evs : List Recv)
      → AllShort (f ∷ fs)
      → length (joined f fs) ≤ payload_size
      → get_host_info P seq id true (map datagram (packets seq id 0 f fs) ++ evs)
        ≡ (request 2 seq id, (seq + 1) % 2 ^ 16, returned (decoded P (from_utf8 (joined f fs))))
  unfolding get_host_info fresh
  get_host_info-packets seq id f fs evs short fits =
      ap (λ h. (request 2 seq id, (seq + 1) % 2 ^ 16, h))
        (receive-packets seq id f fs fresh evs short (length-replicate {A = ℕ} payload_size 0)
          (omega (arith, fits)))
