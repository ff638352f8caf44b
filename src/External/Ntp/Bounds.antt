-- ===== src/External/Ntp/Bounds.antt =====
-- The copies of fragments stay in their buffers, drivers/drmem-drv-ntp/src/driver.rs.
use drmem.Base.{
  ℕ, ◌+◌, ◌/◌, ◌%◌, ◌≤◌, ◌≡◌, ◌∙◌, List, length, take, drop, ◌++◌, get_or, ltb, ◌==◌, length-append,
  length-take, length-drop, arith, Bool-cases, inl, inr,
}
use drmem.External.Ntp.Reply.{
  Assembly, Step, gave_up, more, last, on_packet, copied, read_u16, padding, payload_size,
}

abbrev pub InBounds : Assembly → Type 0
InBounds s = (length s.payload ≡ payload_size) × (s.next_offset ≤ payload_size)

-- A fragment that is taken came in a whole header, and neither of its ranges is past the end of
-- its buffer.
abbrev pub Kept : List ℕ → Step → Type 0
Kept buf gave_up = Unit {0}
Kept buf (more s) =
    InBounds s
    × (12 + read_u16 buf 10 ≤ length buf)
    × (read_u16 buf 8 + read_u16 buf 10 ≤ payload_size)
Kept buf (last s) =
    InBounds s
    × (12 + read_u16 buf 10 ≤ length buf)
    × (read_u16 buf 8 + read_u16 buf 10 ≤ payload_size)

pub length-copied :
    (payload : List ℕ) (offset total : ℕ) (buf : List ℕ)
    → offset + total ≤ length payload
    → 12 + total ≤ length buf
    → length (copied payload offset total buf) ≡ length payload
length-copied payload offset total buf dst src =
    let a = take offset payload in
    let b = take total (drop 12 buf) in
    let c = drop (offset + total) payload in
    omega (
      arith,
      length-append a (b ++ c),
      length-append b c,
      length-take offset payload,
      length-take total (drop 12 buf),
      length-drop 12 buf,
      length-drop (offset + total) payload,
      dst,
      src,
    )

-- Where the payload has its size and the next offset is within it, a packet that is taken came
-- with as many bytes as its fragment needs, the fragment ends within the payload, and the payload
-- keeps its size and the next offset stays within it.
pub on_packet-Kept : (s : Assembly) (buf : List ℕ) → InBounds s → Kept buf (on_packet s buf)
unfolding on_packet
on_packet-Kept s buf h =
    let len = length buf in
    let offset = read_u16 buf 8 in
    let total = read_u16 buf 10 in
    elim (Bool-cases (ltb len 12)) [
      | inl e ↦ rw e tt
      | inr e1 ↦ rw e1 (elim (Bool-cases (offset == s.next_offset)) [
        | inr e ↦ rw e tt
        | inl e2 ↦ rw e2 (elim (Bool-cases (total + 12 + padding total == len)) [
          | inr e ↦ rw e tt
          | inl e3 ↦ rw e3 (elim (Bool-cases (ltb payload_size (offset + total))) [
            | inl e ↦ rw e tt
            | inr e4 ↦
                let src : 12 + total ≤ len = ground (arith, e3) in
                let dst : offset + total ≤ payload_size = ground (arith, e4) in
                let next : s.next_offset + total ≤ payload_size = ground (arith, e2, dst) in
                let kept : length (copied s.payload offset total buf) ≡ payload_size =
                  length-copied s.payload offset total buf (omega (arith, dst, h.0)) src ∙ h.0 in
                rw e4 (elim (Bool-cases (get_or buf 1 0 / 32 % 2 == 0)) [
                  | inl e ↦ rw e ((kept, next), src, dst)
                  | inr e ↦ rw e ((kept, next), src, dst)
                ])
          ])
        ])
      ])
    ]
