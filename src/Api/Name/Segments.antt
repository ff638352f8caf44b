-- ===== src/Api/Name/Segments.antt =====
-- The segments of device names, drmem-api/src/types/device/name.rs, against the grammar that its
-- comments give.
use drmem.Base.{
  ℕ, suc, ◌+◌, ◌<◌, ◌≡◌, refl, ap, ap₂, ◌∙◌, Bool, true, false, not, ◌&&◌, ◌||◌, [], ◌∷◌, ◌++◌,
}
use drmem.Base.{◌==◌, ltb, length, if◌then◌else◌, arith, Bool-cases, inl, inr}
use drmem.Api.Value.{Text}
use drmem.Api.Name.{dash, byte_len, created, failed, invalid_character}
use drmem.Api.Name.{zero_length, is_valid_char, all_valid, create_segment}

abbrev pub is_ascii : Text → Bool
is_ascii [] = true
is_ascii (c ∷ s) = ltb c 128 && is_ascii s

byte_len-ascii : (s : Text) → is_ascii s ≡ true → byte_len s ≡ length s
byte_len-ascii [] h = refl
byte_len-ascii (c ∷ s) h = ground (arith, byte_len-ascii s)

byte_len-dash : (s : Text) → byte_len (s ++ dash ∷ []) ≡ suc (byte_len s)
byte_len-dash [] = refl
byte_len-dash (c ∷ s) = omega (arith, byte_len-dash s)

if-true : {A : Type 0} {b : Bool} (x y : A) → b ≡ true → (if b then x else y) ≡ x
if-true x y h = rw h refl

module _ (is_alphanumeric : ℕ → Bool) where
  -- `SEGMENT = ALPHANUMERIC ( (ALPHANUMERIC | '-')* ALPHANUMERIC )?`, from the second character on
  -- and from the first.
  abbrev pub tail_ok : Text → Bool
  tail_ok [] = true
  tail_ok (c ∷ []) = is_alphanumeric c
  tail_ok (c ∷ d ∷ s) = (is_alphanumeric c || c == dash) && tail_ok (d ∷ s)

  abbrev pub segment_ok : Text → Bool
  segment_ok [] = false
  segment_ok (c ∷ s) = is_alphanumeric c && tail_ok s

  is_valid_char-last :
      (c idx : ℕ) → is_valid_char is_alphanumeric (suc idx) c (suc idx + 1) ≡ is_alphanumeric c
  unfolding is_valid_char
  is_valid_char-last c idx = ground arith

  is_valid_char-inside :
      (c idx n : ℕ)
      → is_valid_char is_alphanumeric (suc idx) c (suc idx + suc (suc n))
        ≡ (is_alphanumeric c || c == dash)
  unfolding is_valid_char
  is_valid_char-inside c idx n = ground arith

  all_valid-tail_ok :
      (s : Text) (idx : ℕ) → all_valid is_alphanumeric (suc idx) (suc idx + length s) s ≡ tail_ok s
  unfolding all_valid
  all_valid-tail_ok [] idx = refl
  all_valid-tail_ok (c ∷ []) idx = rw (is_valid_char-last c idx) (ground arith)
  all_valid-tail_ok (c ∷ d ∷ s) idx =
      ap₂ (λ a b. a && b) (is_valid_char-inside c idx (length s))
        (ap (λ len. all_valid is_alphanumeric (suc (suc idx)) len (d ∷ s)) (omega arith)
          ∙ all_valid-tail_ok (d ∷ s) (suc idx))

  -- A string of ASCII characters is accepted exactly if it has the form of the grammar in the
  -- comments; the empty string and the others are refused with their own messages.
  pub create_segment-ascii :
      (s : Text)
      → is_ascii s ≡ true
      → create_segment is_alphanumeric s ≡ (
          if segment_ok s
          then created s
          else if length s == 0
          then failed zero_length
          else failed invalid_character)
  unfolding create_segment is_valid_char all_valid
  create_segment-ascii [] h = refl
  create_segment-ascii (c ∷ s) h =
      let e : all_valid is_alphanumeric 1 (length (c ∷ s)) s ≡ tail_ok s =
        ap (λ len. all_valid is_alphanumeric 1 len s) (omega arith) ∙ all_valid-tail_ok s 0 in
      rw (byte_len-ascii (c ∷ s) h, e) (ground arith)

  -- Only the index of the last byte is refused a dash.
  all_valid-longer :
      (s : Text) (idx len : ℕ)
      → all_valid is_alphanumeric idx len s ≡ true
      → idx + length s < len
      → all_valid is_alphanumeric idx (suc len) (s ++ dash ∷ [])
        ≡ (is_alphanumeric dash || not (idx + length s == 0))
  unfolding all_valid is_valid_char
  all_valid-longer [] idx len h l = ground arith
  all_valid-longer (c ∷ s) idx len h l =
      ground (arith, all_valid-longer s (suc idx) len (ground arith) (omega arith))

  accepted-all_valid :
      (c : ℕ) (w : Text)
      → create_segment is_alphanumeric (c ∷ w) ≡ created (c ∷ w)
      → all_valid is_alphanumeric 0 (byte_len (c ∷ w)) (c ∷ w) ≡ true
  unfolding create_segment
  accepted-all_valid c w h =
      elim (Bool-cases (all_valid is_alphanumeric 0 (byte_len (c ∷ w)) (c ∷ w))) [
        | inl e ↦ e
        | inr e ↦ absurd (refused (rw e at h))
      ]
    where
      refused : failed invalid_character ≡ created (c ∷ w) → ⊥
      refused k = cc

  -- A segment that is accepted and takes more bytes than it has characters is also accepted with
  -- a dash at its end.
  create_segment-late_dash :
      (w : Text)
      → create_segment is_alphanumeric w ≡ created w
      → length w < byte_len w
      → create_segment is_alphanumeric (w ++ dash ∷ []) ≡ created (w ++ dash ∷ [])
  unfolding create_segment
  create_segment-late_dash [] h k = cc
  create_segment-late_dash (c ∷ w) h k =
      let e =
        all_valid-longer (c ∷ w) 0 (byte_len (c ∷ w)) (accepted-all_valid c w h) (omega arith) in
      if-true _ _ (
        ap (λ len. all_valid is_alphanumeric 0 len (c ∷ (w ++ dash ∷ []))) (byte_len-dash (c ∷ w))
        ∙ e
        ∙ ground arith)
