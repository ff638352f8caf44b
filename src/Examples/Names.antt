-- ===== src/Examples/Names.antt =====
-- Device names for drmem-api/src/types/device/name.rs.
use drmem.Base.{ℕ, ◌≡◌, refl, Bool, ◌||◌, ◌&&◌, some, [], ◌∷◌, ◌==◌, leb}
use drmem.Base.{length, if◌then◌else◌}
use drmem.Api.Value.{Text}
use drmem.Api.Name.{Name, colon, dash, created, failed, zero_length, split}
use drmem.Api.Name.{invalid_character, create_segment, create_name, show_name, all_valid}
use drmem.Api.Name.{is_valid_char, collect, of_segments}
use drmem.Api.Name.Laws.{create_name-show}
use drmem.Api.Name.Segments.{create_segment-ascii, segment_ok}

-- The letters of ASCII in lower case, and every character beyond ASCII.
abbrev is_letter : ℕ → Bool
is_letter c = (leb b'a' c && leb c b'z') || leb 128 c

-- `a:b`
abbrev text_ab : Text
text_ab = b'a' ∷ colon ∷ b'b' ∷ []

abbrev name_ab : Name
name_ab = record { path = (b'a' ∷ []) ∷ []; base = b'b' ∷ [] }

created_ab : create_name is_letter text_ab ≡ created name_ab
unfolding create_name split collect of_segments create_segment all_valid is_valid_char
created_ab = refl

segment_a : create_segment is_letter (b'a' ∷ []) ≡ created (b'a' ∷ [])
unfolding create_segment all_valid is_valid_char
segment_a = refl

segment_b : create_segment is_letter (b'b' ∷ []) ≡ created (b'b' ∷ [])
unfolding create_segment all_valid is_valid_char
segment_b = refl

-- A Greek letter of two bytes.
segment_greek : create_segment is_letter (955 ∷ []) ≡ created (955 ∷ [])
unfolding create_segment all_valid is_valid_char
segment_greek = refl

create_name-show_example : show_name name_ab ≡ some text_ab
create_name-show_example = create_name-show is_letter text_ab name_ab created_ab

create_segment-ascii_example : create_segment is_letter (b'a' ∷ dash ∷ []) ≡ (
    if segment_ok is_letter (b'a' ∷ dash ∷ [])
    then created (b'a' ∷ dash ∷ [])
    else if length (b'a' ∷ dash ∷ []) == 0
    then failed zero_length
    else failed invalid_character)
create_segment-ascii_example = create_segment-ascii is_letter (b'a' ∷ dash ∷ []) refl
