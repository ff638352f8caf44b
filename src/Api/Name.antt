-- ===== src/Api/Name.antt =====
-- Device names, drmem-api/src/types/device/name.rs.
pub mod Laws
pub mod Equality
pub mod Segments
use drmem.Base.{
  ℕ, zero, suc, ◌+◌, ◌-◌, Bool, true, false, not, ◌&&◌, ◌||◌, Option, none, some, List,
}
use drmem.Base.{[], ◌∷◌, ◌++◌, ◌==◌, ltb, if◌then◌else◌}
use drmem.Api.Value.{Text}

abbrev pub colon : ℕ
colon = b':'

abbrev pub dash : ℕ
dash = b'-'

-- `char::len_utf8` and `str::len`, the length in bytes.
abbrev pub len_utf8 : ℕ → ℕ
len_utf8 c = if ltb c 128 then 1 else if ltb c 2048 then 2 else if ltb c 65536 then 3 else 4

abbrev pub byte_len : Text → ℕ
byte_len [] = 0
byte_len (c ∷ s) = len_utf8 c + byte_len s

-- `s.split(':')`, which yields at least one piece.
abbrev pub push : ℕ → List Text → List Text
push c [] = (c ∷ []) ∷ []
push c (w ∷ ws) = (c ∷ w) ∷ ws

unfoldable pub split : Text → List Text
split [] = [] ∷ []
split (c ∷ s) = let rest = split s in if c == colon then [] ∷ rest else push c rest

-- The three messages of `Error::InvArgument`.
pub data NameError : Type 0 where
  invalid_character zero_length no_path : NameError

pub data Created (A : Type 0) : Type 0 where
  created : A → Created A
  failed : NameError → Created A

infixl 5 ◌>>=◌
abbrev pub ◌>>=◌ : {A B : Type 0} → Created A → (A → Created B) → Created B
created a >>= f = f a
failed e >>= f = failed e

abbrev pub Segment : Type 0
Segment = Text

abbrev pub DevicePath : Type 0
DevicePath = List Segment

pub record Name : Type 0 where
  pub path : DevicePath
  pub base : Segment

-- `segments[0..segments.len() - 1]` and `segments[segments.len() - 1]`.
abbrev pub but_last : Segment → List Segment → DevicePath
but_last a [] = []
but_last a (b ∷ rest) = a ∷ but_last b rest

abbrev pub last_of : Segment → List Segment → Segment
last_of a [] = a
last_of a (b ∷ rest) = last_of b rest

unfoldable pub of_segments : List Segment → Created Name
of_segments [] = failed no_path
of_segments (a ∷ []) = failed no_path
of_segments (a ∷ b ∷ rest) =
    created (record { path = but_last a (b ∷ rest); base = last_of b rest })

-- `char::is_alphanumeric` is that of the standard library.
module _ (is_alphanumeric : ℕ → Bool) where
  unfoldable pub is_valid_char : ℕ → ℕ → ℕ → Bool
  is_valid_char idx ch len =
      is_alphanumeric ch || (ch == dash && (not (idx == 0) && not (idx == len - 1)))

  -- `enumerate().all(..)`, from an index on.
  unfoldable pub all_valid : ℕ → ℕ → Text → Bool
  unfolding is_valid_char
  all_valid idx len [] = true
  all_valid idx len (ch ∷ s) = is_valid_char idx ch len && all_valid (suc idx) len s

  unfoldable pub create_segment : Text → Created Segment
  unfolding all_valid
  create_segment [] = failed zero_length
  create_segment (c ∷ s) =
      if all_valid 0 (byte_len (c ∷ s)) (c ∷ s) then created (c ∷ s) else failed invalid_character

  -- `collect` stops at the first error.
  unfoldable pub collect : List Text → Created (List Segment)
  unfolding create_segment
  collect [] = created []
  collect (w ∷ ws) = do s ← create_segment w; rest ← collect ws; created (s ∷ rest)

  unfoldable pub create_path : Text → Created DevicePath
  unfolding collect split
  create_path s = collect (split s)

  unfoldable pub create_name : Text → Created Name
  unfolding collect split of_segments
  create_name s = do segments ← collect (split s); of_segments segments

-- The subpath is moved out of: what is left of it is the second result.
unfoldable pub with_subpath : DevicePath → Option DevicePath → DevicePath × Option DevicePath
with_subpath path none = (path, none)
with_subpath path (some sub) = (path ++ sub, some [])

-- `Display`. A path of no segments, which `create_path` never gives, is a panic.
abbrev pub show_rest : List Segment → Text
show_rest [] = []
show_rest (s ∷ rest) = (colon ∷ s) ++ show_rest rest

unfoldable pub show_path : DevicePath → Option Text
show_path [] = none
show_path (s ∷ rest) = some (s ++ show_rest rest)

abbrev show_base : Option Text → Segment → Option Text
show_base none base = none
show_base (some path) base = some (path ++ (colon ∷ base))

unfoldable pub show_name : Name → Option Text
unfolding show_path
show_name n = show_base (show_path n.path) n.base
