-- ===== src/Api/Value.antt =====
-- The values of devices, drmem-api/src/types/device/value.rs.
pub mod Laws
use drmem.Base.{ℕ, Bool, true, false, ◌&&◌, List, [], ◌∷◌, ◌==◌, Option, some, none, if◌then◌else◌}
use drmem.Base.Int.{ℤ, pos, negsuc, eqb_ℤ, leb_ℤ}

-- The code points of a string.
abbrev pub Text : Type 0
Text = List ℕ

-- The fields of `palette::LinSrgba<u8>`.
pub record Rgba : Type 0 where
  pub red : ℕ
  pub green : ℕ
  pub blue : ℕ
  pub alpha : ℕ

pub data ColorType : Type 0 where
  rgba : Rgba → ColorType
  ccta : ℕ → ℕ → ColorType

-- `F` stands for `f64`.
pub data Value (F : Type 0) : Type 0 where
  bool : Bool → Value F
  int : ℤ → Value F
  flt : F → Value F
  str : Text → Value F
  color : ColorType → Value F

abbrev pub eqb_bool : Bool → Bool → Bool
eqb_bool true true = true
eqb_bool false false = true
eqb_bool _ _ = false

abbrev pub eqb_text : Text → Text → Bool
eqb_text [] [] = true
eqb_text (a ∷ s) (b ∷ t) = a == b && eqb_text s t
eqb_text _ _ = false

abbrev pub eqb_rgba : Rgba → Rgba → Bool
eqb_rgba a b = a.red == b.red && (a.green == b.green && (a.blue == b.blue && a.alpha == b.alpha))

abbrev pub eqb_color : ColorType → ColorType → Bool
eqb_color (rgba a) (rgba b) = eqb_rgba a b
eqb_color (ccta k a) (ccta l b) = k == l && a == b
eqb_color _ _ = false

-- The derived `PartialEq`; `feq` is the `==` of `f64`.
unfoldable pub value_eq : {F : Type 0} → (F → F → Bool) → Value F → Value F → Bool
value_eq feq (bool a) (bool b) = eqb_bool a b
value_eq feq (int a) (int b) = eqb_ℤ a b
value_eq feq (flt a) (flt b) = feq a b
value_eq feq (str a) (str b) = eqb_text a b
value_eq feq (color a) (color b) = eqb_color a b
value_eq feq _ _ = false

unfoldable pub is_same_type : {F : Type 0} → Value F → Value F → Bool
is_same_type (bool a) (bool b) = true
is_same_type (int a) (int b) = true
is_same_type (flt a) (flt b) = true
is_same_type (str a) (str b) = true
is_same_type (color a) (color b) = true
is_same_type _ _ = false

-- `TryFrom<Value>` for each native type; `none` is `Err(Error::TypeError)`.
unfoldable pub try_bool : {F : Type 0} → Value F → Option Bool
try_bool (bool v) = some v
try_bool _ = none

unfoldable pub try_i32 : {F : Type 0} → Value F → Option ℤ
try_i32 (int v) = some v
try_i32 _ = none

-- `i16::try_from` and `u16::try_from` of an `i32`, then the match on `Value::Int`.
abbrev pub fits_i16 : ℤ → Bool
fits_i16 v = leb_ℤ (negsuc 32767) v && leb_ℤ v (pos 32767)

abbrev pub fits_u16 : ℤ → Bool
fits_u16 v = leb_ℤ (pos 0) v && leb_ℤ v (pos 65535)

unfoldable pub try_i16 : {F : Type 0} → Value F → Option ℤ
try_i16 (int v) = if fits_i16 v then some v else none
try_i16 _ = none

unfoldable pub try_u16 : {F : Type 0} → Value F → Option ℤ
try_u16 (int v) = if fits_u16 v then some v else none
try_u16 _ = none

unfoldable pub try_f64 : {F : Type 0} → Value F → Option F
try_f64 (flt v) = some v
try_f64 _ = none

unfoldable pub try_text : {F : Type 0} → Value F → Option Text
try_text (str v) = some v
try_text _ = none

unfoldable pub try_rgba : {F : Type 0} → Value F → Option Rgba
try_rgba (color (rgba c)) = some c
try_rgba _ = none
