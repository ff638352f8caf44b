-- ===== src/Api/Value/Laws.antt =====
-- Equality of values, drmem-api/src/types/device/value.rs.
use drmem.Base.{◌≡◌, refl, Bool, true, [], ◌∷◌, arith}
use drmem.Base.Int.{eqb_ℤ_sound}
use drmem.Api.Value.{Text, ColorType, Value, bool, int, flt, str, color}
use drmem.Api.Value.{eqb_bool, eqb_text, eqb_color, value_eq}

pub eqb_text_sound : (s t : Text) → eqb_text s t ≡ true → s ≡ t
eqb_text_sound [] [] h = refl
eqb_text_sound [] (b ∷ t) h = cc
eqb_text_sound (a ∷ s) [] h = cc
eqb_text_sound (a ∷ s) (b ∷ t) h = ground (arith, eqb_text_sound s t)

pub eqb_text_refl : (s : Text) → eqb_text s s ≡ true
eqb_text_refl [] = refl
eqb_text_refl (a ∷ s) = ground (arith, eqb_text_refl s)

pub eqb_color_sound : (a b : ColorType) → eqb_color a b ≡ true → a ≡ b
eqb_color_sound a b h = ground arith

pub eqb_bool_sound : (a b : Bool) → eqb_bool a b ≡ true → a ≡ b
eqb_bool_sound a b h = ground arith

module _ {F : Type 0} (feq : F → F → Bool) where
  -- Equality of values is transitive if it is on `f64`.
  pub value_eq_trans :
      ((a b c : F) → feq a b ≡ true → feq b c ≡ true → feq a c ≡ true)
      → (u v w : Value F) → value_eq feq u v ≡ true
      → value_eq feq v w ≡ true
      → value_eq feq u w ≡ true
  unfolding value_eq
  value_eq_trans trans (flt a) (flt b) (flt c) h k = trans a b c h k
  value_eq_trans trans (bool a) (bool b) w h k = rw (eqb_bool_sound a b h) k
  value_eq_trans trans (int a) (int b) w h k = rw (eqb_ℤ_sound a b h) k
  value_eq_trans trans (str a) (str b) w h k = rw (eqb_text_sound a b h) k
  value_eq_trans trans (color a) (color b) w h k = rw (eqb_color_sound a b h) k
  value_eq_trans trans _ _ _ h k = cc
