-- ===== src/Api/Name/Equality.antt =====
-- The equality of names that drmem-api/src/types/device/name.rs derives.
use drmem.Base.{◌≡◌, ◌≢◌, refl, ap₂, Bool, true, false, ◌&&◌, List, [], ◌∷◌, ◌==◌, ==_iff, arith}
use drmem.Base.{not-true→false}
use mathlib.Core.Path.{subst}
use drmem.Api.Value.{Text, eqb_text}
use drmem.Api.Name.{Name, Segment}

abbrev pub eqb_segments : List Segment → List Segment → Bool
eqb_segments [] [] = true
eqb_segments (s ∷ p) (t ∷ q) = eqb_text s t && eqb_segments p q
eqb_segments _ _ = false

unfoldable pub eqb_name : Name → Name → Bool
eqb_name m n = eqb_segments m.path n.path && eqb_text m.base n.base

both_true : (a b : Bool) → a && b ≡ true → (a ≡ true) × (b ≡ true)
both_true a b h = ground arith

pub eqb_text_refl : (s : Text) → eqb_text s s ≡ true
eqb_text_refl [] = refl
eqb_text_refl (a ∷ s) = ground (arith, eqb_text_refl s)

pub eqb_text_sound : (s t : Text) → eqb_text s t ≡ true → s ≡ t
eqb_text_sound [] [] h = refl
eqb_text_sound [] (b ∷ t) h = cc
eqb_text_sound (a ∷ s) [] h = cc
eqb_text_sound (a ∷ s) (b ∷ t) h =
    let (e, k) = both_true (a == b) (eqb_text s t) h in
    ap₂ (λ c u. c ∷ u) ((==_iff a b).0 e) (eqb_text_sound s t k)

eqb_segments_refl : (p : List Segment) → eqb_segments p p ≡ true
eqb_segments_refl [] = refl
eqb_segments_refl (s ∷ p) = rw (eqb_text_refl s) (eqb_segments_refl p)

eqb_segments_sound : (p q : List Segment) → eqb_segments p q ≡ true → p ≡ q
eqb_segments_sound [] [] h = refl
eqb_segments_sound [] (t ∷ q) h = cc
eqb_segments_sound (s ∷ p) [] h = cc
eqb_segments_sound (s ∷ p) (t ∷ q) h =
    let (e, k) = both_true (eqb_text s t) (eqb_segments p q) h in
    ap₂ (λ c u. c ∷ u) (eqb_text_sound s t e) (eqb_segments_sound p q k)

pub eqb_name_refl : (n : Name) → eqb_name n n ≡ true
unfolding eqb_name
eqb_name_refl n = rw (eqb_segments_refl n.path) (eqb_text_refl n.base)

pub eqb_name_sound : (m n : Name) → eqb_name m n ≡ true → m ≡ n
unfolding eqb_name
eqb_name_sound m n h =
    let (e, k) = both_true (eqb_segments m.path n.path) (eqb_text m.base n.base) h in
    ap₂ (λ p b. record { path = p; base = b }) (eqb_segments_sound m.path n.path e)
      (eqb_text_sound m.base n.base k)

pub eqb_name_ne : (m n : Name) → m ≢ n → eqb_name m n ≡ false
eqb_name_ne m n h = not-true→false (eqb_name m n) (λ e. h (eqb_name_sound m n e))

pub eqb_name_distinct : (m n : Name) → eqb_name m n ≡ false → m ≢ n
eqb_name_distinct m n h e =
    let same : eqb_name m n ≡ true = subst (λ k. eqb_name m k ≡ true) e (eqb_name_refl m) in cc
