-- ===== src/Api/Name/Laws.antt =====
-- Printing and parsing of device names, drmem-api/src/types/device/name.rs.
use drmem.Base.{
  ℕ, suc, ◌&&◌, ◌≡◌, ◌≢◌, refl, sym, ap, ap₂, ◌∙◌, Bool, true, false, some, List, [], ◌∷◌,
}
use drmem.Base.{
  ◌++◌, append_assoc, append-nil, ◌==◌, ==_iff, if◌then◌else◌, Bool-cases, inl, inr, arith,
}
use drmem.Api.Value.{Text}
use drmem.Api.Name
use drmem.Api.Name.{
  colon, push, split, Created, created, failed, Segment, DevicePath, Name, but_last,
}
use drmem.Api.Name.{
  last_of, of_segments, invalid_character, create_segment, collect, create_name, show_rest,
}
use drmem.Api.Name.{show_path, show_name, all_valid, is_valid_char, dash, byte_len}

-- The pieces with colons between them.
abbrev join : List Text → Text
join [] = []
join (w ∷ ws) = w ++ show_rest ws

push-join : (c : ℕ) (ws : List Text) → ws ≢ [] → join (push c ws) ≡ c ∷ join ws
push-join c [] h = absurd (h refl)
push-join c (w ∷ ws) h = refl

push-not_nil : (c : ℕ) (ws : List Text) → push c ws ≢ []
push-not_nil c [] e = cc
push-not_nil c (w ∷ ws) e = cc

split-not_nil : (s : Text) → split s ≢ []
unfolding split
split-not_nil [] = λ e. cc
split-not_nil (c ∷ s) = elim (Bool-cases (c == colon)) [
  | inl k ↦ rw k (λ e. cc)
  | inr k ↦ rw k (push-not_nil c (split s))
]

show_rest-join : (ws : List Text) → ws ≢ [] → show_rest ws ≡ colon ∷ join ws
show_rest-join [] h = absurd (h refl)
show_rest-join (w ∷ ws) h = refl

split-join : (s : Text) → join (split s) ≡ s
unfolding split
split-join [] = refl
split-join (c ∷ s) = elim (Bool-cases (c == colon)) [
  | inl e ↦ rw e (
      show_rest-join (split s) (split-not_nil s)
      ∙ ap (λ t. colon ∷ t) (split-join s)
      ∙ ap (λ d. d ∷ s) (sym ((==_iff c colon).0 e)))
  | inr e ↦ rw e (push-join c (split s) (split-not_nil s) ∙ ap (λ t. c ∷ t) (split-join s))
]

but_last-show :
    (b : Segment) (rest : List Segment)
    → show_rest (but_last b rest) ++ (colon ∷ last_of b rest) ≡ show_rest (b ∷ rest)
but_last-show b [] = ap (λ t. colon ∷ t) (sym (append-nil b))
but_last-show b (c ∷ rest) =
    ap (λ t. colon ∷ t)
      (append_assoc b (show_rest (but_last c rest)) (colon ∷ last_of c rest)
        ∙ ap (λ t. b ++ t) (but_last-show c rest))

-- Inversion of a bind.
pub bind_created :
    {A B : Type 0} (m : Created A) (f : A → Created B) {b : B}
    → Name.◌>>=◌ m f ≡ created b
    → (a : A) × (m ≡ created a) × (f a ≡ created b)
bind_created (created a) f h = (a, refl, h)
bind_created (failed e) f h = cc

pub created-injective : {A : Type 0} {a b : A} → created a ≡ created b → a ≡ b
created-injective h = cc

of_segments-show :
    (segs : List Segment) (n : Name) → of_segments segs ≡ created n → show_name n ≡ some (join segs)
unfolding of_segments show_name
of_segments-show [] n h = cc
of_segments-show (a ∷ []) n h = cc
of_segments-show (a ∷ b ∷ rest) n h =
    ap show_name (sym (created-injective h))
    ∙ ap some (
        append_assoc a (show_rest (but_last b rest)) (colon ∷ last_of b rest)
        ∙ ap (λ t. a ++ t) (but_last-show b rest))

and_left : (a b : Bool) → a && b ≡ true → a ≡ true
and_left a b h = ground arith

and_right : (a b : Bool) → a && b ≡ true → b ≡ true
and_right a b h = ground arith

show_rest-snoc :
    (ps : List Segment) (b : Segment) → show_rest ps ++ (colon ∷ b) ≡ show_rest (ps ++ b ∷ [])
show_rest-snoc [] b = ap (λ t. colon ∷ t) (sym (append-nil b))
show_rest-snoc (p ∷ ps) b =
    ap (λ t. colon ∷ t)
      (append_assoc p (show_rest ps) (colon ∷ b) ∙ ap (λ t. p ++ t) (show_rest-snoc ps b))

last_of-snoc : (p : Segment) (ps : List Segment) (b : Segment) → last_of p (ps ++ b ∷ []) ≡ b
last_of-snoc p [] b = refl
last_of-snoc p (q ∷ ps) b = last_of-snoc q ps b

but_last-snoc : (p : Segment) (ps : List Segment) (b : Segment) → but_last p (ps ++ b ∷ []) ≡ p ∷ ps
but_last-snoc p [] b = refl
but_last-snoc p (q ∷ ps) b = ap (λ t. p ∷ t) (but_last-snoc q ps b)

of_segments-snoc :
    (p : Segment) (ps : List Segment) (b : Segment)
    → of_segments (p ∷ (ps ++ b ∷ [])) ≡ created (record { path = p ∷ ps; base = b })
unfolding of_segments
of_segments-snoc p [] b = refl
of_segments-snoc p (q ∷ ps) b =
    ap₂ (λ path base. created (record { path = path; base = base }))
      (ap (λ t. p ∷ t) (but_last-snoc q ps b)) (last_of-snoc q ps b)

module _ (is_alphanumeric : ℕ → Bool) where
  create_segment-same :
      (w : Text) (s : Segment) → create_segment is_alphanumeric w ≡ created s → s ≡ w
  unfolding create_segment
  create_segment-same [] s h = cc
  create_segment-same (c ∷ w) s h = go (all_valid is_alphanumeric 0 (byte_len (c ∷ w)) (c ∷ w)) h
    where
      go :
          (b : Bool)
          → (if b then created (c ∷ w) else failed invalid_character) ≡ created s
          → s ≡ c ∷ w
      go true k = sym (created-injective k)
      go false k = cc

  pub collect-same :
      (ws : List Text) (segs : List Segment) → collect is_alphanumeric ws ≡ created segs → segs ≡ ws
  unfolding collect
  collect-same [] segs h = sym (created-injective h)
  collect-same (w ∷ ws) segs h =
      let (s, e, h') = bind_created (create_segment is_alphanumeric w) _ h in
      let (rest, f, h'') = bind_created (collect is_alphanumeric ws) _ h' in
      sym (created-injective h'')
      ∙ ap₂ (λ s rest. s ∷ rest) (create_segment-same w s e) (collect-same ws rest f)

  -- A name that was created is printed as the string that it was created from.
  pub create_name-show :
      (s : Text) (n : Name) → create_name is_alphanumeric s ≡ created n → show_name n ≡ some s
  unfolding create_name
  create_name-show s n h =
      let (segs, e, h') = bind_created (collect is_alphanumeric (split s)) of_segments h in
      of_segments-show segs n h' ∙ ap some (ap join (collect-same (split s) segs e) ∙ split-join s)

  -- Every segment of the list is one that `create_segment` gives.
  abbrev pub AreSegments : List Segment → Type 0
  AreSegments [] = Unit {0}
  AreSegments (s ∷ rest) = (create_segment is_alphanumeric s ≡ created s) × AreSegments rest

  collect-AreSegments : (ws : List Text) → AreSegments ws → collect is_alphanumeric ws ≡ created ws
  unfolding collect
  collect-AreSegments [] t = refl
  collect-AreSegments (w ∷ ws) t = rw (t.0, collect-AreSegments ws t.1) refl

  AreSegments-snoc :
      (ps : List Segment) (b : Segment)
      → AreSegments ps
      → create_segment is_alphanumeric b ≡ created b
      → AreSegments (ps ++ b ∷ [])
  AreSegments-snoc [] b t u = (u, tt)
  AreSegments-snoc (p ∷ ps) b t u = (t.0, AreSegments-snoc ps b t.1 u)

  module _ (colon_is_none : is_alphanumeric colon ≡ false) where
    not_colon :
        (idx c len : ℕ) → is_valid_char is_alphanumeric idx c len ≡ true → (c == colon) ≡ false
    unfolding is_valid_char
    not_colon idx c len h = ground (arith, colon_is_none)

    split-valid :
        (w : Text) (idx len : ℕ) (t : Text)
        → all_valid is_alphanumeric idx len w ≡ true
        → (split w ≡ w ∷ []) × (split (w ++ colon ∷ t) ≡ w ∷ split t)
    unfolding split all_valid is_valid_char
    split-valid [] idx len t h = (refl, refl)
    split-valid (c ∷ w) idx len t h =
        let k = not_colon idx c len (and_left _ _ h) in
        let (e, f) = split-valid w (suc idx) len t (and_right _ _ h) in
        (rw (k, e) refl, rw (k, f) refl)

    split-segment :
        (w : Text) (t : Text)
        → create_segment is_alphanumeric w ≡ created w
        → (split w ≡ w ∷ []) × (split (w ++ colon ∷ t) ≡ w ∷ split t)
    unfolding create_segment
    split-segment [] t h = cc
    split-segment (c ∷ w) t h =
        elim (Bool-cases (all_valid is_alphanumeric 0 (byte_len (c ∷ w)) (c ∷ w))) [
          | inl e ↦ split-valid (c ∷ w) 0 (byte_len (c ∷ w)) t e
          | inr e ↦ absurd (refused (sym (rw e at h)))
        ]
      where
        refused : created (c ∷ w) ≡ failed invalid_character → ⊥
        refused k = cc

    split-segments :
        (p : Segment) (ps : List Segment) → AreSegments (p ∷ ps) → split (join (p ∷ ps)) ≡ p ∷ ps
    split-segments p [] t = ap split (append-nil p) ∙ (split-segment p [] t.0).0
    split-segments p (q ∷ ps) t =
        (split-segment p (join (q ∷ ps)) t.0).1 ∙ ap (λ r. p ∷ r) (split-segments q ps t.1)

    -- A name of at least one path segment, all of whose segments are ones that `create` accepts,
    -- is printed as a string from which it is created again, if the colon is not alphanumeric.
    show_name-create :
        (p : Segment) (ps : List Segment) (b : Segment)
        → AreSegments (p ∷ ps)
        → create_segment is_alphanumeric b ≡ created b
        → (s : Text) × (show_name (record { path = p ∷ ps; base = b }) ≡ some s)
          × (create_name is_alphanumeric s ≡ created (record { path = p ∷ ps; base = b }))
    unfolding create_name show_name
    show_name-create p ps b t u =
        let t' = AreSegments-snoc (p ∷ ps) b t u in
        (
          _,
          refl,
          rw
              (
                append_assoc p (show_rest ps) (colon ∷ b),
                show_rest-snoc ps b,
                split-segments p (ps ++ b ∷ []) t',
                collect-AreSegments (p ∷ (ps ++ b ∷ [])) t',
              )
              (of_segments-snoc p ps b),
        )
