-- ===== src/Driver/Map/Laws.antt =====
-- What the configuration check of drmemd/src/driver/map/config.rs promises to the driver.
use drmem.Base.{◌≡◌, refl, Bool, true, false, ◌&&◌, Option, none, some, List, [], ◌∷◌, map, arith}
use drmem.Base.{if◌then◌else◌, Bool-cases, inl, inr, ◌∙◌, ap}
use mathlib.Core.Path.{subst}
use mathlib.Core.Option.{some-injective}
use drmem.Base.Int.{ℤ, ltb_ℤ, leb_ℤ, leb_ℤ_total}
use drmem.Api.Value.{Value}
use drmem.Driver.Map.{ConfigEntry, Params, Entry, insert, sort_by_start, end_of, overlaps}
use drmem.Driver.Map.{parse, to_entry, new, map_to}
use drmem.Driver.Map.Search.{contains, AllAfter, Ordered, lookup, map_to-lookup}

ltb_leb_trans : (x y z : ℤ) → ltb_ℤ x y ≡ true → leb_ℤ y z ≡ true → ltb_ℤ x z ≡ true
ltb_leb_trans x y z h k = ground arith

module _ {F : Type 0} where
  -- No range of the configuration ends before it starts.
  abbrev pub forward : List (ConfigEntry F) → Bool
  forward [] = true
  forward (e ∷ es) = leb_ℤ e.start (end_of e.end e.start) && forward es

  forward-insert :
      (e : ConfigEntry F) (es : List (ConfigEntry F))
      → leb_ℤ e.start (end_of e.end e.start) ≡ true
      → forward es ≡ true
      → forward (insert e es) ≡ true
  unfolding insert
  forward-insert e [] h k = ground arith
  forward-insert e (x ∷ xs) h k = elim (Bool-cases (leb_ℤ e.start x.start)) [
    | inl l ↦ rw l (ground arith)
    | inr l ↦ rw l (ground (arith, forward-insert e xs h (ground arith)))
  ]

  forward-sort : (es : List (ConfigEntry F)) → forward es ≡ true → forward (sort_by_start es) ≡ true
  unfolding sort_by_start
  forward-sort [] h = refl
  forward-sort (e ∷ es) h =
      forward-insert e (sort_by_start es) (ground arith) (forward-sort es (ground arith))

  to_entry-range :
      (e : ConfigEntry F)
      → leb_ℤ e.start (end_of e.end e.start) ≡ true
      → ((to_entry e).first ≡ e.start) × ((to_entry e).last ≡ end_of e.end e.start)
  unfolding to_entry
  to_entry-range e h = ground arith

  AllAfter-weaken :
      (z : ℤ) (es : List (Entry F)) → AllAfter z es → (w : ℤ) → ltb_ℤ w z ≡ true → AllAfter w es
  AllAfter-weaken z [] a w h = tt
  AllAfter-weaken z (e ∷ es) a w h = (ground arith, AllAfter-weaken z es a.1 w h)

  to_entry-forward :
      (e : ConfigEntry F)
      → leb_ℤ e.start (end_of e.end e.start) ≡ true
      → leb_ℤ (to_entry e).first (to_entry e).last ≡ true
  to_entry-forward e h = let (p, q) = to_entry-range e h in rw (p, q) h

  to_entry-apart :
      (a b : ConfigEntry F)
      → leb_ℤ a.start (end_of a.end a.start) ≡ true
      → leb_ℤ b.start (end_of b.end b.start) ≡ true
      → leb_ℤ b.start (end_of a.end a.start) ≡ false
      → ltb_ℤ (to_entry a).last (to_entry b).first ≡ true
  to_entry-apart a b h k n =
      rw ((to_entry-range a h).1, (to_entry-range b k).0)
        (leb_ℤ_total b.start (end_of a.end a.start) n)

  Ordered-to_entry :
      (es : List (ConfigEntry F))
      → forward es ≡ true
      → overlaps es ≡ false
      → Ordered (map to_entry es)
  unfolding overlaps
  Ordered-to_entry [] h k = tt
  Ordered-to_entry (a ∷ []) h k = (to_entry-forward a (ground arith), tt, tt)
  Ordered-to_entry (a ∷ b ∷ es) h k =
      let ha : leb_ℤ a.start (end_of a.end a.start) ≡ true = ground arith in
      let hb : leb_ℤ b.start (end_of b.end b.start) ≡ true = ground arith in
      let o = Ordered-to_entry (b ∷ es) (ground arith) (ground arith) in
      let lt = to_entry-apart a b ha hb (ground arith) in
      (
        to_entry-forward a ha,
        (
          lt,
          AllAfter-weaken (to_entry b).last (map to_entry es) o.1 (to_entry a).last
              (ltb_leb_trans (to_entry a).last (to_entry b).first (to_entry b).last lt o.0),
        ),
        o,
      )

  AllAfter-insert :
      (z : ℤ) (e : ConfigEntry F) (xs : List (ConfigEntry F))
      → AllAfter z (map to_entry (insert e xs))
      → (ltb_ℤ z (to_entry e).first ≡ true) × AllAfter z (map to_entry xs)
  unfolding insert
  AllAfter-insert z e [] h = (h.0, tt)
  AllAfter-insert z e (x ∷ xs) h = elim (Bool-cases (leb_ℤ e.start x.start)) [
    | inl l ↦ let h' : AllAfter z (map to_entry (e ∷ x ∷ xs)) = rw l at h in h'
    | inr l ↦
        let h' : AllAfter z (map to_entry (x ∷ insert e xs)) = rw l at h in
        let (p, q) = AllAfter-insert z e xs h'.1 in (p, (h'.0, q))
  ]

  Ordered-insert :
      (e : ConfigEntry F) (xs : List (ConfigEntry F))
      → Ordered (map to_entry (insert e xs))
      → Ordered (map to_entry xs)
  unfolding insert
  Ordered-insert e [] o = tt
  Ordered-insert e (x ∷ xs) o = elim (Bool-cases (leb_ℤ e.start x.start)) [
    | inl l ↦ let o' : Ordered (map to_entry (e ∷ x ∷ xs)) = rw l at o in o'.2
    | inr l ↦
        let o' : Ordered (map to_entry (x ∷ insert e xs)) = rw l at o in
        (o'.0, (AllAfter-insert (to_entry x).last e xs o'.1).1, Ordered-insert e xs o'.2)
  ]

  not_both :
      (a b : Entry F) (idx : ℤ) (u v w : Value F)
      → ltb_ℤ a.last b.first ≡ true
      → (if contains a idx then u else if contains b idx then v else w)
        ≡ (if contains b idx then v else if contains a idx then u else w)
  not_both a b idx u v w h = ground arith

  lookup-insert :
      (e : ConfigEntry F) (xs : List (ConfigEntry F)) (idx : ℤ) (default : Value F)
      → Ordered (map to_entry (insert e xs))
      → lookup (map to_entry (insert e xs)) idx default ≡ lookup (map to_entry (e ∷ xs)) idx default
  unfolding insert lookup
  lookup-insert e [] idx default o = refl
  lookup-insert e (x ∷ xs) idx default o = elim (Bool-cases (leb_ℤ e.start x.start)) [
    | inl l ↦ rw l refl
    | inr l ↦
        let o' : Ordered (map to_entry (x ∷ insert e xs)) = rw l at o in
        rw (l, lookup-insert e xs idx default o'.2)
          (not_both (to_entry x) (to_entry e) idx (to_entry x).value (to_entry e).value
            (lookup (map to_entry xs) idx default) (AllAfter-insert (to_entry x).last e xs o'.1).0)
  ]

  lookup-sort :
      (es : List (ConfigEntry F)) (idx : ℤ) (default : Value F)
      → Ordered (map to_entry (sort_by_start es))
      → lookup (map to_entry (sort_by_start es)) idx default ≡ lookup (map to_entry es) idx default
  unfolding sort_by_start lookup
  lookup-sort [] idx default o = refl
  lookup-sort (e ∷ es) idx default o =
      lookup-insert e (sort_by_start es) idx default o
      ∙ ap (λ v. if contains (to_entry e) idx then (to_entry e).value else v)
          (lookup-sort es idx default (Ordered-insert e (sort_by_start es) o))

  -- Where no range of the configuration ends before it starts and the check of the configuration
  -- accepts it, the binary search of the driver gives for every index the value of the first
  -- configured entry whose range contains it, in the order of the configuration, and the default
  -- value if there is none.
  pub parse-map_to :
      (cfg checked : Params F) (idx : ℤ)
      → forward cfg.values ≡ true
      → parse cfg ≡ some checked
      → map_to (new checked) idx ≡ lookup (map to_entry cfg.values) idx cfg.default
  unfolding parse new
  parse-map_to cfg checked idx h p = elim (Bool-cases (overlaps (sort_by_start cfg.values))) [
    | inl o ↦ absurd (refused (rw o at p))
    | inr o ↦
        subst (λ c. map_to (new c) idx ≡ lookup (map to_entry cfg.values) idx cfg.default)
          (some-injective _ _ (rw o at p))
          (let ordered =
              Ordered-to_entry (sort_by_start cfg.values) (forward-sort cfg.values h) o in
            map_to-lookup (new (record cfg { values = sort_by_start cfg.values })) idx ordered
            ∙ lookup-sort cfg.values idx cfg.default ordered)
  ]
    where
      refused : none ≡ some checked → ⊥
      refused e = cc

  -- The check of the configuration accepts a single index followed by a later start whose range
  -- ends at that index or before it, though both ranges contain that index.
  parse-reversed :
      (a b e : ℤ) (v w default : Value F) (initial : Option ℤ)
      → ltb_ℤ a b ≡ true
      → leb_ℤ e a ≡ true
      → let x : ConfigEntry F = record { start = a; end = none; value = v } in
        let y : ConfigEntry F = record { start = b; end = some e; value = w } in
        let cfg : Params F = record { initial = initial; default = default; values = x ∷ y ∷ [] } in
        (parse cfg ≡ some cfg) × (contains (to_entry x) a ≡ true) × (contains (to_entry y) a ≡ true)
  unfolding parse to_entry
  parse-reversed a b e v w default initial h k =
      let le : leb_ℤ a b ≡ true = ground arith in
      let apart : leb_ℤ b a ≡ false = ground arith in
      (rw (le, apart) refl, ground arith, ground arith)
