-- ===== src/Driver/Map/Search.antt =====
-- The binary search of drmemd/src/driver/map/driver.rs against a search from one end to the other.
use drmem.Base.{
  ℕ, zero, suc, ◌+◌, ◌-◌, ◌/◌, ◌<◌, ◌≤◌, ◌≡◌, refl, sym, Bool, true, false, ◌&&◌, Option, none,
  some, List, [], ◌∷◌,
}
use drmem.Base.{
  get_elem?, length, ltb, if◌then◌else◌, arith, Bool-cases, inl, inr, ◌⊎◌, ◌≢◌, ◌∙◌, ap,
}
use mathlib.Core.Path.{subst}
use mathlib.Core.Option.{some-injective}
use drmem.Base.Int.{ℤ, ltb_ℤ, leb_ℤ}
use drmem.Api.Value.{Value}
use drmem.Driver.Map.{Entry, Instance, compare_to, is_greater, narrow, map_to, value_if, value_at}

trichotomy : (k m : ℕ) → (k < m) ⊎ ((k ≡ m) ⊎ (m < k))
trichotomy k m = ground arith

true≢false : true ≢ false
true≢false h = cc

module _ {F : Type 0} where
  abbrev pub contains : Entry F → ℤ → Bool
  contains e idx = leb_ℤ e.first idx && leb_ℤ idx e.last

  -- Every later range lies beyond this number.
  abbrev pub AllAfter : ℤ → List (Entry F) → Type 0
  AllAfter z [] = Unit {0}
  AllAfter z (e ∷ es) = (ltb_ℤ z e.first ≡ true) × AllAfter z es

  -- The ranges follow each other and do not overlap.
  abbrev pub Ordered : List (Entry F) → Type 0
  Ordered [] = Unit {0}
  Ordered (e ∷ es) = (leb_ℤ e.first e.last ≡ true) × AllAfter e.last es × Ordered es

  get_elem?_total :
      (xs : List (Entry F)) (i : ℕ) → i < length xs → (x : Entry F) × (get_elem? xs i ≡ some x)
  get_elem?_total [] i h = absurd (omega arith)
  get_elem?_total (x ∷ xs) zero h = (x, refl)
  get_elem?_total (x ∷ xs) (suc i) h = get_elem?_total xs i (omega arith)

  AllAfter-get :
      (z : ℤ) (es : List (Entry F)) (j : ℕ) (b : Entry F)
      → AllAfter z es
      → get_elem? es j ≡ some b
      → ltb_ℤ z b.first ≡ true
  AllAfter-get z [] j b h e = cc
  AllAfter-get z (x ∷ es) zero b h e =
      subst (λ y. ltb_ℤ z y.first ≡ true) (some-injective _ _ e) h.0
  AllAfter-get z (x ∷ es) (suc j) b h e = AllAfter-get z es j b h.1 e

  Ordered-get :
      (es : List (Entry F)) (i j : ℕ) (a b : Entry F)
      → Ordered es
      → i < j
      → get_elem? es i ≡ some a
      → get_elem? es j ≡ some b
      → ltb_ℤ a.last b.first ≡ true
  Ordered-get [] i j a b o lt ea eb = cc
  Ordered-get (x ∷ es) zero zero a b o lt ea eb = absurd (omega arith)
  Ordered-get (x ∷ es) zero (suc j) a b o lt ea eb =
      subst (λ y. ltb_ℤ y.last b.first ≡ true) (some-injective _ _ ea)
        (AllAfter-get x.last es j b o.1 eb)
  Ordered-get (x ∷ es) (suc i) zero a b o lt ea eb = absurd (omega arith)
  Ordered-get (x ∷ es) (suc i) (suc j) a b o lt ea eb =
      Ordered-get es i j a b o.2 (omega arith) ea eb

  Ordered-range :
      (es : List (Entry F)) (i : ℕ) (a : Entry F)
      → Ordered es
      → get_elem? es i ≡ some a
      → leb_ℤ a.first a.last ≡ true
  Ordered-range [] i a o e = cc
  Ordered-range (x ∷ es) zero a o e =
      subst (λ y. leb_ℤ y.first y.last ≡ true) (some-injective _ _ e) o.0
  Ordered-range (x ∷ es) (suc i) a o e = Ordered-range es i a o.2 e

  -- An entry on the other side of the middle than the comparison says cannot contain the index.
  middle_above :
      (a b : Entry F) (idx : ℤ)
      → contains a idx ≡ true
      → ltb_ℤ a.last b.first ≡ true
      → is_greater (compare_to idx b) ≡ true
  middle_above a b idx h k = ground arith

  middle_below :
      (a b : Entry F) (idx : ℤ)
      → contains a idx ≡ true
      → leb_ℤ b.first b.last ≡ true
      → ltb_ℤ b.last a.first ≡ true
      → is_greater (compare_to idx b) ≡ false
  middle_below a b idx h r k = ground arith

  middle_in :
      (a : Entry F) (idx : ℤ) → contains a idx ≡ true → is_greater (compare_to idx a) ≡ false
  middle_in a idx h = ground arith

  greater-before :
      (es : List (Entry F)) (idx : ℤ) (k mid : ℕ) (a b : Entry F)
      → Ordered es
      → get_elem? es k ≡ some a
      → get_elem? es mid ≡ some b
      → contains a idx ≡ true
      → is_greater (compare_to idx b) ≡ true
      → k < mid
  greater-before es idx k mid a b o ea eb h g = elim (trichotomy k mid) [
    | inl lt ↦ lt
    | inr (inl e) ↦
        let same : a ≡ b = some-injective _ _ (sym ea ∙ ap (get_elem? es) e ∙ eb) in
        absurd (true≢false (sym g ∙ middle_in b idx (subst (λ a. contains a idx ≡ true) same h)))
    | inr (inr gt) ↦ absurd (
        true≢false (
          sym g
          ∙ middle_below a b idx h (Ordered-range es mid b o eb)
              (Ordered-get es mid k b a o gt eb ea)))
  ]

  not_greater-after :
      (es : List (Entry F)) (idx : ℤ) (k mid : ℕ) (a b : Entry F)
      → Ordered es
      → get_elem? es k ≡ some a
      → get_elem? es mid ≡ some b
      → contains a idx ≡ true
      → is_greater (compare_to idx b) ≡ false
      → mid ≤ k
  not_greater-after es idx k mid a b o ea eb h g = elim (trichotomy k mid) [
    | inl lt ↦
        absurd (true≢false (sym (middle_above a b idx h (Ordered-get es k mid a b o lt ea eb)) ∙ g))
    | inr (inl e) ↦ omega (arith, e)
    | inr (inr gt) ↦ omega (arith, gt)
  ]

  narrow-finds :
      (fuel : ℕ) (es : List (Entry F)) (idx : ℤ) (size base k : ℕ) (a : Entry F)
      → Ordered es
      → get_elem? es k ≡ some a
      → contains a idx ≡ true
      → size ≤ fuel
      → base ≤ k
      → k < base + size
      → base + size ≤ length es
      → narrow fuel es idx size base ≡ k
  unfolding narrow
  narrow-finds zero es idx size base k a o ea h f lo hi le = absurd (omega arith)
  narrow-finds (suc fuel) es idx size base k a o ea h f lo hi le = elim (Bool-cases (ltb 1 size)) [
    | inr e ↦ rw e (ground arith)
    | inl e ↦
        let (b, eb) = get_elem?_total es (base + size / 2) (ground arith) in
        elim (Bool-cases (is_greater (compare_to idx b))) [
          | inl g ↦
              rw (e, eb, g)
                (let lt = greater-before es idx k (base + size / 2) a b o ea eb h g in
                  narrow-finds fuel es idx (size - size / 2) base k a o ea h (ground arith) lo
                    (ground arith) (ground arith))
          | inr g ↦
              rw (e, eb, g)
                (let ge = not_greater-after es idx k (base + size / 2) a b o ea eb h g in
                  narrow-finds fuel es idx (size - size / 2) (base + size / 2) k a o ea h
                    (ground arith) ge (ground arith) (ground arith))
        ]
  ]

  -- The value of the first entry that contains the index.
  unfoldable pub lookup : List (Entry F) → ℤ → Value F → Value F
  lookup [] idx default = default
  lookup (e ∷ es) idx default = if contains e idx then e.value else lookup es idx default

  lookup-finds :
      (es : List (Entry F)) (idx : ℤ) (default : Value F)
      → ((k : ℕ) × (a : Entry F) × (get_elem? es k ≡ some a)
          × (contains a idx ≡ true)
          × (k < length es)
          × (lookup es idx default ≡ a.value))
        ⊎ ((lookup es idx default ≡ default)
            × ((k : ℕ) (a : Entry F) → get_elem? es k ≡ some a → contains a idx ≡ false))
  unfolding lookup
  lookup-finds [] idx default = inr (refl, λ k a e. cc)
  lookup-finds (e ∷ es) idx default = elim (Bool-cases (contains e idx)) [
    | inl h ↦ inl (0, e, refl, h, omega arith, rw h refl)
    | inr h ↦ elim (lookup-finds es idx default) [
      | inl (k, a, ea, c, lt, v) ↦ inl (suc k, a, ea, c, omega (arith, lt), rw h v)
      | inr (v, none_in) ↦ inr (rw h v, nowhere e es idx h none_in)
    ]
  ]
    where
      nowhere :
          (e : Entry F) (es : List (Entry F)) (idx : ℤ)
          → contains e idx ≡ false
          → ((k : ℕ) (a : Entry F) → get_elem? es k ≡ some a → contains a idx ≡ false)
          → (k : ℕ) (a : Entry F) → get_elem? (e ∷ es) k ≡ some a
          → contains a idx ≡ false
      nowhere e es idx h apart zero a p =
          subst (λ a. contains a idx ≡ false) (some-injective _ _ p) h
      nowhere e es idx h apart (suc k) a p = apart k a p

  value_if-contains :
      (a : Entry F) (idx : ℤ) (v default : Value F)
      → value_if (compare_to idx a) v default ≡ (if contains a idx then v else default)
  value_if-contains a idx v default = ground arith

  value_at-nowhere :
      (o : Option (Entry F)) (idx : ℤ) (default : Value F)
      → ((a : Entry F) → o ≡ some a → contains a idx ≡ false)
      → value_at idx o default ≡ default
  value_at-nowhere none idx default apart = refl
  value_at-nowhere (some a) idx default apart =
      value_if-contains a idx a.value default ∙ rw (apart a refl) refl

  -- On ordered ranges the binary search gives the value of the first entry that contains the index,
  -- or the default value if there is none.
  pub map_to-lookup :
      (m : Instance F) (idx : ℤ) → Ordered m.values → map_to m idx ≡ lookup m.values idx m.def_val
  unfolding map_to
  map_to-lookup m idx o = elim (lookup-finds m.values idx m.def_val) [
    | inl (k, a, ea, c, lt, v) ↦
        rw
          (
            narrow-finds (length m.values) m.values idx (length m.values) 0 k a o ea c (omega arith)
                (omega arith) (omega (arith, lt)) (omega arith),
            ea,
            v,
          )
          (value_if-contains a idx a.value m.def_val ∙ rw c refl)
    | inr (v, apart) ↦
        value_at-nowhere
          (get_elem? m.values (narrow (length m.values) m.values idx (length m.values) 0)) idx
          m.def_val (apart _)
        ∙ sym v
  ]
