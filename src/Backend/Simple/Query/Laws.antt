-- ===== src/Backend/Simple/Query/Laws.antt =====
-- Which devices `get_device_info` of drmemd/src/backends/simple.rs lists.
use drmem.Base.{
  ℕ, ◌+◌, ◌≡◌, refl, ap, ap₂, ◌∙◌, Bool, true, Option, none, some, List, [], ◌∷◌, if◌then◌else◌,
  arith,
}
use drmem.Api.Value.{Text}
use drmem.Api.Name.{Name, created, failed, Created, create_name, show_name}
use drmem.Api.Name.Equality.{eqb_name}
use drmem.Glob.Spec.{accepts}
use drmem.Glob.Search.{matches_ends, matches_longer}
use drmem.Backend.Simple.{Table, Store, last_at}
use drmem.Backend.Simple.Query.{
  DevInfoReply, info, pred, collect, get_device_info, keep_if, match_as,
}

abbrev shown : Option Text → Text
shown none = []
shown (some s) = s

-- A name has segments before its last, so that it can be printed.
abbrev pub CanShow : Table → Type 0
CanShow [] = Unit {0}
CanShow ((k, di) ∷ t) = ((s : Text) × (show_name k ≡ some s)) × CanShow t

module _ (is_alphanumeric : ℕ → Bool) where
  abbrev wanted_as : Text → Name → Created Name → Bool
  wanted_as pattern k (created n) = eqb_name k n
  wanted_as pattern k (failed e) = accepts pattern (shown (show_name k))

  -- With no pattern all devices, with a name that device, and else those whose name is accepted.
  unfoldable pub is_wanted : Option Text → Name → Bool
  is_wanted none k = true
  is_wanted (some pattern) k = wanted_as pattern k (create_name is_alphanumeric pattern)

  match_as-ends :
      (pattern : Text) (k : Name) (s : Text) (c : Created Name)
      → show_name k ≡ some s
      → (fuel : ℕ) × ((g : ℕ)
          → match_as is_alphanumeric (fuel + g) pattern k c ≡ some (wanted_as pattern k c))
  match_as-ends pattern k s (created n) e = (0, λ g. refl)
  match_as-ends pattern k s (failed m) e =
      let (fuel, h) = matches_ends pattern s in
      (fuel, λ g. rw e (matches_longer fuel g pattern s h))

  pred-ends :
      (pattern : Option Text) (k : Name) (s : Text)
      → show_name k ≡ some s
      → (fuel : ℕ) × ((g : ℕ)
          → pred is_alphanumeric (fuel + g) pattern k ≡ some (is_wanted pattern k))
  unfolding pred is_wanted
  pred-ends none k s e = (0, λ g. refl)
  pred-ends (some pattern) k s e = match_as-ends pattern k s (create_name is_alphanumeric pattern) e

  module _ {V : Type 0} where
    unfoldable pub listed : Option Text → Store V → Table → List (DevInfoReply V)
    listed pattern st [] = []
    listed pattern st ((k, v) ∷ t) =
        let rest = listed pattern st t in
        if is_wanted pattern k then info k v (last_at v.reading st) ∷ rest else rest

    collect-ends :
        (pattern : Option Text) (st : Store V) (t : Table)
        → CanShow t
        → (fuel : ℕ) × ((g : ℕ)
            → collect is_alphanumeric (fuel + g) pattern st t ≡ some (listed pattern st t))
    unfolding collect listed
    collect-ends pattern st [] c = (0, λ g. refl)
    collect-ends pattern st ((k, v) ∷ t) c =
        let (f, h) = pred-ends pattern k c.0.0 c.0.1 in
        let (f', h') = collect-ends pattern st t c.1 in
        (
          f + f',
          λ g.
              ap₂ (λ b r. keep_if is_alphanumeric b (info k v (last_at v.reading st)) r)
                (ap (λ n. pred is_alphanumeric n pattern k) (omega arith) ∙ h (f' + g))
                (ap (λ n. collect is_alphanumeric n pattern st t) (omega arith) ∙ h' (f + g)),
        )

    -- Where all names can be printed, there is a number of rounds of the matcher from which on
    -- `get_device_info` lists, in the order of the table, every device if there is no pattern,
    -- the one device of that name if the pattern is a name, and else the devices whose printed
    -- name the search of the pattern accepts.
    pub get_device_info_lem :
        (pattern : Option Text) (st : Store V)
        → CanShow st.table
        → (fuel : ℕ) × ((g : ℕ)
            → get_device_info is_alphanumeric (fuel + g) pattern st
              ≡ some (listed pattern st st.table))
    unfolding get_device_info
    get_device_info_lem pattern st c = collect-ends pattern st st.table c
