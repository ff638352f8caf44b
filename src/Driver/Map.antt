-- ===== src/Driver/Map.antt =====
-- The map driver, drmemd/src/driver/map/driver.rs, and its configuration,
-- drmemd/src/driver/map/config.rs.
pub mod Search
pub mod Laws
use drmem.Base.{
  ℕ, zero, suc, ◌+◌, ◌-◌, ◌/◌, Bool, true, false, not, ◌||◌, Option, none, some, List, [], ◌∷◌,
  ◌++◌, map,
}
use drmem.Base.{get_elem?, length, ltb, if◌then◌else◌}
use drmem.Base.Int.{ℤ, ltb_ℤ, leb_ℤ}
use drmem.Api.Value.{Value}

-- `Entry` of config.rs. `F` stands for `f64`.
pub record ConfigEntry (F : Type 0) : Type 0 where
  pub start : ℤ
  pub end : Option ℤ
  pub value : Value F

pub record Params (F : Type 0) : Type 0 where
  pub initial : Option ℤ
  pub default : Value F
  pub values : List (ConfigEntry F)

-- `Entry` of driver.rs: an inclusive range and its value.
pub record Entry (F : Type 0) : Type 0 where
  pub first : ℤ
  pub last : ℤ
  pub value : Value F

pub record Instance (F : Type 0) : Type 0 where
  pub init_index : Option ℤ
  pub def_val : Value F
  pub values : List (Entry F)

abbrev pub min_ℤ : ℤ → ℤ → ℤ
min_ℤ a b = if leb_ℤ a b then a else b

abbrev pub max_ℤ : ℤ → ℤ → ℤ
max_ℤ a b = if leb_ℤ a b then b else a

abbrev pub end_of : Option ℤ → ℤ → ℤ
end_of none start = start
end_of (some end) start = end

-- How a search finds an entry to lie: after the index, before it, or around it.
pub data Ordering : Type 0 where
  less equal greater : Ordering

abbrev pub is_greater : Ordering → Bool
is_greater greater = true
is_greater _ = false

module _ {F : Type 0} where
  -- `sort_by` is stable.
  unfoldable pub insert : ConfigEntry F → List (ConfigEntry F) → List (ConfigEntry F)
  insert e [] = e ∷ []
  insert e (x ∷ xs) =
      let rest = insert e xs in if leb_ℤ e.start x.start then e ∷ x ∷ xs else x ∷ rest

  unfoldable pub sort_by_start : List (ConfigEntry F) → List (ConfigEntry F)
  unfolding insert
  sort_by_start [] = []
  sort_by_start (e ∷ es) = insert e (sort_by_start es)

  unfoldable pub overlaps : List (ConfigEntry F) → Bool
  overlaps [] = false
  overlaps (a ∷ []) = false
  overlaps (a ∷ b ∷ rest) = leb_ℤ b.start (end_of a.end a.start) || overlaps (b ∷ rest)

  -- What follows the conversion from TOML. `none` is the error of overlapping ranges.
  unfoldable pub parse : Params F → Option (Params F)
  unfolding sort_by_start overlaps
  parse cfg =
      let values = sort_by_start cfg.values in
      if overlaps values then none else some (record cfg { values = values })

  abbrev entry_of : Option ℤ → ℤ → Value F → Entry F
  entry_of none start value = record { first = start; last = start; value = value }
  entry_of (some end) start value = record {
    first = min_ℤ start end;
    last = max_ℤ start end;
    value = value;
  }

  unfoldable pub to_entry : ConfigEntry F → Entry F
  to_entry e = entry_of e.end e.start e.value

  unfoldable pub new : Params F → Instance F
  unfolding to_entry
  new cfg = record {
    init_index = cfg.initial;
    def_val = cfg.default;
    values = map to_entry cfg.values;
  }

  abbrev pub compare_to : ℤ → Entry F → Ordering
  compare_to idx e = if ltb_ℤ idx e.first then greater else if ltb_ℤ e.last idx then less else equal

  abbrev pub compare_at : ℤ → Option (Entry F) → Ordering
  compare_at idx none = greater
  compare_at idx (some e) = compare_to idx e

  -- `binary_search_by`: the loop halves the slice of `size` entries at `base`. Fuel as large as
  -- the list is enough.
  unfoldable pub narrow : ℕ → List (Entry F) → ℤ → ℕ → ℕ → ℕ
  narrow zero es idx size base = base
  narrow (suc fuel) es idx size base =
      let low = narrow fuel es idx (size - size / 2) base in
      let high = narrow fuel es idx (size - size / 2) (base + size / 2) in
      if ltb 1 size
      then (if is_greater (compare_at idx (get_elem? es (base + size / 2))) then low else high)
      else base

  abbrev pub value_if : Ordering → Value F → Value F → Value F
  value_if equal v default = v
  value_if _ v default = default

  abbrev pub value_at : ℤ → Option (Entry F) → Value F → Value F
  value_at idx none default = default
  value_at idx (some e) default = value_if (compare_to idx e) e.value default

  unfoldable pub map_to : Instance F → ℤ → Value F
  unfolding narrow
  map_to m idx =
      value_at idx (get_elem? m.values (narrow (length m.values) m.values idx (length m.values) 0))
        m.def_val

pub data Action (F : Type 0) : Type 0 where
  reply : ℤ → Action F
  report_index : ℤ → Action F
  report_output : Value F → Action F

module _ {F : Type 0} where
  -- Before the loop.
  abbrev pub start_at : Instance F → Option ℤ → List (Action F)
  start_at m (some idx) = report_output (map_to m idx) ∷ report_index idx ∷ []
  start_at m none = report_output m.def_val ∷ []

  unfoldable pub start : Instance F → List (Action F)
  unfolding map_to
  start m = start_at m m.init_index

  -- The loop over the settings of the index.
  unfoldable pub run_from : Instance F → List ℤ → List (Action F)
  unfolding map_to
  run_from m [] = []
  run_from m (v ∷ vs) = reply v ∷ report_output (map_to m v) ∷ report_index v ∷ run_from m vs
