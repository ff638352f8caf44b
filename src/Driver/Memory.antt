-- ===== src/Driver/Memory.antt =====
-- The memory driver, drmemd/src/driver/memory/device.rs and driver.rs beside it.
pub mod Laws
pub mod Replies
use drmem.Base.{
  ℕ, zero, suc, Bool, true, false, not, Option, none, some, List, [], ◌∷◌, ◌++◌, if◌then◌else◌,
}
use drmem.Api.Value.{Value, bool, int, flt, str, color, is_same_type}

unfoldable pub get_validator : {F : Type 0} → Value F → Value F → Bool
get_validator (bool a) (bool b) = true
get_validator (int a) (int b) = true
get_validator (flt a) (flt b) = true
get_validator (str a) (str b) = true
get_validator (color a) (color b) = true
get_validator _ _ = false

-- A device with its configured value, its last value, and the settings that wait for it, each with
-- the number of its client. The function that checks values is `get_validator initial`.
pub record MemDevice (F : Type 0) : Type 0 where
  pub initial : Value F
  pub last : Option (Value F)
  pub settings : List (ℕ × Value F)

pub data Reply (F : Type 0) : Type 0 where
  ok : ℕ → Value F → Reply F
  type_error : ℕ → Reply F

module _ {F : Type 0} where
  abbrev wants_initial : Option (Value F) → Value F → Bool
  wants_initial none initial = true
  wants_initial (some v) initial = not (is_same_type v initial)

  unfoldable pub register : MemDevice F → MemDevice F
  unfolding is_same_type
  register d = if wants_initial d.last d.initial then record d { last = some d.initial } else d

  -- The inner loop of `get_next`: settings of another type are refused.
  unfoldable pub take_good :
      Value F → List (ℕ × Value F) → Option (Value F) × List (ℕ × Value F) × List (Reply F)
  unfolding get_validator
  take_good initial [] = (none, [], [])
  take_good initial ((c, v) ∷ q) =
      let (o, q', rs) = take_good initial q in
      if get_validator initial v then (some v, q, ok c v ∷ []) else (o, q', type_error c ∷ rs)

  abbrev pub look_on :
      ℕ
      → MemDevice F
      → List (MemDevice F)
      → Option (Value F) × List (ℕ × Value F) × List (Reply F)
      → Option (ℕ × Value F) × List (MemDevice F) × List (Reply F)
      → Option (ℕ × Value F) × List (MemDevice F) × List (Reply F)
  look_on idx d ds (some v, q, rs) later = (some (idx, v), record d { settings = q } ∷ ds, rs)
  look_on idx d ds (none, q, rs) (r, ds', rs') = (r, record d { settings = q } ∷ ds', rs ++ rs')

  -- `none` is `Poll::Pending`. The first device has the number `idx`.
  unfoldable pub get_next :
      ℕ → List (MemDevice F) → Option (ℕ × Value F) × List (MemDevice F) × List (Reply F)
  unfolding take_good
  get_next idx [] = (none, [], [])
  get_next idx (d ∷ ds) = look_on idx d ds (take_good d.initial d.settings) (get_next (suc idx) ds)

  -- `report_update` of the device with this number.
  unfoldable pub report_update : ℕ → Value F → List (MemDevice F) → List (MemDevice F)
  report_update i v [] = []
  report_update zero v (d ∷ ds) = record d { last = some v } ∷ ds
  report_update (suc i) v (d ∷ ds) = d ∷ report_update i v ds

  abbrev pub report_next :
      Option (ℕ × Value F) × List (MemDevice F) × List (Reply F)
      → List (MemDevice F) × List (Reply F)
  report_next (none, ds, rs) = (ds, rs)
  report_next (some (i, v), ds, rs) = (report_update i v ds, rs)

  -- One round of the loop of `run`.
  unfoldable pub round : List (MemDevice F) → List (MemDevice F) × List (Reply F)
  unfolding get_next report_update
  round ds = report_next (get_next 0 ds)

  -- So many rounds.
  unfoldable pub run : ℕ → List (MemDevice F) → List (MemDevice F) × List (Reply F)
  unfolding round
  run zero ds = (ds, [])
  run (suc n) ds = let (ds', rs) = round ds in let (ds'', later) = run n ds' in (ds'', rs ++ later)
