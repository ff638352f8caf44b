-- ===== src/Driver/Integrate.antt =====
-- The integrating driver, drmemd/src/driver/integrate/driver.rs.
pub mod Laws
use drmem.Base.{Bool, true, false, List, [], ◌∷◌, ◌++◌, if◌then◌else◌}

pub data Instance (F : Type 0) : Type 0 where
  primed : F → Instance F
  reset_with : F → Instance F

-- The settings of the two devices, in the order in which `select!` takes them.
pub data Event (F : Type 0) : Type 0 where
  set_data : F → Event F
  set_reset : Bool → Event F

-- What the driver replies to the client and reports to its devices.
pub data Action (F : Type 0) : Type 0 where
  ok_data : F → Action F
  ok_reset : Bool → Action F
  report_data : F → Action F
  report_reset : Bool → Action F
  report_sum : F → Action F

unfoldable pub get_sum : {F : Type 0} → Instance F → F
get_sum (primed v) = v
get_sum (reset_with v) = v

-- The addition of `f64` and its zero.
module _ {F : Type 0} (fadd : F → F → F) (fzero : F) where
  unfoldable pub new : Instance F
  new = primed fzero

  unfoldable pub accumulate : Instance F → F → Instance F
  accumulate (primed v) val = primed (fadd v val)
  accumulate (reset_with v) val = reset_with (fadd v val)

  unfoldable pub reset : Instance F → Bool → Instance F × Bool
  reset (primed v) true = (reset_with fzero, true)
  reset (primed v) false = (primed v, false)
  reset (reset_with v) false = (primed v, true)
  reset (reset_with v) true = (reset_with v, false)

  abbrev report_if : Bool → Instance F → List (Action F)
  report_if true i = report_sum (get_sum i) ∷ []
  report_if false i = []

  unfoldable pub handle : Instance F → Event F → Instance F × List (Action F)
  unfolding accumulate reset get_sum
  handle i (set_data b) =
      let i' = accumulate i b in (i', (ok_data b ∷ report_data b ∷ []) ++ report_if true i')
  handle i (set_reset b) =
      let (i', report) = reset i b in
      (i', (ok_reset b ∷ report_reset b ∷ []) ++ report_if report i')

  unfoldable pub run_from : Instance F → List (Event F) → Instance F × List (Action F)
  unfolding handle
  run_from i [] = (i, [])
  run_from i (e ∷ es) =
      let (i', first) = handle i e in let (i'', later) = run_from i' es in (i'', first ++ later)

  unfoldable pub run : List (Event F) → Instance F × List (Action F)
  unfolding run_from new get_sum
  run es = let (i, actions) = run_from new es in (i, report_sum (get_sum new) ∷ actions)
