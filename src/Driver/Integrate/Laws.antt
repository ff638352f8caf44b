-- ===== src/Driver/Integrate/Laws.antt =====
-- The sum that the integrating driver shows, drmemd/src/driver/integrate/driver.rs.
use drmem.Base.{◌≡◌, refl, Bool, true, false, not, ◌&&◌, List, [], ◌∷◌, ◌++◌, if◌then◌else◌}
use drmem.Driver.Integrate.{
  Instance, primed, reset_with, Event, set_data, set_reset, Action, ok_data,
}
use drmem.Driver.Integrate.{
  ok_reset, report_data, report_reset, report_sum, get_sum, new, accumulate, reset,
}
use drmem.Driver.Integrate.{handle, run_from, run}

module _ {F : Type 0} (fadd : F → F → F) (fzero : F) where
  abbrev pub last_sum : F → List (Action F) → F
  last_sum s [] = s
  last_sum s (report_sum v ∷ acts) = last_sum v acts
  last_sum s (ok_data v ∷ acts) = last_sum s acts
  last_sum s (ok_reset v ∷ acts) = last_sum s acts
  last_sum s (report_data v ∷ acts) = last_sum s acts
  last_sum s (report_reset v ∷ acts) = last_sum s acts

  -- The sum of the data since the reset last went from false to true, added in order.
  abbrev pub sum_since : F → Bool → List (Event F) → F
  sum_since s r [] = s
  sum_since s r (set_data v ∷ es) = sum_since (fadd s v) r es
  sum_since s r (set_reset b ∷ es) = sum_since (if b && not r then fzero else s) b es

  last_sum-append :
      (s : F) (acts later : List (Action F))
      → last_sum s (acts ++ later) ≡ last_sum (last_sum s acts) later
  last_sum-append s [] later = refl
  last_sum-append s (report_sum v ∷ acts) later = last_sum-append v acts later
  last_sum-append s (ok_data v ∷ acts) later = last_sum-append s acts later
  last_sum-append s (ok_reset v ∷ acts) later = last_sum-append s acts later
  last_sum-append s (report_data v ∷ acts) later = last_sum-append s acts later
  last_sum-append s (report_reset v ∷ acts) later = last_sum-append s acts later

  abbrev is_reset : Instance F → Bool
  is_reset (primed v) = false
  is_reset (reset_with v) = true

  -- The instance and the last report after one setting.
  abbrev Sums : F → Bool → Instance F × List (Action F) → F → Type 0
  Sums s r (i, acts) before = (get_sum i ≡ s) × (is_reset i ≡ r) × (last_sum before acts ≡ s)

  run_from-sum :
      (i : Instance F) (es : List (Event F))
      → Sums
          (sum_since (get_sum i) (is_reset i) es)
          (is_reset (run_from fadd fzero i es).0)
          (run_from fadd fzero i es)
          (get_sum i)
  unfolding run_from handle accumulate reset get_sum
  run_from-sum i [] = (refl, refl, refl)
  run_from-sum (primed v) (set_data b ∷ es) = run_from-sum (primed (fadd v b)) es
  run_from-sum (reset_with v) (set_data b ∷ es) = run_from-sum (reset_with (fadd v b)) es
  run_from-sum (primed v) (set_reset true ∷ es) = run_from-sum (reset_with fzero) es
  run_from-sum (primed v) (set_reset false ∷ es) = run_from-sum (primed v) es
  run_from-sum (reset_with v) (set_reset true ∷ es) = run_from-sum (reset_with v) es
  run_from-sum (reset_with v) (set_reset false ∷ es) = run_from-sum (primed v) es

  -- After any settings, the sum that the driver holds, and the one that it reported last, is the
  -- sum of the data since the reset input last went from false to true, added in the order of the
  -- settings.
  pub run-sum :
      (es : List (Event F)) (before : F)
      → (get_sum (run fadd fzero es).0 ≡ sum_since fzero false es)
        × (last_sum before (run fadd fzero es).1 ≡ sum_since fzero false es)
  unfolding run new
  run-sum es before = let (a, r, b) = run_from-sum (primed fzero) es in (a, b)
