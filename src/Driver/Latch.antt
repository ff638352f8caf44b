-- ===== src/Driver/Latch.antt =====
-- The latch driver, drmemd/src/driver/latch/driver.rs.
pub mod Laws
use drmem.Base.{Bool, true, false, not, ◌&&◌, Option, none, some, List, [], ◌∷◌, ◌++◌}
use drmem.Api.Value.{Value}

pub data LatchState : Type 0 where
  idle tripped : LatchState

-- `F` stands for `f64`.
pub record Instance (F : Type 0) : Type 0 where
  pub state : LatchState
  pub active_value : Value F
  pub inactive_value : Value F

unfoldable pub new : {F : Type 0} → Value F → Value F → Instance F
new active inactive = record { state = idle; active_value = active; inactive_value = inactive }

abbrev Outputs : Type 0 → Type 0
Outputs F = Option (Value F) × Option (Value F)

-- The clauses stand in the order of the arms, whose guards are `!delta_trigger` and `reset`.
abbrev update_in : {F : Type 0} → LatchState → Bool → Bool → Instance F → Instance F × Outputs F
update_in idle reset false l = (l, (none, none))
update_in idle true true l = (l, (some l.active_value, some l.inactive_value))
update_in idle false true l = (record l { state = tripped }, (some l.active_value, none))
update_in tripped true delta l = (record l { state = idle }, (some l.inactive_value, none))
update_in tripped false delta l = (l, (none, none))

unfoldable pub update_state : {F : Type 0} → Instance F → Bool → Bool → Instance F × Outputs F
update_state l reset delta_trigger = update_in l.state reset delta_trigger l

pub data Action (F : Type 0) : Type 0 where
  reply : Bool → Action F
  report_trigger : Bool → Action F
  report_reset : Bool → Action F
  report_output : Value F → Action F

-- The variables of `run`.
pub record Run (F : Type 0) : Type 0 where
  pub inst : Instance F
  pub reset : Bool
  pub trigger : Bool

-- The end of a round: the second value is reported only after a first one.
abbrev pub report_both : {F : Type 0} → Outputs F → List (Action F)
report_both (none, b) = []
report_both (some v, none) = report_output v ∷ []
report_both (some v, some w) = report_output v ∷ report_output w ∷ []

unfoldable pub start : {F : Type 0} → Instance F → Run F × List (Action F)
start l = (
  record { inst = l; reset = false; trigger = false },
  report_trigger false ∷ report_reset false ∷ report_output l.inactive_value ∷ [],
)

-- What `select!` wakes for: a setting of one of the two inputs.
pub data Event : Type 0 where
  set_trigger set_reset : Bool → Event

unfoldable pub handle : {F : Type 0} → Run F → Event → Run F × List (Action F)
unfolding update_state
handle r (set_trigger b) =
    let (l, out) = update_state r.inst r.reset (not r.trigger && b) in
    (record r { inst = l; trigger = b }, reply b ∷ report_trigger b ∷ report_both out)
handle r (set_reset b) =
    let (l, out) = update_state r.inst r.reset false in
    (record r { inst = l; reset = b }, reply b ∷ report_reset b ∷ report_both out)

unfoldable pub run_from : {F : Type 0} → Run F → List Event → Run F × List (Action F)
run_from r [] = (r, [])
run_from r (e ∷ es) =
    let (r', acts) = handle r e in let (last, later) = run_from r' es in (last, acts ++ later)
