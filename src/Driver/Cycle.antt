-- ===== src/Driver/Cycle.antt =====
-- The cycle driver, drmemd/src/driver/cycle/driver.rs.
pub mod Laws
use drmem.Base.{ℕ, zero, suc, ◌+◌, ◌%◌, Bool, true, false, Option, none, some, List, [], ◌∷◌, ◌++◌}
use drmem.Base.{get_elem?, length, if◌then◌else◌, ◌==◌}
use drmem.Api.Value.{Value, value_eq}

pub data CycleState : Type 0 where
  idle cycling : CycleState

-- `F` stands for `f64`. Durations are in milliseconds.
pub record Instance (F : Type 0) : Type 0 where
  pub enabled_at_boot : Bool
  pub disabled : Value F
  pub enabled : List (Value F)
  pub state : CycleState
  pub index : ℕ
  pub millis : ℕ

unfoldable pub new : {F : Type 0} → Bool → ℕ → Value F → List (Value F) → Instance F
new at_boot millis disabled enabled = record {
  enabled_at_boot = at_boot;
  disabled = disabled;
  enabled = enabled;
  state = idle;
  index = 0;
  millis = millis;
}

-- An index out of range, a remainder by zero, or a timer with the period zero, is a panic, `none`.
infixl 5 ◌>>=◌
abbrev ◌>>=◌ : {A B : Type 0} → Option A → (A → Option B) → Option B
none >>= f = none
some a >>= f = f a

pub data Action (F : Type 0) : Type 0 where
  reply : Bool → Action F
  report_enable : Bool → Action F
  report_output : Value F → Action F
  reset_timer : Action F

abbrev pub report_if : {F : Type 0} → Option (Value F) → List (Action F)
report_if none = []
report_if (some v) = report_output v ∷ []

-- What `select!` wakes for: a tick of the interval timer, or a setting of the `enable` device.
pub data Event : Type 0 where
  tick : Event
  setting : Bool → Event

-- `feq` is the `==` of `f64`.
module _ {F : Type 0} (feq : F → F → Bool) where
  -- The new value, if it differs from the one that the output has.
  abbrev changed : Value F → Value F → Option (Value F)
  changed new old = if value_eq feq new old then none else some new

  abbrev rotate : ℕ → ℕ → Option ℕ
  rotate index len = elim len [ zero ↦ none | suc n ↦ some ((index + 1) % suc n) ]

  abbrev expired_in : CycleState → Instance F → Option (Instance F × Option (Value F))
  expired_in idle c = some (c, none)
  expired_in cycling c = do
    current ← get_elem? c.enabled c.index
    index ← rotate c.index (length c.enabled)
    value ← get_elem? c.enabled index
    some (record c { index = index }, changed value current)

  unfoldable pub time_expired : Instance F → Option (Instance F × Option (Value F))
  time_expired c = expired_in c.state c

  abbrev update_in : CycleState → Bool → Instance F → Option (Instance F × Bool × Option (Value F))
  update_in idle true c = do
    value ← get_elem? c.enabled 0
    some (record c { state = cycling; index = 0 }, true, changed value c.disabled)
  update_in idle false c = some (c, false, none)
  update_in cycling true c = some (c, false, none)
  update_in cycling false c = do
    value ← get_elem? c.enabled c.index
    some (record c { state = idle }, false, changed c.disabled value)

  unfoldable pub update_state : Instance F → Bool → Option (Instance F × Bool × Option (Value F))
  update_state c val = update_in c.state val c

  -- Before the loop. `time::interval` panics if its period is zero.
  unfoldable pub start : Instance F → Option (Instance F × List (Action F))
  start c =
      if c.millis == 0
      then none
      else if c.enabled_at_boot
      then (do
        value ← get_elem? c.enabled c.index
        some (record c { state = cycling }, report_enable true ∷ report_output value ∷ []))
      else some (c, report_enable false ∷ report_output c.disabled ∷ [])

  -- A tick of the interval timer.
  unfoldable pub on_tick : Instance F → Option (Instance F × List (Action F))
  unfolding time_expired
  on_tick c = do (c', out) ← time_expired c; some (c', report_if out)

  -- A setting of the `enable` device.
  unfoldable pub on_setting : Instance F → Bool → Option (Instance F × List (Action F))
  unfolding update_state
  on_setting c b = do
    (c', reset, out) ← update_state c b
    some (
      c',
      (if reset then reset_timer ∷ [] else []) ++ (reply b ∷ report_enable b ∷ report_if out),
    )

  unfoldable pub handle : Instance F → Event → Option (Instance F × List (Action F))
  unfolding on_tick on_setting
  handle c tick = on_tick c
  handle c (setting b) = on_setting c b

  -- The loop over a sequence of events, in the order in which `select!` takes them.
  unfoldable pub loop : Instance F → List Event → Option (Instance F × List (Action F))
  loop c [] = some (c, [])
  loop c (e ∷ es) = do
    (c', acts) ← handle c e
    (last, later) ← loop c' es
    some (last, acts ++ later)

  unfoldable pub run : Instance F → List Event → Option (Instance F × List (Action F))
  run c es = do (c', acts) ← start c; (last, later) ← loop c' es; some (last, acts ++ later)
