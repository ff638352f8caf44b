-- ===== src/Driver/Cycle/Laws.antt =====
-- The promises of the cycle driver, drmemd/src/driver/cycle/driver.rs.
use drmem.Base.{ℕ, zero, suc, ◌+◌, ◌%◌, ◌<◌, ◌≡◌, refl, sym, Bool, true, false, Option, none}
use drmem.Base.{some, List, [], ◌∷◌, ◌++◌, get_elem?, length, arith, ◌⊎◌}
use drmem.Base.{inl, inr, Bool-cases, ◌==◌}
use mathlib.Core.Path.{subst}
use mathlib.Core.Option.{some-injective}
use drmem.Api.Value.{Value, value_eq}
use drmem.Api.Value.Laws.{value_eq_trans}
use drmem.Driver.Cycle
use drmem.Driver.Cycle.{CycleState, idle, cycling, Instance, new, Action, reply, report_enable}
use drmem.Driver.Cycle.{report_output, reset_timer, time_expired, on_tick, on_setting, Event, tick}
use drmem.Driver.Cycle.{setting, handle, loop, run, start}

get_elem?_total :
    {A : Type 0} (xs : List A) (i : ℕ) → i < length xs → (x : A) × (get_elem? xs i ≡ some x)
get_elem?_total [] i h = absurd (omega arith)
get_elem?_total (x ∷ xs) zero h = (x, refl)
get_elem?_total (x ∷ xs) (suc i) h = get_elem?_total xs i (omega arith)

-- The last value that the output device reported.
abbrev last_output : {F : Type 0} → Value F → List (Action F) → Value F
last_output v [] = v
last_output v (report_output w ∷ acts) = last_output w acts
last_output v (_ ∷ acts) = last_output v acts

last_output-append :
    {F : Type 0} (v : Value F) (xs ys : List (Action F))
    → last_output v (xs ++ ys) ≡ last_output (last_output v xs) ys
last_output-append v [] ys = refl
last_output-append v (report_output w ∷ xs) ys = last_output-append w xs ys
last_output-append v (reply b ∷ xs) ys = last_output-append v xs ys
last_output-append v (report_enable b ∷ xs) ys = last_output-append v xs ys
last_output-append v (reset_timer ∷ xs) ys = last_output-append v xs ys

-- The value that the configuration asks of the output in this state.
abbrev wanted_in : {F : Type 0} → CycleState → Instance F → Option (Value F)
wanted_in idle c = some c.disabled
wanted_in cycling c = get_elem? c.enabled c.index

unfoldable pub wanted : {F : Type 0} → Instance F → Option (Value F)
wanted c = wanted_in c.state c

module _ {F : Type 0} (feq : F → F → Bool) where
  -- `v` is `w`, or equals it by the `==` of values.
  abbrev pub Same : Value F → Value F → Type 0
  Same v w = (v ≡ w) ⊎ (value_eq feq w v ≡ true)

  -- The index is in range, the configuration is the one of `c`, and the output, last reported as
  -- `v`, is the value that the configuration asks for.
  pub record Shows (disabled : Value F) (enabled : List (Value F)) (c : Instance F) (v : Value F)
      : Type 0 where
    pub in_range : c.index < length enabled
    pub enabled_kept : c.enabled ≡ enabled
    pub disabled_kept : c.disabled ≡ disabled
    pub target : Value F
    pub asked : wanted c ≡ some target
    pub same : Same v target

  Same_changed :
      ((a b c : Value F)
        → value_eq feq a b ≡ true
        → value_eq feq b c ≡ true
        → value_eq feq a c ≡ true)
      → (v old new : Value F) → Same v old
      → Same (last_output v (Cycle.report_if (Cycle.changed feq new old))) new
  Same_changed trans v old new (inl e) = elim (Bool-cases (value_eq feq new old)) [
    | inl h ↦ rw h (inr (rw e h))
    | inr h ↦ rw h (inl refl)
  ]
  Same_changed trans v old new (inr e) = elim (Bool-cases (value_eq feq new old)) [
    | inl h ↦ rw h (inr (trans new old v h e))
    | inr h ↦ rw h (inl refl)
  ]

  rotate_lem : (i n : ℕ) → 0 < n → Cycle.rotate feq i n ≡ some ((i + 1) % n)
  rotate_lem i zero h = absurd (omega arith)
  rotate_lem i (suc n) h = refl

  pub next_in_range : (i n : ℕ) → i < n → (i + 1) % n < n
  next_in_range i n h = omega arith

  -- The event is handled with no panic, and what it leads to is as before.
  abbrev pub Handled :
      Value F → List (Value F) → Value F → Option (Instance F × List (Action F)) → Type 0
  Handled disabled enabled v none = ⊥
  Handled disabled enabled v (some (c, acts)) = Shows disabled enabled c (last_output v acts)

  after-Handled :
      (disabled : Value F) (enabled : List (Value F)) (v : Value F)
      → (acts : List (Action F)) (r : Option (Instance F × List (Action F)))
      → Handled disabled enabled (last_output v acts) r
      → Handled disabled enabled v (Cycle.◌>>=◌ r (λ x. some (x.0, acts ++ x.1)))
  after-Handled disabled enabled v acts none h = h
  after-Handled disabled enabled v acts (some (c', later)) h =
      subst (Shows disabled enabled c') (sym (last_output-append v acts later)) h

  module _
      (trans : (a b c : Value F)
        → value_eq feq a b ≡ true
        → value_eq feq b c ≡ true
        → value_eq feq a c ≡ true)
      (disabled : Value F) (enabled : List (Value F)) where
    handle_in :
        (c : Instance F) (e : Event) (s : CycleState) (v target : Value F)
        → c.state ≡ s
        → c.index < length enabled
        → c.enabled ≡ enabled
        → c.disabled ≡ disabled
        → wanted_in s c ≡ some target
        → Same v target
        → Handled disabled enabled v (handle feq c e)
    unfolding handle wanted
    handle_in c tick idle v target es r en dis w same = rw es (record {
      in_range = r;
      enabled_kept = en;
      disabled_kept = dis;
      target = target;
      asked = w;
      same = same;
    })
    handle_in c tick cycling v target es r en dis w same =
        let (y, ey) =
          get_elem?_total enabled ((c.index + 1) % length enabled) (next_in_range _ _ r) in
        rw (es, w, rotate_lem c.index (length c.enabled) (rw en (omega arith)), en, ey)
          (record {
            in_range = next_in_range _ _ r;
            enabled_kept = refl;
            disabled_kept = dis;
            target = y;
            asked = ey;
            same = Same_changed trans v target y same;
          })
    handle_in c (setting true) idle v target es r en dis w same =
        let (y, ey) = get_elem?_total enabled 0 (omega arith) in
        rw (es, en, ey)
          (record {
            in_range = omega arith;
            enabled_kept = refl;
            disabled_kept = dis;
            target = y;
            asked = ey;
            same =
                Same_changed trans v c.disabled y
                  (subst (Same v) (sym (some-injective _ _ w)) same);
          })
    handle_in c (setting true) cycling v target es r en dis w same = rw es (record {
      in_range = r;
      enabled_kept = en;
      disabled_kept = dis;
      target = target;
      asked = w;
      same = same;
    })
    handle_in c (setting false) idle v target es r en dis w same = rw es (record {
      in_range = r;
      enabled_kept = en;
      disabled_kept = dis;
      target = target;
      asked = w;
      same = same;
    })
    handle_in c (setting false) cycling v target es r en dis w same =
        rw (es, w)
          (record {
            in_range = r;
            enabled_kept = en;
            disabled_kept = dis;
            target = c.disabled;
            asked = refl;
            same = Same_changed trans v target c.disabled same;
          })

    handle-Shows :
        (c : Instance F) (e : Event) (v : Value F)
        → Shows disabled enabled c v
        → Handled disabled enabled v (handle feq c e)
    unfolding wanted
    handle-Shows c e v s =
        handle_in c e c.state v s.target refl s.in_range s.enabled_kept s.disabled_kept s.asked
          s.same

    loop-Shows :
        (es : List Event) (c : Instance F) (v : Value F)
        → Shows disabled enabled c v
        → Handled disabled enabled v (loop feq c es)
    unfolding loop
    loop-Shows [] c v s = s
    loop-Shows (e ∷ es) c v s = go (handle feq c e) (handle-Shows c e v s) (loop-Shows es)
      where
        go :
            (r : Option (Instance F × List (Action F)))
            → Handled disabled enabled v r
            → ((c' : Instance F) (v' : Value F)
                → Shows disabled enabled c' v'
                → Handled disabled enabled v' (loop feq c' es))
            → Handled disabled enabled v
                (Cycle.◌>>=◌ r (λ x. Cycle.◌>>=◌ (loop feq x.0 es) (λ y. some (y.0, x.1 ++ y.1))))
        go none h k = h
        go (some (c', acts)) h k =
            after-Handled disabled enabled v acts (loop feq c' es) (k c' (last_output v acts) h)

  nonzero : (n : ℕ) → 0 < n → n == 0 ≡ false
  nonzero n h = ground arith

  -- If the equality of floats is transitive, the period of the timer is not zero and there is at
  -- least one enabled value, the driver never panics, whatever the events are, and after them the
  -- index is in range and the output, last reported, is the value that the state asks for or
  -- equal to it by the test of values.
  pub run-Shows :
      ((a b c : F) → feq a b ≡ true → feq b c ≡ true → feq a c ≡ true)
      → (at_boot : Bool) (millis : ℕ) (disabled : Value F) (enabled : List (Value F))
      → (es : List Event) → 0 < millis
      → 0 < length enabled
      → Handled disabled enabled disabled (run feq (new at_boot millis disabled enabled) es)
  unfolding run start new wanted
  run-Shows trans true millis disabled enabled es m h =
      let (y, ey) = get_elem?_total enabled 0 h in
      rw (nonzero millis m, ey)
        (after-Handled disabled enabled disabled (report_enable true ∷ report_output y ∷ []) _ (
          loop-Shows (value_eq_trans feq trans) disabled enabled es _ y (record {
            in_range = h;
            enabled_kept = refl;
            disabled_kept = refl;
            target = y;
            asked = ey;
            same = inl refl;
          })))
  run-Shows trans false millis disabled enabled es m h = rw (nonzero millis m) (
      after-Handled disabled enabled disabled (report_enable false ∷ report_output disabled ∷ []) _
        (loop-Shows (value_eq_trans feq trans) disabled enabled es _ disabled (record {
          in_range = h;
          enabled_kept = refl;
          disabled_kept = refl;
          target = disabled;
          asked = refl;
          same = inl refl;
        })))

  -- With no enabled value, the first setting that enables the driver makes it panic, whatever
  -- follows.
  run-empty :
      (millis : ℕ) (disabled : Value F) (es : List Event)
      → run feq (new false millis disabled []) (setting true ∷ es) ≡ none
  unfolding run start new loop handle
  run-empty millis disabled es = ground arith

  -- With a period of zero the driver panics at once.
  run-zero :
      (at_boot : Bool) (disabled : Value F) (enabled : List (Value F)) (es : List Event)
      → run feq (new at_boot 0 disabled enabled) es ≡ none
  unfolding run start new
  run-zero at_boot disabled enabled es = refl
