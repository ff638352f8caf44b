-- ===== src/Driver/Memory/Replies.antt =====
-- What the settings of the memory driver lead to, drmemd/src/driver/memory: the reply that each of
-- them is due, and the value that a device comes to.
use drmem.Base.{ℕ, zero, suc, ◌+◌, ◌-◌, ◌≤◌, ◌≡◌, refl, ap, ◌∙◌, Option, none, some, List, []}
use drmem.Base.{◌∷◌, ◌++◌, map, Bool-cases, inl, inr, arith, if◌then◌else◌}
use mathlib.Core.Path.{subst}
use drmem.Api.Value.{Value, is_same_type}
use drmem.Driver.Memory.{get_validator, MemDevice, Reply, ok, type_error, take_good, get_next}
use drmem.Driver.Memory.{report_update, look_on, report_next, round, run, register}

module _ {F : Type 0} where
  -- A setting of the type of the configured value is accepted with its value, another is refused.
  abbrev pub due : Value F → ℕ × Value F → Reply F
  due initial (c, v) = if is_same_type v initial then ok c v else type_error c

  -- The value that a device comes to when its settings have all been taken: the last one that is
  -- accepted, or else the value that it has.
  abbrev pub comes_to : Value F → Option (Value F) → List (ℕ × Value F) → Option (Value F)
  comes_to initial o [] = o
  comes_to initial o ((c, v) ∷ q) =
      comes_to initial (if is_same_type v initial then some v else o) q

  abbrev pub final : MemDevice F → Option (Value F)
  final d = comes_to d.initial d.last d.settings

  -- The sum of the weights of some replies.
  abbrev pub total : (Reply F → ℕ) → List (Reply F) → ℕ
  total w [] = 0
  total w (r ∷ rs) = w r + total w rs

  -- The sum of the weights of the replies that the waiting settings of the devices are due.
  abbrev pub owed : (Reply F → ℕ) → List (MemDevice F) → ℕ
  owed w [] = 0
  owed w (d ∷ ds) = total w (map (due d.initial) d.settings) + owed w ds

  total-append :
      (w : Reply F → ℕ) (xs ys : List (Reply F)) → total w (xs ++ ys) ≡ total w xs + total w ys
  total-append w [] ys = omega arith
  total-append w (x ∷ xs) ys = omega (arith, total-append w xs ys)

  validator_lem : (a b : Value F) → get_validator a b ≡ is_same_type b a
  unfolding get_validator is_same_type
  validator_lem a b = ground arith

  abbrev or_last : Option (Value F) → Option (Value F) → Option (Value F)
  or_last o none = o
  or_last o (some v) = some v

  -- What is taken from the settings `q0` of a device whose last value is `o`.
  abbrev Taken :
      (Reply F → ℕ)
      → Value F
      → Option (Value F)
      → List (ℕ × Value F)
      → Option (Value F) × List (ℕ × Value F) × List (Reply F)
      → Type 0
  Taken w initial o q0 (r, q, rs) =
      (total w rs + total w (map (due initial) q) ≡ total w (map (due initial) q0))
      × (comes_to initial (or_last o r) q ≡ comes_to initial o q0)

  take_good-Taken :
      (w : Reply F → ℕ) (initial : Value F) (o : Option (Value F)) (q : List (ℕ × Value F))
      → Taken w initial o q (take_good initial q)
  unfolding take_good
  take_good-Taken w initial o [] = (refl, refl)
  take_good-Taken w initial o ((c, v) ∷ q) =
      rw (validator_lem initial v) (elim (Bool-cases (is_same_type v initial)) [
        | inl e ↦ rw e (omega arith, refl)
        | inr e ↦ let (a, b) = take_good-Taken w initial o q in rw e (omega (arith, a), b)
      ])

  -- The devices after the report that the driver makes of what it found.
  abbrev reported : ℕ → Option (ℕ × Value F) → List (MemDevice F) → List (MemDevice F)
  reported idx none ds = ds
  reported idx (some (i, v)) ds = report_update (i - idx) v ds

  abbrev InRange : ℕ → Option (ℕ × Value F) → Type 0
  InRange idx none = Unit {0}
  InRange idx (some (i, v)) = idx ≤ i

  -- What a round leaves of the devices `ds` and which replies it gives.
  abbrev Kept : (Reply F → ℕ) → List (MemDevice F) → List (MemDevice F) → List (Reply F) → Type 0
  Kept w ds ds' rs = (total w rs + owed w ds' ≡ owed w ds) × (map final ds' ≡ map final ds)

  abbrev Found :
      (Reply F → ℕ)
      → ℕ
      → List (MemDevice F)
      → Option (ℕ × Value F) × List (MemDevice F) × List (Reply F)
      → Type 0
  Found w idx ds (r, ds', rs) = InRange idx r × Kept w ds (reported idx r ds') rs

  final_cons :
      {x y : Option (Value F)} {xs ys : List (Option (Value F))} → x ≡ y → xs ≡ ys → x ∷ xs ≡ y ∷ ys
  final_cons e f = cc

  look_on-Found :
      (w : Reply F → ℕ) (idx : ℕ) (d : MemDevice F) (ds : List (MemDevice F))
      → (r : Option (Value F) × List (ℕ × Value F) × List (Reply F))
      → (later : Option (ℕ × Value F) × List (MemDevice F) × List (Reply F))
      → Taken w d.initial d.last d.settings r
      → Found w (suc idx) ds later
      → Found w idx (d ∷ ds) (look_on idx d ds r later)
  unfolding report_update
  look_on-Found w idx d ds (some v, q, rs) later h k =
      let e : 0 ≡ idx - idx = omega arith in
      (
        omega arith,
        subst (λ j. Kept w (d ∷ ds) (report_update j v (record d { settings = q } ∷ ds)) rs) e
            (omega (arith, h.0), ap (λ x. x ∷ map final ds) h.1),
      )
  look_on-Found w idx d ds (none, q, rs) (none, ds', rs') h k =
      (tt, (omega (arith, total-append w rs rs', h.0, k.1.0), final_cons h.1 k.1.1))
  look_on-Found w idx d ds (none, q, rs) (some (i, v), ds', rs') h k =
      let e : suc (i - suc idx) ≡ i - idx = omega (arith, k.0) in
      let rest = record d { settings = q } ∷ ds' in
      (
        omega (arith, k.0),
        subst (λ j. Kept w (d ∷ ds) (report_update j v rest) (rs ++ rs')) e
            (omega (arith, total-append w rs rs', h.0, k.1.0), final_cons h.1 k.1.1),
      )

  get_next-Found :
      (w : Reply F → ℕ) (idx : ℕ) (ds : List (MemDevice F)) → Found w idx ds (get_next idx ds)
  unfolding get_next
  get_next-Found w idx [] = (tt, (refl, refl))
  get_next-Found w idx (d ∷ ds) =
      look_on-Found w idx d ds (take_good d.initial d.settings) (get_next (suc idx) ds)
        (take_good-Taken w d.initial d.last d.settings) (get_next-Found w (suc idx) ds)

  report_next-Kept :
      (w : Reply F → ℕ) (ds : List (MemDevice F))
      → (r : Option (ℕ × Value F) × List (MemDevice F) × List (Reply F)) → Found w 0 ds r
      → Kept w ds (report_next r).0 (report_next r).1
  report_next-Kept w ds (none, ds', rs) h = h.1
  report_next-Kept w ds (some (i, v), ds', rs) h =
      subst (λ j. Kept w ds (report_update j v ds') rs) (omega arith) h.1

  run-Kept :
      (w : Reply F → ℕ) (n : ℕ) (ds : List (MemDevice F)) → Kept w ds (run n ds).0 (run n ds).1
  unfolding run round
  run-Kept w zero ds = (omega arith, refl)
  run-Kept w (suc n) ds =
      let (e, f) = report_next-Kept w ds (get_next 0 ds) (get_next-Found w 0 ds) in
      let (e', f') = run-Kept w n (round ds).0 in
      (omega (arith, e, e', total-append w (round ds).1 (run n (round ds).0).1), f' ∙ f)

  -- The value that a device has after its registration: its last one, if that has the type of the
  -- configured one, and else the configured one.
  abbrev pub starts_at : Value F → Option (Value F) → Option (Value F)
  starts_at initial none = some initial
  starts_at initial (some v) = if is_same_type v initial then some v else some initial

  -- The value that a device comes to from its registration on.
  abbrev pub to_come : MemDevice F → Option (Value F)
  to_come d = comes_to d.initial (starts_at d.initial d.last) d.settings

  register-final : (d : MemDevice F) → final (register d) ≡ to_come d
  unfolding register
  register-final d = ground arith

  map-register-final : (ds : List (MemDevice F)) → map final (map register ds) ≡ map to_come ds
  map-register-final [] = refl
  map-register-final (d ∷ ds) = final_cons (register-final d) (map-register-final ds)

  -- A registration asks nothing of the settings.
  register-owed : (w : Reply F → ℕ) (ds : List (MemDevice F)) → owed w (map register ds) ≡ owed w ds
  unfolding register
  register-owed w [] = refl
  register-owed w (d ∷ ds) = ground (arith, register-owed w ds)

  pub run-register :
      (w : Reply F → ℕ) (n : ℕ) (ds : List (MemDevice F))
      → (total w (run n (map register ds)).1 + owed w (run n (map register ds)).0 ≡ owed w ds)
        × (map final (run n (map register ds)).0 ≡ map to_come ds)
  run-register w n ds =
      let (e, f) = run-Kept w n (map register ds) in
      (e ∙ register-owed w ds, f ∙ map-register-final ds)
