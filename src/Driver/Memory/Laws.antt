-- ===== src/Driver/Memory/Laws.antt =====
-- The devices of the memory driver keep their types, drmemd/src/driver/memory.
use drmem.Base.{
  ℕ, zero, suc, ◌+◌, ◌-◌, ◌≤◌, ◌≡◌, refl, sym, ap, true, Option, none, some, List, [], ◌∷◌,
}
use drmem.Base.{length, length-append, map, Bool-cases, inl, inr, arith}
use mathlib.Core.Path.{subst}
use drmem.Api.Value.{Value, is_same_type}
use drmem.Driver.Memory.{get_validator, MemDevice, Reply, type_error, register, take_good, get_next}
use drmem.Driver.Memory.Replies.{final, to_come, total, owed, run-register}
use drmem.Driver.Memory.{report_update, look_on, report_next, round, run}

module _ {F : Type 0} where
  same_refl : (v : Value F) → is_same_type v v ≡ true
  unfolding is_same_type
  same_refl v = ground arith

  validator-same : (a b : Value F) → get_validator a b ≡ true → is_same_type b a ≡ true
  unfolding get_validator is_same_type
  validator-same a b h = ground arith

  -- The device has a value, of the type of the configured one.
  abbrev pub HasType : Value F → Option (Value F) → Type 0
  HasType initial none = ⊥
  HasType initial (some v) = is_same_type v initial ≡ true

  abbrev pub AllTyped : List (MemDevice F) → Type 0
  AllTyped [] = Unit {0}
  AllTyped (d ∷ ds) = HasType d.initial d.last × AllTyped ds

  register_fields :
      (i : Value F) (o : Option (Value F)) (q : List (ℕ × Value F))
      → HasType i (register (record { initial = i; last = o; settings = q })).last
  unfolding register
  register_fields i none q = same_refl i
  register_fields i (some v) q = elim (Bool-cases (is_same_type v i)) [
    | inl s ↦ rw s s
    | inr s ↦ rw s (same_refl i)
  ]

  register-initial : (d : MemDevice F) → (register d).initial ≡ d.initial
  unfolding register
  register-initial d = ground arith

  register-HasType : (d : MemDevice F) → HasType (register d).initial (register d).last
  register-HasType d =
      subst (λ i. HasType i (register d).last) (sym (register-initial d))
        (register_fields d.initial d.last d.settings)

  map-AllTyped : (ds : List (MemDevice F)) → AllTyped (map register ds)
  map-AllTyped [] = tt
  map-AllTyped (d ∷ ds) = (register-HasType d, map-AllTyped ds)

  -- How many settings wait.
  abbrev pub waiting : List (MemDevice F) → ℕ
  waiting [] = 0
  waiting (d ∷ ds) = length d.settings + waiting ds

  -- What is taken from the settings `q` of a device: all are answered or still wait.
  abbrev FromQueue : Value F → ℕ → Option (Value F) × List (ℕ × Value F) × List (Reply F) → Type 0
  FromQueue initial n (none, q, rs) = (length q ≡ 0) × (length rs ≡ n)
  FromQueue initial n (some v, q, rs) =
      HasType initial (some v) × (length rs + length q ≡ n) × (suc (length q) ≤ n)

  refuse :
      (initial : Value F) (n c : ℕ) (r : Option (Value F) × List (ℕ × Value F) × List (Reply F))
      → FromQueue initial n r
      → FromQueue initial (suc n) (r.0, r.1, type_error c ∷ r.2)
  refuse initial n c (none, q, rs) h = (h.0, omega (arith, h.1))
  refuse initial n c (some v, q, rs) h = (h.0, omega (arith, h.1), omega (arith, h.2))

  take_good-FromQueue :
      (initial : Value F) (q : List (ℕ × Value F))
      → FromQueue initial (length q) (take_good initial q)
  unfolding take_good
  take_good-FromQueue initial [] = (refl, refl)
  take_good-FromQueue initial ((c, v) ∷ q) = elim (Bool-cases (get_validator initial v)) [
    | inl e ↦ rw e (validator-same initial v e, omega arith, omega arith)
    | inr e ↦
        rw e (refuse initial (length q) c (take_good initial q) (take_good-FromQueue initial q))
  ]

  -- What a round finds among the devices `ds`, the first of which has the number `idx`.
  abbrev Found :
      ℕ → List (MemDevice F) → Option (ℕ × Value F) × List (MemDevice F) × List (Reply F) → Type 0
  Found idx ds (none, ds', rs) = AllTyped ds' × (waiting ds' ≡ 0) × (length rs ≡ waiting ds)
  Found idx ds (some (i, v), ds', rs) =
      AllTyped (report_update (i - idx) v ds')
      × (idx ≤ i)
      × (length rs + waiting ds' ≡ waiting ds)
      × (suc (waiting ds') ≤ waiting ds)

  look_on-Found :
      (idx : ℕ) (d : MemDevice F) (ds : List (MemDevice F))
      → (r : Option (Value F) × List (ℕ × Value F) × List (Reply F))
      → (later : Option (ℕ × Value F) × List (MemDevice F) × List (Reply F))
      → HasType d.initial d.last
      → AllTyped ds
      → FromQueue d.initial (length d.settings) r
      → Found (suc idx) ds later
      → Found idx (d ∷ ds) (look_on idx d ds r later)
  unfolding report_update
  look_on-Found idx d ds (some v, q, rs) later t ts h k =
      let e : 0 ≡ idx - idx = omega arith in
      (
        subst (λ j. AllTyped (report_update j v (record d { settings = q } ∷ ds))) e (h.0, ts),
        omega arith,
        omega (arith, h.1),
        omega (arith, h.2),
      )
  look_on-Found idx d ds (none, q, rs) (none, ds', rs') t ts h k =
      ((t, k.0), omega (arith, h.0, k.1), omega (arith, length-append rs rs', h.1, k.2))
  look_on-Found idx d ds (none, q, rs) (some (i, v), ds', rs') t ts h k =
      let e : suc (i - suc idx) ≡ i - idx = omega (arith, k.1) in
      (
        subst (λ j. AllTyped (report_update j v (record d { settings = q } ∷ ds'))) e (t, k.0),
        omega (arith, k.1),
        omega (arith, length-append rs rs', h.0, h.1, k.2),
        omega (arith, h.0, h.1, k.3),
      )

  get_next-Found :
      (idx : ℕ) (ds : List (MemDevice F)) → AllTyped ds → Found idx ds (get_next idx ds)
  unfolding get_next
  get_next-Found idx [] t = (tt, refl, refl)
  get_next-Found idx (d ∷ ds) t =
      look_on-Found idx d ds (take_good d.initial d.settings) (get_next (suc idx) ds) t.0 t.1
        (take_good-FromQueue d.initial d.settings) (get_next-Found (suc idx) ds t.1)

  waiting-report :
      (i : ℕ) (v : Value F) (ds : List (MemDevice F)) → waiting (report_update i v ds) ≡ waiting ds
  unfolding report_update
  waiting-report i v [] = refl
  waiting-report zero v (d ∷ ds) = refl
  waiting-report (suc i) v (d ∷ ds) = ap (λ n. length d.settings + n) (waiting-report i v ds)

  waiting-register : (ds : List (MemDevice F)) → waiting (map register ds) ≡ waiting ds
  unfolding register
  waiting-register [] = refl
  waiting-register (d ∷ ds) = ground (arith, waiting-register ds)

  -- What a round does.
  abbrev Served : ℕ → List (MemDevice F) × List (Reply F) → Type 0
  Served n (ds, rs) = AllTyped ds × (length rs + waiting ds ≡ n) × (waiting ds ≤ n - 1)

  report_next-Served :
      (ds : List (MemDevice F))
      → (r : Option (ℕ × Value F) × List (MemDevice F) × List (Reply F)) → Found 0 ds r
      → Served (waiting ds) (report_next r)
  report_next-Served ds (none, ds', rs) h = (h.0, omega (arith, h.1, h.2), omega (arith, h.1))
  report_next-Served ds (some (i, v), ds', rs) h = (
    subst (λ j. AllTyped (report_update j v ds')) (omega arith) h.0,
    omega (arith, h.2, waiting-report i v ds'),
    omega (arith, h.3, waiting-report i v ds'),
  )

  run-Served :
      (n : ℕ) (ds : List (MemDevice F))
      → AllTyped ds
      → AllTyped (run n ds).0
        × (length (run n ds).1 + waiting (run n ds).0 ≡ waiting ds)
        × (waiting (run n ds).0 ≤ waiting ds - n)
  unfolding run round
  run-Served zero ds t = (t, omega arith, omega arith)
  run-Served (suc n) ds t =
      let (t', e, le) = report_next-Served ds (get_next 0 ds) (get_next-Found 0 ds t) in
      let (t'', e', le') = run-Served n (round ds).0 t' in
      (
        t'',
        omega (arith, e, e', length-append (round ds).1 (run n (round ds).0).1),
        omega (arith, le, le'),
      )

  -- Whatever the last values of the devices are at registration and whatever settings wait for
  -- them, after any number of rounds: each device has a last value, of the type of its configured
  -- one; the value that the device comes to, once the settings that still wait are taken too, is
  -- the last of all its settings of that type, or else the value that it starts at, which is its
  -- last one if that has the type and the configured one if not; the replies that were given,
  -- with those that the waiting settings are due, have for any weights of replies the same total
  -- as those that all settings were due, where a setting of the type is due its own value and
  -- another one a type error, each for its client; and each round leaves fewer settings that
  -- wait, while there are any.
  pub run-AllTyped :
      (ds : List (MemDevice F)) (n : ℕ) (w : Reply F → ℕ)
      → let r = run n (map register ds) in
        AllTyped r.0
        × (map final r.0 ≡ map to_come ds)
        × (total w r.1 + owed w r.0 ≡ owed w ds)
        × (waiting r.0 ≤ waiting ds - n)
  run-AllTyped ds n w =
      let (t, e, le) = run-Served n (map register ds) (map-AllTyped ds) in
      let (k, f) = run-register w n ds in (t, f, k, omega (arith, le, waiting-register ds))
