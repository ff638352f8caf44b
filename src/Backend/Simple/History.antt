-- ===== src/Backend/Simple/History.antt =====
-- The histories of the store of drmemd/src/backends/simple.rs: registrations, and reports by any of
-- the reporters that they gave.
use drmem.Base.{ℕ, ◌≡◌, ◌≢◌, refl, sym, ap, ap₂, ◌∙◌, Bool, Option, none, some, List, [], ◌∷◌}
use drmem.Base.{Bool-cases, inl, inr}
use mathlib.Core.Path.{subst}
use mathlib.Core.List.Memᴰ
use mathlib.Core.List.{Memᴰ}
use drmem.Api.Value.{Text, eqb_text}
use drmem.Api.Name.{Name}
use drmem.Api.Name.Equality.{eqb_name, eqb_name_sound, eqb_name_distinct}
use drmem.Backend.Simple.{DeviceInfo, Report, Table, Store, Result, ok, err, find, set_tx, empty}
use drmem.Backend.Simple.{
  ro_of, rw_of, register_read_only_device, register_read_write_device, report_value, reading_of,
}
use drmem.Backend.Simple.Lookup.{find-tail, find-set_tx_self, find-set_tx_ne, with_tx}
use drmem.Backend.Simple.View.{Seen, seen_in, view, IsWf}
use drmem.Backend.Simple.Register.{IsFor, RoResult, RwResult, register_read_only_device_lem}
use drmem.Backend.Simple.Register.{register_read_write_device_lem}
use drmem.Backend.Simple.Update.{with_last, last_of, report_value_lem}

abbrev pub granted : Result Report → List Report → List Report
granted (ok r) rs = r ∷ rs
granted (err e) rs = rs

-- What is found of a name stays found, with the same place for its last reading.
abbrev Keeps : Table → Table → Type 0
Keeps t t' =
    (m : Name) (di : DeviceInfo)
    → find m t ≡ some di
    → (dj : DeviceInfo) × (find m t' ≡ some dj) × (dj.reading ≡ di.reading)

add-Keeps : (n : Name) (new : DeviceInfo) (t : Table) → find n t ≡ none → Keeps t ((n, new) ∷ t)
add-Keeps n new t e m di f = elim (Bool-cases (eqb_name n m)) [
  | inl q ↦
      let f' : find n t ≡ some di =
        subst (λ k. find k t ≡ some di) (sym (eqb_name_sound n m q)) f in
      cc
  | inr q ↦ (di, find-tail n m new t q ∙ f, refl)
]

set_tx-Keeps : (n : Name) (tx : ℕ) (t : Table) → Keeps t (set_tx n tx t)
set_tx-Keeps n tx t m di f = elim (Bool-cases (eqb_name n m)) [
  | inl q ↦
      let e = eqb_name_sound n m q in
      (
        record di { tx_setting = some tx },
        subst (λ k. find k (set_tx n tx t) ≡ some (record di { tx_setting = some tx })) e
            (find-set_tx_self n tx t ∙ ap (with_tx tx) (subst (λ k. find k t ≡ some di) (sym e) f)),
        refl,
      )
  | inr q ↦ (di, find-set_tx_ne n m tx t (eqb_name_distinct n m q) ∙ f, refl)
]

empty-finds : (m : Name) (di : DeviceInfo) → find m [] ≡ some di → ⊥
unfolding find
empty-finds m di f = cc

module _ {V : Type 0} (max_time : ℕ) where
  abbrev pub granted_rw : Result (Report × ℕ × Option V) → List Report → List Report
  granted_rw (ok (r, tx, v)) rs = r ∷ rs
  granted_rw (err e) rs = rs

  -- The stores that occur, with all the reporters that were ever given.
  pub data Reached : Store V → List Report → Type 0 where
    start : Reached empty []
    read_only :
        {st : Store V} {rs : List Report} (driver : Text) (name : Name) (units : Option Text)
        → Reached st rs
        → Reached
            (register_read_only_device driver name units st).0
            (granted (register_read_only_device driver name units st).1 rs)
    read_write :
        {st : Store V} {rs : List Report} (driver : Text) (name : Name) (units : Option Text)
        → Reached st rs
        → Reached
            (register_read_write_device driver name units st).0
            (granted_rw (register_read_write_device driver name units st).1 rs)
    report :
        {st : Store V} {rs : List Report} (r : Report) (now : ℕ) (v : V)
        → Memᴰ r rs
        → Reached st rs
        → Reached (report_value max_time r now v st).0 rs

  ro-Keeps :
      (driver : Text) (n : Name) (units : Option Text) (st : Store V) (o : Option DeviceInfo)
      → find n st.table ≡ o
      → Keeps st.table (ro_of driver n units st o).0.table
  ro-Keeps driver n units st none e = add-Keeps n _ st.table e
  ro-Keeps driver n units st (some di) e = elim (Bool-cases (eqb_text di.owner driver)) [
    | inl f ↦ rw f (λ m dj g. (dj, g, refl))
    | inr f ↦ rw f (λ m dj g. (dj, g, refl))
  ]

  rw-Keeps :
      (driver : Text) (n : Name) (units : Option Text) (st : Store V) (o : Option DeviceInfo)
      → find n st.table ≡ o
      → Keeps st.table (rw_of driver n units st o).0.table
  rw-Keeps driver n units st none e = add-Keeps n _ st.table e
  rw-Keeps driver n units st (some di) e = elim (Bool-cases (eqb_text di.owner driver)) [
    | inl f ↦ rw f (set_tx-Keeps n _ st.table)
    | inr f ↦ rw f (λ m dj g. (dj, g, refl))
  ]

  abbrev AllFor : Store V → List Report → Type 0
  AllFor st rs = (r : Report) → Memᴰ r rs → IsFor st r.name r

  Keeps-AllFor :
      (st st' : Store V) (rs : List Report)
      → Keeps st.table st'.table
      → AllFor st rs
      → AllFor st' rs
  Keeps-AllFor st st' rs k a r m =
      let (e, (di, f, q)) = a r m in let (dj, g, p) = k r.name di f in (e, (dj, g, p ∙ q))

  add-AllFor :
      (st : Store V) (n : Name) (r : Report) (rs : List Report)
      → IsFor st n r
      → AllFor st rs
      → AllFor st (r ∷ rs)
  add-AllFor st n r rs (e, (di, f, q)) a q' m = elim (Memᴰ.cases_cons m) [
    | inl same ↦
        subst (λ k. IsFor st k.name k) (sym same)
          (refl, (di, subst (λ k. find k st.table ≡ some di) (sym e) f, q))
    | inr old ↦ a q' old
  ]

  granted-AllFor :
      (st : Store V) (n : Name) (b : Bool) (result : Result Report) (rs : List Report)
      → RoResult st n b result
      → AllFor st rs
      → AllFor st (granted result rs)
  granted-AllFor st n b (err e) rs h a = a
  granted-AllFor st n b (ok r) rs h a = add-AllFor st n r rs h.1 a

  granted_rw-AllFor :
      (st : Store V) (n : Name) (b : Bool) (tx : ℕ) (v : Option V)
      → (result : Result (Report × ℕ × Option V)) (rs : List Report) → RwResult st n b tx v result
      → AllFor st rs
      → AllFor st (granted_rw result rs)
  granted_rw-AllFor st n b tx v (err e) rs h a = a
  granted_rw-AllFor st n b tx v (ok (r, tx', v')) rs h a = add-AllFor st n r rs h.1 a

  -- No two devices share a place, and each reporter is for the device of its name.
  pub Reached-IsFor : {st : Store V} {rs : List Report} → Reached st rs → IsWf st × AllFor st rs
  unfolding empty report_value register_read_only_device register_read_write_device
  Reached-IsFor start = (
    record {
      placed = λ m di f. absurd (empty-finds m di f);
      unshared = λ m n di dj f g e. absurd (empty-finds m di f);
    },
    λ r m. absurd (Memᴰ.not-nil m),
  )
  Reached-IsFor (read_only {st} {rs} driver name units h) =
      let (w, a) = Reached-IsFor h in
      let (w', self, others, result) = register_read_only_device_lem driver name units st w in
      let st' = (register_read_only_device driver name units st).0 in
      (
        w',
        granted-AllFor st' name _ (register_read_only_device driver name units st).1 rs result
            (Keeps-AllFor st st' rs (ro-Keeps driver name units st (find name st.table) refl) a),
      )
  Reached-IsFor (read_write {st} {rs} driver name units h) =
      let (w, a) = Reached-IsFor h in
      let (w', self, others, result) = register_read_write_device_lem driver name units st w in
      let st' = (register_read_write_device driver name units st).0 in
      (
        w',
        granted_rw-AllFor st' name _ _ _ (register_read_write_device driver name units st).1 rs
            result
            (Keeps-AllFor st st' rs (rw-Keeps driver name units st (find name st.table) refl) a),
      )
  Reached-IsFor (report {st} {rs} r now v m h) =
      let (w, a) = Reached-IsFor h in ((report_value_lem max_time r now v st w (a r m)).0, a)

  found-seen :
      (st : Store V) (n : Name) (di : DeviceInfo)
      → find n st.table ≡ some di
      → (s : Seen V) × (view st n ≡ some s)
  unfolding view
  found-seen st n di f = (_, ap (seen_in st.readings) f)

  -- In every history of registrations and reports, a report through any reporter that was ever
  -- given, also to an earlier instance of the driver, sets the last reading of the device of its
  -- name to the value, at the time that `next_ts` gives after the last reading of that device,
  -- and changes nothing that the store knows of any other name.
  pub Reached-reported :
      {st : Store V} {rs : List Report} (r : Report) (now : ℕ) (v : V)
      → Reached st rs
      → Memᴰ r rs
      → (s : Seen V) × (view st r.name ≡ some s)
        × (view (report_value max_time r now v st).0 r.name
            ≡ some (record s { last = some (reading_of max_time now v s.last) }))
        × ((m : Name) → r.name ≢ m → view (report_value max_time r now v st).0 m ≡ view st m)
  Reached-reported {st} {rs} r now v h m =
      let (w, a) = Reached-IsFor h in
      let (w', sent, self, others) = report_value_lem max_time r now v st w (a r m) in
      let (e, (di, f, k)) = a r m in
      let (s, q) = found-seen st r.name di f in
      (
        s,
        q,
        self
            ∙ ap₂ (λ x o. with_last (some x) o)
                (sent ∙ ap (λ o. reading_of max_time now v (last_of o)) q) q,
        others,
      )
