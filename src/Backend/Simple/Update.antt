-- ===== src/Backend/Simple/Update.antt =====
-- Reports of values in drmemd/src/backends/simple.rs: a reporter shares the place of the last reading
-- with the entry of the table from which it was cloned.
use drmem.Base.{ℕ, ◌<◌, ◌≡◌, ◌≢◌, sym, ap, ◌∙◌, Option, none, some}
use drmem.Base.{length, length-set, set, get_or, Option-cases, inl, inr, arith}
use drmem.Api.Name.{Name}
use drmem.Backend.Simple.{Reading, DeviceInfo, Report, Store, find}
use drmem.Backend.Simple.{reading_of, report_value}
use drmem.Backend.Simple.View.{Seen, seen_in, view, IsWf, get_or-set_self, get_or-set_ne}
use drmem.Backend.Simple.Register.{IsFor}

module _ {V : Type 0} where
  abbrev pub with_last : Option (Reading V) → Option (Seen V) → Option (Seen V)
  with_last r none = none
  with_last r (some s) = some (record s { last = r })

  abbrev pub last_of : Option (Seen V) → Option (Reading V)
  last_of none = none
  last_of (some s) = s.last

module _ {V : Type 0} (max_time : ℕ) where
  module _ (st : Store V) (i : ℕ) (r : Option (Reading V)) where
    abbrev changed : Store V
    changed = record st { readings = set st.readings i r }

    changed-IsWf : IsWf st → IsWf changed
    changed-IsWf w = record {
      placed = λ m di f. omega (arith, w.placed m di f, length-set st.readings i r);
      unshared = w.unshared;
    }

    view-changed_self :
        (n : Name) (di : DeviceInfo)
        → find n st.table ≡ some di
        → di.reading ≡ i
        → i < length st.readings
        → view changed n ≡ with_last r (view st n)
    unfolding view
    view-changed_self n di f e lt =
        ap (seen_in (set st.readings i r)) f
        ∙ ap
            (λ q.
              some (record {
                owner = di.owner;
                units = di.units;
                tx_setting = di.tx_setting;
                last = q;
              }))
            (ap (λ j. get_or (set st.readings i r) j none) e ∙ get_or-set_self st.readings i r lt)
        ∙ sym (ap (λ o. with_last r (seen_in st.readings o)) f)

    view-changed_ne :
        (m : Name)
        → ((dj : DeviceInfo) → find m st.table ≡ some dj → i ≢ dj.reading)
        → view changed m ≡ view st m
    unfolding view
    view-changed_ne m h = elim (Option-cases (find m st.table)) [
      | inl f ↦ ap (seen_in (set st.readings i r)) f ∙ sym (ap (seen_in st.readings) f)
      | inr (dj, f) ↦
          ap (seen_in (set st.readings i r)) f
          ∙ ap
              (λ q. some (record {
                owner = dj.owner;
                units = dj.units;
                tx_setting = dj.tx_setting;
                last = q;
              }))
              (get_or-set_ne st.readings i dj.reading r (h dj f))
          ∙ sym (ap (seen_in st.readings) f)
    ]

  -- A report sets the last reading of its device and nothing else.
  pub report_value_lem :
      (r : Report) (now : ℕ) (v : V) (st : Store V)
      → IsWf st
      → IsFor st r.name r
      → IsWf (report_value max_time r now v st).0
        × ((report_value max_time r now v st).1
            ≡ reading_of max_time now v (last_of (view st r.name)))
        × (view (report_value max_time r now v st).0 r.name
            ≡ with_last (some (report_value max_time r now v st).1) (view st r.name))
        × ((m : Name) → r.name ≢ m → view (report_value max_time r now v st).0 m ≡ view st m)
  unfolding report_value view
  report_value_lem r now v st w (e, (di, f, k)) = (
    changed-IsWf st r.di.reading _ w,
    ap (reading_of max_time now v) (
        ap (λ j. get_or st.readings j none) (sym k)
        ∙ sym (ap (λ o. last_of (seen_in st.readings o)) f)),
    view-changed_self st r.di.reading _ r.name di f k (omega (arith, k, w.placed r.name di f)),
    λ m h.
        view-changed_ne st r.di.reading _ m (λ dj g q. h (w.unshared r.name m di dj f g (k ∙ q))),
  )
