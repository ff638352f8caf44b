-- ===== src/Backend/Simple/View.antt =====
-- What the store of drmemd/src/backends/simple.rs knows of each name, and that no two devices share
-- the place of their last reading.
use drmem.Base.{ℕ, zero, suc, ◌≤◌, ◌<◌, ◌≡◌, ◌≢◌, refl, sym, ap, ◌∙◌, Option, none, some}
use drmem.Base.{List, [], ◌∷◌, ◌++◌, length, length-append, get_or, set, inl, inr, arith}
use drmem.Api.Value.{Text}
use drmem.Api.Name.{Name}
use drmem.Api.Name.Equality.{eqb_name_refl, eqb_name_ne}
use drmem.Backend.Simple.{Reading, DeviceInfo, Store, find, set_tx}
use drmem.Backend.Simple.Lookup.{
  find-head, find-tail, find-set_tx_self, find-set_tx_ne, find-set_tx, find-added, with_tx,
}

-- A device: its owner, its channel for settings and its last reading.
pub record Seen (V : Type 0) : Type 0 where
  pub owner : Text
  pub units : Option Text
  pub tx_setting : Option ℕ
  pub last : Option (Reading V)

module _ {V : Type 0} where
  abbrev pub seen_in : List (Option (Reading V)) → Option DeviceInfo → Option (Seen V)
  seen_in readings none = none
  seen_in readings (some di) = some (record {
    owner = di.owner;
    units = di.units;
    tx_setting = di.tx_setting;
    last = get_or readings di.reading none;
  })

  unfoldable pub view : Store V → Name → Option (Seen V)
  unfolding find
  view st m = seen_in st.readings (find m st.table)

  -- Each device has a place of its own for its last reading.
  pub record IsWf (st : Store V) : Type 0 where
    pub placed :
        (m : Name) (di : DeviceInfo) → find m st.table ≡ some di → di.reading < length st.readings
    pub unshared :
        (m n : Name) (di dj : DeviceInfo)
        → find m st.table ≡ some di
        → find n st.table ≡ some dj
        → di.reading ≡ dj.reading
        → m ≡ n

  get_or-append_none :
      (l : List (Option (Reading V))) (i : ℕ) → get_or (l ++ (none ∷ [])) i none ≡ get_or l i none
  get_or-append_none [] zero = refl
  get_or-append_none [] (suc i) = refl
  get_or-append_none (x ∷ l) zero = refl
  get_or-append_none (x ∷ l) (suc i) = get_or-append_none l i

  get_or-beyond : (l : List (Option (Reading V))) (i : ℕ) → length l ≤ i → get_or l i none ≡ none
  get_or-beyond [] i h = refl
  get_or-beyond (x ∷ l) zero h = absurd (omega (arith, h))
  get_or-beyond (x ∷ l) (suc i) h = get_or-beyond l i (omega (arith, h))

  pub get_or-set_self :
      (l : List (Option (Reading V))) (i : ℕ) (r : Option (Reading V))
      → i < length l
      → get_or (set l i r) i none ≡ r
  get_or-set_self [] i r h = absurd (omega (arith, h))
  get_or-set_self (x ∷ l) zero r h = refl
  get_or-set_self (x ∷ l) (suc i) r h = get_or-set_self l i r (omega (arith, h))

  pub get_or-set_ne :
      (l : List (Option (Reading V))) (i j : ℕ) (r : Option (Reading V))
      → i ≢ j
      → get_or (set l i r) j none ≡ get_or l j none
  get_or-set_ne [] i j r h = refl
  get_or-set_ne (x ∷ l) zero zero r h = absurd (h refl)
  get_or-set_ne (x ∷ l) zero (suc j) r h = refl
  get_or-set_ne (x ∷ l) (suc i) zero r h = refl
  get_or-set_ne (x ∷ l) (suc i) (suc j) r h = get_or-set_ne l i j r (λ e. h (ap suc e))

  -- The store after the registration of a name that it does not know.
  abbrev pub added : Name → DeviceInfo → Store V → Store V
  added n di st = record st { table = (n, di) ∷ st.table; readings = st.readings ++ (none ∷ []) }

  pub view-added_self :
      (n : Name) (di : DeviceInfo) (st : Store V)
      → di.reading ≡ length st.readings
      → view (added n di st) n
        ≡ some
            (record { owner = di.owner; units = di.units; tx_setting = di.tx_setting; last = none })
  unfolding view
  view-added_self n di st h =
      ap (seen_in (st.readings ++ (none ∷ []))) (find-head n n di st.table (eqb_name_refl n))
      ∙ ap
          (λ r.
            some
              (record { owner = di.owner; units = di.units; tx_setting = di.tx_setting; last = r }))
          (get_or-append_none st.readings di.reading
            ∙ get_or-beyond st.readings di.reading (omega (arith, h)))

  pub view-added_ne :
      (n m : Name) (di : DeviceInfo) (st : Store V) → n ≢ m → view (added n di st) m ≡ view st m
  unfolding view
  view-added_ne n m di st h =
      ap (seen_in (st.readings ++ (none ∷ []))) (find-tail n m di st.table (eqb_name_ne n m h))
      ∙ same (find m st.table)
    where
      same :
          (o : Option DeviceInfo) → seen_in (st.readings ++ (none ∷ [])) o ≡ seen_in st.readings o
      same none = refl
      same (some dj) =
          ap
            (λ r.
              some (record {
                owner = dj.owner;
                units = dj.units;
                tx_setting = dj.tx_setting;
                last = r;
              }))
            (get_or-append_none st.readings dj.reading)

  pub added-IsWf :
      (n : Name) (di : DeviceInfo) (st : Store V)
      → di.reading ≡ length st.readings
      → IsWf st
      → IsWf (added n di st)
  added-IsWf n di st h w = record {
    placed = λ m dj f. elim (find-added n m di dj st.table f) [
      | inl q ↦ omega (arith, h, ap (λ d. d.reading) q.1, length-append st.readings (none ∷ []))
      | inr g ↦ omega (arith, w.placed m dj g, length-append st.readings (none ∷ []))
    ];
    unshared = λ m k dj dk f g e. elim (find-added n m di dj st.table f) [
      | inl p ↦ elim (find-added n k di dk st.table g) [
        | inl q ↦ sym p.0 ∙ q.0
        | inr q ↦ absurd (omega (arith, h, e, ap (λ d. d.reading) p.1, w.placed k dk q))
      ]
      | inr p ↦ elim (find-added n k di dk st.table g) [
        | inl q ↦ absurd (omega (arith, h, e, ap (λ d. d.reading) q.1, w.placed m dj p))
        | inr q ↦ w.unshared m k dj dk p q e
      ]
    ];
  }

  -- The store after another channel for the settings of a device is made.
  abbrev pub rewired : Name → ℕ → Store V → Store V
  rewired n tx st = record st { table = set_tx n tx st.table; channels = suc tx }

  pub view-rewired_self :
      (n : Name) (tx : ℕ) (st : Store V) (di : DeviceInfo)
      → find n st.table ≡ some di
      → view (rewired n tx st) n ≡ seen_in st.readings (some (record di { tx_setting = some tx }))
  unfolding view
  view-rewired_self n tx st di e =
      ap (seen_in st.readings) (find-set_tx_self n tx st.table ∙ ap (with_tx tx) e)

  pub view-rewired_ne :
      (n m : Name) (tx : ℕ) (st : Store V) → n ≢ m → view (rewired n tx st) m ≡ view st m
  unfolding view
  view-rewired_ne n m tx st h = ap (seen_in st.readings) (find-set_tx_ne n m tx st.table h)

  pub rewired-IsWf : (n : Name) (tx : ℕ) (st : Store V) → IsWf st → IsWf (rewired n tx st)
  rewired-IsWf n tx st w = record {
    placed = λ m dj f.
        let (di, g, e) = find-set_tx n m tx st.table dj f in omega (arith, e, w.placed m di g);
    unshared = λ m k dj dk f g e.
        let (di, f', p) = find-set_tx n m tx st.table dj f in
        let (dl, g', q) = find-set_tx n k tx st.table dk g in
        w.unshared m k di dl f' g' (p ∙ e ∙ sym q);
  }
