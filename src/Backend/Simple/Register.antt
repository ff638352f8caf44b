-- ===== src/Backend/Simple/Register.antt =====
-- The registration of devices by drivers in drmemd/src/backends/simple.rs, as changes to what the
-- store knows of each name.
use drmem.Base.{ℕ, ◌≡◌, ◌≢◌, refl, ap, ◌∙◌, Bool, true, false, Option, none, some}
use drmem.Base.{length, if◌then◌else◌, Bool-cases, inl, inr}
use drmem.Api.Value.{Text, eqb_text}
use drmem.Api.Name.{Name}
use drmem.Api.Name.Equality.{eqb_name_refl}
use drmem.Backend.Simple.{DeviceInfo, Report, Store, Result, ok, err, in_use, create, find}
use drmem.Backend.Simple.{
  value_of, ro_of, rw_of, register_read_only_device, register_read_write_device,
}
use drmem.Backend.Simple.Lookup.{with_tx, find-head, find-set_tx_self}
use drmem.Backend.Simple.View.{
  Seen, seen_in, view, IsWf, view-added_self, view-added_ne, added-IsWf,
}
use drmem.Backend.Simple.View.{view-rewired_self, view-rewired_ne, rewired-IsWf}

module _ {V : Type 0} where
  -- A driver may register a name that is new or its own.
  abbrev pub may_register : Text → Option (Seen V) → Bool
  may_register driver none = true
  may_register driver (some s) = eqb_text s.owner driver

  abbrev pub read_only_spec : Text → Option Text → Option (Seen V) → Option (Seen V)
  read_only_spec driver units none =
      some (record { owner = driver; units = units; tx_setting = none; last = none })
  read_only_spec driver units (some s) = some s

  abbrev pub read_write_spec : Text → Option Text → ℕ → Option (Seen V) → Option (Seen V)
  read_write_spec driver units tx none =
      some (record { owner = driver; units = units; tx_setting = some tx; last = none })
  read_write_spec driver units tx (some s) =
      if eqb_text s.owner driver then some (record s { tx_setting = some tx }) else some s

  abbrev pub last_value : Option (Seen V) → Option V
  last_value none = none
  last_value (some s) = value_of s.last

  -- The reporter reports to the device that has its name.
  abbrev pub IsFor : Store V → Name → Report → Type 0
  IsFor st n r =
      (r.name ≡ n) × ((di : DeviceInfo) × (find n st.table ≡ some di) × (di.reading ≡ r.di.reading))

  abbrev pub RoResult : Store V → Name → Bool → Result Report → Type 0
  RoResult st n b (ok r) = (b ≡ true) × IsFor st n r
  RoResult st n b (err e) = (b ≡ false) × (e ≡ in_use)

  abbrev pub RwResult :
      Store V → Name → Bool → ℕ → Option V → Result (Report × ℕ × Option V) → Type 0
  RwResult st n b tx v (ok (r, tx', v')) = (b ≡ true) × IsFor st n r × (tx' ≡ tx) × (v' ≡ v)
  RwResult st n b tx v (err e) = (b ≡ false) × (e ≡ in_use)

  module _ (driver : Text) (name : Name) (units : Option Text) (st : Store V) where
    -- What holds of the new store and the result, where `o` is what was known of the name.
    abbrev pub RoLaw : Option (Seen V) → Store V × Result Report → Type 0
    RoLaw o (st', result) =
        IsWf st'
        × (view st' name ≡ read_only_spec driver units o)
        × ((m : Name) → name ≢ m → view st' m ≡ view st m)
        × RoResult st' name (may_register driver o) result

    ro_of-RoLaw :
        (o : Option DeviceInfo)
        → find name st.table ≡ o
        → IsWf st
        → RoLaw (seen_in st.readings o) (ro_of driver name units st o)
    unfolding view create
    ro_of-RoLaw none e w =
        let di = create driver units none (length st.readings) in
        (
          added-IsWf name di st refl w,
          view-added_self name di st refl,
          λ m h. view-added_ne name m di st h,
          (refl, (refl, (di, find-head name name di st.table (eqb_name_refl name), refl))),
        )
    ro_of-RoLaw (some di) e w = elim (Bool-cases (eqb_text di.owner driver)) [
      | inl f ↦ rw f (w, ap (seen_in st.readings) e, λ m h. refl, (refl, (refl, (di, e, refl))))
      | inr f ↦ rw f (w, ap (seen_in st.readings) e, λ m h. refl, (refl, refl))
    ]

    -- The registration of a read-only device keeps what is known of a name.
    pub register_read_only_device_lem :
        IsWf st → RoLaw (view st name) (register_read_only_device driver name units st)
    unfolding register_read_only_device view
    register_read_only_device_lem w = ro_of-RoLaw (find name st.table) refl w

    abbrev pub RwLaw : Option (Seen V) → Store V × Result (Report × ℕ × Option V) → Type 0
    RwLaw o (st', result) =
        IsWf st'
        × (view st' name ≡ read_write_spec driver units st.channels o)
        × ((m : Name) → name ≢ m → view st' m ≡ view st m)
        × RwResult st' name (may_register driver o) st.channels (last_value o) result

    rw_of-RwLaw :
        (o : Option DeviceInfo)
        → find name st.table ≡ o
        → IsWf st
        → RwLaw (seen_in st.readings o) (rw_of driver name units st o)
    unfolding view create
    rw_of-RwLaw none e w =
        let di = create driver units (some st.channels) (length st.readings) in
        let w' = added-IsWf name di st refl w in
        (
          record { placed = w'.placed; unshared = w'.unshared },
          view-added_self name di st refl,
          λ m h. view-added_ne name m di st h,
          (
            refl,
            (refl, (di, find-head name name di st.table (eqb_name_refl name), refl)),
            refl,
            refl,
          ),
        )
    rw_of-RwLaw (some di) e w = elim (Bool-cases (eqb_text di.owner driver)) [
      | inl f ↦
          let di' = record di { tx_setting = some st.channels } in
          rw f (
            rewired-IsWf name st.channels st w,
            view-rewired_self name st.channels st di e,
            λ m h. view-rewired_ne name m st.channels st h,
            (
              refl,
              (
                refl,
                (
                  di',
                  find-set_tx_self name st.channels st.table ∙ ap (with_tx st.channels) e,
                  refl,
                ),
              ),
              refl,
              refl,
            ),
          )
      | inr f ↦ rw f (w, ap (seen_in st.readings) e, λ m h. refl, (refl, refl))
    ]

    -- In a store in which no two devices share the place of their last reading, the registration
    -- of a read-write device succeeds exactly if the name is new or has the same owner, and fails
    -- with `InUse` otherwise. If it succeeds the name has a new channel for settings, its owner
    -- and last reading are as they were or those of a new device, the reporter is for that name,
    -- and the last value is returned; other names are as before, and the devices still share no
    -- place.
    pub register_read_write_device_lem :
        IsWf st → RwLaw (view st name) (register_read_write_device driver name units st)
    unfolding register_read_write_device view
    register_read_write_device_lem w = rw_of-RwLaw (find name st.table) refl w
