-- ===== src/Backend/Redis/Register/Laws.antt =====
-- Registering a device twice, and which channel its settings take, drmemd/src/backends/redis.rs.
use drmem.Base.{
  ℕ, ◌≡◌, refl, sym, ap, ◌∙◌, ◌⊎◌, false, Option, none, some, [], ◌∷◌, Bool-cases, inl, inr,
  if◌then◌else◌,
}
use mathlib.Core.Path.{subst}
use drmem.Api.Value.{Text, Value}
use drmem.Api.Name.{Name}
use drmem.Api.Name.Equality.{eqb_name, eqb_name_refl, eqb_name_sound}
use drmem.Backend.Redis.Codec.{Doubles, Error, Result, ok, err, RedisValue, not_found}
use drmem.Backend.Redis.Stamp.{Clock}
use drmem.Backend.Redis.Stream.{Fields, hist_key, info_key}
use drmem.Backend.Redis.Server.{Server, RedisResult, done, failed, init_device_cmd, mapped}
use drmem.Backend.Redis.Device.{SettingTable, find_tx, to_string}
use drmem.Backend.Redis.Register.{
  RedisStore, Report, hash_type, stream_type, insert, validate_device, init_device, ensure,
  register_read_only_device, register_read_write_device, ro_of, rw_of, new, Answer, answered,
  set_device,
}

find_tx-insert_self :
    (name : Name) (tx : ℕ) (t : SettingTable) → find_tx name (insert name tx t) ≡ some tx
unfolding find_tx insert
find_tx-insert_self name tx [] = rw (eqb_name_refl name) refl
find_tx-insert_self name tx ((k, old) ∷ t) = elim (Bool-cases (eqb_name k name)) [
  | inl e ↦ rw (e, find_tx) (rw e refl)
  | inr e ↦ rw (e, find_tx) (rw e (find_tx-insert_self name tx t))
]

find_tx-insert_other :
    (name other : Name) (tx : ℕ) (t : SettingTable)
    → eqb_name name other ≡ false
    → find_tx other (insert name tx t) ≡ find_tx other t
unfolding find_tx insert
find_tx-insert_other name other tx [] h = rw h refl
find_tx-insert_other name other tx ((k, old) ∷ t) h = elim (Bool-cases (eqb_name k name)) [
  | inl e ↦
      let k_other : eqb_name k other ≡ false =
        subst (λ x. eqb_name x other ≡ false) (sym (eqb_name_sound k name e)) h in
      rw (e, k_other, find_tx) refl
  | inr e ↦
      let ih = find_tx-insert_other name other tx t h in
      rw e (ap (λ o. if eqb_name k other then some old else o) ih)
]

checked-cases : (r : Result (Unit {0})) → (r ≡ ok tt) ⊎ ((e : Error) × (r ≡ err e))
checked-cases (ok u) = inl refl
checked-cases (err e) = inr (e, refl)

module _ {Db : Type 0} (R : Server Db) where
  ensure_valid :
      (db : Db) (name driver : Text) (units : Option Text)
      → validate_device R db name ≡ ok tt
      → ensure R db name driver units ≡ (db, ok tt)
  unfolding ensure
  ensure_valid db name driver units h = rw (h, ensure) refl

  -- What a transaction of `init_device` that redis carries out leaves behind.
  abbrev pub MakesKeys : Type 0
  MakesKeys =
      (db : Db) (name driver : Text) (units : Option Text)
      → (R.pipeline db (init_device_cmd name driver units)).1 ≡ done tt
      → (R.key_type (R.pipeline db (init_device_cmd name driver units)).0 (info_key name)
          ≡ done hash_type)
        × (R.key_type (R.pipeline db (init_device_cmd name driver units)).0 (hist_key name)
            ≡ done stream_type)

  mapped_ok : (r : RedisResult (Unit {0})) → mapped r ≡ ok tt → r ≡ done tt
  unfolding mapped
  mapped_ok (done u) h = refl
  mapped_ok (failed e) h = cc

  valid_types :
      (db : Db) (name : Text)
      → R.key_type db (info_key name) ≡ done hash_type
      → R.key_type db (hist_key name) ≡ done stream_type
      → validate_device R db name ≡ ok tt
  unfolding validate_device
  valid_types db name a b = rw (a, b, validate_device) refl

  valid-init_device :
      MakesKeys
      → (db : Db) (name driver : Text) (units : Option Text)
      → (init_device R db name driver units).1 ≡ ok tt
      → validate_device R (init_device R db name driver units).0 name ≡ ok tt
  unfolding init_device validate_device
  valid-init_device makes db name driver units h =
      let (a, b) = makes db name driver units (mapped_ok _ h) in valid_types _ name a b

  valid-ensure :
      MakesKeys
      → (db : Db) (name driver : Text) (units : Option Text)
      → (ensure R db name driver units).1 ≡ ok tt
      → validate_device R (ensure R db name driver units).0 name ≡ ok tt
  unfolding ensure
  valid-ensure makes db name driver units h = elim (checked-cases (validate_device R db name)) [
    | inl v ↦
        subst (λ p. validate_device R p.0 name ≡ ok tt) (sym (ensure_valid db name driver units v))
          v
    | inr (e, v) ↦
        let made : ensure R db name driver units ≡ init_device R db name driver units =
          rw (v, ensure) refl in
        subst (λ p. validate_device R p.0 name ≡ ok tt) (sym made)
          (valid-init_device makes db name driver units (ap (λ p. p.1) (sym made) ∙ h))
  ]

  ro_of-ok :
      (name : Text) (mh : Option ℕ) (st : RedisStore Db) (p : Db × Result (Unit {0})) (r : Report)
      → (ro_of R name mh st p).1 ≡ ok r
      → (p.1 ≡ ok tt) × ((ro_of R name mh st p).0.db_con ≡ p.0)
  unfolding ro_of
  ro_of-ok name mh st (db, err e) r h = cc
  ro_of-ok name mh st (db, ok u) r h = (refl, refl)

module _ {Db : Type 0} (R : Server Db) (D : Doubles) (K : Clock)
    (from_reply : RedisValue → Option (Text × Fields RedisValue)) where
  -- If the transaction of `init_device`, once redis has carried it out, leaves a hash and a
  -- stream under its keys: a device that one driver has registered as read-only is left as it is
  -- when any driver registers it as read-write. The second registration succeeds, and changes
  -- nothing in redis.
  pub register_twice :
      MakesKeys R
      → (name : Name) (first second : Text) (units units' : Option Text) (mh mh' : Option ℕ)
        (st : RedisStore Db) (r : Report)
      → (register_read_only_device R first name units mh st).1 ≡ ok r
      → (let st1 = (register_read_only_device R first name units mh st).0 in
          let (st2, again) =
            register_read_write_device R D K from_reply second name units' mh' st1 in
          (st2.db_con ≡ st1.db_con)
          × (tx : ℕ) × (v : Option (Value D.F)) × (again ≡ ok (new (to_string name) mh', tx, v)))
  unfolding register_read_only_device register_read_write_device rw_of
  register_twice makes name first second units units' mh mh' st r h =
      let (made, kept) =
        ro_of-ok R (to_string name) mh st (ensure R st.db_con (to_string name) first units) r h in
      let st1 = (register_read_only_device R first name units mh st).0 in
      let valid : validate_device R st1.db_con (to_string name) ≡ ok tt =
        subst (λ db. validate_device R db (to_string name) ≡ ok tt) (sym kept)
          (valid-ensure R makes st.db_con (to_string name) first units made) in
      let again =
        ap (rw_of R D K from_reply name mh' st1)
          (ensure_valid R st1.db_con (to_string name) second units' valid) in
      (ap (λ p. p.0.db_con) again, st1.channels, _, ap (λ p. p.1) again)

module _ {Db : Type 0} (R : Server Db) (D : Doubles) (K : Clock)
    (from_reply : RedisValue → Option (Text × Fields RedisValue)) where
  rw_of-ok :
      (name : Name) (mh : Option ℕ) (st : RedisStore Db) (p : Db × Result (Unit {0})) (r : Report)
      (tx : ℕ) (v : Option (Value D.F))
      → (rw_of R D K from_reply name mh st p).1 ≡ ok (r, tx, v)
      → (st.channels ≡ tx)
        × ((rw_of R D K from_reply name mh st p).0.table ≡ insert name st.channels st.table)
  unfolding rw_of
  rw_of-ok name mh st (db, err e) r tx v h = cc
  rw_of-ok name mh st (db, ok u) r tx v h = (cc, refl)

  -- After a registration as read-write that succeeds, settings of the device reach the driver
  -- over the channel that the registration returned, and settings of every other name are
  -- answered as before.
  pub set_device-register :
      (driver : Text) (name other : Name) (units : Option Text) (mh : Option ℕ) (st : RedisStore Db)
      (r : Report) (tx : ℕ) (v : Option (Value D.F)) (drivers : ℕ → Value D.F → Answer (Value D.F))
      (value : Value D.F)
      → (register_read_write_device R D K from_reply driver name units mh st).1 ≡ ok (r, tx, v)
      → (let st' = (register_read_write_device R D K from_reply driver name units mh st).0 in
          set_device drivers other value st' ≡ (
            if eqb_name name other
            then answered (drivers tx value)
            else set_device drivers other value st))
  unfolding register_read_write_device set_device
  set_device-register driver name other units mh st r tx v drivers value h =
      let reg = register_read_write_device R D K from_reply driver name units mh st in
      let reply : Option ℕ → Result (Value D.F) =
        λ o. elim o [ none ↦ err not_found | some tx ↦ answered (drivers tx value) ] in
      let (sent, table) =
        rw_of-ok name mh st (ensure R st.db_con (to_string name) driver units) r tx v h in
      let looked : find_tx other reg.0.table ≡ find_tx other (insert name st.channels st.table) =
        ap (find_tx other) table in
      elim (Bool-cases (eqb_name name other)) [
        | inl e ↦
            let here : find_tx other (insert name st.channels st.table) ≡ some st.channels =
              subst (λ x. find_tx x (insert name st.channels st.table) ≡ some st.channels)
                (eqb_name_sound name other e) (find_tx-insert_self name st.channels st.table) in
            rw e (ap reply (looked ∙ here ∙ ap some sent))
        | inr e ↦ rw e (ap reply (looked ∙ find_tx-insert_other name other st.channels st.table e))
      ]
