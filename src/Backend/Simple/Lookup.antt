-- ===== src/Backend/Simple/Lookup.antt =====
-- Looking up a name in the table of drmemd/src/backends/simple.rs after a change of the table.
use drmem.Base.{ℕ, ◌≡◌, ◌≢◌, ◌⊎◌, refl, sym, ap, ◌∙◌, true, false, Option, none, some}
use drmem.Base.{[], ◌∷◌, Bool-cases, inl, inr}
use mathlib.Core.Path.{subst}
use mathlib.Core.Option.{some-injective}
use drmem.Api.Name.{Name}
use drmem.Api.Name.Equality.{eqb_name, eqb_name_sound, eqb_name_ne, eqb_name_distinct}
use drmem.Backend.Simple.{DeviceInfo, Table, find, set_tx}

pub find-head :
    (k m : Name) (di : DeviceInfo) (t : Table)
    → eqb_name k m ≡ true
    → find m ((k, di) ∷ t) ≡ some di
unfolding find
find-head k m di t h = rw h refl

pub find-tail :
    (k m : Name) (di : DeviceInfo) (t : Table)
    → eqb_name k m ≡ false
    → find m ((k, di) ∷ t) ≡ find m t
unfolding find
find-tail k m di t h = rw h refl

abbrev pub with_tx : ℕ → Option DeviceInfo → Option DeviceInfo
with_tx tx none = none
with_tx tx (some di) = some (record di { tx_setting = some tx })

set_tx-head :
    (k n : Name) (tx : ℕ) (di : DeviceInfo) (t : Table)
    → eqb_name k n ≡ true
    → set_tx n tx ((k, di) ∷ t) ≡ (k, record di { tx_setting = some tx }) ∷ t
unfolding set_tx
set_tx-head k n tx di t h = rw h refl

set_tx-tail :
    (k n : Name) (tx : ℕ) (di : DeviceInfo) (t : Table)
    → eqb_name k n ≡ false
    → set_tx n tx ((k, di) ∷ t) ≡ (k, di) ∷ set_tx n tx t
unfolding set_tx
set_tx-tail k n tx di t h = rw h refl

pub find-set_tx_self :
    (n : Name) (tx : ℕ) (t : Table) → find n (set_tx n tx t) ≡ with_tx tx (find n t)
unfolding find set_tx
find-set_tx_self n tx [] = refl
find-set_tx_self n tx ((k, di) ∷ t) = elim (Bool-cases (eqb_name k n)) [
  | inl e ↦
      ap (find n) (set_tx-head k n tx di t e)
      ∙ find-head k n (record di { tx_setting = some tx }) t e
      ∙ sym (ap (with_tx tx) (find-head k n di t e))
  | inr e ↦
      ap (find n) (set_tx-tail k n tx di t e)
      ∙ find-tail k n di (set_tx n tx t) e
      ∙ find-set_tx_self n tx t
      ∙ sym (ap (with_tx tx) (find-tail k n di t e))
]

pub find-set_tx_ne : (n m : Name) (tx : ℕ) (t : Table) → n ≢ m → find m (set_tx n tx t) ≡ find m t
unfolding find set_tx
find-set_tx_ne n m tx [] h = refl
find-set_tx_ne n m tx ((k, di) ∷ t) h = elim (Bool-cases (eqb_name k n)) [
  | inl e ↦
      let f : eqb_name k m ≡ false = eqb_name_ne k m (λ q. h (sym (eqb_name_sound k n e) ∙ q)) in
      ap (find m) (set_tx-head k n tx di t e)
      ∙ find-tail k m (record di { tx_setting = some tx }) t f
      ∙ sym (find-tail k m di t f)
  | inr e ↦ ap (find m) (set_tx-tail k n tx di t e) ∙ elim (Bool-cases (eqb_name k m)) [
    | inl f ↦ find-head k m di (set_tx n tx t) f ∙ sym (find-head k m di t f)
    | inr f ↦
        find-tail k m di (set_tx n tx t) f ∙ find-set_tx_ne n m tx t h ∙ sym (find-tail k m di t f)
  ]
]

-- What is found after a change of the channels is what was found before, but for the channel.
pub find-set_tx :
    (n m : Name) (tx : ℕ) (t : Table) (dj : DeviceInfo)
    → find m (set_tx n tx t) ≡ some dj
    → (di : DeviceInfo) × (find m t ≡ some di) × (di.reading ≡ dj.reading)
find-set_tx n m tx t dj h = elim (Bool-cases (eqb_name n m)) [
  | inr e ↦ (dj, sym (find-set_tx_ne n m tx t (eqb_name_distinct n m e)) ∙ h, refl)
  | inl e ↦
      let h' : find n (set_tx n tx t) ≡ some dj =
        subst (λ k. find k (set_tx n tx t) ≡ some dj) (sym (eqb_name_sound n m e)) h in
      let (di, f, r) = with_tx_some (find n t) (sym (find-set_tx_self n tx t) ∙ h') in
      (di, subst (λ k. find k t ≡ some di) (eqb_name_sound n m e) f, r)
]
  where
    with_tx_some :
        (o : Option DeviceInfo)
        → with_tx tx o ≡ some dj
        → (di : DeviceInfo) × (o ≡ some di) × (di.reading ≡ dj.reading)
    with_tx_some none q = cc
    with_tx_some (some di) q = (di, refl, ap (λ d. d.reading) (some-injective _ _ q))

-- What the new table finds is the new device or an old one.
pub find-added :
    (n m : Name) (di dj : DeviceInfo) (t : Table)
    → find m ((n, di) ∷ t) ≡ some dj
    → ((n ≡ m) × (di ≡ dj)) ⊎ (find m t ≡ some dj)
find-added n m di dj t h = elim (Bool-cases (eqb_name n m)) [
  | inl e ↦ inl (eqb_name_sound n m e, some-injective _ _ (sym (find-head n m di t e) ∙ h))
  | inr e ↦ inr (sym (find-tail n m di t e) ∙ h)
]
