-- ===== src/Backend/Simple/Query.antt =====
-- The replies of `get_device_info` of drmemd/src/backends/simple.rs.
pub mod Laws
use drmem.Base.{
  ℕ, ◌+◌, ◌≡◌, refl, ap, Bool, true, false, Option, none, some, List, [], ◌∷◌, if◌then◌else◌, arith,
}
use drmem.Api.Value.{Text}
use drmem.Api.Name.{Name, created, failed, Created, create_name, show_name}
use drmem.Api.Name.Equality.{eqb_name}
use drmem.Glob.{matches}
use drmem.Backend.Simple.{Reading, DeviceInfo, Table, Store, last_at}

pub record DevInfoReply (V : Type 0) : Type 0 where
  pub name : Name
  pub units : Option Text
  pub settable : Bool
  pub driver : Text
  pub total_points : ℕ
  pub first_point : Option (Reading V)
  pub last_point : Option (Reading V)

abbrev is_some : {A : Type 0} → Option A → Bool
is_some none = false
is_some (some a) = true

module _ {V : Type 0} where
  abbrev pub points : Option (Reading V) → ℕ
  points none = 0
  points (some r) = 1

  unfoldable pub info : Name → DeviceInfo → Option (Reading V) → DevInfoReply V
  info k v rdg = record {
    name = k;
    units = v.units;
    settable = is_some v.tx_setting;
    driver = v.owner;
    total_points = points rdg;
    first_point = rdg;
    last_point = rdg;
  }

module _ (is_alphanumeric : ℕ → Bool) where
  abbrev pub match_shown : ℕ → Text → Option Text → Option Bool
  match_shown fuel pattern none = none
  match_shown fuel pattern (some s) = matches fuel pattern s

  abbrev pub match_as : ℕ → Text → Name → Created Name → Option Bool
  match_as fuel pattern k (created n) = some (eqb_name k n)
  match_as fuel pattern k (failed e) = match_shown fuel pattern (show_name k)

  -- Text that is a name stands for that device only.
  unfoldable pub pred : ℕ → Option Text → Name → Option Bool
  unfolding create_name show_name eqb_name matches
  pred fuel none k = some true
  pred fuel (some pattern) k = match_as fuel pattern k (create_name is_alphanumeric pattern)

  module _ {V : Type 0} where
    abbrev pub keep_if :
        Option Bool
        → DevInfoReply V
        → Option (List (DevInfoReply V))
        → Option (List (DevInfoReply V))
    keep_if none i rest = none
    keep_if (some b) i none = none
    keep_if (some b) i (some is) = some (if b then i ∷ is else is)

    -- `none` where the matcher has not ended in `fuel` rounds.
    unfoldable pub collect : ℕ → Option Text → Store V → Table → Option (List (DevInfoReply V))
    unfolding pred info
    collect fuel pattern st [] = some []
    collect fuel pattern st ((k, v) ∷ t) =
        keep_if (pred fuel pattern k) (info k v (last_at v.reading st)) (collect fuel pattern st t)

    unfoldable pub get_device_info : ℕ → Option Text → Store V → Option (List (DevInfoReply V))
    unfolding collect
    get_device_info fuel pattern st = collect fuel pattern st st.table
