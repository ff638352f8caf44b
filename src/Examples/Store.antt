-- ===== src/Examples/Store.antt =====
-- The store of drmemd/src/backends/simple.rs with one device.
use drmem.Base.{
  ℕ, ◌≡◌, ◌≢◌, refl, Bool, true, false, ◌&&◌, leb, none, some, List, [], ◌∷◌, arith, ◌+◌,
}
use mathlib.Core.List.Memᴰ
use drmem.Api.Value.{Text}
use drmem.Api.Name.{Name, show_name, show_path}
use drmem.Api.Name.Equality.{eqb_name}
use drmem.Backend.Simple.{Reading, Report, Store, ok, empty, create, find, reading_of}
use drmem.Backend.Simple.{register_read_only_device, register_read_write_device, report_value}
use drmem.Backend.Simple.Monitor.{received, filter, after_last, monitor_device}
use drmem.Backend.Simple.Monitor.Window.{in_window}
use drmem.Backend.Simple.Monitor.Stream.{stream, monitor_device-window}
use drmem.Backend.Simple.Query.{get_device_info}
use drmem.Backend.Simple.Query.Laws.{CanShow, listed, get_device_info_lem}
use drmem.Backend.Simple.View.{Seen, view}
use drmem.Backend.Simple.Register.{RwLaw, register_read_write_device_lem}
use drmem.Backend.Simple.History.{
  Reached, start, read_only, granted, Reached-IsFor, Reached-reported,
}

abbrev lamp : Name
lamp = record { path = (b'a' ∷ []) ∷ []; base = b'b' ∷ [] }

abbrev driver : Text
driver = b'd' ∷ []

abbrev registered : Store ℕ
registered = (register_read_only_device driver lamp none (empty {V = ℕ})).0

abbrev reporter : Report
reporter = record {
  di = record { owner = driver; units = none; tx_setting = none; reading = 0 };
  name = lamp;
}

abbrev reporters : List Report
reporters = granted (register_read_only_device driver lamp none (empty {V = ℕ})).1 []

registered-Reached : Reached 100000 registered reporters
registered-Reached = read_only driver lamp none start

reporter-Mem : Memᴰ.Memᴰ reporter reporters
unfolding register_read_only_device empty find create
reporter-Mem = Memᴰ.head refl

Reached-reported_example :
    (s : Seen ℕ) × (view registered lamp ≡ some s)
    × (view (report_value 100000 reporter 5 7 registered).0 lamp
        ≡ some (record s { last = some (reading_of 100000 5 7 s.last) }))
    × ((m : Name)
        → lamp ≢ m
        → view (report_value 100000 reporter 5 7 registered).0 m ≡ view registered m)
Reached-reported_example = Reached-reported 100000 reporter 5 7 registered-Reached reporter-Mem

register_read_write_device_lem_example :
    RwLaw driver lamp none registered
      (view registered lamp)
      (register_read_write_device driver lamp none registered)
register_read_write_device_lem_example =
    register_read_write_device_lem driver lamp none registered
      (Reached-IsFor 100000 registered-Reached).0

abbrev last : Reading ℕ
last = record { ts = 5; value = 7 }

abbrev one_device : Store ℕ
one_device = record { table = (lamp, reporter.di) ∷ []; readings = some last ∷ []; channels = 0 }

-- The clock goes back, and then a reading is missed.
abbrev reports : List (Bool × ℕ × ℕ)
reports = (false, 3, 8) ∷ (true, 1200, 9) ∷ (false, 2000, 1) ∷ []

lamp_found : find lamp one_device.table ≡ some reporter.di
unfolding find eqb_name
lamp_found = refl

monitor_device-window_example :
    monitor_device lamp (some 6) (some 1500) one_device (stream 100000 (some last) reports)
    ≡ ok (
        filter
          (in_window (some 6) (some 1500))
          (after_last (some last) (received (stream 100000 (some last) reports))))
monitor_device-window_example =
    monitor_device-window 100000 lamp (some 6) (some 1500) one_device reporter.di reports lamp_found
      (omega arith) (omega arith, (omega arith, (omega arith, tt)))

abbrev is_letter : ℕ → Bool
is_letter c = leb 97 c && leb c 122

lamp-CanShow : CanShow one_device.table
unfolding show_name show_path
lamp-CanShow = ((_, refl), tt)

-- The pattern `a*`
get_device_info_lem_example :
    (fuel : ℕ) × ((g : ℕ)
      → get_device_info is_letter (fuel + g) (some (b'a' ∷ b'*' ∷ [])) one_device
        ≡ some (listed is_letter (some (b'a' ∷ b'*' ∷ [])) one_device one_device.table))
get_device_info_lem_example =
    get_device_info_lem is_letter (some (b'a' ∷ b'*' ∷ [])) one_device lamp-CanShow
