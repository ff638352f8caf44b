-- ===== src/Examples/Devices.antt =====
-- Devices of drmem-api/src/driver/overridable_device.rs that hold numbers, and values.
use drmem.Base.{ℕ, ◌≡◌, refl, Bool, true, none, some, [], ◌∷◌, ◌==◌, ==_iff}
use drmem.Base.{◌+◌, ◌++◌, leb, if◌then◌else◌}
use drmem.Api.Overridable
use drmem.Api.Overridable.Laws
use drmem.Api.Overridable.{
  State, synced, setting_trans, setting, overridden, Device, ready, ok, elapsed,
}
use drmem.Api.Overridable.{message, report, again, break_some, round, report_update, new}
use drmem.Api.Overridable.Laws.{held, received, replied, handed, round-clients}
use drmem.Api.Overridable.Laws.{Reported, last_report, here, polls}
use drmem.Api.Overridable.Laws.{Reach-Reported, override_reverts}

abbrev eq : ℕ → ℕ → Bool
eq a b = a == b

eq_sound : (a b : ℕ) → eq a b ≡ true → a ≡ b
eq_sound a b h = (==_iff a b).0 h

abbrev device : State ℕ → Device ℕ
device s = record { state = s; override_duration = some 10 }

-- The client 7 sets a new value.
round_seven :
    round eq (device (synced 1)) (message 2 7) 0
    ≡ some (device (setting_trans 2 (some 7)), [], again)
unfolding round
round_seven = refl

round-clients_example :
    held (device (synced 1)).state ++ received {T = ℕ} (message 2 7)
    ≡ replied {T = ℕ} [] ++ handed {T = ℕ} again ++ held (device (setting_trans 2 (some 7))).state
round-clients_example =
    round-clients eq (device (synced 1)) (device (setting_trans 2 (some 7))) (message 2 7) 0
      round_seven

Reach-Reported_example :
    Reported eq
      (report_update eq (new none none) 4 0).0.state
      (last_report eq none ([] ++ (report_update eq (new none none) 4 0).1))
Reach-Reported_example = Reach-Reported eq eq_sound none none (polls here 4 0)

-- The value is found to be 5 at 100 and again at 103; then the client 7 sets 2.
abbrev found : Device ℕ
found = (report_update eq (device (synced 1)) 5 100).0

abbrev found_again : Device ℕ
found_again = (report_update eq found 5 103).0

abbrev set_again : Device ℕ
set_again = device (overridden 2 5 110)

set_again-round : round eq found_again (message 2 7) 104 ≡ some (set_again, ok 7 2 ∷ [], again)
unfolding round report_update
set_again-round = refl

override_reverts_example :
    let reverted = device (setting_trans 2 none) in
    (round eq set_again ready 105
      ≡ (if leb (100 + 10) 105 then some (reverted, [], again) else none))
    × (round eq set_again elapsed 105
        ≡ (if leb (100 + 10) 105 then none else some (reverted, [], again)))
    × (round eq reverted ready 111 ≡ some (device (setting 2), report 2 ∷ [], break_some 2 none))
override_reverts_example =
    override_reverts eq (device (synced 1)) set_again 1 2 5 10 100 105 111 refl refl refl
      (Overridable.Laws.Waits.sets
        (Overridable.Laws.Waits.polls Overridable.Laws.Waits.here 5 103 refl refl) 2 7 104
        set_again-round)
      refl
