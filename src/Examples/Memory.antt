-- ===== src/Examples/Memory.antt =====
-- The memory and the integrating driver at concrete settings.
use drmem.Base.{
  ℕ, ◌+◌, ◌-◌, ◌≤◌, ◌≡◌, refl, true, false, none, some, List, [], ◌∷◌, map, ◌==◌, if◌then◌else◌,
}
use drmem.Base.Int.{pos}
use drmem.Api.Value.{bool, int, is_same_type}
use drmem.Driver.Integrate.{Event, set_data, set_reset, get_sum, run}
use drmem.Driver.Integrate.Laws.{last_sum, sum_since, run-sum}
use drmem.Driver.Memory as Memory
use drmem.Driver.Memory.{MemDevice, Reply, ok, type_error, register}
use drmem.Driver.Memory.Replies.{final, to_come, total, owed}
use drmem.Driver.Memory.Laws.{AllTyped, waiting, run-AllTyped}

abbrev plus : ℕ → ℕ → ℕ
plus a b = a + b

abbrev settings : List (Event ℕ)
settings = set_data 3 ∷ set_reset true ∷ set_data 4 ∷ set_reset true ∷ []

run-sum_example :
    (get_sum (run plus 0 settings).0 ≡ sum_since plus 0 0 false settings)
    × (last_sum plus 0 7 (run plus 0 settings).1 ≡ sum_since plus 0 0 false settings)
run-sum_example = run-sum plus 0 settings 7

-- The second setting of the first device has another type.
abbrev flag_and_level : List (MemDevice ℕ)
flag_and_level =
    record { initial = bool true; last = none; settings = (1, bool false) ∷ (2, int (pos 3)) ∷ [] }
    ∷ record { initial = int (pos 0); last = some (bool true); settings = (3, int (pos 5)) ∷ [] }
    ∷ []

-- The weight of one reply: client 2 is told that its setting has another type.
abbrev refused_two : Reply ℕ → ℕ
refused_two (ok c v) = 0
refused_two (type_error c) = if c == 2 then 1 else 0

run-AllTyped_example :
    let r = Memory.run 2 (map register flag_and_level) in
    AllTyped r.0
    × (map final r.0 ≡ map to_come flag_and_level)
    × (total refused_two r.1 + owed refused_two r.0 ≡ owed refused_two flag_and_level)
    × (waiting r.0 ≤ waiting flag_and_level - 2)
run-AllTyped_example = run-AllTyped flag_and_level 2 refused_two

refused_two-owed : owed refused_two flag_and_level ≡ 1
unfolding is_same_type
refused_two-owed = refl
