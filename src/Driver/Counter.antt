-- ===== src/Driver/Counter.antt =====
-- The counter driver, drmemd/src/driver/counter/driver.rs.
pub mod Laws
use drmem.Base.{Bool, true, false, Option, none, some, List, [], ◌∷◌, ◌++◌}
use drmem.Base.Int.{ℤ, pos, ◌+ℤ◌, wrap_i32}

pub data Instance : Type 0 where
  waiting tripped : ℤ → Instance

unfoldable pub new : Instance
new = waiting (pos 0)

-- An `i32` is incremented: a release build wraps.
unfoldable pub incr : ℤ → ℤ
unfolding wrap_i32 ◌+ℤ◌
incr count = wrap_i32 (count +ℤ pos 1)

unfoldable pub incrememt : Instance → Bool → Instance × Option ℤ
incrememt (waiting count) true = (tripped (incr count), some (incr count))
incrememt (waiting count) false = (waiting count, none)
incrememt (tripped count) true = (tripped count, none)
incrememt (tripped count) false = (waiting count, none)

unfoldable pub reset : Instance → Bool → Instance
reset c true = waiting (pos 0)
reset c false = c

unfoldable pub get_count : Instance → ℤ
get_count (waiting count) = count
get_count (tripped count) = count

pub data Action : Type 0 where
  reply : Bool → Action
  report_increment : Bool → Action
  report_reset : Bool → Action
  report_count : ℤ → Action

pub data Event : Type 0 where
  set_increment set_reset : Bool → Event

abbrev pub report_if : Option ℤ → List Action
report_if none = []
report_if (some n) = report_count n ∷ []

unfoldable pub start : Instance → List Action
unfolding get_count
start c = report_count (get_count c) ∷ []

-- One round of the loop of `run`.
unfoldable pub handle : Instance → Event → Instance × List Action
unfolding incrememt reset
handle c (set_increment b) =
    let (c', count) = incrememt c b in
    (c', report_increment b ∷ (report_if count ++ (reply b ∷ [])))
handle c (set_reset b) = (reset c b, report_reset b ∷ report_count (pos 0) ∷ reply b ∷ [])

unfoldable pub run_from : Instance → List Event → Instance × List Action
run_from c [] = (c, [])
run_from c (e ∷ es) =
    let (c', acts) = handle c e in let (last, later) = run_from c' es in (last, acts ++ later)
