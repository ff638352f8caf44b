-- ===== src/Examples/External.antt =====
-- Runs of the drivers of external hardware below drivers/.
use drmem.Base.{
  ℕ, ◌+◌, ◌-◌, ◌*◌, ◌/◌, ◌<◌, ◌≡◌, refl, false, leb, if◌then◌else◌, some, List, [], ◌∷◌, arith,
}
use drmem.External.Sump.{Floats, on, on_event, off_event, cycle_of, handle, run_from, run}
use drmem.External.Sump.Laws.{shown, is_pumping, run-shown, run-cycle}
use drmem.External.Tplink.{frame, read_reply, reply, too_long, buf_total}
use drmem.External.Tplink.Laws.{read_reply-frame}

abbrev divide : ℕ → ℕ → ℕ
divide a b = a / b

abbrev whole : Floats
whole = record { F = ℕ; of_u64 = λ n. n; fmul = λ a b. a * b; fdiv = divide; fround = λ a. a }

-- Off at 1 and on at 2.
abbrev started : List (ℕ × ℕ)
started = (1, 0) ∷ (2, 1) ∷ []

run-shown_example : shown whole false (run whole 50 started).1 ≡ is_pumping (run whole 50 started).0
run-shown_example = run-shown whole 50 0 started (omega arith, (omega arith, tt))

cycle_found :
    (off_event whole (run whole 50 started).0 1000 50).1 ≡ some (cycle_of whole 998 999 50)
unfolding off_event on_event run run_from handle
cycle_found = refl

run-cycle_example :
    (a : ℕ) × (b : ℕ) × ((run whole 50 started).0 ≡ on a b)
    × (a < b)
    × (b + 500 < 1000)
    × (cycle_of whole 998 999 50 ≡ cycle_of whole (1000 - b) (1000 - a) 50)
run-cycle_example = run-cycle whole 50 started 1000 (cycle_of whole 998 999 50) cycle_found

read_reply-frame_example :
    read_reply (frame (1 ∷ 200 ∷ 3 ∷ []))
    ≡ (if leb 3 buf_total then reply (1 ∷ 200 ∷ 3 ∷ []) else too_long 3)
read_reply-frame_example =
    read_reply-frame (1 ∷ 200 ∷ 3 ∷ []) (omega arith, (omega arith, (omega arith, tt)))
      (omega arith)
