-- ===== src/Driver/Counter/Laws.antt =====
-- The promises of the counter driver, drmemd/src/driver/counter/driver.rs.
use drmem.Base.{ℕ, suc, ◌+◌, ◌^◌, ◌<◌, ◌≡◌, ◌≢◌, refl, Bool, true, false, not, ◌&&◌, ◌||◌, List}
use drmem.Base.{sym, ap, ◌∙◌, [], ◌∷◌, ◌++◌, arith, if◌then◌else◌}
use drmem.Base.Int.{ℤ, pos}
use drmem.Driver.Counter.{Instance, waiting, tripped, new, incr, get_count, Action, reply, Event}
use drmem.Driver.Counter.{report_increment, report_reset, report_count, set_increment, set_reset}
use drmem.Driver.Counter.{handle, run_from, start}

-- How often the increment input went from false to true since the last reset to true. The first
-- argument is the level of the input, which a reset does not touch.
unfoldable pub transitions : Bool → ℕ → List Event → ℕ
transitions level n [] = n
transitions level n (set_increment b ∷ es) = transitions b (if b && not level then suc n else n) es
transitions level n (set_reset true ∷ es) = transitions level 0 es
transitions level n (set_reset false ∷ es) = transitions level n es

-- The last reset to true found the increment input at true, and the next setting of that input was
-- true again. The arguments are the level of the input, whether the last reset found it at true and
-- no setting of it has come since, and the answer so far.
unfoldable pub repeated : Bool → Bool → Bool → List Event → Bool
repeated level pending r [] = r
repeated level pending r (set_increment b ∷ es) = repeated b false (r || (pending && b)) es
repeated level pending r (set_reset true ∷ es) = repeated level level false es
repeated level pending r (set_reset false ∷ es) = repeated level pending r es

unfoldable pub length_events : List Event → ℕ
length_events [] = 0
length_events (e ∷ es) = suc (length_events es)

abbrev counter_at : Bool → ℕ → Instance
counter_at true n = tripped (pos n)
counter_at false n = waiting (pos n)

incr-pos : (n : ℕ) → n + 1 < 2 ^ 31 → incr (pos n) ≡ pos (suc n)
unfolding incr
incr-pos n h = ground arith

-- One more than the number if `r` is true.
abbrev pub counted : ℕ → Bool → ℕ
counted n r = if r then suc n else n

handle-counted :
    (b level pending r : Bool) (n : ℕ)
    → not pending || (level && not r) ≡ true
    → counted n r + 1 < 2 ^ 31
    → (handle (counter_at (level && not pending) (counted n r)) (set_increment b)).0
      ≡ counter_at (b && true) (counted (if b && not level then suc n else n) (r || (pending && b)))
unfolding handle
handle-counted b level pending r n k h = ground (arith, incr-pos (counted n r))

run_from-counted :
    (es : List Event) (level pending r : Bool) (n : ℕ)
    → not pending || (level && not r) ≡ true
    → counted n r + length_events es < 2 ^ 31
    → get_count (run_from (counter_at (level && not pending) (counted n r)) es).0
      ≡ pos (counted (transitions level n es) (repeated level pending r es))
unfolding run_from transitions repeated length_events handle get_count
run_from-counted [] level pending r n k h = ground arith
run_from-counted (set_increment b ∷ es) level pending r n k h =
    rw (handle-counted b level pending r n k (omega arith)) (
      run_from-counted es b false (r || (pending && b)) (if b && not level then suc n else n) refl
        (ground arith))
run_from-counted (set_reset true ∷ es) true pending r n k h =
    run_from-counted es true true false 0 refl (omega arith)
run_from-counted (set_reset true ∷ es) false pending r n k h =
    run_from-counted es false false false 0 refl (omega arith)
run_from-counted (set_reset false ∷ es) level pending r n k h =
    run_from-counted es level pending r n k (omega arith)

-- After fewer than 2 ^ 31 settings the count is the number of times that the increment input went
-- from false to true since the last reset to true, and one more if that reset found the input at
-- true and the next setting of the input was true again.
pub run-edges :
    (es : List Event)
    → length_events es < 2 ^ 31
    → get_count (run_from new es).0
      ≡ pos (counted (transitions false 0 es) (repeated false false false es))
unfolding new
run-edges es h = run_from-counted es false false false 0 refl (omega arith)

-- The last count that was reported.
abbrev pub last_count : ℤ → List Action → ℤ
last_count n [] = n
last_count n (report_count m ∷ acts) = last_count m acts
last_count n (_ ∷ acts) = last_count n acts

last_count-append :
    (n : ℤ) (xs ys : List Action) → last_count n (xs ++ ys) ≡ last_count (last_count n xs) ys
last_count-append n [] ys = refl
last_count-append n (report_count m ∷ xs) ys = last_count-append m xs ys
last_count-append n (reply b ∷ xs) ys = last_count-append n xs ys
last_count-append n (report_increment b ∷ xs) ys = last_count-append n xs ys
last_count-append n (report_reset b ∷ xs) ys = last_count-append n xs ys

abbrev pub no_false_reset : List Event → Bool
no_false_reset [] = true
no_false_reset (set_increment b ∷ es) = no_false_reset es
no_false_reset (set_reset b ∷ es) = b && no_false_reset es

handle-shows :
    (c : Instance) (e : Event)
    → no_false_reset (e ∷ []) ≡ true
    → last_count (get_count c) (handle c e).1 ≡ get_count (handle c e).0
unfolding handle get_count
handle-shows c e h = ground arith

run_from-shows :
    (es : List Event) (c : Instance)
    → no_false_reset es ≡ true
    → last_count (get_count c) (run_from c es).1 ≡ get_count (run_from c es).0
unfolding run_from
run_from-shows [] c h = refl
run_from-shows (e ∷ es) c h =
    let (c', acts) = handle c e in
    last_count-append (get_count c) acts (run_from c' es).1
    ∙ ap (λ n. last_count n (run_from c' es).1) (handle-shows c e (ground arith))
    ∙ run_from-shows es c' (ground arith)

-- While no setting turns the reset input to false, the count that was last reported is the count
-- that the driver holds.
run-shows :
    (es : List Event)
    → no_false_reset es ≡ true
    → last_count (last_count (pos 1) (start new)) (run_from new es).1
      ≡ get_count (run_from new es).0
unfolding start
run-shows es h = run_from-shows es new h

-- A setting of the reset input to false keeps the count and reports a count of zero: wherever the
-- count is another number, the device and the driver then differ.
handle-false_reset :
    (c : Instance) (n : ℤ)
    → get_count c ≢ pos 0
    → let (c', acts) = handle c (set_reset false) in
      (get_count c' ≡ get_count c) × (last_count n acts ≢ get_count c')
unfolding handle
handle-false_reset c n h = (refl, λ e. h (sym e))
