-- ===== src/Driver/Latch/Laws.antt =====
-- The promises of the latch driver, drmemd/src/driver/latch/driver.rs.
use drmem.Base.{◌≡◌, refl, Bool, true, false, not, ◌&&◌, List, [], ◌∷◌, ◌++◌, arith}
use drmem.Base.{if◌then◌else◌}
use drmem.Api.Value.{Value}
use drmem.Driver.Latch.{LatchState, idle, tripped, new, Action, reply, report_trigger}
use drmem.Driver.Latch.{report_reset, report_output, Run, start, Event, set_trigger, set_reset}
use drmem.Driver.Latch.{handle, run_from}

-- The last value that the output device reported.
abbrev pub last_output : {F : Type 0} → Value F → List (Action F) → Value F
last_output v [] = v
last_output v (report_output w ∷ acts) = last_output w acts
last_output v (_ ∷ acts) = last_output v acts

last_output-append :
    {F : Type 0} (v : Value F) (xs ys : List (Action F))
    → last_output v (xs ++ ys) ≡ last_output (last_output v xs) ys
last_output-append v [] ys = refl
last_output-append v (report_output w ∷ xs) ys = last_output-append w xs ys
last_output-append v (reply b ∷ xs) ys = last_output-append v xs ys
last_output-append v (report_trigger b ∷ xs) ys = last_output-append v xs ys
last_output-append v (report_reset b ∷ xs) ys = last_output-append v xs ys

abbrev shown : {F : Type 0} → Value F → Value F → LatchState → Value F
shown active inactive idle = inactive
shown active inactive tripped = active

module _ {F : Type 0} (active inactive : Value F) where
  pub record Shows (r : Run F) (v : Value F) : Type 0 where
    pub output : v ≡ shown active inactive r.inst.state
    pub active_kept : r.inst.active_value ≡ active
    pub inactive_kept : r.inst.inactive_value ≡ inactive

  handle-Shows :
      (r : Run F) (e : Event) (v : Value F)
      → Shows r v
      → Shows (handle r e).0 (last_output v (handle r e).1)
  unfolding handle
  handle-Shows r e v s = ground arith

  run_from-Shows :
      (es : List Event) (r : Run F) (v : Value F)
      → Shows r v
      → Shows (run_from r es).0 (last_output v (run_from r es).1)
  unfolding run_from
  run_from-Shows [] r v s = s
  run_from-Shows (e ∷ es) r v s =
      rw (last_output-append v (handle r e).1 (run_from (handle r e).0 es).1)
        (run_from-Shows es (handle r e).0 _ (handle-Shows r e v s))

  -- After any settings of the two inputs, the output device last reported the active value if the
  -- latch is tripped and the inactive value if not, and the configured values are as they were.
  pub latch-Shows :
      (es : List Event)
      → let (r, acts) = start (new active inactive) in
        Shows (run_from r es).0 (last_output (last_output active acts) (run_from r es).1)
  unfolding start new
  latch-Shows es = run_from-Shows es _ inactive (ground arith)

abbrev pub is_tripped : LatchState → Bool
is_tripped idle = false
is_tripped tripped = true

-- The latch is tripped after a setting exactly if the reset that was set before it is false, and
-- the latch was tripped, or the setting turns the trigger from false to true.
handle_tripped :
    {F : Type 0} (r : Run F) (b : Bool)
    → (is_tripped (handle r (set_trigger b)).0.inst.state
        ≡ (if r.reset then false else if is_tripped r.inst.state then true else not r.trigger && b))
      × (is_tripped (handle r (set_reset b)).0.inst.state
          ≡ (if r.reset then false else is_tripped r.inst.state))
unfolding handle
handle_tripped r b = ground arith

-- Setting the reset of a tripped latch from false to true leaves it tripped and reports no
-- output; the next setting of either input resets it.
handle_late_reset :
    {F : Type 0} (r : Run F) (e : Event)
    → r.inst.state ≡ tripped
    → r.reset ≡ false
    → let (s, acts) = handle r (set_reset true) in
      (s.inst.state ≡ tripped)
      × (acts ≡ reply true ∷ report_reset true ∷ [])
      × ((handle s e).0.inst.state ≡ idle)
unfolding handle
handle_late_reset r e h k = ground arith
