-- ===== src/Examples/Tplink.antt =====
-- Runs of the TP-Link driver, drivers/drmem-drv-tplink/src/driver.rs.
use drmem.Base.{
  ℕ, ◌+◌, ◌≤◌, ◌<◌, ◌≡◌, refl, true, false, List, [], ◌∷◌, none, some, ltb, ◌==◌, arith,
}
use drmem.Base.Int.{pos}
use drmem.External.Tplink.Rpc.{
  Levels, Cmd, brightness_cmd, Reply, dimmer, ErrorStatus, Result, ok, err, transport,
}
use drmem.External.Tplink.Run.{
  set_led, set_level, poll, setting, Event, Session, main_loop, run, create_instance,
}
use drmem.External.Tplink.Errors.{all_clients, AllInRange, main_loop-replies}
use drmem.External.Tplink.Steps.{replies}
use drmem.External.Tplink.Sessions.{Reports, run-Reports}

-- Whole numbers stand for the levels; 1000 and 2000 for the infinities.
abbrev levels : Levels
levels = record {
  F = ℕ;
  is_nan = λ v. false;
  feq = λ a b. a == b;
  flt = ltb;
  infinity = 1000;
  neg_infinity = 2000;
  of_u8 = λ n. n;
  to_u8 = λ v. v;
}

abbrev fine : ErrorStatus
fine = record { err_code = pos 0; err_msg = none }

-- The device takes a brightness, and fails on any other command.
abbrev answer : ℕ → Cmd → Result Reply
answer n (brightness_cmd v) = ok (dimmer (some fine))
answer n _ = err transport

exact : (n : ℕ) → n < 256 → n ≡ n
exact n h = refl

low : (v : ℕ) → false ≡ false → ltb 100 v ≡ false → v ≤ 100
low v h k = ground (arith, k)

abbrev events : List (Event ℕ)
events = setting (set_level 500 true) ∷ poll ∷ setting (set_led true true) ∷ []

main_loop-replies_example :
    (let (st', sent, failed, left) = main_loop levels answer true create_instance events in
      (replies levels sent + all_clients left ≡ all_clients events) × AllInRange levels sent)
main_loop-replies_example = main_loop-replies levels answer exact low true create_instance events

abbrev sessions : List (Session ℕ)
sessions =
    record {
      connecting = set_led true true ∷ [];
      connected = true;
      events = events;
      pausing = set_level 7 true ∷ [];
    }
    ∷ record { connecting = []; connected = false; events = []; pausing = [] }
    ∷ []

run-Reports_example : Reports levels none (run levels answer true sessions)
run-Reports_example = run-Reports levels answer exact low true sessions
