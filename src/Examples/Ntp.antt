-- ===== src/Examples/Ntp.antt =====
-- Runs of the NTP monitor, drivers/drmem-drv-ntp/src/driver.rs.
use drmem.Base.{
  ℕ, ◌+◌, ◌%◌, ◌^◌, ◌≡◌, true, false, List, [], ◌∷◌, ◌++◌, map, Option, none, some, ◌==◌, arith,
  length-replicate,
}
use drmem.Api.Value.{Text}
use drmem.Base.Utf8.{from_utf8}
use drmem.External.Ntp.Info.{Parsers}
use drmem.External.Ntp.Reply.{
  datagram, timed_out, on_packet, fresh, get_host_info, request, returned, decoded, payload_size,
}
use drmem.External.Ntp.Bounds.{Kept, on_packet-Kept}
use drmem.External.Ntp.Laws.{packet, packets, joined, get_host_info-packets}
use drmem.External.Ntp.Run.{Round, run}
use drmem.External.Ntp.Devices.{Displays, reports, blank, run-Displays}

-- A number is read from the last digit of its text.
abbrev last_digit : Text → Option ℕ
last_digit [] = none
last_digit (c ∷ []) = some c
last_digit (c ∷ d ∷ s) = last_digit (d ∷ s)

abbrev parsers : Parsers
parsers = record {
  F = ℕ;
  parse_f64 = last_digit;
  feq = λ a b. a == b;
  fzero = 0;
  is_whitespace = λ c. c == 32;
}

-- srcadr=a,offset=1,delay=2 in two fragments.
abbrev first_part : List ℕ
first_part = b's' ∷ b'r' ∷ b'c' ∷ b'a' ∷ b'd' ∷ b'r' ∷ b'=' ∷ b'a' ∷ b',' ∷ b'o' ∷ b'f' ∷ b'f' ∷ []

abbrev second_part : List ℕ
second_part =
    b's' ∷ b'e' ∷ b't' ∷ b'=' ∷ b'1' ∷ b',' ∷ b'd' ∷ b'e' ∷ b'l' ∷ b'a' ∷ b'y' ∷ b'=' ∷ b'2' ∷ []

on_packet-Kept_example :
    Kept (packet 1 7 0 first_part true) (on_packet fresh (packet 1 7 0 first_part true))
unfolding fresh
on_packet-Kept_example =
    on_packet-Kept fresh (packet 1 7 0 first_part true)
      (length-replicate {A = ℕ} payload_size 0, omega arith)

get_host_info-packets_example :
    get_host_info parsers 1 7 true
      (map datagram (packets 1 7 0 first_part (second_part ∷ [])) ++ (timed_out ∷ []))
    ≡ (
      request 2 1 7,
      (1 + 1) % 2 ^ 16,
      returned (decoded parsers (from_utf8 (joined first_part (second_part ∷ [])))),
    )
get_host_info-packets_example =
    get_host_info-packets parsers 1 7 first_part (second_part ∷ []) (timed_out ∷ [])
      (omega arith, (omega arith, tt)) (omega arith)

-- The system peer is association 7, whose reply comes in two packets; then nothing answers.
abbrev rounds : List Round
rounds =
    record {
      sent = true;
      reply = datagram (packet 1 0 0 (0 ∷ 7 ∷ 6 ∷ 0 ∷ []) false);
      sent_info = true;
      packets = map datagram (packets 2 7 0 first_part (second_part ∷ []));
    }
    ∷ record { sent = true; reply = timed_out; sent_info = true; packets = [] }
    ∷ []

run-Displays_example :
    Displays parsers
      (reports parsers (blank parsers) (run parsers rounds).1)
      (run parsers rounds).0.info
run-Displays_example = run-Displays parsers rounds
