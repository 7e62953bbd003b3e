-- ===== src/Tests/Services.antt =====
-- Examples for src/dns_server.c, src/dht_driver.c and src/telnet_server.c.
use esp32_hydroponics_govern.Prelude.{
  ℕ, ◌+◌, ◌*◌, ◌≤◌, ◌<◌, ◌≡◌, ◌≢◌, ◌↔◌, refl, List, [], ◌∷◌, ◌++◌, none, some, length, arith, true,
}
use esp32_hydroponics_govern.Platform.{ok}
use esp32_hydroponics_govern.Device.{Device}
use esp32_hydroponics_govern.Dns.{
  build_reply, dns_loop, dns_exit, DnsEvent, packet, recv_failed, stop,
}
use esp32_hydroponics_govern.Dns.Reply.{IsReplyTo, build_reply_lem, build_reply_overrun}
use esp32_hydroponics_govern.Dns.Task.{dns_loop-stop}
use esp32_hydroponics_govern.Dht.{
  start_signal, read_frame, read_bits, read_bit, await, wait_loop, now, accept, checksum_ok,
  push_bit, attempts, wait_level, dht11_read, ReadResult,
}
use esp32_hydroponics_govern.Dht.Read.{Outcome, dht11_read-Outcome, dht11_read-returns}
use esp32_hydroponics_govern.Telnet.{
  accepting, TelnetEvent, accepted, polled, send, received, closed, telnet_loop,
}
use esp32_hydroponics_govern.Telnet.Session.{served, trace-telnet_loop}
use esp32_hydroponics_govern.Tests.{Store, device, whole_floats, dht_line, home}

-- A query with one question, for the name `a`.
abbrev query : List ℕ
query = 0x12 ∷ 0x34 ∷ 1 ∷ 0 ∷ 0 ∷ 1 ∷ 0 ∷ 0 ∷ 0 ∷ 0 ∷ 0 ∷ 0 ∷ 1 ∷ b'a' ∷ 0 ∷ 0 ∷ 1 ∷ 0 ∷ 1 ∷ []

build_reply_lem_example : (resp : List ℕ) × (build_reply query ≡ some resp) × IsReplyTo query resp
build_reply_lem_example = build_reply_lem query (omega arith) (omega arith)

build_reply_overrun_example : (build_reply query ≡ none) ↔ (496 < length query)
build_reply_overrun_example = build_reply_overrun query (omega arith)

abbrev dns_events : List DnsEvent
dns_events = packet query ∷ recv_failed ∷ packet (1 ∷ 2 ∷ []) ∷ []

abbrev serving : Device Store
serving = record device { dns_running = true }

dns_loop-stop_example :
    (d' : Device Store) × ((later : List DnsEvent)
      → dns_loop (dns_events ++ stop ∷ packet query ∷ later) serving ≡ some (dns_exit d'))
dns_loop-stop_example =
    dns_loop-stop dns_events (packet query) serving tt (omega arith, (omega arith, tt))
      (omega arith, tt)

slow_enough : (k : ℕ) → dht_line.time k + 100 ≤ dht_line.time (k + 2 * 20 + 2)
slow_enough k = ground arith

dht11_read-returns_example : dht11_read whole_floats dht_line 21 14 0 device ≢ none
dht11_read-returns_example = dht11_read-returns whole_floats dht_line 20 slow_enough 14 0 device

-- The reading: temperature 0 and humidity 1.
abbrev reading : ReadResult Store
reading = record { ret = ok; reading = some (0, 1); samples = 329; device = start_signal 14 device }

dht11_read-Outcome_example : Outcome whole_floats dht_line 21 reading
unfolding dht11_read attempts read_frame read_bits read_bit await wait_level wait_loop now accept
    checksum_ok push_bit start_signal
dht11_read-Outcome_example = dht11_read-Outcome whole_floats dht_line 21 14 0 device refl

abbrev session : List TelnetEvent
session = accepted 5 ∷ send home ∷ polled received ∷ polled closed ∷ send home ∷ []

abbrev listening : Device Store
listening = record device { telnet = record { client_fd = none; mutex = true } }

trace-telnet_loop_example :
    (telnet_loop accepting session listening).1.trace ≡ served accepting session listening.trace
trace-telnet_loop_example = trace-telnet_loop accepting session listening (refl, refl)
