-- ===== src/Dns.antt =====
-- src/dns_server.c: the captive portal's DNS responder. A packet is the list of the bytes that
-- `recvfrom` delivers, at most 512.
pub mod Reply
pub mod Task
use esp32_hydroponics_govern.Prelude.{
  ℕ, ◌+◌, ◌-◌, Bool, true, false, List, [], ◌∷◌, ◌++◌, Option, none, some, length, get_or, take,
  drop, ltb, leb, if◌then◌else◌,
}
use esp32_hydroponics_govern.Config.{ap_ip, dns_port}
use esp32_hydroponics_govern.Platform.{
  EspErr, ok, fail, dns_task, create_task, delete_task, socket_listen, socket_close, udp_reply,
}
use esp32_hydroponics_govern.Device.{Device, emit}

-- `sizeof(dns_hdr_t)`
abbrev pub hdr_size : ℕ
hdr_size = 12

-- `sizeof(resp)`
abbrev pub resp_size : ℕ
resp_size = 512

-- The header of the response; `htons(0x8180)` is stored as 0x81, 0x80.
unfoldable pub reply_header : List ℕ → List ℕ
reply_header buf =
    get_or buf 0 0
    ∷ get_or buf 1 0
    ∷ 0x81
    ∷ 0x80
    ∷ get_or buf 4 0
    ∷ get_or buf 5 0
    ∷ 0
    ∷ 1
    ∷ 0
    ∷ 0
    ∷ 0
    ∷ 0
    ∷ []

-- The 16 bytes at `ans`.
unfoldable pub answer : List ℕ
answer = 0xC0 ∷ 0x0C ∷ 0x00 ∷ 0x01 ∷ 0x00 ∷ 0x01 ∷ 0x00 ∷ 0x00 ∷ 0x00 ∷ 0x3C ∷ 0x00 ∷ 0x04 ∷ ap_ip

-- The body of the loop from "Build response" on. `none` is a write past the end of `resp`.
unfoldable pub build_reply : List ℕ → Option (List ℕ)
unfolding reply_header answer
build_reply buf =
    let qlen = length buf - hdr_size in
    if leb (hdr_size + qlen + 16) resp_size
    then some (reply_header buf ++ (take qlen (drop hdr_size buf) ++ answer))
    else none

-- What happens while the task runs: what `recvfrom` returns to a round of its loop, or a call of
-- `dns_server_stop` by another task.
pub data DnsEvent : Type 0 where
  packet : List ℕ → DnsEvent
  recv_failed : DnsEvent
  stop : DnsEvent

module _ {S : Type 0} where
  unfoldable pub dns_server_start : Bool → Device S → Device S × EspErr
  dns_server_start created d =
      (emit (create_task dns_task) (record d { dns_running = true }), if created then ok else fail)

  unfoldable pub dns_server_stop : Device S → Device S
  dns_server_stop d = record d { dns_running = false }

  -- One round of `while (s_running)`.
  unfoldable pub dns_round : List ℕ → Device S → Option (Device S)
  dns_round buf d =
      if ltb (length buf) hdr_size
      then some d
      else elim (build_reply buf) [ none ↦ none | some resp ↦ some (emit (udp_reply resp) d) ]

  -- After the loop.
  abbrev pub dns_exit : Device S → Device S
  dns_exit d = emit delete_task (emit (socket_close 0) d)

  -- The task from a call of `recvfrom` on, while the events come in their order: what `recvfrom` returns
  -- is handled whatever has become of `s_running` since it was called, and the flag is tested then.
  unfoldable pub dns_loop : List DnsEvent → Device S → Option (Device S)
  unfolding dns_server_stop dns_round
  dns_loop [] d = some d
  dns_loop (stop ∷ es) d = dns_loop es (dns_server_stop d)
  dns_loop (recv_failed ∷ es) d =
      let rest = dns_loop es d in if d.dns_running then rest else some (dns_exit d)
  dns_loop (packet buf ∷ es) d = elim (dns_round buf d) [
    | none ↦ none
    | some d' ↦ let rest = dns_loop es d' in if d'.dns_running then rest else some (dns_exit d')
  ]

  -- `while (s_running)`, from its first test on.
  unfoldable pub dns_while : List DnsEvent → Device S → Option (Device S)
  unfolding dns_loop
  dns_while es d = let rest = dns_loop es d in if d.dns_running then rest else some (dns_exit d)

  -- `socket_ok` and `bind_ok`: whether `socket` and `bind` succeed.
  unfoldable pub run_dns_task : Bool → Bool → List DnsEvent → Device S → Option (Device S)
  unfolding dns_while
  run_dns_task false bind_ok es d = some (emit delete_task d)
  run_dns_task true false es d = some (dns_exit d)
  run_dns_task true true es d = dns_while es (emit (socket_listen dns_port) d)
