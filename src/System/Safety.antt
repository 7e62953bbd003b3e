-- ===== src/System/Safety.antt =====
-- All turns of the running firmware, in any order, keep its invariant.
use esp32_hydroponics_govern.Prelude.{
  ◌⊎◌, subst, ℕ, ◌≤◌, ◌≡◌, refl, Bool, true, false, List, [], ◌∷◌, some, length, Option-cases, inl,
  inr, arith, if◌then◌else◌,
}
use esp32_hydroponics_govern.Platform.{delay, FloatOps, Run, returned, aborted}
use esp32_hydroponics_govern.Device.{Telnet, Device, emit}
use esp32_hydroponics_govern.Dns.{dns_round, dns_server_stop}
use esp32_hydroponics_govern.Dns.Task.{dns_round_total}
use esp32_hydroponics_govern.Telnet.{
  TelnetEvent, accepted, accept_failed, polled, send, Phase, accepting, polling, telnet_server_send,
  telnet_step,
}
use esp32_hydroponics_govern.Wifi.Credentials.{NvsApi}
use esp32_hydroponics_govern.Wifi.Connect.{run_callback, wifi_manager_ap_shutdown}
use esp32_hydroponics_govern.Wifi.Invariant.{ScanFits}
use esp32_hydroponics_govern.Web.Handlers.{delayed_ap_shutdown_task}
use esp32_hydroponics_govern.Main.{flow_isr_handler}
use esp32_hydroponics_govern.System.{
  System, Turn, event, request, main_loop, pulse, view, delayed_shutdown, flow, dht, push, telnet,
  dns, post, wake, resume, resume_run, resume_served, if_serving, if_waiting, overwrite, tested,
  Outcome, crashed, halted, running, task_turn, turn, run,
}
use esp32_hydroponics_govern.Web.Save.Paused.{
  Worker, serving, settling, realigning, Served, waiting, answered, begin_save,
}
use esp32_hydroponics_govern.System.Paused.{
  PointsInside, SoundServed, overwritten-PointsInside, begin_save-SoundServed,
  resume_save-SoundServed,
}
use esp32_hydroponics_govern.System.Sound.{telnet_of, IsSound, SoundRun}
use esp32_hydroponics_govern.System.Events.{event-IsSound}
use esp32_hydroponics_govern.System.Tasks.{
  flow_round-IsSound, dht_round-IsSound, push_round-IsSound, view_round-IsSound, main_round-IsSound,
}
use esp32_hydroponics_govern.System.Requests.{handle-IsSound}

-- What the libraries deliver fits: a scan its limits, and a DNS query leaves room for the answer.
abbrev pub TurnFits : Turn → Type 0
TurnFits (event a e) = ScanFits a.scan
TurnFits (dns buf) = length buf ≤ 496
TurnFits _ = Unit

abbrev pub TurnsFit : List Turn → Type 0
TurnsFit [] = Unit
TurnsFit (t ∷ ts) = TurnFits t × TurnsFit ts

-- The invariant of the system: that of the shared variables, and the pointer of the HTTP task is within
-- its array.
abbrev pub IsSystem : {S : Type 0} → Bool → System S → Type 0
IsSystem up s = IsSound up (telnet_of s.phase) s.device × PointsInside s.http

abbrev pub SoundOutcome : {S : Type 0} → Bool → Outcome S → Type 0
SoundOutcome up crashed = ⊥
SoundOutcome up (halted d) = Unit
SoundOutcome up (running s) = IsSystem up s

module _ {S : Type 0} where
  pub Outcome-cases :
      (o : Outcome S)
      → (o ≡ crashed) ⊎ ((d : Device S) × (o ≡ halted d)) ⊎ ((s : System S) × (o ≡ running s))
  Outcome-cases crashed = inl refl
  Outcome-cases (halted d) = inr (inl (d, refl))
  Outcome-cases (running s) = inr (inr (s, refl))

  resumed :
      {A : Type 0} (up : Bool) (s : System S) (r : Run (Device S) A)
      → PointsInside s.http
      → SoundRun up (telnet_of s.phase) r
      → SoundOutcome up (resume_run s (some r))
  resumed up s (returned _ d) p w = (w, p)
  resumed up s (aborted d) p w = w

  served :
      (up : Bool) (s : System S) (o : Served S)
      → SoundServed up (telnet_of s.phase) o
      → SoundOutcome up (resume_served s o)
  served up s (waiting w d) v = (v.1, v.0)
  served up s (answered (returned _ d)) v = (v, tt)
  served up s (answered (aborted d)) v = v

  overwritten_outcome :
      (up : Bool) (o : Outcome S) → SoundOutcome up o → SoundOutcome up (overwrite o)
  overwritten_outcome up crashed v = v
  overwritten_outcome up (halted d) v = v
  overwritten_outcome up (running s) v =
      (v.0, overwritten-PointsInside s.device.wifi.scan_records s.http v.1)

  unless_waiting :
      (up : Bool) (w : Worker) (o : Outcome S) (s : System S)
      → SoundOutcome up o
      → SoundOutcome up (running s)
      → SoundOutcome up (if_serving w o s) × SoundOutcome up (if_waiting w o s)
  unless_waiting up serving o s v u = (v, u)
  unless_waiting up (settling slot cfg) o s v u = (u, v)
  unless_waiting up (realigning cfg) o s v u = (u, v)

module _ {S : Type 0} {up : Bool} {tel : Telnet} where
  shutdown-IsSound : (d : Device S) → IsSound up tel d → IsSound up tel (wifi_manager_ap_shutdown d)
  unfolding wifi_manager_ap_shutdown run_callback dns_server_stop
  shutdown-IsSound d v = ground (arith, v.callback)

  delayed-IsSound : (d : Device S) → IsSound up tel d → IsSound up tel (delayed_ap_shutdown_task d)
  unfolding delayed_ap_shutdown_task
  delayed-IsSound d v = shutdown-IsSound (emit (delay 500) d) v

  round-IsSound :
      (buf : List ℕ) (d d' : Device S)
      → dns_round buf d ≡ some d'
      → IsSound up tel d
      → IsSound up tel d'
  unfolding dns_round
  round-IsSound buf d d' h v = ground arith

module _ {S : Type 0} {up : Bool} where
  telnet-IsSound :
      (ph : Phase) (e : TelnetEvent) (d : Device S)
      → IsSound up (telnet_of ph) d
      → let (ph', d') = telnet_step ph e d in IsSound up (telnet_of ph') d'
  unfolding telnet_step telnet_server_send
  telnet-IsSound accepting (send msg) d v = ground arith
  telnet-IsSound (polling fd) (send msg) d v = ground arith
  telnet-IsSound accepting (accepted c) d v = ground arith
  telnet-IsSound accepting accept_failed d v = ground arith
  telnet-IsSound accepting (polled r) d v = v
  telnet-IsSound (polling fd) (polled r) d v = ground arith
  telnet-IsSound (polling fd) (accepted c) d v = v
  telnet-IsSound (polling fd) accept_failed d v = v

  polled_dns :
      (buf : List ℕ) (s : System S)
      → length buf ≤ 496
      → IsSystem up s
      → (live : Bool)
      → SoundOutcome up (if live then tested (resume s (dns_round buf s.device)) else running s)
  polled_dns buf s fits v false = v
  polled_dns buf s fits v true = elim (Option-cases (dns_round buf s.device)) [
    | inl overrun ↦ absurd (dns_round_total buf s.device fits overrun)
    | inr (d', fine) ↦ rw (fine, SoundOutcome) (round-IsSound buf s.device d' fine v.0, v.1)
  ]

module _ {S : Type 0} {up : Bool} (api : NvsApi S) (fp : FloatOps) where
  turn-IsSystem :
      (t : Turn) (s : System S)
      → TurnFits t
      → IsSystem up s
      → SoundOutcome up (task_turn api fp t s)
  unfolding task_turn
  turn-IsSystem (event a e) s fits v =
      let (r, made, w) = event-IsSound api a e s.device fits v.0 in
      rw (made, task_turn) (resumed up s r v.1 w)
  turn-IsSystem (request r) s fits v =
      let (o, made, w) = handle-IsSound fp r s.device v.0 in
      rw (made, task_turn) ((unless_waiting up s.http _ s (resumed up s o v.1 w) v).0)
  turn-IsSystem (post req) s fits v =
      (unless_waiting up s.http _ s
        (served up s (begin_save req s.device) (begin_save-SoundServed req s.device v.0)) v).0
  turn-IsSystem (wake a) s fits v =
      (unless_waiting up s.http _ s (served up s _ (resume_save-SoundServed a s.http s.device v.0))
        v).1
  turn-IsSystem (main_loop now health_us a) s fits v =
      (main_round-IsSound api now health_us a s.ticks s.device v.0, v.1)
  turn-IsSystem pulse s fits v = unfold flow_isr_handler in v
  turn-IsSystem (flow now_us) s fits v = (flow_round-IsSound fp now_us s.device v.0, v.1)
  turn-IsSystem (dht alive_us update_us reading) s fits v =
      (dht_round-IsSound fp alive_us update_us reading s.last s.device v.0, v.1)
  turn-IsSystem (push clients) s fits v =
      let (d', made, w) = push_round-IsSound fp clients s.device v.0 in
      rw (made, task_turn) (w, v.1)
  turn-IsSystem view s fits v =
      let (d', made, w) = view_round-IsSound fp s.device v.0 in rw (made, task_turn) (w, v.1)
  turn-IsSystem (telnet e) s fits v = (telnet-IsSound s.phase e s.device v.0, v.1)
  turn-IsSystem (dns buf) s fits v = polled_dns buf s fits v s.receiving
  turn-IsSystem delayed_shutdown s fits v = (delayed-IsSound s.device v.0, v.1)

  -- Turns that fit, from a state that keeps the invariant.
  pub run-IsSystem :
      (ts : List Turn) (s : System S)
      → TurnsFit ts
      → IsSystem up s
      → SoundOutcome up (run api fp ts s)
  unfolding run turn
  run-IsSystem [] s fits v = v
  run-IsSystem (t ∷ ts) s fits v =
      let first = overwritten_outcome up _ (turn-IsSystem t s fits.0 v) in
      elim (Outcome-cases (turn api fp t s)) [
        | inl lost ↦ absurd (subst (SoundOutcome up) lost first)
        | inr (inl (d, halts)) ↦ rw (halts, SoundOutcome) tt
        | inr (inr (s', goes)) ↦
            rw (goes, SoundOutcome) (run-IsSystem ts s' fits.1 (subst (SoundOutcome up) goes first))
      ]
