-- ===== src/System/Shutdown.antt =====
-- After `delayed_ap_shutdown_task` of src/web_server.c has run.
use esp32_hydroponics_govern.Prelude.{◌≡◌, true, false, List, ◌∷◌, arith}
use esp32_hydroponics_govern.Platform.{FloatOps, delay}
use esp32_hydroponics_govern.Device.{Telnet, Device, emit}
use esp32_hydroponics_govern.Dns.{dns_server_stop}
use esp32_hydroponics_govern.Wifi.Credentials.{NvsApi}
use esp32_hydroponics_govern.Wifi.Connect.{run_callback, wifi_manager_ap_shutdown}
use esp32_hydroponics_govern.Web.Handlers.{delayed_ap_shutdown_task}
use esp32_hydroponics_govern.System.{
  System, Turn, delayed_shutdown, Outcome, crashed, halted, running, task_turn, turn, run,
}
use esp32_hydroponics_govern.Web.Save.Paused.{overwritten}
use esp32_hydroponics_govern.System.Paused.{overwritten-PointsInside}
use esp32_hydroponics_govern.System.Sound.{IsSound}
use esp32_hydroponics_govern.System.Safety.{TurnsFit, IsSystem, SoundOutcome, run-IsSystem}

-- The portal is gone: where the firmware runs, neither the access point nor the DNS server does.
abbrev pub IsQuiet : {S : Type 0} → Outcome S → Type 0
IsQuiet crashed = ⊥
IsQuiet (halted d) = Unit
IsQuiet (running s) = (s.device.wifi.ap_active ≡ false) × (s.device.dns_running ≡ false)

module _ {S : Type 0} {tel : Telnet} where
  shut-IsSound :
      (d : Device S) → IsSound true tel d → IsSound false tel (wifi_manager_ap_shutdown d)
  unfolding wifi_manager_ap_shutdown run_callback dns_server_stop
  shut-IsSound d v = ground (arith, v.callback)

  delayed-shut :
      (d : Device S) → IsSound true tel d → IsSound false tel (delayed_ap_shutdown_task d)
  unfolding delayed_ap_shutdown_task
  delayed-shut d v = shut-IsSound (emit (delay 500) d) v

module _ {S : Type 0} where
  quiet : (o : Outcome S) → SoundOutcome false o → IsQuiet o
  quiet crashed v = v
  quiet (halted d) v = tt
  quiet (running s) v = ground (arith, v.0.bound, v.0.coupled)

module _ {S : Type 0} (api : NvsApi S) (fp : FloatOps) where
  -- Once the delayed shutdown of the access point has run, in any state that keeps the invariant of the
  -- system, no turn of any task, event, request or callback brings the portal back: through any turns
  -- that fit, the access point stays down and `s_running` of the DNS server false, so that its task ends
  -- with the `recvfrom` that it is in, until the firmware halts.
  pub shutdown_is_final :
      (ts : List Turn) (s : System S)
      → TurnsFit ts
      → IsSystem true s
      → IsQuiet (run api fp (delayed_shutdown ∷ ts) s)
  unfolding run turn task_turn
  shutdown_is_final ts s fits v =
      let d = delayed_ap_shutdown_task s.device in
      quiet (run api fp (delayed_shutdown ∷ ts) s) (
        run-IsSystem api fp ts
          (record s { device = d; http = overwritten d.wifi.scan_records s.http }) fits
          (delayed-shut s.device v.0, overwritten-PointsInside d.wifi.scan_records s.http v.1))
