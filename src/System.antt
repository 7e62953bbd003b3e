-- ===== src/System.antt =====
-- The firmware once `app_main` (src/main.c) has started it: the tasks, callbacks and handlers of all
-- files take turns on the shared variables, in any order. A turn is one round of a task's loop, one
-- event, one request, or one call of a callback. A request that starts an attempt to connect is cut
-- where `connect_sta` waits, so that the other tasks have turns in between; every other turn is taken
-- whole. Two tasks act on the firmware only through their calls: `logger_task`
-- empties a queue that is on the trace, and `led_task` blinks.
pub mod Sound
pub mod Events
pub mod Tasks
pub mod Attempts
pub mod Requests
pub mod Safety
pub mod Shutdown
pub mod Start
pub mod Services
pub mod Boot
pub mod Paused
pub mod Frame
pub mod Protocol
pub mod PowerOn
pub mod Lives
pub mod Flow
pub mod Provision
use esp32_hydroponics_govern.Prelude.{
  ℕ, Text, Bool, true, false, List, [], ◌∷◌, Option, none, some, if◌then◌else◌,
}
use esp32_hydroponics_govern.Platform.{Float, FloatOps, Run, returned, aborted}
use esp32_hydroponics_govern.Device.{Device, boot}
use esp32_hydroponics_govern.Dns.{dns_round}
use esp32_hydroponics_govern.Telnet.{Phase, accepting, TelnetEvent, telnet_step}
use esp32_hydroponics_govern.Wifi.Credentials.{NvsApi}
use esp32_hydroponics_govern.Wifi.Connect.{Answer}
use esp32_hydroponics_govern.Wifi.Events.{EventAnswer, WifiEvent, wifi_event_handler}
use esp32_hydroponics_govern.Web.Handlers.{delayed_ap_shutdown_task}
use esp32_hydroponics_govern.Web.Requests.{HttpRequest, handle}
use esp32_hydroponics_govern.Web.Save.{Request}
use esp32_hydroponics_govern.Web.Save.Paused.{
  Worker, serving, settling, realigning, overwritten, Served, waiting, answered, begin_save,
  resume_save,
}
use esp32_hydroponics_govern.Web.Push.{Client}
use esp32_hydroponics_govern.Main.{
  MainAnswer, app_main_start, LastReading, Ticks, flow_isr_handler, flow_round, dht_round,
  push_round, view_round, main_round,
}

-- The shared variables, and those of the loops: the ticks of `app_main`, the last reading of
-- `dht_task`, and where `telnet_task` and the HTTP task stand; `receiving`: the DNS
-- task is in `recvfrom`, its socket being open.
pub record System (S : Type 0) : Type 0 where
  pub device : Device S
  pub ticks : Ticks
  pub last : LastReading
  pub phase : Phase
  pub http : Worker
  pub receiving : Bool

-- A turn, with what the libraries answer in it. `request` is a request from its start to its answer,
-- `post` one to save credentials up to its first wait, and `wake` the end of such a wait.
pub data Turn : Type 0 where
  event : EventAnswer → WifiEvent → Turn
  request : HttpRequest → Turn
  post : Request → Turn
  wake : Answer → Turn
  main_loop : ℕ → ℕ → Answer → Turn
  pulse view delayed_shutdown : Turn
  flow : ℕ → Turn
  dht : ℕ → ℕ → Option (Float × Float) → Turn
  push : Option (List Client) → Turn
  telnet : TelnetEvent → Turn
  dns : List ℕ → Turn

-- `crashed`: an access out of bounds. `halted`: ESP_ERROR_CHECK has failed.
pub data Outcome (S : Type 0) : Type 0 where
  crashed : Outcome S
  halted : Device S → Outcome S
  running : System S → Outcome S

module _ {S : Type 0} where
  -- The outcome of a turn that ends with this device.
  abbrev pub resume : System S → Option (Device S) → Outcome S
  resume s none = crashed
  resume s (some d) = running (record s { device = d })

  abbrev pub resume_run : {A : Type 0} → System S → Option (Run (Device S) A) → Outcome S
  resume_run s none = crashed
  resume_run s (some (returned _ d)) = running (record s { device = d })
  resume_run s (some (aborted d)) = halted d

  abbrev pub resume_served : System S → Served S → Outcome S
  resume_served s (waiting w d) = running (record s { device = d; http = w })
  resume_served s (answered (returned _ d)) = running (record s { device = d; http = serving })
  resume_served s (answered (aborted d)) = halted d

  -- The HTTP task takes a request only where it is not in the middle of one,
  abbrev pub if_serving : Worker → Outcome S → System S → Outcome S
  if_serving serving o s = o
  if_serving (settling slot cfg) o s = running s
  if_serving (realigning cfg) o s = running s

  -- and a wait ends only where there is one.
  abbrev pub if_waiting : Worker → Outcome S → System S → Outcome S
  if_waiting serving o s = running s
  if_waiting (settling slot cfg) o s = o
  if_waiting (realigning cfg) o s = o

  -- After a turn the pointer of the HTTP task reads the scan cache as the turn has left it.
  abbrev pub overwrite : Outcome S → Outcome S
  overwrite crashed = crashed
  overwrite (halted d) = halted d
  overwrite (running s) =
      running (record s { http = overwritten s.device.wifi.scan_records s.http })

  -- The DNS task tests `s_running` after each round.
  abbrev pub tested : Outcome S → Outcome S
  tested crashed = crashed
  tested (halted d) = halted d
  tested (running s) = running (record s { receiving = s.device.dns_running })

module _ {S : Type 0} (api : NvsApi S) (fp : FloatOps) where
  unfoldable pub task_turn : Turn → System S → Outcome S
  task_turn (event a e) s = resume_run s (wifi_event_handler api a e s.device)
  task_turn (request r) s = if_serving s.http (resume_run s (handle fp r s.device)) s
  task_turn (post req) s = if_serving s.http (resume_served s (begin_save req s.device)) s
  task_turn (wake a) s = if_waiting s.http (resume_served s (resume_save a s.http s.device)) s
  task_turn (main_loop now health_us a) s =
      let next = main_round api now health_us a s.ticks s.device in
      running (record s { ticks = next.0; device = next.1 })
  task_turn pulse s = running (record s { device = flow_isr_handler s.device })
  task_turn (flow now_us) s = running (record s { device = flow_round fp now_us s.device })
  task_turn (dht alive_us update_us reading) s =
      let next = dht_round fp alive_us update_us reading s.last s.device in
      running (record s { last = next.0; device = next.1 })
  task_turn (push clients) s = resume s (push_round fp clients s.device)
  task_turn view s = resume s (view_round fp s.device)
  task_turn (telnet e) s =
      let next = telnet_step s.phase e s.device in
      running (record s { phase = next.0; device = next.1 })
  task_turn (dns buf) s =
      if s.receiving then tested (resume s (dns_round buf s.device)) else running s
  task_turn delayed_shutdown s = running (record s { device = delayed_ap_shutdown_task s.device })

  unfoldable pub turn : Turn → System S → Outcome S
  unfolding task_turn
  turn t s = overwrite (task_turn t s)

  -- Turns until one crashes or halts.
  unfoldable pub run : List Turn → System S → Outcome S
  unfolding turn
  run [] s = running s
  run (t ∷ ts) s = elim (turn t s) [
    | crashed ↦ crashed
    | halted d ↦ halted d
    | running s' ↦ run ts s'
  ]

  -- Power-on: `app_main`, then turns of everything that it has started, `telnet_task` in its first
  -- `accept`. `last` is the pair of -999 that `dht_task` begins with.
  unfoldable pub power_on : MainAnswer → LastReading → List Turn → S → Outcome S
  unfolding run
  power_on a last ts store = elim (app_main_start api a (boot store)) [
    | none ↦ crashed
    | some r ↦ elim r [
      | aborted d ↦ halted d
      | returned _ d ↦ run ts (record {
        device = d;
        ticks = record { last_health_us = 0; last_reconnect_us = 0 };
        last = last;
        phase = accepting;
        http = serving;
        receiving = d.dns_running;
      })
    ]
  ]
