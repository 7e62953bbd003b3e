-- ===== src/Tests/Systems.antt =====
-- Examples for the firmware as a whole.
use esp32_hydroponics_govern.Prelude.{
  ℕ, ◌%◌, ◌^◌, ◌≡◌, refl, cstr, true, List, [], ◌∷◌, ◌++◌, some, arith, if◌then◌else◌,
}
use esp32_hydroponics_govern.Platform.{ok, Run, returned, is_ok}
use esp32_hydroponics_govern.Device.{ap_only, connecting, failed, stop_dns, Device, boot}
use esp32_hydroponics_govern.Telnet.{accepting, accepted}
use esp32_hydroponics_govern.Wifi.Credentials.{Credentials}
use esp32_hydroponics_govern.Wifi.Startup.{InitAnswer, StartAnswer, start_sta, wifi_manager_start}
use esp32_hydroponics_govern.Wifi.Events.{auth_fail, sta_disconnected, scan_done, on_got_ip}
use esp32_hydroponics_govern.Wifi.Invariant.{WifiFits, ScanFits}
use esp32_hydroponics_govern.Web.Form.Decode.{is_unreserved}
use esp32_hydroponics_govern.Web.Form.Field.{portal_body}
use esp32_hydroponics_govern.Web.Save.{Request, save_handler}
use esp32_hydroponics_govern.Web.Requests.{status, save, keepalive}
use esp32_hydroponics_govern.Web.Save.Paused.{serving}
use esp32_hydroponics_govern.Main.{MainAnswer, LastReading, app_main_start}
use esp32_hydroponics_govern.System.{
  System, Turn, event, request, main_loop, pulse, view, delayed_shutdown, flow, telnet, dns, post,
  wake, run, power_on,
}
use esp32_hydroponics_govern.System.Sound.{telnet_of, IsSound}
use esp32_hydroponics_govern.System.Safety.{TurnsFit, SoundOutcome}
use esp32_hydroponics_govern.Platform.Checks.{Returns}
use esp32_hydroponics_govern.System.Services.{Started}
use esp32_hydroponics_govern.System.Boot.{EventsFit, app_main_start-Started}
use esp32_hydroponics_govern.System.PowerOn.{power_on-IsSound}
use esp32_hydroponics_govern.System.Shutdown.{IsQuiet, shutdown_is_final}
use esp32_hydroponics_govern.System.Provision.{IsForm, provisioned}
use esp32_hydroponics_govern.System.Protocol.{Kept}
use esp32_hydroponics_govern.System.Lives.{Life, LifeFits, names_of_lives, lives}
use esp32_hydroponics_govern.System.Lives.Provenance.{lives-Kept}
use esp32_hydroponics_govern.System.Flow.Window.{pulses, Stores, flow_counts_pulses}
use esp32_hydroponics_govern.Tests.{
  Store, opens_saved, empty_store, store_api, store_laws, whole_floats, home, secret,
}
use esp32_hydroponics_govern.Tests.Network.{
  quiet, address, gateway, answer, ap_answer, start_answer,
}
use esp32_hydroponics_govern.Tests.Portal.{home-AreBytes, secret-AreBytes}
use esp32_hydroponics_govern.Tests.Protocol.{lost_home, scanned_WifiFits}

-- Every call succeeds.
abbrev init_answer : InitAnswer
init_answer = record {
  flash = ok;
  flash_again = ok;
  netif = ok;
  event_loop = ok;
  driver = ok;
  storage = ok;
  mode = ok;
  start = ok;
  power_save = ok;
  stop = ok;
  power_save_again = ok;
  stop_again = ok;
  wifi_handler = ok;
  ip_handler = ok;
}

abbrev main_answer : MainAnswer
main_answer = record {
  gpio = ok;
  isr_service = ok;
  isr_handler = ok;
  wifi_init = init_answer;
  wifi_start = start_answer;
  queue_created = true;
  dns_created = true;
  httpd = ok;
  telnet_mutex = true;
  telnet_created = true;
  led_created = true;
  push_created = true;
}

nothing_found : ScanFits quiet.scan
nothing_found = record { names = tt; fetched = omega arith; addresses = tt }

nothing_scanned : ScanFits ap_answer.scan
nothing_scanned = record { names = tt; fetched = omega arith; addresses = tt }

events_fit : EventsFit start_answer.events
events_fit = (nothing_found, (nothing_found, (nothing_found, tt)))

-- The form of the portal, posted.
abbrev form : Request
form = record { content_len = 32; recv = λ n. portal_body home secret (b'0' ∷ []) }

abbrev query : List ℕ
query = 0 ∷ 7 ∷ 1 ∷ 0 ∷ 0 ∷ 1 ∷ 0 ∷ 0 ∷ 0 ∷ 0 ∷ 0 ∷ 0 ∷ 0 ∷ 0 ∷ 1 ∷ 0 ∷ 1 ∷ []

abbrev turns : List Turn
turns =
    dns query
    ∷ request (save answer form)
    ∷ post form
    ∷ event quiet (sta_disconnected auth_fail)
    ∷ request keepalive
    ∷ wake answer
    ∷ event quiet scan_done
    ∷ pulse
    ∷ flow 1000000
    ∷ telnet (accepted 3)
    ∷ view
    ∷ main_loop 2000000 2000000 answer
    ∷ request status
    ∷ []

turns_fit : TurnsFit turns
turns_fit = (
  omega arith,
  (tt, (tt, (nothing_found, (tt, (tt, (nothing_found, (tt, (tt, (tt, (tt, (tt, (tt, tt)))))))))))),
)

abbrev cold : LastReading
cold = record { last_t = 0; last_h = 0 }

power_on-IsSound_example :
    SoundOutcome true (power_on store_api whole_floats main_answer cold turns empty_store)
power_on-IsSound_example =
    power_on-IsSound store_api whole_floats main_answer cold turns empty_store nothing_scanned
      events_fit turns_fit

app_main_start-Started_example :
    (r : Run (Device Store) (Unit {0})) × (app_main_start store_api main_answer (boot empty_store)
      ≡ some r)
    × Returns (Started main_answer) r
app_main_start-Started_example =
    app_main_start-Started store_api main_answer empty_store nothing_scanned events_fit

-- The portal is open.
abbrev open_portal : Device Store
open_portal = record lost_home {
  wifi = record (lost_home.wifi) { state = ap_only; ap_active = true; shutdown_cb = some stop_dns };
  dns_running = true;
  telnet = telnet_of accepting;
  nvs = empty_store;
}

open_portal_fits : WifiFits open_portal.wifi
open_portal_fits = ground (arith, scanned_WifiFits)

open_portal-IsSound : IsSound true (telnet_of accepting) open_portal
unfolding boot
open_portal-IsSound = record {
  registry = record { in_table = omega arith; names_fit = tt };
  fits = open_portal_fits;
  coupled = refl;
  callback = refl;
  bound = refl;
  telnet = refl;
}

abbrev portal_system : System Store
portal_system = record {
  device = open_portal;
  ticks = record { last_health_us = 0; last_reconnect_us = 0 };
  last = cold;
  phase = accepting;
  http = serving;
  receiving = true;
}

shutdown_is_final_example :
    IsQuiet (run store_api whole_floats (delayed_shutdown ∷ turns) portal_system)
shutdown_is_final_example =
    shutdown_is_final store_api whole_floats turns portal_system turns_fit (open_portal-IsSound, tt)

typed : IsForm home secret b'0'
unfolding cstr is_unreserved
typed = record {
  ssid_bytes = home-AreBytes;
  pass_bytes = secret-AreBytes;
  ssid_string = refl;
  pass_string = refl;
  named = refl;
  ssid_fits = omega arith;
  pass_fits = omega arith;
  flag_plain = refl;
}

provisioned_example :
    (d1 d2 : Device Store) × (c : Credentials) × (save_handler answer form open_portal
      ≡ returned ok d1)
    × (d1.wifi.state ≡ (if is_ok answer.connect then connecting else failed))
    × (on_got_ip store_api quiet address gateway d1 ≡ returned tt d2)
    × (c.ssid ≡ home)
    × (c.pass ≡ secret)
    × ((b : StartAnswer)
        → wifi_manager_start store_api b (boot d2.nvs) ≡ start_sta store_api b c (boot d2.nvs))
provisioned_example =
    provisioned store_api store_laws answer form quiet address gateway home secret b'0' open_portal
      refl open_portal_fits typed refl refl refl refl (λ c. opens_saved c open_portal.nvs)

-- The pulses between two readings of the flow sensor, with an attempt under way.
abbrev window : List Turn
window =
    pulse
    ∷ post form
    ∷ pulse
    ∷ event quiet (sta_disconnected auth_fail)
    ∷ wake answer
    ∷ pulse
    ∷ main_loop 2000000 2000000 answer
    ∷ []

flow_counts_pulses_example :
    Stores
      (whole_floats.div_pulses (whole_floats.of_int (pulses window % 2 ^ 32)))
      (run store_api whole_floats (flow 1000000 ∷ (window ++ flow 2000000 ∷ [])) portal_system)
flow_counts_pulses_example =
    flow_counts_pulses store_api whole_floats true 1000000 2000000 window portal_system
      (refl, (refl, (refl, (refl, (refl, (refl, (refl, tt)))))))
      (tt, (tt, (tt, (nothing_found, (tt, (tt, (tt, tt))))))) (open_portal-IsSound, tt)

-- Two power cycles: the form is posted in the first, and its credentials are lost or kept in both.
abbrev life : Life
life = record { answer = main_answer; last = cold; turns = turns }

life-LifeFits : LifeFits life
life-LifeFits = record { scan = nothing_scanned; events = events_fit; turns = turns_fit }

lives-Kept_example :
    (store' : Store) × (lives store_api whole_floats (life ∷ life ∷ []) empty_store ≡ some store')
    × Kept store_api (names_of_lives (life ∷ life ∷ [])) empty_store store'
lives-Kept_example =
    lives-Kept store_api whole_floats (life ∷ life ∷ []) empty_store
      (life-LifeFits, (life-LifeFits, tt))
