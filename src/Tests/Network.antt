-- ===== src/Tests/Network.antt =====
-- Examples for src/wifi_manager.c.
use esp32_hydroponics_govern.Prelude.{
  Bool, ◌≤◌, ◌≡◌, ◌≢◌, ◌⊎◌, refl, Text, copy_str, take, length, true, false, List, [], ◌∷◌, ◌++◌,
  none, some, arith, if◌then◌else◌,
}
use esp32_hydroponics_govern.Platform.{ok, fail, invalid_state, returned, restart}
use esp32_hydroponics_govern.Device.{ap_only, connecting, failed, ApRecord, Device, emit, boot}
use esp32_hydroponics_govern.Wifi.Credentials.{Credentials, nvs_write, nvs_clear, nvs_read}
use esp32_hydroponics_govern.Wifi.Credentials.RoundTrip.{IsStaged, nvs_read-nvs_write}
use esp32_hydroponics_govern.Wifi.Scan.{find_scanned_ap, find_from, scan_listing}
use esp32_hydroponics_govern.Wifi.Scan.Bounds.{networks, scan_listing_lem}
use esp32_hydroponics_govern.Wifi.Scan.Lookup.{IsBest, find_scanned_ap-IsBest}
use esp32_hydroponics_govern.Wifi.Connect.{
  Answer, sta_config, prepare, wifi_manager_connect, wifi_manager_ap_shutdown,
}
use esp32_hydroponics_govern.Wifi.Connect.Attempt.{
  IsAttempt, wifi_manager_connect-guard, sta_config_cuts, save_stale,
}
use esp32_hydroponics_govern.Wifi.Connect.Shutdown.{ap_shutdown_idem}
use esp32_hydroponics_govern.Wifi.Events.{
  EventAnswer, auth_fail, no_ap_found, Ip, sta_start, sta_disconnected, is_auth_fail,
  on_disconnected, save_pending, wifi_event_handler,
}
use esp32_hydroponics_govern.Wifi.Events.Branches.{pending, tried_again, disconnected_twice}
use esp32_hydroponics_govern.Wifi.Events.Machine.{IsRunOf, wifi_event_handler-IsRunOf}
use esp32_hydroponics_govern.Wifi.Startup.{StartAnswer, ApAnswer, wait_for_bits, wifi_manager_start}
use esp32_hydroponics_govern.Wifi.Startup.Bits.{first_set}
use esp32_hydroponics_govern.Wifi.Startup.Start.{start_with_credentials, start_without_credentials}
use esp32_hydroponics_govern.Tests.{
  Store, opens_saved, empty_store, store_api, store_laws, device, home, secret, home_ap, far_ap,
  joining,
}

abbrev pub credentials : Credentials
credentials = record {
  ssid = home;
  pass = secret;
  bssid_set = true;
  bssid = home_ap.bssid;
  auth = 3;
}

pub credentials-IsStaged : IsStaged credentials
credentials-IsStaged = record {
  named = refl;
  ssid_fits = omega arith;
  pass_fits = omega arith;
  bssid_whole = refl;
}

abbrev pub saved : Store
saved = (nvs_write store_api credentials empty_store).0

abbrev pub quiet : EventAnswer
quiet = record {
  now_us = 5000000;
  get_config = ok;
  scan = record { ap_num = 0; allocated = true; ret = ok; records = [] };
  mdns = ok;
}

abbrev pub address : Ip
address = (192, 168, 1, 7)

abbrev pub gateway : Ip
gateway = (192, 168, 1, 1)

disconnected_twice_example :
    let d1 = on_disconnected store_api quiet no_ap_found joining.wifi.state joining in
    let d2 = on_disconnected store_api quiet auth_fail d1.wifi.state d1 in
    ((d1.wifi.state ≡ connecting)
      × (pending d1.wifi ≡ pending joining.wifi)
      × (d1.nvs ≡ joining.nvs)
      × (d1.trace ≡ tried_again quiet joining.trace))
    × (d2.wifi.state ≡ failed)
    × (d2.wifi.pending_ssid ≡ [])
    × (d2.wifi.pending_pass ≡ [])
    × (d2.nvs ≡ (if is_auth_fail auth_fail then nvs_clear store_api joining.nvs else joining.nvs))
unfolding boot
disconnected_twice_example =
    disconnected_twice store_api quiet quiet no_ap_found auth_fail joining refl refl

wifi_event_handler-IsRunOf_example :
    IsRunOf quiet
      (sta_disconnected auth_fail)
      joining
      (returned tt (on_disconnected store_api quiet auth_fail connecting joining))
unfolding wifi_event_handler
wifi_event_handler-IsRunOf_example =
    wifi_event_handler-IsRunOf store_api quiet (sta_disconnected auth_fail) joining refl

find_scanned_ap-IsBest_example :
    IsBest home (far_ap ∷ home_ap ∷ []) (find_scanned_ap (far_ap ∷ home_ap ∷ []) home)
find_scanned_ap-IsBest_example = find_scanned_ap-IsBest (far_ap ∷ home_ap ∷ []) home

abbrev pub scanned : List ApRecord
scanned = far_ap ∷ home_ap ∷ record home_ap { ssid = secret } ∷ []

scan_listing_lem_example :
    (scan_listing scanned ≡ some (b'[' ∷ (networks [] true scanned ++ b']' ∷ [])))
    × (length (networks [] true scanned) ≤ 2020)
scan_listing_lem_example =
    scan_listing_lem scanned (omega arith, (omega arith, (omega arith, tt))) (omega arith)

abbrev pub answer : Answer
answer = record { now_us = 7000000; curr_chan = 1; set_config = ok; connect = ok }

abbrev pub in_portal : Device Store
in_portal = record device {
  wifi = record (device.wifi) { state = ap_only; scan_records = scanned };
}

wifi_manager_connect-guard_example :
    ((in_portal.wifi.state ≡ ap_only) ⊎ (in_portal.wifi.state ≡ failed)
      → (d' : Device Store) × (wifi_manager_connect answer home secret false in_portal
          ≡ returned ok d')
        × IsAttempt answer home secret in_portal d')
    × (in_portal.wifi.state ≢ ap_only
        → in_portal.wifi.state ≢ failed
        → wifi_manager_connect answer home secret false in_portal
          ≡ returned invalid_state in_portal)
wifi_manager_connect-guard_example =
    wifi_manager_connect-guard answer home secret false in_portal refl

abbrev long_name : Text
long_name = (home ++ home ++ home ++ home) ++ (home ++ home ++ home ++ home)

sta_config_cuts_example :
    ((sta_config long_name secret false none).ssid ≡ take 31 long_name)
    × ((sta_config long_name secret false none).ssid ≢ long_name)
    × (copy_str 33 long_name ≡ long_name)
sta_config_cuts_example = sta_config_cuts long_name secret false none refl

-- A device that has failed to join `home`, and then tries a network that the scan has not seen.
abbrev after_home : Device Store
after_home = record joining { wifi = record (joining.wifi) { scan_records = [] } }

save_stale_example :
    (save_pending store_api
      (prepare answer secret home false (find_scanned_ap [] secret) after_home)).nvs
    ≡ (nvs_write store_api
        (record { ssid = secret; pass = home; bssid_set = true; bssid = home_ap.bssid; auth = 3 })
        empty_store).0
unfolding find_scanned_ap find_from boot
save_stale_example =
    save_stale store_api answer secret home false after_home refl refl (omega arith) (omega arith)

ap_shutdown_idem_example :
    wifi_manager_ap_shutdown (wifi_manager_ap_shutdown joining) ≡ wifi_manager_ap_shutdown joining
ap_shutdown_idem_example = ap_shutdown_idem joining

abbrev pub ap_answer : ApAnswer
ap_answer = record {
  mode_sta_ret = ok;
  start_ret = ok;
  scan = record { ap_num = 1; allocated = true; ret = ok; records = [] };
  mode_apsta_ret = ok;
  config_ret = ok;
}

-- A start whose wait ends without a connection: the first association is lost, then the second.
abbrev pub start_answer : StartAnswer
start_answer = record {
  ap = ap_answer;
  mode_ret = ok;
  config_ret = ok;
  power_save_ret = ok;
  start_ret = ok;
  now_us = 1;
  events =
      (quiet, sta_start)
      ∷ (quiet, sta_disconnected auth_fail)
      ∷ (quiet, sta_disconnected auth_fail)
      ∷ [];
}

abbrev configured : Device Store
configured = record device { nvs = saved }

start_with_credentials_example :
    (d1 : Device Store) × (d1.wifi.state ≡ connecting)
    × (d1.wifi.retry_count ≡ 0)
    × (d1.nvs ≡ configured.nvs)
    × ((joined : Bool) (d2 : Device Store)
        → wait_for_bits store_api none start_answer.events d1 ≡ some (returned joined d2)
        → (first_set d2.trace ≡ some true
            → wifi_manager_start store_api start_answer configured ≡ some (returned ok d2))
          × (first_set d2.trace ≢ some true
              → store_api.open_rw d2.nvs ≡ ok
              → (d3 : Device Store) × (wifi_manager_start store_api start_answer configured
                  ≡ some (returned fail (emit restart d3)))
                × (nvs_read store_api d3.nvs ≡ none)))
unfolding first_set boot
start_with_credentials_example =
    start_with_credentials store_api store_laws start_answer credentials configured
      nvs_read-nvs_write_again
      (record { mode_up = refl; config_up = refl; power_save_up = refl; start_up = refl }) refl
  where
    nvs_read-nvs_write_again : nvs_read store_api saved ≡ some credentials
    nvs_read-nvs_write_again =
        nvs_read-nvs_write store_api store_laws credentials empty_store credentials-IsStaged refl
          (opens_saved credentials empty_store)

start_without_credentials_example :
    (d1 : Device Store) × (wifi_manager_start store_api start_answer device ≡ some (returned ok d1))
    × (d1.wifi.state ≡ ap_only)
    × (d1.wifi.ap_active ≡ true)
    × (d1.sensors.ap_mode ≡ true)
    × (d1.nvs ≡ device.nvs)
unfolding nvs_read boot networks
start_without_credentials_example =
    start_without_credentials store_api start_answer device (b'[' ∷ b']' ∷ []) refl
      (record { mode_sta_up = refl; start_up = refl; mode_apsta_up = refl; config_up = refl })
      (scan_listing_lem [] tt (omega arith)).0
