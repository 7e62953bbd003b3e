-- ===== src/Tests/Protocol.antt =====
-- Examples for the protocol of src/wifi_manager.c and for its list of networks.
use esp32_hydroponics_govern.Prelude.{
  ◌≡◌, refl, Text, text_eq, length, suc, true, false, List, [], ◌∷◌, ◌++◌, Option, none, some,
  arith,
}
use esp32_hydroponics_govern.Platform.{
  Call, ok, fail, returned, delay, wifi_connect, wifi_set_sta, wifi_set_channel,
  wifi_set_max_tx_power,
}
use esp32_hydroponics_govern.Device.{failed, ApRecord, Device, boot, emit}
use esp32_hydroponics_govern.Wifi.Credentials.{Credentials, nvs_read}
use esp32_hydroponics_govern.Wifi.Credentials.RoundTrip.{nvs_read-nvs_write}
use esp32_hydroponics_govern.Wifi.Scan.{is_duplicate, scan_listing}
use esp32_hydroponics_govern.Wifi.Scan.Reader.{read_names, shown_names}
use esp32_hydroponics_govern.Wifi.Scan.Json.{scan_listing-names}
use esp32_hydroponics_govern.Wifi.Connect.{
  connect_sta, stored_config, wifi_manager_connect, wifi_manager_reconnect,
}
use esp32_hydroponics_govern.Wifi.Connect.Paused.{
  realigned, better_slot, find_slot_from, find_slot, reread, begin_attempt, resume_attempt,
}
use esp32_hydroponics_govern.Wifi.Events.{
  EventAnswer, got_ip, auth_fail, sta_disconnected, on_got_ip, on_scan_done, wifi_event_handler,
}
use esp32_hydroponics_govern.Wifi.Invariant.{WifiFits}
use esp32_hydroponics_govern.Wifi.Protocol.{Steps, WifiOp, connect, event, wifi_ops, names_of, link}
use esp32_hydroponics_govern.Wifi.Protocol.Simulation.{wifi_ops-Steps}
use esp32_hydroponics_govern.Wifi.Protocol.Untried.{reconnect_saves_untried}
use esp32_hydroponics_govern.Wifi.Protocol.Waits.{Delivers, pointer_misleads, wait_saves_untried}
use esp32_hydroponics_govern.Tests.{
  Store, opens_saved, empty_store, store_api, store_laws, device, home, secret, home_ap, far_ap,
}
use esp32_hydroponics_govern.Tests.Network.{
  quiet, address, gateway, scanned, answer, in_portal, credentials, credentials-IsStaged, saved,
}

-- A network is posted, the connection comes up, and is lost.
abbrev session : List WifiOp
session =
    connect answer home secret false
    ∷ event quiet (got_ip address gateway)
    ∷ event quiet (sta_disconnected auth_fail)
    ∷ []

abbrev device_of : Option (Device Store) → Device Store
device_of none = device
device_of (some d) = d

abbrev after_session : Device Store
after_session = device_of (wifi_ops store_api session in_portal)

session_runs : wifi_ops store_api session in_portal ≡ some after_session
unfolding wifi_ops boot wifi_manager_connect connect_sta wifi_event_handler on_got_ip
session_runs = refl

wifi_ops-Steps_example :
    (names rest : List Text) × (names ++ rest ≡ names_of session)
    × Steps store_api names (link in_portal) (link after_session)
wifi_ops-Steps_example = wifi_ops-Steps store_api session in_portal after_session session_runs

-- A station that has lost its network, with the credentials of `home` in the store.
abbrev pub lost_home : Device Store
lost_home = record device {
  wifi = record (device.wifi) { state = failed; scan_records = scanned };
  nvs = saved;
}

pub scanned_WifiFits : WifiFits lost_home.wifi
unfolding boot
scanned_WifiFits = record {
  ip = omega arith;
  gw_ip = omega arith;
  target_ssid = omega arith;
  pending_ssid = omega arith;
  pending_pass = omega arith;
  pending_bssid = refl;
  scan_json = omega arith;
  scan_records = omega arith;
  bssids = (refl, (refl, (refl, tt)));
  retries = omega arith;
}

abbrev cabin : Text
cabin = b'c' ∷ b'a' ∷ b'b' ∷ b'i' ∷ b'n' ∷ []

home_saved : nvs_read store_api saved ≡ some credentials
home_saved =
    nvs_read-nvs_write store_api store_laws credentials empty_store credentials-IsStaged refl
      (opens_saved credentials empty_store)

reconnect_saves_untried_example :
    (d1 d3 : Device Store) × (c' : Credentials) × (calls : List Call) × (wifi_manager_connect
        (record answer { connect = fail })
        cabin
        secret
        false
        lost_home
      ≡ returned ok d1)
    × (d1.wifi.state ≡ failed)
    × ((wifi_manager_reconnect store_api answer d1).0.trace
        ≡ wifi_connect ∷ wifi_set_sta (stored_config credentials) ∷ calls)
    × (on_got_ip store_api quiet address gateway (wifi_manager_reconnect store_api answer d1).0
        ≡ returned tt d3)
    × (nvs_read store_api d3.nvs ≡ some c')
    × (c'.ssid ≡ cabin)
    × (c'.pass ≡ secret)
unfolding boot
reconnect_saves_untried_example =
    reconnect_saves_untried store_api store_laws (record answer { connect = fail }) answer quiet
      cabin secret false address gateway lost_home credentials refl scanned_WifiFits refl
      (omega arith) (omega arith) refl refl home_saved refl refl refl
      (λ c. opens_saved c lost_home.nvs)

wait_saves_untried_example :
    let d1 = (begin_attempt cabin secret false lost_home).0 in
    let d2 = (wifi_manager_reconnect store_api answer d1).0 in
    (d3 : Device Store) × (c' : Credentials) × (calls : List Call) × (d2.trace
      ≡ wifi_connect ∷ wifi_set_sta (stored_config credentials) ∷ calls)
    × (on_got_ip store_api quiet address gateway d2 ≡ returned tt d3)
    × (nvs_read store_api d3.nvs ≡ some c')
    × (c'.ssid ≡ cabin)
    × (c'.pass ≡ secret)
unfolding boot
wait_saves_untried_example =
    wait_saves_untried store_api store_laws answer quiet cabin secret false address gateway
      lost_home credentials scanned_WifiFits refl (omega arith) (omega arith) home_saved refl refl
      refl (λ c. opens_saved c lost_home.nvs)

-- A scan is under way that will find `home` no more, and something else in its place.
abbrev scanning_home : Device Store
scanning_home = record lost_home { wifi = record (lost_home.wifi) { scanning = true } }

abbrev lodge_ap : ApRecord
lodge_ap = record home_ap { ssid = cabin; primary = 6 }

abbrev over : EventAnswer
over = record quiet {
  scan = record { ap_num = 2; allocated = true; ret = ok; records = far_ap ∷ lodge_ap ∷ [] };
}

over-Delivers : Delivers over.scan
over-Delivers = record {
  found = refl;
  memory = refl;
  fetched = refl;
  names = (omega arith, (omega arith, tt));
  fits = omega arith;
}

home_at : find_slot scanned home ≡ some (1, home_ap)
unfolding find_slot find_slot_from better_slot text_eq
home_at = refl

pointer_misleads_example :
    let (d1, slot, cfg) = begin_attempt home secret false scanning_home in
    (d2 : Device Store) × (on_scan_done over d1 ≡ some d2)
    × (cfg.bssid ≡ home_ap.bssid)
    × (resume_attempt answer (reread d2.wifi.scan_records slot) cfg d2
        ≡ realigned cfg
            (emit (delay 400) (emit (wifi_set_channel 6) (emit (wifi_set_max_tx_power 80) d2))))
pointer_misleads_example =
    pointer_misleads answer over home secret false scanning_home 1 home_ap lodge_ap home_at refl
      over-Delivers refl refl

scan_listing-names_example :
    (json : Text) × (scan_listing scanned ≡ some json)
    × (read_names (suc (length scanned)) json ≡ some (shown_names [] scanned))
scan_listing-names_example =
    scan_listing-names scanned (omega arith, (omega arith, (omega arith, tt)))
      (omega arith, (omega arith, (omega arith, tt))) (omega arith)

-- The page shows `home` once, and the name with the ampersand as it is.
shown_example : shown_names [] scanned ≡ home ∷ secret ∷ []
unfolding shown_names is_duplicate text_eq
shown_example = refl
