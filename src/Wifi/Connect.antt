-- ===== src/Wifi/Connect.antt =====
-- src/wifi_manager.c: starting a connection, reconnecting, and shutting the access point down.
pub mod Attempt
pub mod Shutdown
pub mod Paused
pub mod Undisturbed
pub mod Pointer
use esp32_hydroponics_govern.Prelude.{
  ℕ, Text, copy_str, Bool, true, false, List, Option, none, some, ◌==◌, if◌then◌else◌,
}
use esp32_hydroponics_govern.Platform.{
  EspErr, ok, invalid_state, not_found, is_ok, StaConfig, if_sta, if_ap, mode_sta, Run, returned,
  aborted, check, delay, set_failed_bit, clear_bits, wifi_connect, wifi_disconnect, wifi_set_mode,
  wifi_set_sta, wifi_set_channel, wifi_set_ht20, wifi_set_ps_none, wifi_set_max_tx_power,
}
use esp32_hydroponics_govern.Device.{
  WifiState, ap_only, connecting, failed, ApRecord, Callback, stop_dns, Wifi, Device, emit,
}
use esp32_hydroponics_govern.Dns.{dns_server_stop}
use esp32_hydroponics_govern.Wifi.Credentials.{
  NvsApi, Credentials, nvs_read, auth_open, auth_wpa2_psk, zero_bssid,
}
use esp32_hydroponics_govern.Wifi.Scan.{find_scanned_ap}

-- What the driver and the clock answer during an attempt.
pub record Answer : Type 0 where
  pub now_us : ℕ
  pub curr_chan : ℕ
  pub set_config : EspErr
  pub connect : EspErr

-- The configuration that `connect_sta` builds; `sta.sta.ssid` has 32 bytes and `password` 64.
unfoldable pub sta_config : Text → Text → Bool → Option ApRecord → StaConfig
sta_config ssid pass is_open (some ap) = record {
  ssid = copy_str 32 ssid;
  password = copy_str 64 pass;
  authmode = ap.authmode;
  bssid_set = true;
  bssid = ap.bssid;
  pmf_capable = false;
  pmf_required = false;
}
sta_config ssid pass is_open none = record {
  ssid = copy_str 32 ssid;
  password = copy_str 64 pass;
  authmode = if is_open then auth_open else auth_wpa2_psk;
  bssid_set = false;
  bssid = zero_bssid;
  pmf_capable = false;
  pmf_required = false;
}

-- The pending metadata is staged only for a network in the scan cache.
unfoldable pub stage_metadata : Option ApRecord → Wifi → Wifi
stage_metadata none w = w
stage_metadata (some ap) w = record w {
  pending_bssid_set = true;
  pending_bssid = ap.bssid;
  pending_auth = ap.authmode;
}

unfoldable pub stage : Text → Text → Option ApRecord → Wifi → Wifi
unfolding stage_metadata
stage ssid pass scan_ap w = stage_metadata scan_ap (record w {
  target_ssid = copy_str 33 ssid;
  pending_ssid = copy_str 64 ssid;
  pending_pass = copy_str 64 pass;
})

-- `s_state != WIFI_MGR_AP_ONLY && s_state != WIFI_MGR_FAILED` is false
unfoldable pub may_connect : WifiState → Bool
may_connect ap_only = true
may_connect failed = true
may_connect _ = false

module _ {S : Type 0} where
  abbrev pub set_state : WifiState → Device S → Device S
  set_state st d = record d { wifi = record (d.wifi) { state = st } }

  -- "Phase 4": the channel of the access point that was found.
  unfoldable pub align_channel : ℕ → Option ApRecord → Device S → Device S
  align_channel curr_chan none d = d
  align_channel curr_chan (some ap) d =
      if curr_chan == ap.primary then d else emit (delay 400) (emit (wifi_set_channel ap.primary) d)

  -- The last step: `esp_wifi_connect`, and what follows if it fails.
  unfoldable pub launch : EspErr → Device S → Device S
  launch ret d =
      let d' = emit wifi_connect d in
      if is_ok ret then d' else emit set_failed_bit (set_state failed d')

  -- All of `connect_sta` up to the configuration that it sets.
  unfoldable pub prepare : Answer → Text → Text → Bool → Option ApRecord → Device S → Device S
  unfolding stage align_channel
  prepare a ssid pass is_open scan_ap d =
      let d1 = record d { wifi = record (stage ssid pass scan_ap d.wifi) { retry_count = 0 } } in
      let d2 = emit (wifi_set_max_tx_power 80) (emit (delay 600) (emit wifi_disconnect d1)) in
      let d3 =
        emit (wifi_set_ht20 if_ap)
          (emit (wifi_set_ht20 if_sta) (align_channel a.curr_chan scan_ap d2)) in
      let d4 = record d3 {
        wifi = record (d3.wifi) { state = connecting; conn_start_us = a.now_us };
      } in
      emit (wifi_set_sta (sta_config ssid pass is_open scan_ap)) (emit clear_bits d4)

  unfoldable pub connect_sta : Answer → Text → Text → Bool → Device S → Run (Device S) (Unit {0})
  connect_sta a ssid pass is_open d =
      let d1 = prepare a ssid pass is_open (find_scanned_ap d.wifi.scan_records ssid) d in
      check a.set_config d1 (returned tt (launch a.connect d1))

  unfoldable pub wifi_manager_connect :
      Answer → Text → Text → Bool → Device S → Run (Device S) EspErr
  unfolding may_connect
  wifi_manager_connect a ssid pass is_open d =
      if may_connect d.wifi.state
      then elim (connect_sta a ssid pass is_open d) [
        | returned _ d' ↦ returned ok d'
        | aborted d' ↦ aborted d'
      ]
      else returned invalid_state d

  unfoldable pub wifi_manager_set_ap_shutdown_cb : Callback → Device S → Device S
  wifi_manager_set_ap_shutdown_cb cb d = record d {
    wifi = record (d.wifi) { shutdown_cb = some cb };
  }

  unfoldable pub run_callback : Option Callback → Device S → Device S
  unfolding dns_server_stop
  run_callback none d = d
  run_callback (some stop_dns) d = dns_server_stop d

  unfoldable pub wifi_manager_ap_shutdown : Device S → Device S
  unfolding run_callback
  wifi_manager_ap_shutdown d =
      let d1 = record d { wifi = record (d.wifi) { ap_active = false } } in
      if d.wifi.ap_active
      then emit (wifi_set_mode mode_sta) (run_callback d.wifi.shutdown_cb d1)
      else d

-- The configuration from stored credentials, on the direct path and on a reconnect.
unfoldable pub stored_config : Credentials → StaConfig
stored_config c = record {
  ssid = copy_str 32 c.ssid;
  password = copy_str 64 c.pass;
  authmode = c.auth;
  bssid_set = false;
  bssid = zero_bssid;
  pmf_capable = true;
  pmf_required = false;
}

module _ {S : Type 0} (api : NvsApi S) where
  unfoldable pub wifi_manager_reconnect : Answer → Device S → Device S × EspErr
  unfolding stored_config
  wifi_manager_reconnect a d = elim (nvs_read api d.nvs) [
    | none ↦ (d, not_found)
    | some c ↦
        let d1 = record d {
          wifi = record (d.wifi) {
            target_ssid = copy_str 33 c.ssid;
            retry_count = 0;
            state = connecting;
            conn_start_us = a.now_us;
          };
        } in
        let d2 =
          emit (wifi_set_max_tx_power 80)
            (emit (wifi_set_ht20 if_sta) (emit wifi_set_ps_none (emit clear_bits d1))) in
        let d3 = emit wifi_connect (emit (wifi_set_sta (stored_config c)) d2) in
        (if is_ok a.connect then d3 else set_state failed d3, a.connect)
  ]
