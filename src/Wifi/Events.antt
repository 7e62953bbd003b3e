-- ===== src/Wifi/Events.antt =====
-- src/wifi_manager.c: the handler of Wi-Fi and IP events.
pub mod Branches
pub mod Machine
use esp32_hydroponics_govern.Prelude.{
  ℕ, suc, ◌+◌, ◌-◌, ◌/◌, Text, codes, decimal, Bool, true, false, List, [], ◌∷◌, ◌++◌, Option, none,
  some, take, ltb, if◌then◌else◌,
}
use esp32_hydroponics_govern.Config.{wifi_connect_timeout_ms, http_port}
use esp32_hydroponics_govern.Platform.{
  EspErr, is_ok, Run, returned, aborted, check, set_connected_bit, set_failed_bit, wifi_connect,
  wifi_reapply_config, mdns_init, mdns_set,
}
use esp32_hydroponics_govern.Device.{
  WifiState, idle, ap_only, connecting, connected, failed, Wifi, Device, emit,
}
use esp32_hydroponics_govern.Sensor.{sensor_set_ap_mode, enqueue_log}
use esp32_hydroponics_govern.Wifi.Credentials.{NvsApi, Credentials, nvs_write, nvs_clear, is_empty}
use esp32_hydroponics_govern.Wifi.Scan.{ScanAnswer, update_scan_cache}
use esp32_hydroponics_govern.Wifi.Connect.{set_state}

-- The reasons that the handler tells apart.
pub data Reason : Type 0 where
  auth_fail auth_expire handshake_timeout four_way_handshake_timeout mic_failure : Reason
  no_ap_found : Reason
  other_reason : ℕ → Reason

-- An address as its four octets.
abbrev pub Ip : Type 0
Ip = ℕ × ℕ × ℕ × ℕ

pub data WifiEvent : Type 0 where
  sta_start sta_connected scan_done other_event : WifiEvent
  sta_disconnected : Reason → WifiEvent
  got_ip : Ip → Ip → WifiEvent

-- What the clock, the driver and mDNS answer to the handler.
pub record EventAnswer : Type 0 where
  pub now_us : ℕ
  pub get_config : EspErr
  pub scan : ScanAnswer
  pub mdns : EspErr

-- `auth_fail`
unfoldable pub is_auth_fail : Reason → Bool
is_auth_fail auth_fail = true
is_auth_fail auth_expire = true
is_auth_fail handshake_timeout = true
is_auth_fail four_way_handshake_timeout = true
is_auth_fail mic_failure = true
is_auth_fail _ = false

abbrev pub is_no_ap_found : Reason → Bool
is_no_ap_found no_ap_found = true
is_no_ap_found _ = false

abbrev pub is_connecting : WifiState → Bool
is_connecting connecting = true
is_connecting _ = false

-- IPSTR with IP2STR
unfoldable pub print_ip : Ip → Text
print_ip (a, b, c, e) =
    decimal a ++ (b'.' ∷ (decimal b ++ (b'.' ∷ (decimal c ++ (b'.' ∷ decimal e)))))

abbrev pub clear_pending_credentials : Wifi → Wifi
clear_pending_credentials w = record w { pending_ssid = []; pending_pass = [] }

abbrev pub clear_pending : {S : Type 0} → Device S → Device S
clear_pending d = record d { wifi = clear_pending_credentials d.wifi }

unfoldable pub auth_alert : Text
auth_alert = codes "[ALERT] Authentication failed - possible typo or wrong password"

module _ {S : Type 0} where
  -- The first branch while connecting: one retry.
  unfoldable pub retry : EventAnswer → Device S → Device S
  retry a d =
      let d1 = record d { wifi = record (d.wifi) { retry_count = d.wifi.retry_count + 1 } } in
      emit wifi_connect (if is_ok a.get_config then emit wifi_reapply_config d1 else d1)

  -- What `start_mdns` sets once the library is up.
  unfoldable pub announce : Device S → Device S
  announce d =
      emit
        (mdns_set (codes "hydroponics") (codes "Hydroponics Governor") (codes "_http")
          (codes "_tcp") http_port)
        d

  unfoldable pub start_mdns : EspErr → Device S → Run (Device S) (Unit {0})
  start_mdns ret d = let d' = emit mdns_init d in check ret d' (returned tt (announce d'))

  -- The last two statements after a new address.
  unfoldable pub log_connected : Device S → Device S
  log_connected d = enqueue_log (take 63 (codes "[STA] Connected - IP: " ++ d.wifi.ip)) d

  unfoldable pub on_scan_done : EventAnswer → Device S → Option (Device S)
  on_scan_done a d =
      if d.wifi.scanning
      then update_scan_cache a.scan (record d { wifi = record (d.wifi) { scanning = false } })
      else some d

  -- The end of the branch for a new address: `start_mdns` and the log line.
  unfoldable pub finish_got_ip : EspErr → Device S → Run (Device S) (Unit {0})
  unfolding start_mdns
  finish_got_ip ret d = elim (start_mdns ret d) [
    | aborted d' ↦ aborted d'
    | returned _ d' ↦ returned tt (log_connected d')
  ]

module _ {S : Type 0} (api : NvsApi S) where
  -- The rest of the branch while connecting: the attempt has failed.
  unfoldable pub give_up : EventAnswer → Reason → Device S → Device S
  unfolding is_auth_fail auth_alert enqueue_log
  give_up a reason d =
      let elapsed_ms = (a.now_us - d.wifi.conn_start_us) / 1000 in
      let d1 = emit set_failed_bit (set_state failed d) in
      if is_auth_fail reason
      then (let d2 = clear_pending (enqueue_log auth_alert d1) in
          record d2 { nvs = nvs_clear api d2.nvs })
      else (if is_no_ap_found reason
          then clear_pending d1
          else (if ltb wifi_connect_timeout_ms elapsed_ms
              then clear_pending d1
              else clear_pending d1))

  unfoldable pub on_disconnected : EventAnswer → Reason → WifiState → Device S → Device S
  on_disconnected a reason connecting d =
      if ltb d.wifi.retry_count 1 then retry a d else give_up a reason d
  on_disconnected a reason connected d = set_state failed d
  on_disconnected a reason _ d = d

  -- `if (s_pending_ssid[0]) { … }`: the credentials that worked are saved.
  unfoldable pub save_pending : Device S → Device S
  save_pending d =
      let w = d.wifi in
      let c : Credentials = record {
        ssid = w.pending_ssid;
        pass = w.pending_pass;
        bssid_set = w.pending_bssid_set;
        bssid = w.pending_bssid;
        auth = w.pending_auth;
      } in
      if is_empty w.pending_ssid
      then d
      else clear_pending (record d { nvs = (nvs_write api c d.nvs).0 })

  -- The branch for a new address up to `start_mdns`.
  unfoldable pub take_address : Ip → Ip → Device S → Device S
  unfolding save_pending sensor_set_ap_mode
  take_address ip gw d =
      let d1 = record d {
        wifi = record (d.wifi) { ip = take 19 (print_ip ip); gw_ip = take 19 (print_ip gw) };
      } in
      sensor_set_ap_mode false (emit set_connected_bit (set_state connected (save_pending d1)))

  unfoldable pub on_got_ip : EventAnswer → Ip → Ip → Device S → Run (Device S) (Unit {0})
  unfolding finish_got_ip
  on_got_ip a ip gw d = finish_got_ip a.mdns (take_address ip gw d)

  -- The whole handler; `none` is a write out of bounds while the scan list is printed.
  unfoldable pub wifi_event_handler :
      EventAnswer → WifiEvent → Device S → Option (Run (Device S) (Unit {0}))
  wifi_event_handler a sta_start d =
      some (returned tt (if is_connecting d.wifi.state then emit wifi_connect d else d))
  wifi_event_handler a sta_connected d = some (returned tt d)
  wifi_event_handler a (sta_disconnected reason) d =
      some (returned tt (on_disconnected a reason d.wifi.state d))
  wifi_event_handler a scan_done d = elim (on_scan_done a d) [
    | none ↦ none
    | some d' ↦ some (returned tt d')
  ]
  wifi_event_handler a other_event d = some (returned tt d)
  wifi_event_handler a (got_ip ip gw) d = some (on_got_ip a ip gw d)
