-- ===== src/Wifi/Connect/Attempt.antt =====
-- src/wifi_manager.c: what an attempt to connect leaves, and what it hands to the driver.
use esp32_hydroponics_govern.Prelude.{
  ℕ, ◌<◌, ◌≡◌, ◌≢◌, refl, ap, Text, copy_str, Bool, true, false, List, Option, none, some, length,
  length-take, take, take_all, arith, ◌⊎◌, if◌then◌else◌,
}
use esp32_hydroponics_govern.Platform.{ok, invalid_state, is_ok, returned}
use esp32_hydroponics_govern.Device.{ap_only, connecting, failed, ApRecord, Wifi, Device}
use esp32_hydroponics_govern.Wifi.Credentials.{NvsApi, nvs_write, is_empty}
use esp32_hydroponics_govern.Wifi.Scan.{find_scanned_ap}
use esp32_hydroponics_govern.Wifi.Connect.{
  Answer, sta_config, prepare, launch, connect_sta, wifi_manager_connect,
}
use esp32_hydroponics_govern.Wifi.Events.{save_pending}

-- What a started attempt leaves in the module's variables.
pub record IsAttempt {S : Type 0} (a : Answer) (ssid pass : Text) (d d' : Device S) : Type 0 where
  pub state : d'.wifi.state ≡ (if is_ok a.connect then connecting else failed)
  pub since : d'.wifi.conn_start_us ≡ a.now_us
  pub retries : d'.wifi.retry_count ≡ 0
  pub target : d'.wifi.target_ssid ≡ copy_str 33 ssid
  pub pending_ssid : d'.wifi.pending_ssid ≡ copy_str 64 ssid
  pub pending_pass : d'.wifi.pending_pass ≡ copy_str 64 pass
  pub access_point : d'.wifi.ap_active ≡ d.wifi.ap_active
  pub store : d'.nvs ≡ d.nvs
  pub sensors : d'.sensors ≡ d.sensors

-- What it has staged for the store, beside the strings: the metadata of the access point that was
-- found, or those that were there.
abbrev pub staged_metadata : Option ApRecord → Wifi → List ℕ × ℕ × Bool
staged_metadata none w = (w.pending_bssid, w.pending_auth, w.pending_bssid_set)
staged_metadata (some found) w = (found.bssid, found.authmode, true)

abbrev pub metadata : Wifi → List ℕ × ℕ × Bool
metadata w = (w.pending_bssid, w.pending_auth, w.pending_bssid_set)

module _ {S : Type 0} where
  prepare-IsAttempt :
      (a : Answer) (ssid pass : Text) (is_open : Bool) (o : Option ApRecord) (d : Device S)
      → IsAttempt a ssid pass d (launch a.connect (prepare a ssid pass is_open o d))
  unfolding prepare launch
  prepare-IsAttempt a ssid pass is_open none d = ground arith
  prepare-IsAttempt a ssid pass is_open (some found) d = ground arith

  -- If the driver takes the configuration, `connect_sta` ends: the attempt counts from now with no
  -- retry used, it has failed at once if `esp_wifi_connect` has, both strings are staged as far as
  -- the buffers hold them, and the access point, the stored credentials and the sensors are as before.
  pub connect_sta-IsAttempt :
      (a : Answer) (ssid pass : Text) (is_open : Bool) (d : Device S)
      → a.set_config ≡ ok
      → (d' : Device S) × (connect_sta a ssid pass is_open d ≡ returned tt d')
        × IsAttempt a ssid pass d d'
  unfolding connect_sta
  connect_sta-IsAttempt a ssid pass is_open d config =
      let found = find_scanned_ap d.wifi.scan_records ssid in
      (
        launch a.connect (prepare a ssid pass is_open found d),
        rw config,
        prepare-IsAttempt a ssid pass is_open found d,
      )

  -- `wifi_manager_connect` answers ESP_ERR_INVALID_STATE and changes nothing in every state but
  -- AP_ONLY and FAILED; in these it starts an attempt.
  pub wifi_manager_connect-guard :
      (a : Answer) (ssid pass : Text) (is_open : Bool) (d : Device S)
      → a.set_config ≡ ok
      → ((d.wifi.state ≡ ap_only) ⊎ (d.wifi.state ≡ failed)
          → (d' : Device S) × (wifi_manager_connect a ssid pass is_open d ≡ returned ok d')
            × IsAttempt a ssid pass d d')
        × (d.wifi.state ≢ ap_only
            → d.wifi.state ≢ failed
            → wifi_manager_connect a ssid pass is_open d ≡ returned invalid_state d)
  unfolding wifi_manager_connect
  wifi_manager_connect-guard a ssid pass is_open d config =
      let (d', made, is_attempt) = connect_sta-IsAttempt a ssid pass is_open d config in
      (λ allowed. (d', ground arith, is_attempt), λ not_ap not_failed. ground arith)

  -- The metadata that an attempt stages: those of the access point in the scan cache, and, for a
  -- network that is not in it, those that an earlier attempt has left.
  pub metadata-prepare :
      (a : Answer) (ssid pass : Text) (is_open : Bool) (o : Option ApRecord) (d : Device S)
      → metadata (prepare a ssid pass is_open o d).wifi ≡ staged_metadata o d.wifi
  unfolding prepare
  metadata-prepare a ssid pass is_open none d = refl
  metadata-prepare a ssid pass is_open (some found) d = ground arith

-- A 32-byte name, the longest that Wi-Fi allows, reaches the driver without its last byte, for every
-- password and whether or not its access point was found.
pub sta_config_cuts :
    (ssid pass : Text) (is_open : Bool) (o : Option ApRecord)
    → length ssid ≡ 32
    → ((sta_config ssid pass is_open o).ssid ≡ take 31 ssid)
      × ((sta_config ssid pass is_open o).ssid ≢ ssid)
      × (copy_str 33 ssid ≡ ssid)
unfolding sta_config
sta_config_cuts ssid pass is_open none full = (
  refl,
  λ same. omega (arith, ap length same, length-take 31 ssid),
  take_all 32 ssid (omega arith),
)
sta_config_cuts ssid pass is_open (some found) full = (
  refl,
  λ same. omega (arith, ap length same, length-take 31 ssid),
  take_all 32 ssid (omega arith),
)

module _ {S : Type 0} (api : NvsApi S) where
  -- A network that is not in the scan cache, with a name and strings that fit, is saved, once it
  -- works, with the BSSID, flag and authentication mode of whatever network was staged before it.
  pub save_stale :
      (a : Answer) (ssid pass : Text) (is_open : Bool) (d : Device S)
      → find_scanned_ap d.wifi.scan_records ssid ≡ none
      → is_empty ssid ≡ false
      → length ssid < 64
      → length pass < 64
      → (save_pending api
          (prepare a ssid pass is_open (find_scanned_ap d.wifi.scan_records ssid) d)).nvs
        ≡ (nvs_write api
            (record {
              ssid = ssid;
              pass = pass;
              bssid_set = d.wifi.pending_bssid_set;
              bssid = d.wifi.pending_bssid;
              auth = d.wifi.pending_auth;
            })
            d.nvs).0
  unfolding prepare save_pending
  save_stale a ssid pass is_open d unseen named hs hp =
      rw (unseen, take_all 63 ssid (omega arith), take_all 63 pass (omega arith), named)
