-- ===== src/Device.antt =====
-- The state of the firmware: the module variables of src/*.c, each component's in a record of its
-- own, beside the non-volatile store and the trace of calls.
use esp32_hydroponics_govern.Prelude.{ℕ, Text, Bool, false, List, [], ◌∷◌, Option, none, ℤ}
use esp32_hydroponics_govern.Platform.{EspErr, ok, Float, Call}

-- `sensor_meta_t`; `timeout_ms` and `last_seen_ms` are uint32_t.
pub record Meta : Type 0 where
  pub name : Text
  pub timeout_ms : ℕ
  pub last_seen_ms : ℕ
  pub active : Bool
  pub alive : Bool
  pub prev_alive : Bool

-- The variables of sensor_manager.c and `push_task_handle`. `metas` are the first `s_count` entries
-- of `s_sensors`; handles are only compared with NULL.
pub record Sensors : Type 0 where
  pub metas : List Meta
  pub temp : Float
  pub hum : Float
  pub flow : Float
  pub log_queue : Bool
  pub ap_mode : Bool
  pub push_task_handle : Bool

-- `wifi_mgr_state_t`
pub data WifiState : Type 0 where
  idle ap_only connecting connected failed : WifiState

-- The members of `wifi_ap_record_t` that the code reads.
pub record ApRecord : Type 0 where
  pub bssid : List ℕ
  pub ssid : Text
  pub primary : ℕ
  pub rssi : ℤ
  pub authmode : ℕ

-- The one callback that the program registers.
pub data Callback : Type 0 where
  stop_dns : Callback

-- The variables of wifi_manager.c. `scan_records` are the first `s_scan_record_count` records.
pub record Wifi : Type 0 where
  pub state : WifiState
  pub ip : Text
  pub gw_ip : Text
  pub ap_active : Bool
  pub scanning : Bool
  pub conn_start_us : ℕ
  pub sta_netif_done : Bool
  pub shutdown_cb : Option Callback
  pub last_scan_err : EspErr
  pub target_ssid : Text
  pub scan_json : Text
  pub pending_ssid : Text
  pub pending_pass : Text
  pub pending_bssid : List ℕ
  pub pending_auth : ℕ
  pub pending_bssid_set : Bool
  pub scan_records : List ApRecord
  pub retry_count : ℕ

-- The variables of web_server.c.
pub record Web : Type 0 where
  pub server : Bool
  pub dash_ready : Bool
  pub dash_ip : Text
  pub ap_shutdown_scheduled : Bool

-- The variables of telnet_server.c; `none` is the file descriptor -1.
pub record Telnet : Type 0 where
  pub client_fd : Option ℕ
  pub mutex : Bool

-- `trace` has the newest call first.
pub record Device (S : Type 0) : Type 0 where
  pub sensors : Sensors
  pub wifi : Wifi
  pub web : Web
  pub telnet : Telnet
  pub dns_running : Bool
  pub pulse_count : ℕ
  pub nvs : S
  pub trace : List Call

abbrev pub emit : {S : Type 0} → Call → Device S → Device S
emit c d = record d { trace = c ∷ d.trace }

-- The variables as the C start-up code leaves them.
unfoldable pub boot : {S : Type 0} → S → Device S
boot store = record {
  sensors = record {
    metas = [];
    temp = 0;
    hum = 0;
    flow = 0;
    log_queue = false;
    ap_mode = false;
    push_task_handle = false;
  };
  wifi = record {
    state = idle;
    ip = [];
    gw_ip = [];
    ap_active = false;
    scanning = false;
    conn_start_us = 0;
    sta_netif_done = false;
    shutdown_cb = none;
    last_scan_err = ok;
    target_ssid = [];
    scan_json = b'[' ∷ b']' ∷ [];
    pending_ssid = [];
    pending_pass = [];
    pending_bssid = 0 ∷ 0 ∷ 0 ∷ 0 ∷ 0 ∷ 0 ∷ [];
    pending_auth = 0;
    pending_bssid_set = false;
    scan_records = [];
    retry_count = 0;
  };
  web = record { server = false; dash_ready = false; dash_ip = []; ap_shutdown_scheduled = false };
  telnet = record { client_fd = none; mutex = false };
  dns_running = false;
  pulse_count = 0;
  nvs = store;
  trace = [];
}
