-- ===== src/Platform.antt =====
-- What the firmware calls and does not implement: ESP-IDF, FreeRTOS, lwIP and <stdio.h> on floats.
-- A call that changes something outside the firmware is a `Call` on the device's trace; what a call
-- returns is an argument of the function that makes it.
pub mod Checks
use esp32_hydroponics_govern.Prelude.{ℕ, Text, Bool, true, false, List}

-- `esp_err_t`, as far as the code tells the values apart.
pub data EspErr : Type 0 where
  ok fail no_mem invalid_state not_found timeout invalid_crc : EspErr
  nvs_no_free_pages nvs_new_version_found : EspErr
  other : ℕ → EspErr

-- `ret == ESP_OK`
abbrev pub is_ok : EspErr → Bool
is_ok ok = true
is_ok _ = false

-- `ret == ESP_ERR_INVALID_STATE`
abbrev pub is_invalid_state : EspErr → Bool
is_invalid_state invalid_state = true
is_invalid_state _ = false

-- A `float` is its bit pattern; what the FPU and `printf` do with one is a parameter.
abbrev pub Float : Type 0
Float = ℕ

pub record FloatOps : Type 0 where
  pub of_int : ℕ → Float  -- (float)n
  pub div_pulses : Float → Float  -- x / 3.75f
  pub ne : Float → Float → Bool  -- x != y
  pub print1 : Float → Text  -- %.1f
  pub print2 : Float → Text  -- %.2f

pub data Mode : Type 0 where
  mode_null mode_sta mode_apsta : Mode

pub data Iface : Type 0 where
  if_sta if_ap : Iface

-- The members of `wifi_config_t.sta` that the code sets.
pub record StaConfig : Type 0 where
  pub ssid : Text
  pub password : Text
  pub authmode : ℕ
  pub bssid_set : Bool
  pub bssid : List ℕ
  pub pmf_capable : Bool
  pub pmf_required : Bool

-- The members of `wifi_config_t.ap` that the code sets.
pub record ApConfig : Type 0 where
  pub ssid : Text
  pub channel : ℕ
  pub authmode : ℕ
  pub max_connection : ℕ

pub data TaskName : Type 0 where
  dht_task flow_task push_task logger_task sensor_view_task led_task dns_task : TaskName
  telnet_task delayed_ap_shutdown delayed_reboot : TaskName

pub data Call : Type 0 where
  -- FreeRTOS and the system
  delay : ℕ → Call
  queue_send : Text → Call
  notify_push : Call
  create_task : TaskName → Call
  delay_us : ℕ → Call
  delete_task : Call
  task_yield : Call
  set_connected_bit set_failed_bit clear_bits : Call
  create_objects : Call
  restart : Call
  -- GPIO
  gpio_output gpio_input_pullup gpio_input_isr : ℕ → Call
  gpio_low gpio_high : ℕ → Call
  -- Wi-Fi driver, netif, NVS flash, mDNS
  nvs_flash_init nvs_flash_erase : Call
  netif_init event_loop_create wifi_init register_handlers set_country : Call
  create_netif_ap create_netif_sta : Call
  wifi_start wifi_stop wifi_connect wifi_disconnect : Call
  wifi_set_mode : Mode → Call
  wifi_reapply_config : Call
  wifi_set_sta : StaConfig → Call
  wifi_set_ap : ApConfig → Call
  wifi_set_channel : ℕ → Call
  wifi_set_ht20 : Iface → Call
  wifi_set_ps_none : Call
  wifi_set_max_tx_power : ℕ → Call
  wifi_scan_start : Bool → Call
  mdns_init : Call
  mdns_set : Text → Text → Text → Text → ℕ → Call
  -- HTTP server and OTA
  httpd_start httpd_stop : Call
  register_uri : Text → Call
  register_not_found : Call
  resp_type resp_status : Text → Call
  resp_hdr : Text → Text → Call
  resp_send : Text → Call
  resp_page : Bool → Call
  resp_err : ℕ → Text → Call
  ws_queue : ℕ → Text → Call
  ws_frame : ℕ → Text → Call
  ota_begin ota_abort ota_end ota_set_boot : Call
  ota_write : List ℕ → Call
  -- sockets
  socket_listen : ℕ → Call
  socket_send : ℕ → Text → Call
  socket_close : ℕ → Call
  udp_reply : List ℕ → Call

-- A run of code with `ESP_ERROR_CHECK`, which stops the firmware where a call has failed.
pub data Run (D A : Type 0) : Type 0 where
  returned : A → D → Run D A
  aborted : D → Run D A

-- `ESP_ERROR_CHECK(ret); rest`
abbrev pub check : {D A : Type 0} → EspErr → D → Run D A → Run D A
check ok d rest = rest
check _ d rest = aborted d
