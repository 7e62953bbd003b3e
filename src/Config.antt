-- ===== src/Config.antt =====
-- src/app_config.h, and the constants at the top of src/wifi_manager.c: the sizes, timeouts and
-- names that the code reads.
use esp32_hydroponics_govern.Prelude.{ℕ, Text, codes, List, [], ◌∷◌}

abbrev pub dht_gpio : ℕ
dht_gpio = 14

abbrev pub flow_gpio : ℕ
flow_gpio = 27

abbrev pub led_gpio : ℕ
led_gpio = 2

unfoldable pub ap_ssid : Text
ap_ssid = codes "Hydroponics_Setup"

-- The octets of AP_IP_ADDR in network order.
abbrev pub ap_ip : List ℕ
ap_ip = 192 ∷ 168 ∷ 4 ∷ 1 ∷ []

abbrev pub http_port : ℕ
http_port = 80

abbrev pub dns_port : ℕ
dns_port = 53

abbrev pub telnet_port : ℕ
telnet_port = 23

abbrev pub wifi_connect_timeout_ms : ℕ
wifi_connect_timeout_ms = 8000

abbrev pub sensor_dht_timeout_ms : ℕ
sensor_dht_timeout_ms = 10000

abbrev pub sensor_flow_timeout_ms : ℕ
sensor_flow_timeout_ms = 5000

abbrev pub flow_measure_interval_ms : ℕ
flow_measure_interval_ms = 500

abbrev pub max_ws_clients : ℕ
max_ws_clients = 8

abbrev pub ws_json_buf_size : ℕ
ws_json_buf_size = 384

abbrev pub log_msg_len : ℕ
log_msg_len = 128

abbrev pub ota_buf_size : ℕ
ota_buf_size = 1024

abbrev pub max_sensors : ℕ
max_sensors = 10
