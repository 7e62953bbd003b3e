-- ===== src/Web/Handlers.antt =====
-- src/web_server.c: the request handlers that only report and schedule. Each returns the device and
-- the result that the server sees.
pub mod Portal
use esp32_hydroponics_govern.Prelude.{
  ℕ, Text, codes, starts_with, cstr, Bool, true, false, not, ◌&&◌, ◌||◌, List, [], ◌∷◌, ◌++◌,
  Option, none, some, length, take, ltb, ◌==◌, if◌then◌else◌,
}
use esp32_hydroponics_govern.Config.{ws_json_buf_size}
use esp32_hydroponics_govern.Platform.{
  EspErr, ok, is_ok, is_invalid_state, FloatOps, delay, create_task, delete_task, restart,
  delayed_ap_shutdown, delayed_reboot, resp_type, resp_status, resp_hdr, resp_send, resp_page,
  resp_err,
}
use esp32_hydroponics_govern.Device.{
  WifiState, idle, ap_only, connecting, connected, failed, Web, Device, emit,
}
use esp32_hydroponics_govern.Sensor.{sensor_get_json}
use esp32_hydroponics_govern.Wifi.Scan.{wifi_manager_scan_start, wifi_manager_get_scan_json}
use esp32_hydroponics_govern.Wifi.Connect.{wifi_manager_ap_shutdown}

abbrev pub is_connected : WifiState → Bool
is_connected connected = true
is_connected _ = false

unfoldable pub json_type : Text
json_type = codes "application/json"

-- The body that `status_handler` chooses.
unfoldable pub status_body : WifiState → Text → Text
status_body connected ip =
    take 95 (codes "{\"status\":\"connected\",\"ip\":\"" ++ (ip ++ codes "\"}"))
status_body failed ip = codes "{\"status\":\"failed\"}"
status_body connecting ip = codes "{\"status\":\"connecting\"}"
status_body _ ip = codes "{\"status\":\"idle\"}"

module _ {S : Type 0} where
  abbrev pub json_response : Text → Device S → Device S
  json_response body d = emit (resp_send body) (emit (resp_type json_type) d)

  unfoldable pub no_store : Device S → Device S
  no_store d = emit (resp_hdr (codes "Cache-Control") (codes "no-store")) d

  unfoldable pub captive_portal_redirect : Device S → Device S × EspErr
  unfolding no_store
  captive_portal_redirect d =
      let d1 = no_store (emit (resp_status (codes "302 Found")) d) in
      (
        emit (resp_send []) (emit (resp_hdr (codes "Location") (codes "http://192.168.4.1/")) d1),
        ok,
      )

  unfoldable pub web_server_set_dash_ready : Bool → Option Text → Device S → Device S
  web_server_set_dash_ready ready none d = record d { web = record (d.web) { dash_ready = ready } }
  web_server_set_dash_ready ready (some ip) d = record d {
    web = record (d.web) { dash_ready = ready; dash_ip = take 19 ip };
  }

  abbrev pub set_scheduled : Bool → Device S → Device S
  set_scheduled b d = record d { web = record (d.web) { ap_shutdown_scheduled = b } }

  unfoldable pub delayed_ap_shutdown_task : Device S → Device S
  delayed_ap_shutdown_task d =
      emit delete_task (set_scheduled false (wifi_manager_ap_shutdown (emit (delay 500) d)))

  unfoldable pub delayed_reboot_task : Device S → Device S
  delayed_reboot_task d = emit restart (emit (delay 1500) d)

  -- The block that `root_handler` and `ap_shutdown_handler` share; `created`: whether `xTaskCreate`
  -- succeeds.
  unfoldable pub schedule_ap_shutdown : Bool → Device S → Device S
  schedule_ap_shutdown created d =
      let d1 = emit (create_task delayed_ap_shutdown) (set_scheduled true d) in
      if d.wifi.ap_active && not d.web.ap_shutdown_scheduled
      then (if created then d1 else set_scheduled false d1)
      else d

  unfoldable pub root_handler : Bool → Device S → Device S × EspErr
  unfolding no_store schedule_ap_shutdown
  root_handler created d =
      let d1 = no_store (emit (resp_type (codes "text/html")) d) in
      if is_connected d.wifi.state
      then (emit (resp_page true) (schedule_ap_shutdown created d1), ok)
      else (emit (resp_page false) d1, ok)

  unfoldable pub reboot_handler : Device S → Device S × EspErr
  unfolding json_type
  reboot_handler d =
      (emit (create_task delayed_reboot) (json_response (codes "{\"status\":\"rebooting\"}") d), ok)

  unfoldable pub scan_handler : EspErr → Device S → Device S × EspErr
  unfolding json_type no_store
  scan_handler scan_ret d =
      let (d1, ret) = (if d.wifi.scanning then (d, ok) else wifi_manager_scan_start scan_ret d) in
      let d2 = no_store (emit (resp_type json_type) d1) in
      if is_ok ret || is_invalid_state ret
      then (emit (resp_send (codes "{\"status\":\"started\"}")) d2, ok)
      else (emit (resp_send (codes "{\"status\":\"error\"}")) d2, ok)

  unfoldable pub scanresults_handler : Device S → Device S × EspErr
  unfolding json_type no_store
  scanresults_handler d =
      let buf = wifi_manager_get_scan_json 2048 d in
      (emit (resp_send buf) (no_store (emit (resp_type json_type) d)), ok)

  unfoldable pub scanstatus_handler : Device S → Device S × EspErr
  unfolding json_type
  scanstatus_handler d =
      let flag = (if d.wifi.scanning then codes "true" else codes "false") in
      (json_response (take 63 (codes "{\"scanning\":" ++ (flag ++ b'}' ∷ []))) d, ok)

  unfoldable pub keepalive_handler : Device S → Device S × EspErr
  unfolding json_type no_store
  keepalive_handler d =
      (emit (resp_send (codes "{\"ok\":true}")) (no_store (emit (resp_type json_type) d)), ok)

  unfoldable pub favicon_handler : Device S → Device S × EspErr
  favicon_handler d =
      let d1 = emit (resp_status (codes "204 No Content")) d in
      (emit (resp_send []) (emit (resp_hdr (codes "Cache-Control") (codes "max-age=3600")) d1), ok)

  unfoldable pub status_handler : Device S → Device S × EspErr
  unfolding json_type
  status_handler d = (json_response (status_body d.wifi.state d.wifi.ip) d, ok)

  unfoldable pub ap_shutdown_handler : Bool → Device S → Device S × EspErr
  unfolding json_type schedule_ap_shutdown
  ap_shutdown_handler created d =
      (json_response (codes "{\"status\":\"scheduled\"}") (schedule_ap_shutdown created d), ok)

  unfoldable pub dashready_handler : Device S → Device S × EspErr
  unfolding json_type
  dashready_handler d =
      let flag = (if is_connected d.wifi.state then codes "true" else codes "false") in
      let body =
        codes "{\"ready\":"
        ++ (flag
            ++ (codes ",\"ip\":\""
                ++ (d.wifi.ip ++ codes "\",\"local\":\"http://hydroponics.local\"}"))) in
      (json_response (take 127 body) d, ok)

  -- `none` is an access out of bounds while the snapshot is printed.
  unfoldable pub data_handler : FloatOps → Device S → Option (Device S × EspErr)
  unfolding json_type no_store
  data_handler fp d =
      if is_connected d.wifi.state
      then elim (sensor_get_json fp d.sensors ws_json_buf_size) [
        | none ↦ none
        | some (body, ret) ↦
            if is_ok ret
            then some (emit (resp_send body) (no_store (emit (resp_type json_type) d)), ok)
            else some (emit (resp_err 500 (codes "JSON error")) d, ok)
      ]
      else some (emit (resp_err 500 (codes "Not connected")) d, ok)

  -- `upgrade`: the request is the GET that opens the WebSocket. `len_ret` and `frame_ret` are what
  -- the two calls of `httpd_ws_recv_frame` return, `len` and `payload` what they deliver.
  unfoldable pub ws_handler : Bool → EspErr → ℕ → EspErr → List ℕ → Device S → Device S × EspErr
  ws_handler upgrade len_ret len frame_ret payload d =
      if upgrade
      then (d, ok)
      else (if not (is_ok len_ret)
          then (d, len_ret)
          else (if len == 0 || ltb 32 len
              then (d, ok)
              else (if not (is_ok frame_ret)
                  then (d, frame_ret)
                  else (if starts_with (codes "reboot") (cstr payload)
                      then (emit restart (emit (delay 1200) d), ok)
                      else (d, ok)))))

  unfoldable pub captive_android_handler : Device S → Device S × EspErr
  unfolding captive_portal_redirect
  captive_android_handler d = captive_portal_redirect d

  unfoldable pub captive_windows_handler : Device S → Device S × EspErr
  unfolding captive_portal_redirect
  captive_windows_handler d = captive_portal_redirect d

  unfoldable pub captive_apple_handler : Device S → Device S × EspErr
  unfolding captive_portal_redirect
  captive_apple_handler d = captive_portal_redirect d

  unfoldable pub not_found_handler : Device S → Device S × EspErr
  unfolding captive_portal_redirect
  not_found_handler d =
      if is_connected d.wifi.state
      then (emit (resp_err 404 (codes "Not found")) d, ok)
      else ((captive_portal_redirect d).0, ok)
