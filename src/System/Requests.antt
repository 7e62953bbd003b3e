-- ===== src/System/Requests.antt =====
-- The request handlers of src/web_server.c keep the invariant of the system, and come back.
use esp32_hydroponics_govern.Prelude.{
  ℕ, zero, suc, ◌+◌, ◌-◌, ◌≡◌, refl, codes, Bool, List, some, length, Bool-cases, Option-cases, inl,
  inr, arith,
}
use esp32_hydroponics_govern.Config.{ws_json_buf_size}
use esp32_hydroponics_govern.Platform.{
  EspErr, ok, fail, is_ok, FloatOps, Run, returned, resp_type, resp_send, resp_err, ota_write,
  ota_begin,
}
use esp32_hydroponics_govern.Device.{Telnet, Device, emit}
use esp32_hydroponics_govern.Sensor.Report.{sensor_get_json-total}
use esp32_hydroponics_govern.Wifi.Scan.{wifi_manager_scan_start}
use esp32_hydroponics_govern.Web.Handlers.{
  no_store, json_type, captive_portal_redirect, schedule_ap_shutdown, is_connected, root_handler,
  reboot_handler, scan_handler, scanresults_handler, scanstatus_handler, keepalive_handler,
  favicon_handler, status_handler, ap_shutdown_handler, dashready_handler, data_handler, ws_handler,
  captive_android_handler, captive_windows_handler, captive_apple_handler, not_found_handler,
}
use esp32_hydroponics_govern.Web.Save.{save_handler}
use esp32_hydroponics_govern.Web.Ota.{
  OtaAnswer, to_recv, give_up_with, remaining_of, ota_loop, ota_finish, ota_handler,
}
use esp32_hydroponics_govern.Web.Ota.Upload.{ota_loop-ends}
use esp32_hydroponics_govern.Web.Requests.{
  HttpRequest, root, scan, scanresults, scanstatus, keepalive, favicon, status, reboot, dashready,
  sensor_data, save, ap_shutdown, ota, captive_android, captive_windows, captive_apple, not_found,
  ws, handle,
}
use esp32_hydroponics_govern.System.Sound.{IsSound, SoundRun}
use esp32_hydroponics_govern.System.Attempts.{save-SoundRun}

module _ {S : Type 0} where
  ota_loop-frame :
      (a : OtaAnswer) (fuel i remaining : ℕ) (d d' : Device S) (whole : Bool)
      → ota_loop a fuel i remaining d ≡ some (whole, d')
      → (d'.sensors ≡ d.sensors)
        × (d'.wifi ≡ d.wifi)
        × (d'.dns_running ≡ d.dns_running)
        × (d'.nvs ≡ d.nvs)
        × (d'.telnet ≡ d.telnet)
  unfolding ota_loop
  ota_loop-frame a zero i remaining d d' whole h = ground arith
  ota_loop-frame a (suc fuel) i remaining d d' whole h =
      let chunk = a.recv i (to_recv remaining) in
      ground (
        arith,
        ota_loop-frame a fuel (i + 1) (remaining - length chunk) (emit (ota_write chunk) d) d'
            whole,
      )

module _ {S : Type 0} {up : Bool} {tel : Telnet} where
  scan_start-IsSound :
      (ret : EspErr) (d : Device S)
      → IsSound up tel d
      → IsSound up tel (wifi_manager_scan_start ret d).0
  unfolding wifi_manager_scan_start
  scan_start-IsSound ret d v = ground arith

  root-IsSound :
      (created : Bool) (d : Device S) → IsSound up tel d → IsSound up tel (root_handler created d).0
  unfolding root_handler schedule_ap_shutdown no_store
  root-IsSound created d v = ground arith

  scan-IsSound :
      (ret : EspErr) (d : Device S) → IsSound up tel d → IsSound up tel (scan_handler ret d).0
  unfolding scan_handler no_store
  scan-IsSound ret d v = ground (arith, scan_start-IsSound ret d v)

  not_found-IsSound : (d : Device S) → IsSound up tel d → IsSound up tel (not_found_handler d).0
  unfolding not_found_handler captive_portal_redirect no_store
  not_found-IsSound d v = ground arith

  ap_shutdown-IsSound :
      (created : Bool) (d : Device S)
      → IsSound up tel d
      → IsSound up tel (ap_shutdown_handler created d).0
  unfolding ap_shutdown_handler schedule_ap_shutdown
  ap_shutdown-IsSound created d v = ground arith

  ws-IsSound :
      (upgrade : Bool) (len_ret : EspErr) (len : ℕ) (frame_ret : EspErr) (payload : List ℕ)
      (d : Device S)
      → IsSound up tel d
      → IsSound up tel (ws_handler upgrade len_ret len frame_ret payload d).0
  unfolding ws_handler
  ws-IsSound upgrade len_ret len frame_ret payload d v = ground arith

  ota-IsSound :
      (a : OtaAnswer) (d : Device S)
      → IsSound up tel d
      → (p : Device S × EspErr) × (ota_handler a d ≡ some p) × IsSound up tel p.0
  unfolding ota_handler ota_finish
  ota-IsSound a d v = elim (Bool-cases a.has_partition) [
    | inr missing ↦ ((give_up_with "No OTA partition" d, fail), ground arith, v)
    | inl there ↦ elim (Bool-cases (is_ok a.begin_ret)) [
      | inr refused ↦ ((give_up_with "OTA begin failed" (emit ota_begin d), fail), ground arith, v)
      | inl begun ↦
          elim (Option-cases (
            ota_loop a (remaining_of a.content_len) 0 (remaining_of a.content_len)
              (emit ota_begin d))) [
                | inl stuck ↦ absurd (
                    ota_loop-ends a (remaining_of a.content_len) 0 (remaining_of a.content_len)
                      (emit ota_begin d) (omega arith) stuck)
                | inr ((whole, d1), e) ↦
                    let frame =
                      ota_loop-frame a (remaining_of a.content_len) 0 (remaining_of a.content_len)
                        (emit ota_begin d) d1 whole e in
                    let v1 : IsSound up tel d1 = ground arith in
                    elim (Bool-cases whole) [
                      | inl all ↦ (ota_finish a d1, ground arith, ground arith)
                      | inr part ↦ ((d1, fail), ground arith, v1)
                    ]
              ]
    ]
  ]

  data-IsSound :
      (fp : FloatOps) (d : Device S)
      → IsSound up tel d
      → (p : Device S × EspErr) × (data_handler fp d ≡ some p) × IsSound up tel p.0
  unfolding data_handler no_store
  data-IsSound fp d v =
      let (body, ret, got) = sensor_get_json-total fp d.sensors ws_json_buf_size v.registry in
      elim (Bool-cases (is_connected d.wifi.state)) [
        | inr off ↦ ((emit (resp_err 500 (codes "Not connected")) d, ok), rw off refl, v)
        | inl on ↦ elim (Bool-cases (is_ok ret)) [
          | inl whole ↦ (
            (emit (resp_send body) (no_store (emit (resp_type json_type) d)), ok),
            rw (on, got, data_handler) (rw whole refl),
            v,
          )
          | inr cut ↦ (
            (emit (resp_err 500 (codes "JSON error")) d, ok),
            rw (on, got, data_handler) (rw cut refl),
            v,
          )
        ]
      ]

  -- Every request comes back without an access out of bounds, and keeps the invariant.
  pub handle-IsSound :
      (fp : FloatOps) (r : HttpRequest) (d : Device S)
      → IsSound up tel d
      → (o : Run (Device S) EspErr) × (handle fp r d ≡ some o) × SoundRun up tel o
  unfolding handle
  handle-IsSound fp (root created) d v = (_, refl, root-IsSound created d v)
  handle-IsSound fp (scan ret) d v = (_, refl, scan-IsSound ret d v)
  handle-IsSound fp scanresults d v = (_, refl, unfold scanresults_handler no_store in v)
  handle-IsSound fp scanstatus d v = (_, refl, unfold scanstatus_handler in v)
  handle-IsSound fp keepalive d v = (_, refl, unfold keepalive_handler no_store in v)
  handle-IsSound fp favicon d v = (_, refl, unfold favicon_handler in v)
  handle-IsSound fp (save a req) d v = (save_handler a req d, refl, save-SoundRun a req d v)
  handle-IsSound fp status d v = (_, refl, unfold status_handler in v)
  handle-IsSound fp (ap_shutdown created) d v = (_, refl, ap_shutdown-IsSound created d v)
  handle-IsSound fp reboot d v = (_, refl, unfold reboot_handler in v)
  handle-IsSound fp dashready d v = (_, refl, unfold dashready_handler in v)
  handle-IsSound fp sensor_data d v =
      let (p, e, w) = data-IsSound fp d v in (returned p.1 p.0, rw (e, handle) refl, w)
  handle-IsSound fp (ota a) d v =
      let (p, e, w) = ota-IsSound a d v in (returned p.1 p.0, rw (e, handle) refl, w)
  handle-IsSound fp captive_android d v =
      (_, refl, unfold captive_android_handler captive_portal_redirect no_store in v)
  handle-IsSound fp captive_windows d v =
      (_, refl, unfold captive_windows_handler captive_portal_redirect no_store in v)
  handle-IsSound fp captive_apple d v =
      (_, refl, unfold captive_apple_handler captive_portal_redirect no_store in v)
  handle-IsSound fp not_found d v = (_, refl, not_found-IsSound d v)
  handle-IsSound fp (ws upgrade len_ret len frame_ret payload) d v =
      (_, refl, ws-IsSound upgrade len_ret len frame_ret payload d v)
