-- ===== src/System/Frame/Requests.antt =====
-- src/web_server.c: no request but one to save credentials touches the link or the counter.
use esp32_hydroponics_govern.Prelude.{
  ℕ, zero, suc, ◌+◌, ◌-◌, ◌≡◌, ◌⊎◌, refl, subst, Bool, true, false, List, some, length,
  Option-cases, inl, inr, arith,
}
use esp32_hydroponics_govern.Platform.{EspErr, FloatOps, Run, returned, ota_write, ota_begin}
use esp32_hydroponics_govern.Device.{Device, emit}
use esp32_hydroponics_govern.Wifi.Scan.{wifi_manager_scan_start}
use esp32_hydroponics_govern.Wifi.Protocol.{left}
use esp32_hydroponics_govern.Wifi.Protocol.Handled.{some-inj}
use esp32_hydroponics_govern.Web.Handlers.{
  no_store, captive_portal_redirect, schedule_ap_shutdown, root_handler, reboot_handler,
  scan_handler, scanresults_handler, scanstatus_handler, keepalive_handler, favicon_handler,
  status_handler, ap_shutdown_handler, dashready_handler, data_handler, ws_handler,
  captive_android_handler, captive_windows_handler, captive_apple_handler, not_found_handler,
}
use esp32_hydroponics_govern.Wifi.Connect.{Answer}
use esp32_hydroponics_govern.Web.Save.{Request}
use esp32_hydroponics_govern.Web.Ota.{
  OtaAnswer, to_recv, remaining_of, ota_loop, ota_finish, ota_handler,
}
use esp32_hydroponics_govern.Web.Requests.{
  HttpRequest, root, scan, scanresults, scanstatus, keepalive, favicon, status, reboot, dashready,
  sensor_data, save, ap_shutdown, ota, captive_android, captive_windows, captive_apple, not_found,
  ws, handle,
}
use esp32_hydroponics_govern.System.Frame.{Keeps}

-- The request that starts an attempt.
abbrev pub saves : HttpRequest → Bool
saves (save a req) = true
saves _ = false

pub request-cases :
    (r : HttpRequest) → ((a : Answer) × (req : Request) × (r ≡ save a req)) ⊎ (saves r ≡ false)
request-cases (save a req) = inl (a, req, refl)
request-cases _ = inr refl

module _ {S : Type 0} where
  ota_loop-Keeps :
      (a : OtaAnswer) (fuel i remaining : ℕ) (d d' : Device S) (whole : Bool)
      → ota_loop a fuel i remaining d ≡ some (whole, d')
      → Keeps d' d
  unfolding ota_loop
  ota_loop-Keeps a zero i remaining d d' whole h = ground arith
  ota_loop-Keeps a (suc fuel) i remaining d d' whole h =
      let chunk = a.recv i (to_recv remaining) in
      ground (
        arith,
        ota_loop-Keeps a fuel (i + 1) (remaining - length chunk) (emit (ota_write chunk) d) d'
            whole,
      )

  root-Keeps : (created : Bool) (d : Device S) → Keeps (root_handler created d).0 d
  unfolding root_handler schedule_ap_shutdown no_store
  root-Keeps created d = ground arith

  scan-Keeps : (ret : EspErr) (d : Device S) → Keeps (scan_handler ret d).0 d
  unfolding scan_handler no_store wifi_manager_scan_start
  scan-Keeps ret d = ground arith

  not_found-Keeps : (d : Device S) → Keeps (not_found_handler d).0 d
  unfolding not_found_handler captive_portal_redirect no_store
  not_found-Keeps d = ground arith

  ap_shutdown-Keeps : (created : Bool) (d : Device S) → Keeps (ap_shutdown_handler created d).0 d
  unfolding ap_shutdown_handler schedule_ap_shutdown
  ap_shutdown-Keeps created d = ground arith

  ws-Keeps :
      (upgrade : Bool) (len_ret : EspErr) (len : ℕ) (frame_ret : EspErr) (payload : List ℕ)
      (d : Device S)
      → Keeps (ws_handler upgrade len_ret len frame_ret payload d).0 d
  unfolding ws_handler
  ws-Keeps upgrade len_ret len frame_ret payload d = ground arith

  data-Keeps :
      (fp : FloatOps) (d : Device S) (p : Device S × EspErr)
      → data_handler fp d ≡ some p
      → Keeps p.0 d
  unfolding data_handler no_store
  data-Keeps fp d p h = ground arith

  ota-Keeps :
      (a : OtaAnswer) (d : Device S) (p : Device S × EspErr)
      → ota_handler a d ≡ some p
      → Keeps p.0 d
  unfolding ota_handler ota_finish
  ota-Keeps a d p h =
      elim (Option-cases (
        ota_loop a (remaining_of a.content_len) 0 (remaining_of a.content_len)
          (emit ota_begin d))) [
            | inl stuck ↦ ground arith
            | inr ((whole, d1), e) ↦
                let kept =
                  ota_loop-Keeps a (remaining_of a.content_len) 0 (remaining_of a.content_len)
                    (emit ota_begin d) d1 whole e in
                ground arith
          ]

  done-Keeps :
      {ret : EspErr} {d' : Device S} (d : Device S) (o : Run (Device S) EspErr)
      → Keeps d' d
      → some (returned ret d') ≡ some o
      → Keeps (left o) d
  done-Keeps d o k h = subst (λ x. Keeps (left x) d) (some-inj h) k

  pub handle-Keeps :
      (fp : FloatOps) (r : HttpRequest) (d : Device S) (o : Run (Device S) EspErr)
      → saves r ≡ false
      → handle fp r d ≡ some o
      → Keeps (left o) d
  unfolding handle
  handle-Keeps fp (root created) d o n h = done-Keeps d o (root-Keeps created d) h
  handle-Keeps fp (scan ret) d o n h = done-Keeps d o (scan-Keeps ret d) h
  handle-Keeps fp scanresults d o n h =
      unfold scanresults_handler no_store in done-Keeps d o (ground arith) h
  handle-Keeps fp scanstatus d o n h = unfold scanstatus_handler in done-Keeps d o (ground arith) h
  handle-Keeps fp keepalive d o n h =
      unfold keepalive_handler no_store in done-Keeps d o (ground arith) h
  handle-Keeps fp favicon d o n h = unfold favicon_handler in done-Keeps d o (ground arith) h
  handle-Keeps fp (save a req) d o n h = cc
  handle-Keeps fp status d o n h = unfold status_handler in done-Keeps d o (ground arith) h
  handle-Keeps fp (ap_shutdown created) d o n h = done-Keeps d o (ap_shutdown-Keeps created d) h
  handle-Keeps fp reboot d o n h = unfold reboot_handler in done-Keeps d o (ground arith) h
  handle-Keeps fp dashready d o n h = unfold dashready_handler in done-Keeps d o (ground arith) h
  handle-Keeps fp sensor_data d o n h = elim (Option-cases (data_handler fp d)) [
    | inl overrun ↦ absurd (ground arith)
    | inr (p, e) ↦ done-Keeps d o (data-Keeps fp d p e) (rw (e, handle) at h)
  ]
  handle-Keeps fp (ota a) d o n h = elim (Option-cases (ota_handler a d)) [
    | inl overrun ↦ absurd (ground arith)
    | inr (p, e) ↦ done-Keeps d o (ota-Keeps a d p e) (rw (e, handle) at h)
  ]
  handle-Keeps fp captive_android d o n h =
      unfold captive_android_handler captive_portal_redirect no_store in
      done-Keeps d o (ground arith) h
  handle-Keeps fp captive_windows d o n h =
      unfold captive_windows_handler captive_portal_redirect no_store in
      done-Keeps d o (ground arith) h
  handle-Keeps fp captive_apple d o n h =
      unfold captive_apple_handler captive_portal_redirect no_store in
      done-Keeps d o (ground arith) h
  handle-Keeps fp not_found d o n h = done-Keeps d o (not_found-Keeps d) h
  handle-Keeps fp (ws upgrade len_ret len frame_ret payload) d o n h =
      done-Keeps d o (ws-Keeps upgrade len_ret len frame_ret payload d) h
