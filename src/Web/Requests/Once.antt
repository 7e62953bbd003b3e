-- ===== src/Web/Requests/Once.antt =====
-- src/web_server.c: over any requests, the delayed shutdown of the access point is scheduled once.
use esp32_hydroponics_govern.Prelude.{
  ◌∙◌, ap, Text, Option, none, ◌∷◌, [], Bool-cases, codes, cstr, ℕ, zero, suc, ◌+◌, ◌-◌, ◌≡◌, refl,
  subst, Bool, true, List, some, length, Option-cases, inl, inr, arith,
}
use esp32_hydroponics_govern.Platform.{
  EspErr, FloatOps, Run, returned, aborted, ota_write, ota_begin,
}
use esp32_hydroponics_govern.Device.{ApRecord, Device, emit}
use esp32_hydroponics_govern.Wifi.Scan.{wifi_manager_scan_start}
use esp32_hydroponics_govern.Wifi.Protocol.{left}
use esp32_hydroponics_govern.System.Protocol.Starts.{left-check}
use esp32_hydroponics_govern.Wifi.Scan.{find_scanned_ap}
use esp32_hydroponics_govern.Wifi.Connect.{
  may_connect, stage, align_channel, prepare, launch, connect_sta, wifi_manager_connect,
}
use esp32_hydroponics_govern.Web.Handlers.Portal.{shutdowns}
use esp32_hydroponics_govern.Wifi.Protocol.Handled.{some-inj}
use esp32_hydroponics_govern.Web.Handlers.{
  no_store, captive_portal_redirect, schedule_ap_shutdown, root_handler, reboot_handler,
  scan_handler, scanresults_handler, scanstatus_handler, keepalive_handler, favicon_handler,
  status_handler, ap_shutdown_handler, dashready_handler, data_handler, ws_handler,
  captive_android_handler, captive_windows_handler, captive_apple_handler, not_found_handler,
}
use esp32_hydroponics_govern.Wifi.Connect.{Answer}
use esp32_hydroponics_govern.Web.Save.{
  Request, save_handler, is_busy, field_string, recv_size, is_one,
}
use esp32_hydroponics_govern.Platform.Checks.{Run-cases}
use esp32_hydroponics_govern.Wifi.Credentials.{is_empty}
use esp32_hydroponics_govern.Web.Ota.{
  OtaAnswer, to_recv, remaining_of, ota_loop, ota_finish, ota_handler,
}
use esp32_hydroponics_govern.Web.Requests.{
  HttpRequest, root, scan, scanresults, scanstatus, keepalive, favicon, status, reboot, dashready,
  sensor_data, save, ap_shutdown, ota, captive_android, captive_windows, captive_apple, not_found,
  ws, handle,
}

-- What was scheduled stays scheduled, and nothing more is.
abbrev pub Stays : {S : Type 0} → Device S → Device S → Type 0
Stays d' d =
    d.web.ap_shutdown_scheduled ≡ true
    → (shutdowns d'.trace ≡ shutdowns d.trace) × (d'.web.ap_shutdown_scheduled ≡ true)

-- The same of a run.
abbrev pub AreKept : {S A : Type 0} → Device S → Run (Device S) A → Type 0
AreKept d r =
    (shutdowns (left r).trace ≡ shutdowns d.trace) × ((left r).web.ap_shutdown_scheduled ≡ true)

module _ {S : Type 0} where
  prepare-Stays :
      (a : Answer) (ssid pass : Text) (is_open : Bool) (o : Option ApRecord) (d : Device S)
      → Stays (prepare a ssid pass is_open o d) d
  unfolding prepare stage align_channel shutdowns
  prepare-Stays a ssid pass is_open none d h = ground arith
  prepare-Stays a ssid pass is_open (some r) d h = ground arith

  launch-Stays : (ret : EspErr) (d0 d : Device S) → Stays d d0 → Stays (launch ret d) d0
  unfolding launch shutdowns
  launch-Stays ret d0 d v h = ground (arith, v h)

  connect-Stays :
      (a : Answer) (ssid pass : Text) (is_open : Bool) (d : Device S)
      → Stays (left (wifi_manager_connect a ssid pass is_open d)) d
  unfolding wifi_manager_connect connect_sta
  connect-Stays a ssid pass is_open d = elim (Bool-cases (may_connect d.wifi.state)) [
    | inr barred ↦ rw barred (λ h. (refl, h))
    | inl may ↦
        let d1 = prepare a ssid pass is_open (find_scanned_ap d.wifi.scan_records ssid) d in
        let v = prepare-Stays a ssid pass is_open (find_scanned_ap d.wifi.scan_records ssid) d in
        let w : Stays (left (connect_sta a ssid pass is_open d)) d =
          left-check (λ x. Stays x d) a.set_config d1 _ v (launch-Stays a.connect d d1 v) in
        elim (Run-cases (connect_sta a ssid pass is_open d)) [
          | inl (u, d', e) ↦ rw (may, e) (subst (λ x. Stays (left x) d) e w)
          | inr (d', e) ↦ rw (may, e) (subst (λ x. Stays (left x) d) e w)
        ]
  ]

  save-Stays : (a : Answer) (req : Request) (d : Device S) → Stays (left (save_handler a req d)) d
  unfolding save_handler shutdowns
  save-Stays a req d h =
      let bytes = req.recv (recv_size req) in
      let body = cstr bytes in
      let ssid = field_string body (codes "s") 64 in
      let pass = field_string body (codes "p") 64 in
      let is_open = is_one (field_string body (codes "o") 4) in
      let v = connect-Stays a ssid pass is_open d h in
      elim (Bool-cases (is_busy d.wifi.state)) [
        | inl busy ↦ rw busy (refl, h)
        | inr free ↦ rw free (elim (Bool-cases (is_empty bytes)) [
          | inl hollow ↦ rw hollow (refl, h)
          | inr whole ↦ rw whole (elim (Bool-cases (is_empty ssid)) [
            | inl unnamed ↦ rw unnamed (refl, h)
            | inr named ↦ rw named (elim (Run-cases (wifi_manager_connect a ssid pass is_open d)) [
              | inl (ret, d', e) ↦ rw e (subst (AreKept d) e v)
              | inr (d', e) ↦ rw e (subst (AreKept d) e v)
            ])
          ])
        ])
      ]

  ota_loop-Stays :
      (a : OtaAnswer) (fuel i remaining : ℕ) (d d' : Device S) (whole : Bool)
      → ota_loop a fuel i remaining d ≡ some (whole, d')
      → Stays d' d
  unfolding ota_loop shutdowns
  ota_loop-Stays a zero i remaining d d' whole h = ground arith
  ota_loop-Stays a (suc fuel) i remaining d d' whole h =
      let chunk = a.recv i (to_recv remaining) in
      ground (
        arith,
        ota_loop-Stays a fuel (i + 1) (remaining - length chunk) (emit (ota_write chunk) d) d'
            whole,
      )

  root-Stays : (created : Bool) (d : Device S) → Stays (root_handler created d).0 d
  unfolding shutdowns root_handler schedule_ap_shutdown no_store
  root-Stays created d = ground arith

  scan-Stays : (ret : EspErr) (d : Device S) → Stays (scan_handler ret d).0 d
  unfolding shutdowns scan_handler no_store wifi_manager_scan_start
  scan-Stays ret d = ground arith

  not_found-Stays : (d : Device S) → Stays (not_found_handler d).0 d
  unfolding shutdowns not_found_handler captive_portal_redirect no_store
  not_found-Stays d = ground arith

  ap_shutdown-Stays : (created : Bool) (d : Device S) → Stays (ap_shutdown_handler created d).0 d
  unfolding shutdowns ap_shutdown_handler schedule_ap_shutdown
  ap_shutdown-Stays created d = ground arith

  ws-Stays :
      (upgrade : Bool) (len_ret : EspErr) (len : ℕ) (frame_ret : EspErr) (payload : List ℕ)
      (d : Device S)
      → Stays (ws_handler upgrade len_ret len frame_ret payload d).0 d
  unfolding shutdowns ws_handler
  ws-Stays upgrade len_ret len frame_ret payload d = ground arith

  data-Stays :
      (fp : FloatOps) (d : Device S) (p : Device S × EspErr)
      → data_handler fp d ≡ some p
      → Stays p.0 d
  unfolding shutdowns data_handler no_store
  data-Stays fp d p h = ground arith

  ota-Stays :
      (a : OtaAnswer) (d : Device S) (p : Device S × EspErr)
      → ota_handler a d ≡ some p
      → Stays p.0 d
  unfolding shutdowns ota_handler ota_finish
  ota-Stays a d p h =
      elim (Option-cases (
        ota_loop a (remaining_of a.content_len) 0 (remaining_of a.content_len)
          (emit ota_begin d))) [
            | inl stuck ↦ ground arith
            | inr ((whole, d1), e) ↦
                let kept =
                  ota_loop-Stays a (remaining_of a.content_len) 0 (remaining_of a.content_len)
                    (emit ota_begin d) d1 whole e in
                ground arith
          ]

  done-Stays :
      {ret : EspErr} {d' : Device S} (d : Device S) (o : Run (Device S) EspErr)
      → Stays d' d
      → some (returned ret d') ≡ some o
      → Stays (left o) d
  done-Stays d o k h = subst (λ x. Stays (left x) d) (some-inj h) k

  pub handle-Stays :
      (fp : FloatOps) (r : HttpRequest) (d : Device S) (o : Run (Device S) EspErr)
      → handle fp r d ≡ some o
      → Stays (left o) d
  unfolding handle
  handle-Stays fp (root created) d o h = done-Stays d o (root-Stays created d) h
  handle-Stays fp (scan ret) d o h = done-Stays d o (scan-Stays ret d) h
  handle-Stays fp scanresults d o h =
      unfold shutdowns scanresults_handler no_store in done-Stays d o (ground arith) h
  handle-Stays fp scanstatus d o h =
      unfold shutdowns scanstatus_handler in done-Stays d o (ground arith) h
  handle-Stays fp keepalive d o h =
      unfold shutdowns keepalive_handler no_store in done-Stays d o (ground arith) h
  handle-Stays fp favicon d o h =
      unfold shutdowns favicon_handler in done-Stays d o (ground arith) h
  handle-Stays fp (save a req) d o h =
      subst (λ x. Stays (left x) d) (some-inj h) (save-Stays a req d)
  handle-Stays fp status d o h = unfold shutdowns status_handler in done-Stays d o (ground arith) h
  handle-Stays fp (ap_shutdown created) d o h = done-Stays d o (ap_shutdown-Stays created d) h
  handle-Stays fp reboot d o h = unfold shutdowns reboot_handler in done-Stays d o (ground arith) h
  handle-Stays fp dashready d o h =
      unfold shutdowns dashready_handler in done-Stays d o (ground arith) h
  handle-Stays fp sensor_data d o h = elim (Option-cases (data_handler fp d)) [
    | inl overrun ↦ absurd (ground arith)
    | inr (p, e) ↦ done-Stays d o (data-Stays fp d p e) (rw (e, handle) at h)
  ]
  handle-Stays fp (ota a) d o h = elim (Option-cases (ota_handler a d)) [
    | inl overrun ↦ absurd (ground arith)
    | inr (p, e) ↦ done-Stays d o (ota-Stays a d p e) (rw (e, handle) at h)
  ]
  handle-Stays fp captive_android d o h =
      unfold shutdowns captive_android_handler captive_portal_redirect no_store in
      done-Stays d o (ground arith) h
  handle-Stays fp captive_windows d o h =
      unfold shutdowns captive_windows_handler captive_portal_redirect no_store in
      done-Stays d o (ground arith) h
  handle-Stays fp captive_apple d o h =
      unfold shutdowns captive_apple_handler captive_portal_redirect no_store in
      done-Stays d o (ground arith) h
  handle-Stays fp not_found d o h = done-Stays d o (not_found-Stays d) h
  handle-Stays fp (ws upgrade len_ret len frame_ret payload) d o h =
      done-Stays d o (ws-Stays upgrade len_ret len frame_ret payload d) h

  -- Requests one after the other, from their start to their answer, until one halts the firmware.
  unfoldable pub serve_requests : FloatOps → List HttpRequest → Device S → Option (Device S)
  unfolding handle
  serve_requests fp [] d = some d
  serve_requests fp (r ∷ rs) d = elim (handle fp r d) [
    | none ↦ none
    | some o ↦ elim o [ aborted d' ↦ some d' | returned _ d' ↦ serve_requests fp rs d' ]
  ]

  -- Once a shutdown of the access point is scheduled, no request to any of the handlers asks for another, in
  -- whatever number and order they come and whatever the libraries answer: where the requests make no access
  -- out of bounds, the trace has as many delayed shutdowns as before, and the flag is still set.
  pub scheduled_once :
      (fp : FloatOps) (rs : List HttpRequest) (d d' : Device S)
      → serve_requests fp rs d ≡ some d'
      → d.web.ap_shutdown_scheduled ≡ true
      → (shutdowns d'.trace ≡ shutdowns d.trace) × (d'.web.ap_shutdown_scheduled ≡ true)
  unfolding serve_requests
  scheduled_once fp [] d d' runs h =
      subst (λ x. (shutdowns x.trace ≡ shutdowns d.trace) × (x.web.ap_shutdown_scheduled ≡ true))
        (some-inj runs) (refl, h)
  scheduled_once fp (r ∷ rs) d d' runs h = elim (Option-cases (handle fp r d)) [
    | inl overrun ↦ absurd (ground (arith, rw (overrun, serve_requests) at runs))
    | inr (o, made) ↦
        let v = handle-Stays fp r d o made h in
        elim (Run-cases o) [
          | inr (d1, e) ↦
              let ends : some d1 ≡ some d' = rw (made ∙ ap some e, serve_requests) at runs in
              subst
                (λ x.
                  (shutdowns x.trace ≡ shutdowns d.trace) × (x.web.ap_shutdown_scheduled ≡ true))
                (some-inj ends) (subst (AreKept d) e v)
          | inl (ret, d1, e) ↦
              let (count, still) = subst (AreKept d) e v in
              let (counts, stays) =
                scheduled_once fp rs d1 d' (rw (made ∙ ap some e, serve_requests) at runs) still in
              (counts ∙ count, stays)
        ]
  ]
