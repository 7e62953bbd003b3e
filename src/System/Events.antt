-- ===== src/System/Events.antt =====
-- src/wifi_manager.c: the operations of the Wi-Fi manager keep the invariant of the system.
use esp32_hydroponics_govern.Prelude.{
  ◌-◌, ◌/◌, ◌≤◌, ◌≡◌, refl, subst, Text, Bool, false, ltb, some, take, length-take, Bool-cases, inl,
  inr, arith, if◌then◌else◌,
}
use esp32_hydroponics_govern.Platform.{
  EspErr, ok, fail, no_mem, invalid_state, not_found, timeout, invalid_crc, nvs_no_free_pages,
  nvs_new_version_found, other, is_ok, Run, returned, set_failed_bit, wifi_connect,
}
use esp32_hydroponics_govern.Platform.Checks.{Run-cases}
use esp32_hydroponics_govern.Device.{
  Telnet, WifiState, idle, ap_only, connecting, connected, failed, Device, emit,
}
use esp32_hydroponics_govern.Sensor.{enqueue_log}
use esp32_hydroponics_govern.Wifi.Credentials.{NvsApi, is_empty}
use esp32_hydroponics_govern.Wifi.Scan.{with_scan}
use esp32_hydroponics_govern.Wifi.Invariant.{WifiFits, ScanFits, update_scan_cache-WifiFits}
use esp32_hydroponics_govern.Wifi.Events.{
  EventAnswer, Reason, Ip, WifiEvent, sta_start, sta_connected, scan_done, other_event,
  sta_disconnected, got_ip, print_ip, clear_pending, is_connecting, is_auth_fail, is_no_ap_found,
  auth_alert, retry, give_up, on_disconnected, on_scan_done, save_pending, take_address, announce,
  log_connected, finish_got_ip, on_got_ip, wifi_event_handler,
}
use esp32_hydroponics_govern.Config.{wifi_connect_timeout_ms}
use esp32_hydroponics_govern.Wifi.Connect.{set_state}
use esp32_hydroponics_govern.System.Sound.{IsSound, SoundRun}

module _ {S : Type 0} where
  returned-inj : {A : Type 0} {d d' : Device S} {a b : A} → returned a d ≡ returned b d' → d ≡ d'
  returned-inj h = cc h

module _ {S : Type 0} {up : Bool} {tel : Telnet} where
  pub enqueue_log-IsSound :
      (msg : Text) (d : Device S) → IsSound up tel d → IsSound up tel (enqueue_log msg d)
  unfolding enqueue_log
  enqueue_log-IsSound msg d v = ground arith

  retry-IsSound :
      (a : EventAnswer) (d : Device S)
      → d.wifi.retry_count ≤ 0
      → IsSound up tel d
      → IsSound up tel (retry a d)
  unfolding retry
  retry-IsSound a d fresh v = elim (Bool-cases (is_ok a.get_config)) [
    | inl got ↦ rw got (ground arith)
    | inr lost ↦ rw lost (ground arith)
  ]

  finish-IsSound :
      (e : EspErr) (d : Device S) {d' : Device S} {r : Unit {0}}
      → finish_got_ip e d ≡ returned r d'
      → IsSound up tel d
      → IsSound up tel d'
  unfolding finish_got_ip announce log_connected
  finish-IsSound ok d h v = subst (IsSound up tel) (returned-inj h) (enqueue_log-IsSound _ _ v)
  finish-IsSound fail d h v = absurd (ground arith)
  finish-IsSound no_mem d h v = absurd (ground arith)
  finish-IsSound invalid_state d h v = absurd (ground arith)
  finish-IsSound not_found d h v = absurd (ground arith)
  finish-IsSound timeout d h v = absurd (ground arith)
  finish-IsSound invalid_crc d h v = absurd (ground arith)
  finish-IsSound nvs_no_free_pages d h v = absurd (ground arith)
  finish-IsSound nvs_new_version_found d h v = absurd (ground arith)
  finish-IsSound (other n) d h v = absurd (ground arith)

  cleared-IsSound : (d : Device S) → IsSound up tel d → IsSound up tel (clear_pending d)
  cleared-IsSound d v = ground arith

module _ {S : Type 0} {up : Bool} {tel : Telnet} (api : NvsApi S) where
  give_up-IsSound :
      (a : EventAnswer) (reason : Reason) (d : Device S)
      → IsSound up tel d
      → IsSound up tel (give_up api a reason d)
  unfolding give_up
  give_up-IsSound a reason d v =
      let elapsed_ms = (a.now_us - d.wifi.conn_start_us) / 1000 in
      let d1 = emit set_failed_bit (set_state failed d) in
      let v1 : IsSound up tel d1 = ground arith in
      let cleared = cleared-IsSound d1 v1 in
      elim (Bool-cases (is_auth_fail reason)) [
        | inl auth ↦
            rw auth
              (cleared-IsSound (enqueue_log auth_alert d1) (enqueue_log-IsSound auth_alert d1 v1))
        | inr not_auth ↦ rw not_auth (elim (Bool-cases (is_no_ap_found reason)) [
          | inl missing ↦ rw missing cleared
          | inr found ↦ rw found (elim (Bool-cases (ltb wifi_connect_timeout_ms elapsed_ms)) [
            | inl late ↦ rw late cleared
            | inr early ↦ rw early cleared
          ])
        ])
      ]

  disconnected-IsSound :
      (a : EventAnswer) (reason : Reason) (st : WifiState) (d : Device S)
      → IsSound up tel d
      → IsSound up tel (on_disconnected api a reason st d)
  unfolding on_disconnected
  disconnected-IsSound a reason idle d v = v
  disconnected-IsSound a reason ap_only d v = v
  disconnected-IsSound a reason connecting d v = elim (Bool-cases (ltb d.wifi.retry_count 1)) [
    | inl first ↦ rw first (retry-IsSound a d (ground arith) v)
    | inr again ↦ rw again (give_up-IsSound a reason d v)
  ]
  disconnected-IsSound a reason connected d v = ground arith
  disconnected-IsSound a reason failed d v = v

  save_pending-IsSound : (d : Device S) → IsSound up tel d → IsSound up tel (save_pending api d)
  unfolding save_pending
  save_pending-IsSound d v = elim (Bool-cases (is_empty d.wifi.pending_ssid)) [
    | inl nothing ↦ rw nothing v
    | inr staged ↦ rw staged (ground arith)
  ]

  address-IsSound :
      (ip gw : Ip) (d : Device S) → IsSound up tel d → IsSound up tel (take_address api ip gw d)
  unfolding take_address
  address-IsSound ip gw d v =
      let d1 : Device S = record d {
        wifi = record (d.wifi) { ip = take 19 (print_ip ip); gw_ip = take 19 (print_ip gw) };
      } in
      let v1 : IsSound up tel d1 =
        ground (arith, length-take 19 (print_ip ip), length-take 19 (print_ip gw)) in
      let v2 = save_pending-IsSound d1 v1 in ground arith

  on_scan_done-IsSound :
      (a : EventAnswer) (d : Device S)
      → ScanFits a.scan
      → IsSound up tel d
      → (d' : Device S) × (on_scan_done a d ≡ some d') × IsSound up tel d'
  unfolding on_scan_done
  on_scan_done-IsSound a d s v = elim (Bool-cases d.wifi.scanning) [
    | inr idle_now ↦ (d, ground arith, v)
    | inl busy ↦
        let d1 : Device S = record d { wifi = record (d.wifi) { scanning = false } } in
        let w : WifiFits d1.wifi = ground (arith, v.fits) in
        let (json, rs, made, w') = update_scan_cache-WifiFits a.scan d1 s w in
        (
          with_scan json rs d1,
          rw busy made,
          record {
            registry = v.registry;
            fits = w';
            coupled = v.coupled;
            callback = v.callback;
            bound = v.bound;
            telnet = v.telnet;
          },
        )
  ]

  finish-SoundRun :
      (e : EspErr) (d : Device S) → IsSound up tel d → SoundRun up tel (finish_got_ip e d)
  finish-SoundRun e d v = elim (Run-cases (finish_got_ip e d)) [
    | inl (r, d', h) ↦ rw h (finish-IsSound e d h v)
    | inr (d', h) ↦ rw h tt
  ]

  -- An event never makes an access out of bounds, and keeps the invariant where it does not halt.
  pub event-IsSound :
      (a : EventAnswer) (e : WifiEvent) (d : Device S)
      → ScanFits a.scan
      → IsSound up tel d
      → (r : Run (Device S) (Unit {0})) × (wifi_event_handler api a e d ≡ some r)
        × SoundRun up tel r
  unfolding wifi_event_handler
  event-IsSound a sta_start d s v = (
    returned tt (if is_connecting d.wifi.state then emit wifi_connect d else d),
    refl,
    ground arith,
  )
  event-IsSound a sta_connected d s v = (returned tt d, refl, v)
  event-IsSound a other_event d s v = (returned tt d, refl, v)
  event-IsSound a (sta_disconnected reason) d s v = (
    returned tt (on_disconnected api a reason d.wifi.state d),
    refl,
    disconnected-IsSound a reason d.wifi.state d v,
  )
  event-IsSound a scan_done d s v =
      let (d', made, v') = on_scan_done-IsSound a d s v in
      (returned tt d', rw (made, wifi_event_handler) refl, v')
  event-IsSound a (got_ip ip gw) d s v =
      let d1 = take_address api ip gw d in
      (
        finish_got_ip a.mdns d1,
        unfold on_got_ip in refl,
        finish-SoundRun a.mdns d1 (address-IsSound ip gw d v),
      )
