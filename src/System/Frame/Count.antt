-- ===== src/System/Frame/Count.antt =====
-- src/wifi_manager.c and src/web_server.c: what concerns the connection leaves the flow sensor's count
-- alone.
use esp32_hydroponics_govern.Prelude.{
  ℕ, ◌≡◌, refl, ◌∙◌, subst, some, ltb, Bool-cases, Option-cases, inl, inr, arith,
}
use esp32_hydroponics_govern.Platform.{
  EspErr, ok, fail, no_mem, invalid_state, not_found, timeout, invalid_crc, nvs_no_free_pages,
  nvs_new_version_found, other, Run,
}
use esp32_hydroponics_govern.Device.{
  WifiState, idle, ap_only, connecting, connected, failed, Device,
}
use esp32_hydroponics_govern.Sensor.{enqueue_log}
use esp32_hydroponics_govern.Wifi.Credentials.{NvsApi, is_empty, nvs_read}
use esp32_hydroponics_govern.Wifi.Scan.{update_scan_cache}
use esp32_hydroponics_govern.Wifi.Connect.{Answer, wifi_manager_reconnect}
use esp32_hydroponics_govern.Wifi.Events.{
  EventAnswer, Reason, Ip, WifiEvent, sta_start, sta_connected, scan_done, other_event,
  sta_disconnected, got_ip, retry, give_up, on_disconnected, save_pending, take_address,
  on_scan_done, finish_got_ip, start_mdns, announce, log_connected, on_got_ip, wifi_event_handler,
}
use esp32_hydroponics_govern.Wifi.Protocol.{left}
use esp32_hydroponics_govern.Wifi.Protocol.Handled.{some-inj}
use esp32_hydroponics_govern.Web.Save.Paused.{Served, waiting, answered}

-- The count after a run, and after a piece of a request.
abbrev pub run_count : {S A : Type 0} → Run (Device S) A → ℕ
run_count r = (left r).pulse_count

abbrev pub served_count : {S : Type 0} → Served S → ℕ
served_count (waiting w d) = d.pulse_count
served_count (answered r) = run_count r

module _ {S : Type 0} (api : NvsApi S) where
  disconnected-count :
      (a : EventAnswer) (reason : Reason) (st : WifiState) (d : Device S)
      → (on_disconnected api a reason st d).pulse_count ≡ d.pulse_count
  unfolding on_disconnected retry give_up
  disconnected-count a reason idle d = refl
  disconnected-count a reason ap_only d = refl
  disconnected-count a reason connecting d = elim (Bool-cases (ltb d.wifi.retry_count 1)) [
    | inl first ↦ rw first (ground arith)
    | inr later ↦ rw later (ground arith)
  ]
  disconnected-count a reason connected d = refl
  disconnected-count a reason failed d = refl

  address-count :
      (ip gw : Ip) (d : Device S) → (take_address api ip gw d).pulse_count ≡ d.pulse_count
  unfolding take_address save_pending
  address-count ip gw d = elim (Bool-cases (is_empty d.wifi.pending_ssid)) [
    | inl nothing ↦ rw nothing refl
    | inr something ↦ rw something refl
  ]

  finish-count : (e : EspErr) (d : Device S) → run_count (finish_got_ip e d) ≡ d.pulse_count
  unfolding finish_got_ip start_mdns announce log_connected enqueue_log
  finish-count ok d = ground arith
  finish-count fail d = refl
  finish-count no_mem d = refl
  finish-count invalid_state d = refl
  finish-count not_found d = refl
  finish-count timeout d = refl
  finish-count invalid_crc d = refl
  finish-count nvs_no_free_pages d = refl
  finish-count nvs_new_version_found d = refl
  finish-count (other n) d = refl

  scanned-count :
      (a : EventAnswer) (d d' : Device S)
      → on_scan_done a d ≡ some d'
      → d'.pulse_count ≡ d.pulse_count
  unfolding on_scan_done update_scan_cache
  scanned-count a d d' h = ground arith

  pub event-count :
      (a : EventAnswer) (e : WifiEvent) (d : Device S) (r : Run (Device S) (Unit {0}))
      → wifi_event_handler api a e d ≡ some r
      → run_count r ≡ d.pulse_count
  unfolding wifi_event_handler
  event-count a sta_start d r h = ground (arith, h)
  event-count a sta_connected d r h = ground (arith, h)
  event-count a other_event d r h = ground (arith, h)
  event-count a (sta_disconnected reason) d r h =
      subst (λ x. run_count x ≡ d.pulse_count) (some-inj h)
        (disconnected-count a reason d.wifi.state d)
  event-count a scan_done d r h = elim (Option-cases (on_scan_done a d)) [
    | inl overrun ↦ absurd (ground arith)
    | inr (d', e) ↦
        subst (λ x. run_count x ≡ d.pulse_count) (some-inj (rw (e, wifi_event_handler) at h))
          (scanned-count a d d' e)
  ]
  event-count a (got_ip ip gw) d r h =
      subst (λ x. run_count x ≡ d.pulse_count) (some-inj h)
        (unfold on_got_ip in finish-count a.mdns (take_address api ip gw d) ∙ address-count ip gw d)

  pub reconnect-count :
      (a : Answer) (d : Device S) → (wifi_manager_reconnect api a d).0.pulse_count ≡ d.pulse_count
  unfolding wifi_manager_reconnect
  reconnect-count a d = elim (Option-cases (nvs_read api d.nvs)) [
    | inl missing ↦ rw (missing, wifi_manager_reconnect) refl
    | inr (c, stored) ↦ rw (stored, wifi_manager_reconnect) (ground arith)
  ]
