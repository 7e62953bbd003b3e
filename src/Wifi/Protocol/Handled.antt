-- ===== src/Wifi/Protocol/Handled.antt =====
-- src/wifi_manager.c: the events follow the protocol.
use esp32_hydroponics_govern.Prelude.{
  ◌≡◌, refl, sym, subst, Text, [], Option, none, some, Bool-cases, Option-cases, inl, inr, arith,
  ltb, if◌then◌else◌,
}
use esp32_hydroponics_govern.Platform.{
  EspErr, ok, fail, no_mem, invalid_state, not_found, timeout, invalid_crc, nvs_no_free_pages,
  nvs_new_version_found, other, Run,
}
use esp32_hydroponics_govern.Device.{
  WifiState, idle, ap_only, connecting, connected, failed, Device,
}
use esp32_hydroponics_govern.Sensor.{enqueue_log}
use esp32_hydroponics_govern.Wifi.Credentials.{NvsApi, is_empty, nvs_clear}
use esp32_hydroponics_govern.Wifi.Scan.{update_scan_cache}
use esp32_hydroponics_govern.Wifi.Events.{
  EventAnswer, Reason, Ip, WifiEvent, sta_start, sta_connected, scan_done, other_event,
  sta_disconnected, got_ip, is_auth_fail, retry, give_up, on_disconnected, save_pending,
  take_address, on_scan_done, finish_got_ip, start_mdns, announce, log_connected, on_got_ip,
  wifi_event_handler,
}
use esp32_hydroponics_govern.Wifi.Events.Branches.{pending}
use esp32_hydroponics_govern.Wifi.Protocol.{
  Link, Step, stay, again, given_up, refused, lost, joined, saved, link, left,
}

pub some-inj : {A : Type 0} {a b : A} → some a ≡ some b → a ≡ b
some-inj h = cc h

module _ {S : Type 0} (api : NvsApi S) where
  -- A step to an equal link.
  pub land : {o : Option Text} {k l : Link S} (m : Link S) → m ≡ l → Step api o k l → Step api o k m
  land {o} {k} {l} m e st = subst (λ n. Step api o k n) (sym e) st

  link-give_up :
      (a : EventAnswer) (reason : Reason) (d : Device S)
      → link (give_up api a reason d) ≡ record (link d) {
        phase = failed;
        staged = [];
        store = if is_auth_fail reason then nvs_clear api d.nvs else d.nvs;
      }
  unfolding give_up
  link-give_up a reason d = ground arith

  link-retry :
      (a : EventAnswer) (d : Device S)
      → d.wifi.retry_count ≡ 0
      → link (retry a d) ≡ record (link d) { tries = 1 }
  unfolding retry
  link-retry a d fresh = ground arith

  disconnected-Step :
      (a : EventAnswer) (reason : Reason) (st : WifiState) (d : Device S)
      → st ≡ d.wifi.state
      → Step api none (link d) (link (on_disconnected api a reason st d))
  unfolding on_disconnected
  disconnected-Step a reason idle d e = stay
  disconnected-Step a reason ap_only d e = stay
  disconnected-Step a reason connecting d e = elim (Bool-cases (ltb d.wifi.retry_count 1)) [
    | inl first ↦ rw first (land _ (link-retry a d (ground arith)) (again (sym e) (ground arith)))
    | inr later ↦ rw later (elim (Bool-cases (is_auth_fail reason)) [
      | inl auth ↦ land _ (rw auth at (link-give_up a reason d)) (refused (sym e))
      | inr other_reason ↦ land _ (rw other_reason at (link-give_up a reason d)) (given_up (sym e))
    ])
  ]
  disconnected-Step a reason connected d e = lost (sym e)
  disconnected-Step a reason failed d e = stay

  address-Step :
      (ip gw : Ip) (d : Device S) → Step api none (link d) (link (take_address api ip gw d))
  unfolding take_address save_pending
  address-Step ip gw d = elim (Bool-cases (is_empty d.wifi.pending_ssid)) [
    | inl nothing ↦ rw nothing (joined nothing)
    | inr something ↦ rw something (saved (pending d.wifi) refl something)
  ]

  finish-link : (e : EspErr) (d : Device S) → link (left (finish_got_ip e d)) ≡ link d
  unfolding finish_got_ip start_mdns announce log_connected enqueue_log
  finish-link ok d = ground arith
  finish-link fail d = refl
  finish-link no_mem d = refl
  finish-link invalid_state d = refl
  finish-link not_found d = refl
  finish-link timeout d = refl
  finish-link invalid_crc d = refl
  finish-link nvs_no_free_pages d = refl
  finish-link nvs_new_version_found d = refl
  finish-link (other n) d = refl

  scanned-link : (a : EventAnswer) (d d' : Device S) → on_scan_done a d ≡ some d' → link d' ≡ link d
  unfolding on_scan_done update_scan_cache
  scanned-link a d d' h = ground arith

  pub event-Step :
      (a : EventAnswer) (e : WifiEvent) (d : Device S) (r : Run (Device S) (Unit {0}))
      → wifi_event_handler api a e d ≡ some r
      → Step api none (link d) (link (left r))
  unfolding wifi_event_handler
  event-Step a sta_start d r h = land _ (ground (arith, h)) stay
  event-Step a sta_connected d r h = land _ (ground (arith, h)) stay
  event-Step a other_event d r h = land _ (ground (arith, h)) stay
  event-Step a (sta_disconnected reason) d r h =
      subst (λ x. Step api none (link d) (link (left x))) (some-inj h)
        (disconnected-Step a reason d.wifi.state d refl)
  event-Step a scan_done d r h = elim (Option-cases (on_scan_done a d)) [
    | inl overrun ↦ absurd (ground arith)
    | inr (d', e) ↦
        subst (λ x. Step api none (link d) (link (left x)))
          (some-inj (rw (e, wifi_event_handler) at h)) (land _ (scanned-link a d d' e) stay)
  ]
  event-Step a (got_ip ip gw) d r h =
      subst (λ x. Step api none (link d) (link (left x))) (some-inj h)
        (unfold on_got_ip in
          land _ (finish-link a.mdns (take_address api ip gw d)) (address-Step ip gw d))
