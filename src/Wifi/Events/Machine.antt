-- ===== src/Wifi/Events/Machine.antt =====
-- src/wifi_manager.c: the transitions of the connection state.
use esp32_hydroponics_govern.Prelude.{
  ℕ, ◌<◌, ◌≤◌, ◌⊎◌, Bool, true, ◌≡◌, refl, sym, subst, ltb, Bool-cases, false, some, arith, inl,
  inr, Option-cases, if◌then◌else◌,
}
use esp32_hydroponics_govern.Platform.{
  EspErr, ok, fail, no_mem, invalid_state, not_found, timeout, invalid_crc, nvs_no_free_pages,
  nvs_new_version_found, other, is_ok, Run, returned, aborted, wifi_connect, mdns_init,
}
use esp32_hydroponics_govern.Device.{
  WifiState, idle, ap_only, connecting, connected, failed, Device, emit,
}
use esp32_hydroponics_govern.Sensor.{enqueue_log}
use esp32_hydroponics_govern.Wifi.Credentials.{NvsApi}
use esp32_hydroponics_govern.Wifi.Scan.{update_scan_cache, ScanAnswer}
use esp32_hydroponics_govern.Wifi.Events.Branches.{after_give_up}
use esp32_hydroponics_govern.Wifi.Events.{
  Reason, is_connecting, EventAnswer, Ip, WifiEvent, sta_start, sta_connected, scan_done,
  other_event, sta_disconnected, got_ip, retry, on_disconnected, on_got_ip, on_scan_done,
  take_address, start_mdns, finish_got_ip, log_connected, announce, wifi_event_handler,
}

-- The events that may move the state.
abbrev pub moves : WifiEvent → Bool
moves (sta_disconnected reason) = true
moves (got_ip ip gw) = true
moves _ = false

abbrev pub IsOff : WifiState → Type 0
IsOff connecting = ⊥
IsOff connected = ⊥
IsOff _ = Unit

-- The edges of the state diagram: what an event does to a state, after so many retries.
pub data Edge : ℕ → WifiEvent → WifiState → WifiState → Type 0 where
  address : {n : ℕ} {ip gw : Ip} {s : WifiState} → Edge n (got_ip ip gw) s connected
  retried :
      {n : ℕ} {reason : Reason} → n < 1 → Edge n (sta_disconnected reason) connecting connecting
  refused : {n : ℕ} {reason : Reason} → 1 ≤ n → Edge n (sta_disconnected reason) connecting failed
  dropped : {n : ℕ} {reason : Reason} → Edge n (sta_disconnected reason) connected failed
  ignored :
      {n : ℕ} {reason : Reason} {s : WifiState} → IsOff s → Edge n (sta_disconnected reason) s s
  stay : {n : ℕ} {e : WifiEvent} {s : WifiState} → moves e ≡ false → Edge n e s s

-- A run of the handler on this event: along an edge, or to a halt where mDNS fails after a new address.
pub data IsRunOf {S : Type 0} (a : EventAnswer) (e : WifiEvent) (d : Device S)
    : Run (Device S) (Unit {0}) → Type 0 where
  went_on :
      (d' : Device S)
      → Edge d.wifi.retry_count e d.wifi.state d'.wifi.state
      → IsRunOf a e d (returned tt d')
  stopped :
      (d' : Device S) (ip gw : Ip)
      → e ≡ got_ip ip gw
      → is_ok a.mdns ≡ false
      → d'.wifi.state ≡ connected
      → IsRunOf a e d (aborted d')

some-inj : {A : Type 0} {a b : A} → some a ≡ some b → a ≡ b
some-inj h = cc h

-- An edge to a state that is known.
edge_to : {n : ℕ} {e : WifiEvent} {s t u : WifiState} → t ≡ u → Edge n e s u → Edge n e s t
edge_to {n} {e} {s} same edge = subst (λ t. Edge n e s t) (sym same) edge

check-cases : (e : EspErr) → (e ≡ ok) ⊎ (is_ok e ≡ false)
check-cases ok = inl refl
check-cases fail = inr refl
check-cases no_mem = inr refl
check-cases invalid_state = inr refl
check-cases not_found = inr refl
check-cases timeout = inr refl
check-cases invalid_crc = inr refl
check-cases nvs_no_free_pages = inr refl
check-cases nvs_new_version_found = inr refl
check-cases (other n) = inr refl

module _ {S : Type 0} where
  state-update_scan_cache :
      (a : ScanAnswer) (d d' : Device S)
      → update_scan_cache a d ≡ some d'
      → d'.wifi.state ≡ d.wifi.state
  unfolding update_scan_cache
  state-update_scan_cache a d d' h = ground arith

  state-on_scan_done :
      (a : EventAnswer) (d d' : Device S)
      → on_scan_done a d ≡ some d'
      → d'.wifi.state ≡ d.wifi.state
  unfolding on_scan_done
  state-on_scan_done a d d' h = ground (
    arith,
    state-update_scan_cache a.scan (record d { wifi = record (d.wifi) { scanning = false } }) d',
  )

module _ {S : Type 0} where
  finish-aborted :
      (e : EspErr) (d : Device S) → is_ok e ≡ false → finish_got_ip e d ≡ aborted (emit mdns_init d)
  unfolding finish_got_ip start_mdns
  finish-aborted ok d h = absurd (ground arith)
  finish-aborted fail d h = refl
  finish-aborted no_mem d h = refl
  finish-aborted invalid_state d h = refl
  finish-aborted not_found d h = refl
  finish-aborted timeout d h = refl
  finish-aborted invalid_crc d h = refl
  finish-aborted nvs_no_free_pages d h = refl
  finish-aborted nvs_new_version_found d h = refl
  finish-aborted (other n) d h = refl

module _ {S : Type 0} (api : NvsApi S) where
  disconnected-Edge :
      (a : EventAnswer) (reason : Reason) (st : WifiState) (d : Device S)
      → st ≡ d.wifi.state
      → Edge d.wifi.retry_count
          (sta_disconnected reason)
          st
          (on_disconnected api a reason st d).wifi.state
  unfolding on_disconnected
  disconnected-Edge a reason idle d e = edge_to (sym e) (ignored tt)
  disconnected-Edge a reason ap_only d e = edge_to (sym e) (ignored tt)
  disconnected-Edge a reason connecting d e = elim (Bool-cases (ltb d.wifi.retry_count 1)) [
    | inl first ↦
        rw first (
          edge_to {u = connecting} (unfold retry in ground arith) (retried (ground (arith, first))))
    | inr again ↦
        rw again (edge_to (after_give_up api a reason d).0 (refused (ground (arith, again))))
  ]
  disconnected-Edge a reason connected d e = dropped
  disconnected-Edge a reason failed d e = edge_to (sym e) (ignored tt)

  finish-IsRunOf :
      (a : EventAnswer) (ip gw : Ip) (d d1 : Device S)
      → d1.wifi.state ≡ connected
      → IsRunOf a (got_ip ip gw) d (finish_got_ip a.mdns d1)
  unfolding finish_got_ip start_mdns announce log_connected enqueue_log
  finish-IsRunOf a ip gw d d1 here = elim (check-cases a.mdns) [
    | inl up ↦
        rw up
          (went_on (log_connected (announce (emit mdns_init d1))) (edge_to (ground arith) address))
    | inr down ↦
        subst (IsRunOf a (got_ip ip gw) d) (sym (finish-aborted a.mdns d1 down))
          (stopped (emit mdns_init d1) ip gw refl down here)
  ]

  got_ip-IsRunOf :
      (a : EventAnswer) (ip gw : Ip) (d : Device S)
      → IsRunOf a (got_ip ip gw) d (on_got_ip api a ip gw d)
  unfolding on_got_ip take_address
  got_ip-IsRunOf a ip gw d = finish-IsRunOf a ip gw d (take_address api ip gw d) refl

  -- Every event from which the handler returns moves the connection state along the edge that the diagram
  -- has for it: a new address leads to CONNECTED, a lost association from CONNECTING back to CONNECTING if
  -- it has not been retried and to FAILED if it has, and from CONNECTED to FAILED; no other event changes
  -- the state. The handler halts the firmware only on a new address, where mDNS does not start.
  pub wifi_event_handler-IsRunOf :
      (a : EventAnswer) (e : WifiEvent) (d : Device S) {r : Run (Device S) (Unit {0})}
      → wifi_event_handler api a e d ≡ some r
      → IsRunOf a e d r
  unfolding wifi_event_handler
  wifi_event_handler-IsRunOf a sta_start d h = subst (IsRunOf a sta_start d) (some-inj h) (
      went_on (if is_connecting d.wifi.state then emit wifi_connect d else d)
        (edge_to (ground arith) (stay refl)))
  wifi_event_handler-IsRunOf a sta_connected d h =
      subst (IsRunOf a sta_connected d) (some-inj h) (went_on d (stay refl))
  wifi_event_handler-IsRunOf a scan_done d h = elim (Option-cases (on_scan_done a d)) [
    | inl overrun ↦ absurd (ground arith)
    | inr (d', e) ↦
        subst (IsRunOf a scan_done d) (some-inj (rw (e, wifi_event_handler) at h))
          (went_on d' (edge_to (state-on_scan_done a d d' e) (stay refl)))
  ]
  wifi_event_handler-IsRunOf a other_event d h =
      subst (IsRunOf a other_event d) (some-inj h) (went_on d (stay refl))
  wifi_event_handler-IsRunOf a (sta_disconnected reason) d h =
      subst (IsRunOf a (sta_disconnected reason) d) (some-inj h) (
        went_on (on_disconnected api a reason d.wifi.state d)
          (disconnected-Edge a reason d.wifi.state d refl))
  wifi_event_handler-IsRunOf a (got_ip ip gw) d h =
      subst (IsRunOf a (got_ip ip gw) d) (some-inj h) (got_ip-IsRunOf a ip gw d)
