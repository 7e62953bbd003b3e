-- ===== src/Wifi/Startup/Bits.antt =====
-- src/wifi_manager.c: which bit of the event group ends the wait of `wifi_manager_start`.
use esp32_hydroponics_govern.Prelude.{
  ◌≡◌, refl, ◌∙◌, sym, ap, subst, Bool, true, false, List, [], ◌∷◌, Option, none, some,
  Option-cases, Bool-cases, inl, inr, arith, ltb, not, ◌&&◌, if◌then◌else◌,
}
use esp32_hydroponics_govern.Platform.{
  Call, set_connected_bit, set_failed_bit, Run, returned, wifi_connect,
}
use esp32_hydroponics_govern.Platform.Checks.{Run-cases}
use esp32_hydroponics_govern.Device.{
  WifiState, idle, ap_only, connecting, connected, failed, Device, emit,
}
use esp32_hydroponics_govern.Sensor.{enqueue_log}
use esp32_hydroponics_govern.Wifi.Credentials.{NvsApi, Credentials}
use esp32_hydroponics_govern.Wifi.Scan.{ScanAnswer, update_scan_cache}
use esp32_hydroponics_govern.Wifi.Events.{
  Reason, EventAnswer, Ip, WifiEvent, sta_start, sta_connected, scan_done, other_event,
  sta_disconnected, got_ip, retry, give_up, on_disconnected, on_got_ip, on_scan_done, is_connecting,
  take_address, save_pending, start_mdns, finish_got_ip, log_connected, announce,
  wifi_event_handler,
}
use esp32_hydroponics_govern.Wifi.Startup.{
  StartAnswer, bit_set, first_bit, is_connected_bit, wait_for_bits, create_sta_netif, sta_mode,
  sta_config, sta_power, sta_started,
}

-- The first bit that the calls of a trace, newest first, have set: true for BIT_STA_CONNECTED.
unfoldable pub first_set : List Call → Option Bool
first_set [] = none
first_set (c ∷ cs) =
    let before = first_set cs in
    elim before [
      | some b ↦ some b
      | none ↦ elim c [ set_connected_bit ↦ some true | set_failed_bit ↦ some false | _ ↦ none ]
    ]

first_bit-none : (o : Option Bool) → first_bit o none ≡ o
unfolding first_bit
first_bit-none none = refl
first_bit-none (some b) = refl

some-inj : {A : Type 0} {a b : A} → some a ≡ some b → a ≡ b
some-inj h = cc h

returned-inj :
    {D : Type 0} {d d' : D}
    → ◌≡◌ {A = Option (Run D (Unit {0}))} (some (returned tt d)) (some (returned tt d'))
    → d ≡ d'
returned-inj h = ground (arith, h)

module _ {S : Type 0} where
  scan-set :
      (a : ScanAnswer) (d d' : Device S)
      → update_scan_cache a d ≡ some d'
      → first_set d'.trace ≡ first_set d.trace
  unfolding update_scan_cache
  scan-set a d d' h = ground arith

  done-set :
      (a : EventAnswer) (d d' : Device S)
      → on_scan_done a d ≡ some d'
      → first_set d'.trace ≡ first_set d.trace
  unfolding on_scan_done
  done-set a d d' h =
      ground (arith, scan-set a.scan (record d { wifi = record (d.wifi) { scanning = false } }) d')

  start-set :
      (d : Device S)
      → first_set (if is_connecting d.wifi.state then emit wifi_connect d else d).trace
        ≡ first_set d.trace
  unfolding first_set
  start-set d = elim (Option-cases (first_set d.trace)) [
    | inl none_set ↦ ground arith
    | inr (b, set) ↦ ground arith
  ]

  retry-set : (a : EventAnswer) (d : Device S) → first_set (retry a d).trace ≡ first_set d.trace
  unfolding first_set retry
  retry-set a d = elim (Option-cases (first_set d.trace)) [
    | inl none_set ↦ ground arith
    | inr (b, set) ↦ ground arith
  ]

module _ {S : Type 0} (api : NvsApi S) where
  give_up-set :
      (a : EventAnswer) (reason : Reason) (d : Device S)
      → first_set (give_up api a reason d).trace ≡ first_bit (first_set d.trace) (some false)
  unfolding first_set give_up enqueue_log first_bit
  give_up-set a reason d = elim (Option-cases (first_set d.trace)) [
    | inl none_set ↦ ground arith
    | inr (b, set) ↦ ground arith
  ]

  disconnected-set :
      (a : EventAnswer) (reason : Reason) (st : WifiState) (d : Device S)
      → st ≡ d.wifi.state
      → first_set (on_disconnected api a reason st d).trace
        ≡ first_bit
            (first_set d.trace)
            (if is_connecting st && not (ltb d.wifi.retry_count 1) then some false else none)
  unfolding on_disconnected
  disconnected-set a reason idle d e = sym (first_bit-none (first_set d.trace))
  disconnected-set a reason ap_only d e = sym (first_bit-none (first_set d.trace))
  disconnected-set a reason connecting d e = elim (Bool-cases (ltb d.wifi.retry_count 1)) [
    | inl first ↦ rw first (retry-set a d ∙ sym (first_bit-none (first_set d.trace)))
    | inr again ↦ rw again (give_up-set a reason d)
  ]
  disconnected-set a reason connected d e = sym (first_bit-none (first_set d.trace))
  disconnected-set a reason failed d e = sym (first_bit-none (first_set d.trace))

  got_ip-set :
      (a : EventAnswer) (ip gw : Ip) (d d' : Device S)
      → on_got_ip api a ip gw d ≡ returned tt d'
      → first_set d'.trace ≡ first_bit (first_set d.trace) (some true)
  unfolding first_set on_got_ip finish_got_ip start_mdns announce log_connected enqueue_log
      take_address save_pending first_bit
  got_ip-set a ip gw d d' h = elim (Option-cases (first_set d.trace)) [
    | inl none_set ↦ ground arith
    | inr (b, set) ↦ ground arith
  ]

  event-set :
      (a : EventAnswer) (e : WifiEvent) (d d' : Device S)
      → wifi_event_handler api a e d ≡ some (returned tt d')
      → first_set d'.trace ≡ first_bit (first_set d.trace) (bit_set d.wifi e)
  unfolding wifi_event_handler bit_set
  event-set a sta_start d d' h =
      subst (λ x. first_set x.trace ≡ first_bit (first_set d.trace) none) (returned-inj h)
        (start-set d ∙ sym (first_bit-none (first_set d.trace)))
  event-set a sta_connected d d' h =
      subst (λ x. first_set x.trace ≡ first_bit (first_set d.trace) none) (returned-inj h)
        (sym (first_bit-none (first_set d.trace)))
  event-set a other_event d d' h =
      subst (λ x. first_set x.trace ≡ first_bit (first_set d.trace) none) (returned-inj h)
        (sym (first_bit-none (first_set d.trace)))
  event-set a scan_done d d' h = elim (Option-cases (on_scan_done a d)) [
    | inl overrun ↦ absurd (ground arith)
    | inr (d1, e) ↦
        subst (λ x. first_set x.trace ≡ first_bit (first_set d.trace) none)
          (returned-inj (rw (e, wifi_event_handler) at h))
          (done-set a d d1 e ∙ sym (first_bit-none (first_set d.trace)))
  ]
  event-set a (sta_disconnected reason) d d' h =
      subst
        (λ x.
          first_set x.trace
          ≡ first_bit (first_set d.trace) (
              if is_connecting d.wifi.state && not (ltb d.wifi.retry_count 1)
              then some false
              else none))
        (returned-inj h) (disconnected-set a reason d.wifi.state d refl)
  event-set a (got_ip ip gw) d d' h = got_ip-set a ip gw d d' (some-inj h)

  -- The wait reports BIT_STA_CONNECTED exactly if that is the first bit that the handler has set.
  pub wait-set :
      (bit : Option Bool) (es : List (EventAnswer × WifiEvent)) (d d' : Device S) (joined : Bool)
      → bit ≡ first_set d.trace
      → wait_for_bits api bit es d ≡ some (returned joined d')
      → joined ≡ is_connected_bit (first_set d'.trace)
  unfolding wait_for_bits
  wait-set bit [] d d' joined here h = ground (arith, here)
  wait-set bit ((a, e) ∷ es) d d' joined here h =
      elim (Option-cases (wifi_event_handler api a e d)) [
        | inl overrun ↦ absurd (ground (arith, rw (overrun, wait_for_bits) at h))
        | inr (r, handled) ↦ elim (Run-cases r) [
          | inr (d1, e1) ↦ absurd (ground (arith, rw (handled ∙ ap some e1, wait_for_bits) at h))
          | inl (u, d1, e1) ↦
              let set = event-set a e d d1 (handled ∙ ap some e1) in
              wait-set (first_bit bit (bit_set d.wifi e)) es d1 d' joined
                (ap (λ o. first_bit o (bit_set d.wifi e)) here ∙ sym set)
                (rw (handled ∙ ap some e1, wait_for_bits) at h)
        ]
      ]

module _ {S : Type 0} where
  -- The calls of the direct path set no bit.
  pub sta_started-set :
      (a : StartAnswer) (c : Credentials) (d : Device S)
      → first_set d.trace ≡ none
      → first_set (sta_started a c d).trace ≡ none
  unfolding first_set sta_started sta_power sta_config sta_mode create_sta_netif
  sta_started-set a c d h = ground (arith, h)
