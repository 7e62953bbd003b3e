-- ===== src/Wifi/Events/Branches.antt =====
-- src/wifi_manager.c: what a lost association and a new address do.
use esp32_hydroponics_govern.Prelude.{
  ◌≡◌, ◌≢◌, false, List, ◌∷◌, [], some, arith, ◌⊎◌, if◌then◌else◌,
}
use esp32_hydroponics_govern.Platform.{
  Call, wifi_connect, wifi_reapply_config, is_ok, ok, returned, mdns_init,
}
use esp32_hydroponics_govern.Device.{connecting, connected, failed, Wifi, Device, emit}
use esp32_hydroponics_govern.Sensor.{enqueue_log}
use esp32_hydroponics_govern.Wifi.Credentials.{
  NvsApi, Credentials, nvs_write, nvs_clear, nvs_read, zero_bssid, is_empty,
}
use esp32_hydroponics_govern.Wifi.Credentials.RoundTrip.{NvsLaws, IsStaged, nvs_read-nvs_write}
use esp32_hydroponics_govern.Wifi.Events.{
  Reason, EventAnswer, Ip, is_auth_fail, retry, give_up, on_disconnected, on_got_ip, finish_got_ip,
  start_mdns, start_mdns, take_address, log_connected, announce,
}

-- The credentials that an attempt has staged.
abbrev pub pending : Wifi → Credentials
pending w = record {
  ssid = w.pending_ssid;
  pass = w.pending_pass;
  bssid_set = w.pending_bssid_set;
  bssid = w.pending_bssid;
  auth = w.pending_auth;
}

-- The calls of a retry, newest first.
abbrev pub tried_again : EventAnswer → List Call → List Call
tried_again a before =
    wifi_connect ∷ (if is_ok a.get_config then wifi_reapply_config ∷ before else before)

module _ {S : Type 0} (api : NvsApi S) where
  after_retry :
      (a : EventAnswer) (d : Device S)
      → d.wifi.state ≡ connecting
      → d.wifi.retry_count ≡ 0
      → let d1 = retry a d in
        (d1.wifi.state ≡ connecting)
        × (d1.wifi.retry_count ≡ 1)
        × (pending d1.wifi ≡ pending d.wifi)
        × (d1.nvs ≡ d.nvs)
        × (d1.trace ≡ tried_again a d.trace)
  unfolding retry
  after_retry a d now_connecting fresh = ground arith

  pub after_give_up :
      (a : EventAnswer) (reason : Reason) (d : Device S)
      → let d2 = give_up api a reason d in
        (d2.wifi.state ≡ failed)
        × (d2.wifi.pending_ssid ≡ [])
        × (d2.wifi.pending_pass ≡ [])
        × (d2.nvs ≡ (if is_auth_fail reason then nvs_clear api d.nvs else d.nvs))
  unfolding give_up
  after_give_up a reason d = ground arith

  -- The first association that is lost while connecting is tried again, whatever the reason: the driver
  -- gets its configuration again, if it could be read, and then `esp_wifi_connect`; the attempt goes on,
  -- nothing is forgotten. The second ends the attempt: the state is FAILED, the
  -- staged credentials are gone, and the stored ones are erased exactly if the second reason is one
  -- of the five of a failed authentication.
  pub disconnected_twice :
      (a b : EventAnswer) (first second : Reason) (d : Device S)
      → d.wifi.state ≡ connecting
      → d.wifi.retry_count ≡ 0
      → let d1 = on_disconnected api a first d.wifi.state d in
        let d2 = on_disconnected api b second d1.wifi.state d1 in
        ((d1.wifi.state ≡ connecting)
          × (pending d1.wifi ≡ pending d.wifi)
          × (d1.nvs ≡ d.nvs)
          × (d1.trace ≡ tried_again a d.trace))
        × (d2.wifi.state ≡ failed)
        × (d2.wifi.pending_ssid ≡ [])
        × (d2.wifi.pending_pass ≡ [])
        × (d2.nvs ≡ (if is_auth_fail second then nvs_clear api d.nvs else d.nvs))
  unfolding on_disconnected
  disconnected_twice a b first second d now_connecting fresh =
      ground (arith, after_retry a d now_connecting fresh, after_give_up b second (retry a d))

  -- An association that is lost in another state changes at most the state: from CONNECTED to FAILED,
  -- and nothing else anywhere.
  pub disconnected_otherwise :
      (a : EventAnswer) (reason : Reason) (d : Device S)
      → d.wifi.state ≢ connecting
      → let d1 = on_disconnected api a reason d.wifi.state d in
        ((d.wifi.state ≡ connected) × (d1 ≡ record d { wifi = record (d.wifi) { state = failed } }))
        ⊎ ((d.wifi.state ≢ connected) × (d1 ≡ d))
  unfolding on_disconnected
  disconnected_otherwise a reason d not_connecting = ground arith

  after_address :
      (ip gw : Ip) (d : Device S)
      → let d' = log_connected (announce (emit mdns_init (take_address api ip gw d))) in
        (d'.wifi.state ≡ connected)
        × (d'.wifi.pending_ssid ≡ [])
        × (d'.sensors.ap_mode ≡ false)
        × (d'.nvs ≡ (
            if is_empty d.wifi.pending_ssid
            then d.nvs
            else (nvs_write api (pending d.wifi) d.nvs).0))
  unfolding take_address log_connected announce enqueue_log
  after_address ip gw d = ground arith

  -- A new address makes the state CONNECTED, from whatever state, and if mDNS starts, what was staged
  -- becomes what is stored: with nothing staged the store is as before, and otherwise it is what
  -- `nvs_write` makes of it, and nothing is staged any more.
  pub on_got_ip_lem :
      (a : EventAnswer) (ip gw : Ip) (d : Device S)
      → a.mdns ≡ ok
      → (d' : Device S) × (on_got_ip api a ip gw d ≡ returned tt d')
        × (d'.wifi.state ≡ connected)
        × (d'.wifi.pending_ssid ≡ [])
        × (d'.sensors.ap_mode ≡ false)
        × (d'.nvs ≡ (
            if is_empty d.wifi.pending_ssid
            then d.nvs
            else (nvs_write api (pending d.wifi) d.nvs).0))
  unfolding on_got_ip finish_got_ip start_mdns
  on_got_ip_lem a ip gw d up =
      let (st, gone, mode, store) = after_address ip gw d in
      (
        log_connected (announce (emit mdns_init (take_address api ip gw d))),
        ground arith,
        st,
        gone,
        mode,
        store,
      )

  -- Credentials that lead to an address are read back after a reboot: for staged credentials that fit
  -- their buffers and a store that keeps the NVS laws and opens both ways.
  pub saved_credentials :
      (laws : NvsLaws api) (a : EventAnswer) (ip gw : Ip) (d : Device S)
      → a.mdns ≡ ok
      → IsStaged (pending d.wifi)
      → api.open_rw d.nvs ≡ ok
      → api.open_ro (nvs_write api (pending d.wifi) d.nvs).0 ≡ ok
      → (d' : Device S) × (on_got_ip api a ip gw d ≡ returned tt d')
        × (nvs_read api d'.nvs
            ≡ some (record (pending d.wifi) {
              bssid = if d.wifi.pending_bssid_set then d.wifi.pending_bssid else zero_bssid;
            }))
  saved_credentials laws a ip gw d up staged rw_ok ro_ok =
      let (d', made, st, gone, mode, store) = on_got_ip_lem a ip gw d up in
      let kept : d'.nvs ≡ (nvs_write api (pending d.wifi) d.nvs).0 =
        ground (arith, store, staged.named) in
      (d', made, rw kept (nvs_read-nvs_write api laws (pending d.wifi) d.nvs staged rw_ok ro_ok))
