-- ===== src/Wifi/Protocol/Waits.antt =====
-- src/wifi_manager.c: what may happen while `connect_sta` waits for the driver.
use esp32_hydroponics_govern.Prelude.{
  ℕ, zero, suc, ◌<◌, ◌≤◌, ◌≡◌, refl, sym, ◌∙◌, ap, subst, Text, Bool, true, false, List, [], ◌∷◌,
  ◌++◌, some, length, take, take_all, get_elem?, get_or, ◌==◌, arith,
}
use esp32_hydroponics_govern.Platform.{
  Call, StaConfig, ok, is_ok, returned, delay, wifi_connect, wifi_set_sta, wifi_set_channel,
  wifi_set_max_tx_power,
}
use esp32_hydroponics_govern.Device.{ApRecord, Device, emit}
use esp32_hydroponics_govern.Wifi.Credentials.{NvsApi, Credentials, is_empty, nvs_read, nvs_write}
use esp32_hydroponics_govern.Wifi.Credentials.RoundTrip.{NvsLaws, IsStaged}
use esp32_hydroponics_govern.Wifi.Scan.{ScanAnswer, with_scan, update_scan_cache}
use esp32_hydroponics_govern.Wifi.Scan.Bounds.{AllFit, networks, scan_listing_lem}
use esp32_hydroponics_govern.Wifi.Connect.{
  Answer, stored_config, wifi_manager_reconnect, sta_config,
}
use esp32_hydroponics_govern.Wifi.Connect.Paused.{
  realigned, record_of, find_slot, reread, begin_attempt, resume_attempt,
}
use esp32_hydroponics_govern.Wifi.Connect.Pointer.{begin-WifiFits}
use esp32_hydroponics_govern.Wifi.Events.{EventAnswer, Ip, on_got_ip, on_scan_done}
use esp32_hydroponics_govern.Wifi.Events.Branches.{pending, saved_credentials}
use esp32_hydroponics_govern.Wifi.Invariant.{WifiFits}
use esp32_hydroponics_govern.Wifi.Protocol.Untried.{reconnect-pending}

-- The driver has found networks and delivers them.
pub record Delivers (a : ScanAnswer) : Type 0 where
  pub found : (a.ap_num == 0) ≡ false
  pub memory : a.allocated ≡ true
  pub fetched : is_ok a.ret ≡ true
  pub names : AllFit a.records
  pub fits : length a.records ≤ 20

get_or-get_elem? :
    (rs : List ApRecord) (i : ℕ) (r q : ApRecord) → get_elem? rs i ≡ some q → get_or rs i r ≡ q
get_or-get_elem? [] i r q h = cc h
get_or-get_elem? (x ∷ xs) zero r q h = cc h
get_or-get_elem? (x ∷ xs) (suc i) r q h = get_or-get_elem? xs i r q h

latched :
    (ssid pass : Text) (is_open : Bool) (cfg : StaConfig) (r : ApRecord)
    → cfg ≡ sta_config ssid pass is_open (some r)
    → cfg.bssid ≡ r.bssid
unfolding sta_config
latched ssid pass is_open cfg r e = ap (λ (c : StaConfig). c.bssid) e

module _ {S : Type 0} where
  -- The scan that is over puts its records into the cache.
  delivered :
      (a : EventAnswer) (d : Device S)
      → d.wifi.scanning ≡ true
      → Delivers a.scan
      → (d' : Device S) × (on_scan_done a d ≡ some d') × (d'.wifi.scan_records ≡ a.scan.records)
  unfolding on_scan_done update_scan_cache
  delivered a d busy v =
      let json = b'[' ∷ (networks [] true a.scan.records ++ b']' ∷ []) in
      let listed = (scan_listing_lem a.scan.records v.names v.fits).0 in
      (
        with_scan json (take 20 a.scan.records)
            (record d { wifi = record (d.wifi) { scanning = false } }),
        rw (busy, v.found, v.memory, v.fetched) (rw (listed, update_scan_cache) refl),
        take_all 20 a.scan.records v.fits,
      )

  begun :
      (ssid pass : Text) (is_open : Bool) (d : Device S)
      → let (d1, slot, cfg) = begin_attempt ssid pass is_open d in
        (d1.wifi.scanning ≡ d.wifi.scanning)
        × (slot ≡ find_slot d.wifi.scan_records ssid)
        × (cfg ≡ sta_config ssid pass is_open (record_of (find_slot d.wifi.scan_records ssid)))
  unfolding begin_attempt
  begun ssid pass is_open d = (ground arith, refl, refl)

  misled :
      (a : Answer) (cfg : StaConfig) (i : ℕ) (r q : ApRecord) (d : Device S)
      → get_elem? d.wifi.scan_records i ≡ some q
      → (a.curr_chan == q.primary) ≡ false
      → resume_attempt a (reread d.wifi.scan_records (some (i, r))) cfg d
        ≡ realigned cfg (
            emit
              (delay 400)
              (emit (wifi_set_channel q.primary) (emit (wifi_set_max_tx_power 80) d)))
  unfolding resume_attempt reread
  misled a cfg i r q d there elsewhere =
      rw (get_or-get_elem? d.wifi.scan_records i r q there) (rw elsewhere refl)

  -- While `connect_sta` waits, its pointer into the scan cache loses the network that was found. The
  -- name is in the cache at index `i`, a scan is under way, and its end comes in the first wait with other
  -- records: then the attempt goes on with the configuration for the network that was found, and on the
  -- channel of whatever record is at index `i` now, if the radio is on another.
  pub pointer_misleads :
      (a : Answer) (e : EventAnswer) (ssid pass : Text) (is_open : Bool) (d : Device S) (i : ℕ)
      (r q : ApRecord)
      → find_slot d.wifi.scan_records ssid ≡ some (i, r)
      → d.wifi.scanning ≡ true
      → Delivers e.scan
      → get_elem? e.scan.records i ≡ some q
      → (a.curr_chan == q.primary) ≡ false
      → let (d1, slot, cfg) = begin_attempt ssid pass is_open d in
        (d2 : Device S) × (on_scan_done e d1 ≡ some d2)
        × (cfg.bssid ≡ r.bssid)
        × (resume_attempt a (reread d2.wifi.scan_records slot) cfg d2
            ≡ realigned cfg (
                emit
                  (delay 400)
                  (emit (wifi_set_channel q.primary) (emit (wifi_set_max_tx_power 80) d2))))
  pointer_misleads a e ssid pass is_open d i r q found busy v there elsewhere =
      let (d1, slot, cfg) = begin_attempt ssid pass is_open d in
      let (still_busy, points, config) = begun ssid pass is_open d in
      let (d2, over, records) = delivered e d1 (still_busy ∙ busy) v in
      (
        d2,
        over,
        latched ssid pass is_open cfg r
            (config ∙ ap (λ o. sta_config ssid pass is_open (record_of o)) found),
        ap (λ o. resume_attempt a (reread d2.wifi.scan_records o) cfg d2) (points ∙ found)
            ∙ misled a cfg i r q d2 (rw records there) elsewhere,
      )

module _ {S : Type 0} (api : NvsApi S) where
  begun-pending :
      (ssid pass : Text) (is_open : Bool) (d : Device S)
      → length ssid < 64
      → length pass < 64
      → WifiFits d.wifi
      → let d1 = (begin_attempt ssid pass is_open d).0 in
        (d1.wifi.pending_ssid ≡ ssid) × (d1.wifi.pending_pass ≡ pass) × (d1.nvs ≡ d.nvs)
  unfolding begin_attempt
  begun-pending ssid pass is_open d hs hp fits =
      ground (arith, take_all 63 ssid (omega arith), take_all 63 pass (omega arith))

  -- Credentials that no driver has tried replace those that work, if a reconnect comes in the middle of an
  -- attempt. A request has staged a name and a password, which fit, and waits; the main loop reconnects with
  -- the stored credentials, which `esp_wifi_connect` takes, and when these lead to an address, `nvs_read`
  -- finds the name and password of the attempt. The buffers are within their arrays, and the store keeps the
  -- NVS laws, opens for writing, and for reading once credentials are saved in it.
  pub wait_saves_untried :
      (laws : NvsLaws api) (b : Answer) (e : EventAnswer) (ssid pass : Text) (is_open : Bool)
      (ip gw : Ip) (d : Device S) (c : Credentials)
      → WifiFits d.wifi
      → is_empty ssid ≡ false
      → length ssid < 64
      → length pass < 64
      → nvs_read api d.nvs ≡ some c
      → b.connect ≡ ok
      → e.mdns ≡ ok
      → api.open_rw d.nvs ≡ ok
      → ((saved : Credentials) → api.open_ro (nvs_write api saved d.nvs).0 ≡ ok)
      → let d1 = (begin_attempt ssid pass is_open d).0 in
        let d2 = (wifi_manager_reconnect api b d1).0 in
        (d3 : Device S) × (c' : Credentials) × (calls : List Call) × (d2.trace
          ≡ wifi_connect ∷ wifi_set_sta (stored_config c) ∷ calls)
        × (on_got_ip api e ip gw d2 ≡ returned tt d3)
        × (nvs_read api d3.nvs ≡ some c')
        × (c'.ssid ≡ ssid)
        × (c'.pass ≡ pass)
  wait_saves_untried laws b e ssid pass is_open ip gw d c fits named hs hp stored up mdns rw_ok
        ro_ok =
      let d1 = (begin_attempt ssid pass is_open d).0 in
      let d2 = (wifi_manager_reconnect api b d1).0 in
      let (name, word, store1) = begun-pending ssid pass is_open d hs hp fits in
      let fits1 = begin-WifiFits ssid pass is_open d fits in
      let (kept, store, (calls, traced)) = reconnect-pending api b c d1 (rw store1 stored) up in
      let staged : IsStaged (pending d1.wifi) = record {
        named = rw name named;
        ssid_fits = rw name hs;
        pass_fits = rw word hp;
        bssid_whole = fits1.pending_bssid;
      } in
      let (d3, got, read) =
        saved_credentials api laws e ip gw d2 mdns (subst IsStaged (sym kept) staged)
          (rw (store, store1) rw_ok) (rw (store, store1) (ro_ok _)) in
      (
        d3,
        _,
        calls,
        traced,
        got,
        read,
        ap (λ (x : Credentials). x.ssid) kept ∙ name,
        ap (λ (x : Credentials). x.pass) kept ∙ word,
      )
