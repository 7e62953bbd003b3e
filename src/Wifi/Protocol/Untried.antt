-- ===== src/Wifi/Protocol/Untried.antt =====
-- src/wifi_manager.c: a reconnect keeps what an attempt has staged.
use esp32_hydroponics_govern.Prelude.{
  ◌<◌, ◌≡◌, refl, sym, ◌∙◌, ap, subst, Text, Bool, false, List, ◌∷◌, some, length, take_all, inr,
  arith,
}
use esp32_hydroponics_govern.Platform.{Call, ok, is_ok, returned, wifi_connect, wifi_set_sta}
use esp32_hydroponics_govern.Device.{failed, Device}
use esp32_hydroponics_govern.Wifi.Credentials.{NvsApi, Credentials, is_empty, nvs_read, nvs_write}
use esp32_hydroponics_govern.Wifi.Credentials.RoundTrip.{NvsLaws, IsStaged}
use esp32_hydroponics_govern.Wifi.Connect.{
  Answer, stored_config, wifi_manager_connect, wifi_manager_reconnect,
}
use esp32_hydroponics_govern.Wifi.Connect.Attempt.{wifi_manager_connect-guard}
use esp32_hydroponics_govern.Wifi.Events.{EventAnswer, Ip, on_got_ip}
use esp32_hydroponics_govern.Wifi.Events.Branches.{pending, saved_credentials}
use esp32_hydroponics_govern.Wifi.Invariant.{WifiFits, connect-WifiFits}

module _ {S : Type 0} (api : NvsApi S) where
  pub reconnect-pending :
      (b : Answer) (c : Credentials) (d : Device S)
      → nvs_read api d.nvs ≡ some c
      → b.connect ≡ ok
      → let d' = (wifi_manager_reconnect api b d).0 in
        (pending d'.wifi ≡ pending d.wifi)
        × (d'.nvs ≡ d.nvs)
        × ((calls : List Call) × (d'.trace ≡ wifi_connect ∷ wifi_set_sta (stored_config c) ∷ calls))
  unfolding wifi_manager_reconnect
  reconnect-pending b c d stored up =
      rw (stored, wifi_manager_reconnect) (rw up (refl, refl, (_, refl)))

  -- A reconnect keeps what is staged, so that credentials which no driver has ever tried replace those
  -- that work: while FAILED, with credentials in the store, an attempt that `esp_wifi_connect` refuses
  -- leaves its name and password staged; a reconnect then hands the stored credentials to the driver,
  -- and when these lead to an address, `nvs_read` finds the name and password of the attempt. Strings
  -- that fit, buffers within their arrays, and a store that keeps the NVS laws, opens
  -- for writing, and for reading once credentials are saved in it.
  pub reconnect_saves_untried :
      (laws : NvsLaws api) (a b : Answer) (e : EventAnswer) (ssid pass : Text) (is_open : Bool)
      (ip gw : Ip) (d : Device S) (c : Credentials)
      → d.wifi.state ≡ failed
      → WifiFits d.wifi
      → is_empty ssid ≡ false
      → length ssid < 64
      → length pass < 64
      → a.set_config ≡ ok
      → is_ok a.connect ≡ false
      → nvs_read api d.nvs ≡ some c
      → b.connect ≡ ok
      → e.mdns ≡ ok
      → api.open_rw d.nvs ≡ ok
      → ((saved : Credentials) → api.open_ro (nvs_write api saved d.nvs).0 ≡ ok)
      → (d1 d3 : Device S) × (c' : Credentials) × (calls : List Call) × (wifi_manager_connect a ssid
            pass is_open d
          ≡ returned ok d1)
        × (d1.wifi.state ≡ failed)
        × ((wifi_manager_reconnect api b d1).0.trace
            ≡ wifi_connect ∷ wifi_set_sta (stored_config c) ∷ calls)
        × (on_got_ip api e ip gw (wifi_manager_reconnect api b d1).0 ≡ returned tt d3)
        × (nvs_read api d3.nvs ≡ some c')
        × (c'.ssid ≡ ssid)
        × (c'.pass ≡ pass)
  reconnect_saves_untried laws a b e ssid pass is_open ip gw d c st fits named hs hp config refused
        stored up mdns rw_ok ro_ok =
      let (d1, made, attempt) =
        (wifi_manager_connect-guard a ssid pass is_open d config).0 (inr st) in
      let fits1 = connect-WifiFits a ssid pass is_open d d1 ok fits made in
      let d2 = (wifi_manager_reconnect api b d1).0 in
      let (kept, store, (calls, traced)) = reconnect-pending b c d1 (rw attempt.store stored) up in
      let name : d1.wifi.pending_ssid ≡ ssid =
        attempt.pending_ssid ∙ take_all 63 ssid (omega arith) in
      let word : d1.wifi.pending_pass ≡ pass =
        attempt.pending_pass ∙ take_all 63 pass (omega arith) in
      let staged : IsStaged (pending d1.wifi) = record {
        named = rw name named;
        ssid_fits = rw name hs;
        pass_fits = rw word hp;
        bssid_whole = fits1.pending_bssid;
      } in
      let (d3, got, read) =
        saved_credentials api laws e ip gw d2 mdns (subst IsStaged (sym kept) staged)
          (rw (store, attempt.store) rw_ok) (rw (store, attempt.store) (ro_ok _)) in
      (
        d1,
        d3,
        _,
        calls,
        made,
        attempt.state ∙ rw refused refl,
        traced,
        got,
        read,
        ap (λ x. x.ssid) kept ∙ name,
        ap (λ x. x.pass) kept ∙ word,
      )
