-- ===== src/System/Provision.antt =====
-- From the form of the portal to the next start: src/web_server.c, src/wifi_manager.c.
use esp32_hydroponics_govern.Prelude.{
  ℕ, ◌<◌, ◌≡◌, ◌⊎◌, refl, ◌∙◌, ap, Text, codes, cstr, true, false, [], ◌∷◌, length, take_all, inl,
  inr, arith, if◌then◌else◌,
}
use esp32_hydroponics_govern.Platform.{ok, is_ok, returned}
use esp32_hydroponics_govern.Device.{ap_only, connecting, failed, Device, boot}
use esp32_hydroponics_govern.Wifi.Credentials.{zero_bssid, NvsApi, Credentials, is_empty, nvs_write}
use esp32_hydroponics_govern.Wifi.Credentials.RoundTrip.{NvsLaws, IsStaged}
use esp32_hydroponics_govern.Wifi.Connect.{Answer}
use esp32_hydroponics_govern.Wifi.Connect.Attempt.{wifi_manager_connect-guard}
use esp32_hydroponics_govern.Wifi.Events.{EventAnswer, Ip, on_got_ip}
use esp32_hydroponics_govern.Wifi.Events.Branches.{pending, saved_credentials}
use esp32_hydroponics_govern.Wifi.Startup.{StartAnswer, start_sta, wifi_manager_start}
use esp32_hydroponics_govern.Wifi.Invariant.{WifiFits, connect-WifiFits}
use esp32_hydroponics_govern.Web.Form.Decode.{is_unreserved, AreBytes}
use esp32_hydroponics_govern.Web.Form.Field.{portal_body}
use esp32_hydroponics_govern.Web.Save.{Request, recv_size, is_one, is_busy, save_handler}
use esp32_hydroponics_govern.Web.Save.Outcome.{posted, save_handler_lem}
use esp32_hydroponics_govern.Web.Save.Posted.{posted-portal_body}

-- What a person may type into the portal's form.
pub record IsForm (ssid pass : Text) (flag : ℕ) : Type 0 where
  pub ssid_bytes : AreBytes ssid
  pub pass_bytes : AreBytes pass
  pub ssid_string : cstr ssid ≡ ssid
  pub pass_string : cstr pass ≡ pass
  pub named : is_empty ssid ≡ false
  pub ssid_fits : length ssid < 64
  pub pass_fits : length pass < 64
  pub flag_plain : is_unreserved flag ≡ true

module _ {S : Type 0} (api : NvsApi S) where
  -- A form that is posted to the portal starts an attempt with what was typed in it.
  portal_attempt :
      (a : Answer) (req : Request) (ssid pass : Text) (flag : ℕ) (d : Device S)
      → d.wifi.state ≡ ap_only
      → IsForm ssid pass flag
      → req.recv (recv_size req) ≡ portal_body ssid pass (flag ∷ [])
      → a.set_config ≡ ok
      → WifiFits d.wifi
      → (d1 : Device S) × (save_handler a req d ≡ returned ok d1)
        × (d1.wifi.state ≡ (if is_ok a.connect then connecting else failed))
        × IsStaged (pending d1.wifi)
        × (d1.wifi.pending_ssid ≡ ssid)
        × (d1.wifi.pending_pass ≡ pass)
        × (d1.nvs ≡ d.nvs)
  unfolding is_busy portal_body
  portal_attempt a req ssid pass flag d st form whole config fits =
      let (s, p, o) =
        posted-portal_body req ssid pass flag form.ssid_bytes form.pass_bytes form.ssid_string
          form.pass_string form.ssid_fits form.pass_fits form.flag_plain whole in
      let is_open = is_one (posted req (codes "o") 4) in
      let (d0, made, attempt) =
        (wifi_manager_connect-guard a (posted req (codes "s") 64) (posted req (codes "p") 64)
            is_open d config).0
          (inl st) in
      let name : d0.wifi.pending_ssid ≡ ssid =
        attempt.pending_ssid ∙ rw s (take_all 63 ssid (omega (arith, form.ssid_fits))) in
      let word : d0.wifi.pending_pass ≡ pass =
        attempt.pending_pass ∙ rw p (take_all 63 pass (omega (arith, form.pass_fits))) in
      let fits0 =
        connect-WifiFits a (posted req (codes "s") 64) (posted req (codes "p") 64) is_open d d0 ok
          fits made in
      let accepted : ((is_busy d.wifi.state ≡ true)
            ⊎ ((is_empty (req.recv (recv_size req)) ≡ true)
                ⊎ (is_empty (posted req (codes "s") 64) ≡ true)))
          → ⊥ =
        λ why. elim why [
          | inl busy ↦ ground (arith, busy, st)
          | inr (inl hollow) ↦ ground (arith, rw whole at hollow)
          | inr (inr unnamed) ↦ ground (arith, rw s at unnamed, form.named)
        ] in
      elim (save_handler_lem a req d) [
        | inl (why, d', ret, gone, wifi, nvs) ↦ absurd (accepted why)
        | inr (free, named, goes) ↦
            let (d1, saved, wifi, nvs) = goes d0 ok made in
            (
              d1,
              saved,
              ap (λ w. w.state) wifi ∙ attempt.state,
              rw wifi (record {
                named = rw name form.named;
                ssid_fits = rw name form.ssid_fits;
                pass_fits = rw word form.pass_fits;
                bssid_whole = fits0.pending_bssid;
              }),
              ap (λ w. w.pending_ssid) wifi ∙ name,
              ap (λ w. w.pending_pass) wifi ∙ word,
              nvs ∙ attempt.store,
            )
      ]

  -- Credentials typed into the portal's form lead the next start straight to the network. The device
  -- is in AP_ONLY with its buffers within their arrays, the form arrives whole, and the driver takes
  -- the configuration: then the request is answered and the attempt is CONNECTING, or FAILED if
  -- `esp_wifi_connect` refuses. If an address comes after that, and mDNS starts, and the store keeps
  -- the NVS laws, opens for writing, and for reading once credentials are saved in it, the store holds the name and the password as they were typed,
  -- and a start with this store takes the direct path with them, not the portal.
  pub provisioned :
      (laws : NvsLaws api) (a : Answer) (req : Request) (e : EventAnswer) (ip gw : Ip)
      (ssid pass : Text) (flag : ℕ) (d : Device S)
      → d.wifi.state ≡ ap_only
      → WifiFits d.wifi
      → IsForm ssid pass flag
      → req.recv (recv_size req) ≡ portal_body ssid pass (flag ∷ [])
      → a.set_config ≡ ok
      → e.mdns ≡ ok
      → api.open_rw d.nvs ≡ ok
      → ((saved : Credentials) → api.open_ro (nvs_write api saved d.nvs).0 ≡ ok)
      → (d1 d2 : Device S) × (c : Credentials) × (save_handler a req d ≡ returned ok d1)
        × (d1.wifi.state ≡ (if is_ok a.connect then connecting else failed))
        × (on_got_ip api e ip gw d1 ≡ returned tt d2)
        × (c.ssid ≡ ssid)
        × (c.pass ≡ pass)
        × ((b : StartAnswer)
            → wifi_manager_start api b (boot d2.nvs) ≡ start_sta api b c (boot d2.nvs))
  unfolding wifi_manager_start boot
  provisioned laws a req e ip gw ssid pass flag d st fits form whole config mdns rw_ok ro_ok =
      let (d1, saved, state, staged, name, word, store) =
        portal_attempt a req ssid pass flag d st form whole config fits in
      let (d2, got, read) =
        saved_credentials api laws e ip gw d1 mdns staged (rw store rw_ok) (rw store (ro_ok _)) in
      let c : Credentials = record (pending d1.wifi) {
        bssid = if d1.wifi.pending_bssid_set then d1.wifi.pending_bssid else zero_bssid;
      } in
      (d1, d2, c, saved, state, got, name, word, λ b. rw (read, wifi_manager_start) refl)
