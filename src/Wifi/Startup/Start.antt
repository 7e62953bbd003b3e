-- ===== src/Wifi/Startup/Start.antt =====
-- src/wifi_manager.c: what `wifi_manager_start` leads to.
use esp32_hydroponics_govern.Prelude.{
  ◌≡◌, ◌≢◌, refl, ◌∙◌, sym, ap, Bool, Option, Bool-cases, inl, inr, Text, true, false, List, [],
  none, some, ◌==◌, take, arith,
}
use esp32_hydroponics_govern.Platform.{
  ok, fail, is_ok, returned, delay, restart, create_netif_ap, wifi_start, wifi_set_mode, mode_sta,
  wifi_scan_start,
}
use esp32_hydroponics_govern.Device.{ap_only, connecting, ApRecord, Device, emit}
use esp32_hydroponics_govern.Sensor.{sensor_set_ap_mode}
use esp32_hydroponics_govern.Wifi.Credentials.{NvsApi, Credentials, nvs_read, nvs_clear}
use esp32_hydroponics_govern.Wifi.Credentials.RoundTrip.{NvsLaws, nvs_read-nvs_clear}
use esp32_hydroponics_govern.Wifi.Scan.{
  ScanAnswer, with_scan, no_networks, update_scan_cache, scan_listing,
}
use esp32_hydroponics_govern.Wifi.Startup.{
  ApAnswer, StartAnswer, create_sta_netif, activate_ap, start_ap, sta_mode, sta_config, sta_power,
  sta_started, start_driver, wait_for_bits, finish_wait, start_sta, finish_start,
  wifi_manager_start, is_connected_bit,
}
use esp32_hydroponics_govern.Wifi.Startup.Bits.{first_set, wait-set, sta_started-set}

-- Every call of the driver on the direct path succeeds.
pub record IsUp (a : StartAnswer) : Type 0 where
  pub mode_up : a.mode_ret ≡ ok
  pub config_up : a.config_ret ≡ ok
  pub power_save_up : a.power_save_ret ≡ ok
  pub start_up : a.start_ret ≡ ok

-- Every call of the driver on the way to the portal succeeds.
pub record IsApUp (a : ApAnswer) : Type 0 where
  pub mode_sta_up : a.mode_sta_ret ≡ ok
  pub start_up : a.start_ret ≡ ok
  pub mode_apsta_up : a.mode_apsta_ret ≡ ok
  pub config_up : a.config_ret ≡ ok

not_connected : (o : Option Bool) → o ≢ some true → is_connected_bit o ≡ false
not_connected none h = refl
not_connected (some true) h = absurd (h refl)
not_connected (some false) h = refl

module _ {S : Type 0} where
  update_scan_cache-some :
      (a : ScanAnswer) (d : Device S) (json : Text)
      → scan_listing a.records ≡ some json
      → (j : Text) × (rs : List ApRecord) × (update_scan_cache a d ≡ some (with_scan j rs d))
  unfolding update_scan_cache
  update_scan_cache-some a d json printed = elim (Bool-cases (a.ap_num == 0)) [
    | inl nothing ↦ (no_networks, [], ground arith)
    | inr found ↦ elim (Bool-cases a.allocated) [
      | inr starved ↦ (no_networks, d.wifi.scan_records, ground arith)
      | inl there ↦ elim (Bool-cases (is_ok a.ret)) [
        | inr failed ↦ (no_networks, [], ground arith)
        | inl got ↦ (json, take 20 a.records, ground arith)
      ]
    ]
  ]

  -- What `activate_ap` leaves, where its calls succeed.
  activate_ap-returned :
      (a : ApAnswer) (d : Device S)
      → IsApUp a
      → (d1 : Device S) × (activate_ap a d ≡ returned tt d1)
        × (d1.wifi.state ≡ ap_only)
        × (d1.wifi.ap_active ≡ true)
        × (d1.sensors.ap_mode ≡ true)
        × (d1.nvs ≡ d.nvs)
  unfolding activate_ap sensor_set_ap_mode
  activate_ap-returned a d up =
      rw (up.mode_apsta_up, up.config_up, activate_ap) (_, refl, refl, refl, refl, refl)

  create_sta_netif-nvs : (d : Device S) → (create_sta_netif d).nvs ≡ d.nvs
  unfolding create_sta_netif
  create_sta_netif-nvs d = ground arith

module _ {S : Type 0} (api : NvsApi S) where
  sta_started-waits :
      (a : StartAnswer) (c : Credentials) (d : Device S)
      → let d1 = sta_started a c d in
        (d1.wifi.state ≡ connecting) × (d1.wifi.retry_count ≡ 0) × (d1.nvs ≡ d.nvs)
  unfolding sta_started sta_power sta_config sta_mode create_sta_netif
  sta_started-waits a c d = ground arith

  start_sta-wait :
      (a : StartAnswer) (c : Credentials) (d : Device S)
      → IsUp a
      → start_sta api a c d ≡ finish_wait api (wait_for_bits api none a.events (sta_started a c d))
  unfolding start_sta start_driver
  start_sta-wait a c d up = rw (up.mode_up, up.config_up, up.power_save_up, up.start_up) refl

  -- With credentials in the store and a driver that works, the start waits in the state CONNECTING,
  -- with a fresh retry counter and the store as it was. If the first bit of the event group that the
  -- handler sets in the wait is BIT_STA_CONNECTED, it returns ESP_OK with what the events have left; if it is
  -- BIT_STA_FAILED or if none is set before the timeout, it restarts with no credentials in the store, if that
  -- still opens for writing, so that the next start opens the portal. The wait is over where no event of it
  -- has halted the firmware, and no bit has been set before the start.
  pub start_with_credentials :
      (laws : NvsLaws api) (a : StartAnswer) (c : Credentials) (d : Device S)
      → nvs_read api d.nvs ≡ some c
      → IsUp a
      → first_set d.trace ≡ none
      → (d1 : Device S) × (d1.wifi.state ≡ connecting)
        × (d1.wifi.retry_count ≡ 0)
        × (d1.nvs ≡ d.nvs)
        × ((joined : Bool) (d2 : Device S)
            → wait_for_bits api none a.events d1 ≡ some (returned joined d2)
            → (first_set d2.trace ≡ some true → wifi_manager_start api a d ≡ some (returned ok d2))
              × (first_set d2.trace ≢ some true
                  → api.open_rw d2.nvs ≡ ok
                  → (d3 : Device S) × (wifi_manager_start api a d
                      ≡ some (returned fail (emit restart d3)))
                    × (nvs_read api d3.nvs ≡ none)))
  unfolding wifi_manager_start finish_start finish_wait
  start_with_credentials laws a c d stored up unset =
      let (st, fresh, store) = sta_started-waits a c d in
      let made = start_sta-wait a c d up in
      let start = sta_started-set a c d unset in
      (
        sta_started a c d,
        st,
        fresh,
        store,
        λ joined d2 waited.
            let bit = wait-set api none a.events (sta_started a c d) d2 joined (sym start) waited in
            (
              (λ set.
                  let here : joined ≡ true = bit ∙ ap is_connected_bit set in
                  rw (stored, wifi_manager_start)
                    (rw (made, waited) (rw (here, finish_start) refl))),
              (λ unjoined opens.
                  let lost : joined ≡ false = bit ∙ not_connected (first_set d2.trace) unjoined in
                  (
                    emit (delay 500) (record d2 { nvs = nvs_clear api d2.nvs }),
                    rw (stored, wifi_manager_start)
                        (rw (made, waited) (rw (lost, finish_start) refl)),
                    nvs_read-nvs_clear api laws d2.nvs opens,
                  )),
            ),
      )

  -- With no credentials in the store and a driver that works, whatever the scan finds, as long as it
  -- can be printed, the start opens the portal: it returns ESP_OK in the state AP_ONLY with the
  -- access point active and the sensors told so, and the store as it was.
  pub start_without_credentials :
      (a : StartAnswer) (d : Device S) (json : Text)
      → nvs_read api d.nvs ≡ none
      → IsApUp a.ap
      → scan_listing a.ap.scan.records ≡ some json
      → (d1 : Device S) × (wifi_manager_start api a d ≡ some (returned ok d1))
        × (d1.wifi.state ≡ ap_only)
        × (d1.wifi.ap_active ≡ true)
        × (d1.sensors.ap_mode ≡ true)
        × (d1.nvs ≡ d.nvs)
  unfolding wifi_manager_start start_ap
  start_without_credentials a d json missing up printed =
      let d2 =
        emit wifi_start
          (emit (wifi_set_mode mode_sta) (create_sta_netif (emit create_netif_ap d))) in
      let (j, rs, scanned) =
        update_scan_cache-some a.ap.scan (emit (wifi_scan_start true) d2) json printed in
      let (d1, made, st, active, mode, kept) =
        activate_ap-returned a.ap (with_scan j rs (emit (wifi_scan_start true) d2)) up in
      let opened : start_ap a.ap d ≡ some (returned tt d1) =
        rw (up.mode_sta_up, up.start_up, scanned, made, start_ap) refl in
      (
        d1,
        rw (missing, wifi_manager_start) (rw opened refl),
        st,
        active,
        mode,
        kept ∙ create_sta_netif-nvs (emit create_netif_ap d),
      )
