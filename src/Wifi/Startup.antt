-- ===== src/Wifi/Startup.antt =====
-- src/wifi_manager.c: bringing the driver up, the provisioning access point, and the decision
-- between the two at start.
pub mod Channel
pub mod Start
pub mod Bits
use esp32_hydroponics_govern.Prelude.{
  ℕ, Text, copy_str, ℤ, negsuc, ltb_ℤ, Bool, true, false, List, [], ◌∷◌, Option, none, some,
  if◌then◌else◌, ltb, not, ◌&&◌,
}
use esp32_hydroponics_govern.Config.{ap_ssid}
use esp32_hydroponics_govern.Platform.{
  EspErr, ok, fail, nvs_no_free_pages, nvs_new_version_found, ApConfig, if_sta, if_ap, mode_null,
  mode_sta, mode_apsta, Run, returned, aborted, check, delay, create_objects, restart,
  nvs_flash_init, nvs_flash_erase, netif_init, event_loop_create, wifi_init, register_handlers,
  set_country, create_netif_ap, create_netif_sta, wifi_start, wifi_stop, wifi_set_mode,
  wifi_set_sta, wifi_set_ap, wifi_set_ht20, wifi_set_ps_none, wifi_set_max_tx_power,
  wifi_scan_start,
}
use esp32_hydroponics_govern.Device.{ap_only, connecting, ApRecord, Wifi, Device, emit}
use esp32_hydroponics_govern.Sensor.{sensor_set_ap_mode}
use esp32_hydroponics_govern.Wifi.Credentials.{NvsApi, Credentials, nvs_read, nvs_clear, auth_open}
use esp32_hydroponics_govern.Wifi.Scan.{ScanAnswer, update_scan_cache}
use esp32_hydroponics_govern.Wifi.Connect.{set_state, stored_config}
use esp32_hydroponics_govern.Wifi.Events.{
  EventAnswer, WifiEvent, sta_start, sta_connected, scan_done, other_event, sta_disconnected,
  got_ip, is_connecting, wifi_event_handler,
}

-- The loop that chooses the channel of the strongest access point.
unfoldable pub best_channel_from : ℕ → ℤ → List ApRecord → ℕ
best_channel_from chan rssi [] = chan
best_channel_from chan rssi (r ∷ rs) =
    let stronger = ltb_ℤ rssi r.rssi in
    best_channel_from (if stronger then r.primary else chan) (if stronger then r.rssi else rssi) rs

-- It starts from channel 6 and -128.
unfoldable pub best_channel : List ApRecord → ℕ
unfolding best_channel_from
best_channel records = best_channel_from 6 (negsuc 127) records

unfoldable pub portal_config : ℕ → ApConfig
portal_config channel = record {
  ssid = ap_ssid;
  channel = channel;
  authmode = auth_open;
  max_connection = 4;
}

-- What the driver answers to `start_ap`.
pub record ApAnswer : Type 0 where
  pub mode_sta_ret : EspErr
  pub start_ret : EspErr
  pub scan : ScanAnswer
  pub mode_apsta_ret : EspErr
  pub config_ret : EspErr

-- What the libraries answer to `wifi_manager_init`, in the order of the calls.
pub record InitAnswer : Type 0 where
  pub flash : EspErr
  pub flash_again : EspErr
  pub netif : EspErr
  pub event_loop : EspErr
  pub driver : EspErr
  pub storage : EspErr
  pub mode : EspErr
  pub start : EspErr
  pub power_save : EspErr
  pub stop : EspErr
  pub power_save_again : EspErr
  pub stop_again : EspErr
  pub wifi_handler : EspErr
  pub ip_handler : EspErr

abbrev pub wants_erase : EspErr → Bool
wants_erase nvs_no_free_pages = true
wants_erase nvs_new_version_found = true
wants_erase _ = false

module _ {S : Type 0} where
  unfoldable pub create_sta_netif : Device S → Device S
  create_sta_netif d =
      if d.wifi.sta_netif_done
      then d
      else emit create_netif_sta (record d { wifi = record (d.wifi) { sta_netif_done = true } })

  -- After the scan: switch to AP and STA, on the chosen channel.
  unfoldable pub activate_ap : ApAnswer → Device S → Run (Device S) (Unit {0})
  unfolding best_channel portal_config sensor_set_ap_mode
  activate_ap a d =
      let chan = best_channel d.wifi.scan_records in
      let d1 = emit (wifi_set_mode mode_apsta) d in
      let d2 = emit (wifi_set_ap (portal_config chan)) d1 in
      let d3 = emit (wifi_set_ht20 if_ap) d2 in
      let d4 = record d3 { wifi = record (d3.wifi) { ap_active = true; state = ap_only } } in
      check a.mode_apsta_ret d1 (check a.config_ret d2 (returned tt (sensor_set_ap_mode true d4)))

  -- `none` is a write out of bounds while the scan list is printed.
  unfoldable pub start_ap : ApAnswer → Device S → Option (Run (Device S) (Unit {0}))
  unfolding create_sta_netif activate_ap
  start_ap a d =
      let d1 = emit (wifi_set_mode mode_sta) (create_sta_netif (emit create_netif_ap d)) in
      let d2 = emit wifi_start d1 in
      elim a.mode_sta_ret [
        | ok ↦ elim a.start_ret [
          | ok ↦ elim (update_scan_cache a.scan (emit (wifi_scan_start true) d2)) [
            | none ↦ none
            | some d3 ↦ some (activate_ap a d3)
          ]
          | _ ↦ some (aborted d2)
        ]
        | _ ↦ some (aborted d1)
      ]

module _ {S : Type 0} (api : NvsApi S) where
  unfoldable pub erase_flash : Device S → Device S
  erase_flash d = emit nvs_flash_erase (record d { nvs = api.flash_erase d.nvs })

  unfoldable pub wifi_manager_init : InitAnswer → Device S → Run (Device S) EspErr
  unfolding erase_flash
  wifi_manager_init a d =
      let d0 = emit nvs_flash_init d in
      let erase = wants_erase a.flash in
      let d1 = (if erase then emit nvs_flash_init (erase_flash d0) else d0) in
      let d2 = emit netif_init d1 in
      let d3 = emit event_loop_create d2 in
      let d4 = emit wifi_init (emit create_objects d3) in
      let d5 = emit (wifi_set_mode mode_null) d4 in
      let d6 = emit wifi_start d5 in
      let d7 = emit wifi_set_ps_none d6 in
      let d8 = emit wifi_stop d7 in
      let d9 = emit wifi_set_ps_none (emit set_country d8) in
      let d10 = emit wifi_stop d9 in
      let d11 = emit register_handlers d10 in
      check (if erase then a.flash_again else a.flash) d1 (
        check a.netif d2 (
          check a.event_loop d3 (
            check a.driver d4 (
              check a.storage d4 (
                check a.mode d5 (
                  check a.start d6 (
                    check a.power_save d7 (
                      check a.stop d8 (
                        check a.power_save_again d9 (
                          check a.stop_again d10 (
                            check a.wifi_handler d11
                              (check a.ip_handler d11 (returned ok d11)))))))))))))

-- What the driver and the clock answer to `wifi_manager_start`. `events` are those that the event task
-- handles from `esp_wifi_start` on until `xEventGroupWaitBits` has returned.
pub record StartAnswer : Type 0 where
  pub ap : ApAnswer
  pub mode_ret : EspErr
  pub config_ret : EspErr
  pub power_save_ret : EspErr
  pub start_ret : EspErr
  pub now_us : ℕ
  pub events : List (EventAnswer × WifiEvent)

module _ {S : Type 0} where
  -- The direct STA path, call by call: the mode,
  unfoldable pub sta_mode : Credentials → Device S → Device S
  unfolding create_sta_netif
  sta_mode c d = emit (wifi_set_mode mode_sta) (
      create_sta_netif
        (record d { wifi = record (d.wifi) { target_ssid = copy_str 33 c.ssid; retry_count = 0 } }))

  -- the configuration,
  unfoldable pub sta_config : Credentials → Device S → Device S
  unfolding sta_mode stored_config
  sta_config c d = emit (wifi_set_sta (stored_config c)) (sta_mode c d)

  -- the state and the power saving,
  unfoldable pub sta_power : StartAnswer → Credentials → Device S → Device S
  unfolding sta_config
  sta_power a c d =
      let d3 = sta_config c d in
      let d4 = record d3 {
        wifi = record (d3.wifi) { state = connecting; conn_start_us = a.now_us };
      } in
      emit wifi_set_ps_none d4

  -- and the start of the driver.
  unfoldable pub sta_started : StartAnswer → Credentials → Device S → Device S
  unfolding sta_power
  sta_started a c d =
      emit wifi_start
        (emit (wifi_set_max_tx_power 80) (emit (wifi_set_ht20 if_sta) (sta_power a c d)))

  -- The calls of the direct path, up to the wait.
  unfoldable pub start_driver : StartAnswer → Credentials → Device S → Run (Device S) (Unit {0})
  unfolding sta_started
  start_driver a c d =
      let d' = sta_started a c d in
      check a.mode_ret (sta_mode c d) (
        check a.config_ret (sta_config c d)
          (check a.power_save_ret (sta_power a c d) (check a.start_ret d' (returned tt d'))))

-- The bit that the handler sets for an event: true for BIT_STA_CONNECTED.
unfoldable pub bit_set : Wifi → WifiEvent → Option Bool
bit_set w (got_ip _ _) = some true
bit_set w (sta_disconnected _) =
    if is_connecting w.state && not (ltb w.retry_count 1) then some false else none
bit_set w _ = none

-- The wait ends with the first bit that is set.
unfoldable pub first_bit : Option Bool → Option Bool → Option Bool
first_bit (some b) _ = some b
first_bit none o = o

abbrev pub is_connected_bit : Option Bool → Bool
is_connected_bit (some b) = b
is_connected_bit none = false

module _ {S : Type 0} (api : NvsApi S) where
  -- After the wait.
  unfoldable pub finish_start : Device S → Bool → Run (Device S) EspErr
  finish_start d true = returned ok d
  finish_start d false =
      returned fail (emit restart (emit (delay 500) (record d { nvs = nvs_clear api d.nvs })))

  -- `xEventGroupWaitBits`: the events in their order, with whether the bit that ends the wait is
  -- BIT_STA_CONNECTED; the list is over before any bit is set where the wait times out.
  unfoldable pub wait_for_bits :
      Option Bool → List (EventAnswer × WifiEvent) → Device S → Option (Run (Device S) Bool)
  unfolding wifi_event_handler bit_set first_bit
  wait_for_bits bit [] d = some (returned (is_connected_bit bit) d)
  wait_for_bits bit ((a, e) ∷ es) d = elim (wifi_event_handler api a e d) [
    | none ↦ none
    | some r ↦ elim r [
      | aborted d' ↦ some (aborted d')
      | returned _ d' ↦ wait_for_bits (first_bit bit (bit_set d.wifi e)) es d'
    ]
  ]

  -- The wait and what follows it.
  unfoldable pub finish_wait : Option (Run (Device S) Bool) → Option (Run (Device S) EspErr)
  unfolding finish_start
  finish_wait none = none
  finish_wait (some (aborted d)) = some (aborted d)
  finish_wait (some (returned joined d)) = some (finish_start d joined)

  unfoldable pub start_sta : StartAnswer → Credentials → Device S → Option (Run (Device S) EspErr)
  unfolding start_driver wait_for_bits finish_wait
  start_sta a c d = elim (start_driver a c d) [
    | aborted d' ↦ some (aborted d')
    | returned _ d' ↦ finish_wait (wait_for_bits none a.events d')
  ]

  unfoldable pub wifi_manager_start : StartAnswer → Device S → Option (Run (Device S) EspErr)
  unfolding start_sta start_ap
  wifi_manager_start a d = elim (nvs_read api d.nvs) [
    | none ↦ elim (start_ap a.ap d) [
      | none ↦ none
      | some r ↦ elim r [ returned _ d' ↦ some (returned ok d') | aborted d' ↦ some (aborted d') ]
    ]
    | some c ↦ start_sta a c d
  ]
