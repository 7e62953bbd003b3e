-- ===== src/Wifi/Connect/Shutdown.antt =====
-- src/wifi_manager.c: the access point is shut down once.
use esp32_hydroponics_govern.Prelude.{◌≡◌, true, false, ◌∷◌, arith}
use esp32_hydroponics_govern.Platform.{mode_sta, wifi_set_mode}
use esp32_hydroponics_govern.Device.{stop_dns, Device}
use esp32_hydroponics_govern.Wifi.Connect.{
  wifi_manager_ap_shutdown, wifi_manager_set_ap_shutdown_cb,
}

module _ {S : Type 0} where
  -- A second shutdown changes nothing: the callback and the change of mode happen at most once for
  -- each time that the access point comes up.
  pub ap_shutdown_idem :
      (d : Device S)
      → wifi_manager_ap_shutdown (wifi_manager_ap_shutdown d) ≡ wifi_manager_ap_shutdown d
  unfolding wifi_manager_ap_shutdown
  ap_shutdown_idem d = ground arith

  -- With `dns_server_stop` registered, as `app_main` does, shutting down an active access point stops
  -- the DNS server, and then switches the driver to STA mode; nothing else is called.
  pub ap_shutdown_stops_dns :
      (d : Device S)
      → d.wifi.ap_active ≡ true
      → let d' = wifi_manager_ap_shutdown (wifi_manager_set_ap_shutdown_cb stop_dns d) in
        (d'.wifi.ap_active ≡ false)
        × (d'.dns_running ≡ false)
        × (d'.trace ≡ wifi_set_mode mode_sta ∷ d.trace)
        × (d'.wifi.state ≡ d.wifi.state)
  unfolding wifi_manager_ap_shutdown wifi_manager_set_ap_shutdown_cb
  ap_shutdown_stops_dns d up = ground arith
