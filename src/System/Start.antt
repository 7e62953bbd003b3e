-- ===== src/System/Start.antt =====
-- `app_main` from power-on to its loop establishes the invariant of the system.
use esp32_hydroponics_govern.Prelude.{
  ◌≡◌, ◌⊎◌, refl, ◌∙◌, true, Option, none, some, length-take, inl, inr, arith, if◌then◌else◌,
  copy_str,
}
use esp32_hydroponics_govern.Platform.{
  Run, aborted, EspErr, ok, fail, no_mem, invalid_state, not_found, timeout, invalid_crc,
  nvs_no_free_pages, nvs_new_version_found, other, wifi_scan_start, wifi_start, wifi_set_mode,
  mode_sta, create_netif_ap,
}
use esp32_hydroponics_govern.Device.{Device, emit}
use esp32_hydroponics_govern.Sensor.{sensor_set_ap_mode}
use esp32_hydroponics_govern.Wifi.Credentials.{NvsApi, Credentials}
use esp32_hydroponics_govern.Wifi.Scan.{ScanAnswer, with_scan, update_scan_cache}
use esp32_hydroponics_govern.Wifi.Startup.{
  ApAnswer, wants_erase, InitAnswer, StartAnswer, create_sta_netif, activate_ap, start_ap,
  wifi_manager_init, sta_mode, sta_config, sta_power, sta_started,
}
use esp32_hydroponics_govern.Wifi.Invariant.{ScanFits, update_scan_cache-WifiFits}
use esp32_hydroponics_govern.Platform.Checks.{Returns, Returns-check}
use esp32_hydroponics_govern.System.Sound.{idle_telnet, IsSound, SoundRun}

-- What the initialisation of the driver leaves alone.
abbrev pub SameVariables : {S : Type 0} → Device S → Device S → Type 0
SameVariables d' d =
    (d'.sensors ≡ d.sensors)
    × (d'.wifi ≡ d.wifi)
    × (d'.dns_running ≡ d.dns_running)
    × (d'.telnet ≡ d.telnet)

-- A match that singles `ESP_OK` out.
pub ok-cases :
    {A : Type 0} (e : EspErr) (x y : A)
    → (elim e [ ok ↦ x | _ ↦ y ] ≡ x) ⊎ (elim e [ ok ↦ x | _ ↦ y ] ≡ y)
ok-cases ok x y = inl refl
ok-cases fail x y = inr refl
ok-cases no_mem x y = inr refl
ok-cases invalid_state x y = inr refl
ok-cases not_found x y = inr refl
ok-cases timeout x y = inr refl
ok-cases invalid_crc x y = inr refl
ok-cases nvs_no_free_pages x y = inr refl
ok-cases nvs_new_version_found x y = inr refl
ok-cases (other n) x y = inr refl

module _ {S : Type 0} where
  pub init-SameVariables :
      (api : NvsApi S) (a : InitAnswer) (d : Device S)
      → Returns (λ d'. SameVariables d' d) (wifi_manager_init api a d)
  unfolding wifi_manager_init
  init-SameVariables api a d =
      let P : Device S → Type 0 = λ d'. SameVariables d' d in
      let erase = wants_erase a.flash in
      Returns-check P (if erase then a.flash_again else a.flash) _ _ (
        Returns-check P a.netif _ _ (
          Returns-check P a.event_loop _ _ (
            Returns-check P a.driver _ _ (
              Returns-check P a.storage _ _ (
                Returns-check P a.mode _ _ (
                  Returns-check P a.start _ _ (
                    Returns-check P a.power_save _ _ (
                      Returns-check P a.stop _ _ (
                        Returns-check P a.power_save_again _ _ (
                          Returns-check P a.stop_again _ _ (
                            Returns-check P a.wifi_handler _ _
                              (Returns-check P a.ip_handler _ _ (ground arith)))))))))))))

  netif-IsSound :
      (d : Device S) → IsSound true idle_telnet d → IsSound true idle_telnet (create_sta_netif d)
  unfolding create_sta_netif
  netif-IsSound d v = ground arith

  activate-SoundRun :
      (a : ApAnswer) (d : Device S)
      → IsSound true idle_telnet d
      → SoundRun true idle_telnet (activate_ap a d)
  unfolding activate_ap sensor_set_ap_mode
  activate-SoundRun a d v =
      Returns-check (IsSound true idle_telnet) a.mode_apsta_ret _ _
        (Returns-check (IsSound true idle_telnet) a.config_ret _ _ (ground arith))

  scanned-IsSound :
      (a : ScanAnswer) (d : Device S)
      → ScanFits a
      → IsSound true idle_telnet d
      → (d' : Device S) × (update_scan_cache a d ≡ some d') × IsSound true idle_telnet d'
  scanned-IsSound a d s v =
      let (json, rs, made, w) = update_scan_cache-WifiFits a d s v.fits in
      (
        with_scan json rs d,
        made,
        record {
          registry = v.registry;
          fits = w;
          coupled = v.coupled;
          callback = v.callback;
          bound = v.bound;
          telnet = v.telnet;
        },
      )

  pub start_ap-SoundRun :
      (a : ApAnswer) (d : Device S)
      → ScanFits a.scan
      → IsSound true idle_telnet d
      → (r : Run (Device S) (Unit {0})) × (start_ap a d ≡ some r) × SoundRun true idle_telnet r
  unfolding start_ap
  start_ap-SoundRun a d s v =
      let d1 = emit (wifi_set_mode mode_sta) (create_sta_netif (emit create_netif_ap d)) in
      let v1 : IsSound true idle_telnet d1 = netif-IsSound (emit create_netif_ap d) v in
      let d2 = emit wifi_start d1 in
      let (d3, scanned, w) = scanned-IsSound a.scan (emit (wifi_scan_start true) d2) s v1 in
      let o : Option (Run (Device S) (Unit {0})) =
        elim (update_scan_cache a.scan (emit (wifi_scan_start true) d2)) [
          | none ↦ none
          | some d3' ↦ some (activate_ap a d3')
        ] in
      let made : o ≡ some (activate_ap a d3) = rw scanned refl in
      elim (ok-cases a.mode_sta_ret (elim a.start_ret [ ok ↦ o | _ ↦ some (aborted d2) ])
        (some (aborted d1))) [
          | inr off ↦ (aborted d1, off, tt)
          | inl on ↦ elim (ok-cases a.start_ret o (some (aborted d2))) [
            | inr idle ↦ (aborted d2, on ∙ idle, tt)
            | inl went ↦ (activate_ap a d3, on ∙ (went ∙ made), activate-SoundRun a d3 w)
          ]
        ]

  pub sta_started-IsSound :
      (a : StartAnswer) (c : Credentials) (d : Device S)
      → IsSound true idle_telnet d
      → IsSound true idle_telnet (sta_started a c d)
  unfolding sta_started sta_power sta_config sta_mode
  sta_started-IsSound a c d v =
      let d1 : Device S = record d {
        wifi = record (d.wifi) { target_ssid = copy_str 33 c.ssid; retry_count = 0 };
      } in
      let v1 : IsSound true idle_telnet d1 = ground (arith, length-take 32 c.ssid) in
      let v2 = netif-IsSound d1 v1 in ground (arith, v2)
