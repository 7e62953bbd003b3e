-- ===== src/System/Boot.antt =====
-- `app_main` from power-on to its loop, and the invariant that it establishes.
use esp32_hydroponics_govern.Prelude.{
  ◌≡◌, refl, sym, ◌∙◌, subst, Bool, true, false, ◌&&◌, codes, List, [], ◌∷◌, Option, none, some,
  length, Bool-cases, Option-cases, inl, inr, arith,
}
use esp32_hydroponics_govern.Platform.{Run, returned, aborted, EspErr, ok, is_ok, check}
use esp32_hydroponics_govern.Platform.Checks.{Run-cases}
use esp32_hydroponics_govern.Device.{stop_dns, Device, boot}
use esp32_hydroponics_govern.Sensor.{new_meta, sensor_manager_init, sensor_register}
use esp32_hydroponics_govern.Sensor.Registry.{NamesFit, IsRegistry}
use esp32_hydroponics_govern.Wifi.Credentials.{NvsApi, Credentials, nvs_read}
use esp32_hydroponics_govern.Wifi.Events.{EventAnswer, WifiEvent}
use esp32_hydroponics_govern.System.Events.{event-IsSound}
use esp32_hydroponics_govern.Wifi.Connect.{wifi_manager_set_ap_shutdown_cb}
use esp32_hydroponics_govern.Wifi.Startup.{
  StartAnswer, wifi_manager_init, start_driver, bit_set, first_bit, is_connected_bit, wait_for_bits,
  finish_wait, start_sta, finish_start, wifi_manager_start,
}
use esp32_hydroponics_govern.Wifi.Invariant.{ScanFits, WifiFits}
use esp32_hydroponics_govern.Main.{MainAnswer, start_services, start_sensors, app_main_start}
use esp32_hydroponics_govern.System.Sound.{idle_telnet, IsSound, SoundRun}
use esp32_hydroponics_govern.Platform.Checks.{Returns, Returns-check}
use esp32_hydroponics_govern.System.Start.{
  SameVariables, init-SameVariables, start_ap-SoundRun, sta_started-IsSound,
}
use esp32_hydroponics_govern.System.Services.{Started, start_services-Started}

-- Every scan that an event reads delivers what was asked of it.
abbrev pub EventsFit : List (EventAnswer × WifiEvent) → Type 0
EventsFit [] = Unit
EventsFit ((a, e) ∷ es) = ScanFits a.scan × EventsFit es

-- The callback completes the invariant on the state that the initialisation leaves.
module _ {S : Type 0} where
  registered :
      (queue_created : Bool) (store : S)
      → (length (start_sensors queue_created (boot store)).sensors.metas ≡ 2)
        × NamesFit (start_sensors queue_created (boot store)).sensors.metas
  unfolding start_sensors boot sensor_register sensor_manager_init new_meta codes
  registered queue_created store = (refl, (omega arith, (omega arith, tt)))

  booted-WifiFits :
      (queue_created : Bool) (store : S) → WifiFits (start_sensors queue_created (boot store)).wifi
  unfolding start_sensors boot sensor_register sensor_manager_init
  booted-WifiFits queue_created store = ground arith

  booted :
      (queue_created : Bool) (store : S) (d : Device S)
      → SameVariables d (start_sensors queue_created (boot store))
      → IsSound true idle_telnet (wifi_manager_set_ap_shutdown_cb stop_dns d)
  unfolding wifi_manager_set_ap_shutdown_cb
  booted queue_created store d same =
      let (two, names) = registered queue_created store in
      let w = subst WifiFits (sym same.1) (booted-WifiFits queue_created store) in
      let stopped : (start_sensors queue_created (boot store)).dns_running ≡ false =
        unfold start_sensors boot sensor_register sensor_manager_init in refl in
      record {
        registry =
            subst IsRegistry (sym same.0)
              (record { in_table = omega (arith, two); names_fit = names });
        fits = ground (arith, w);
        coupled = rw (same.2 ∙ stopped) refl;
        callback = refl;
        bound = ground arith;
        telnet = same.3 ∙ unfold start_sensors boot sensor_register sensor_manager_init in refl;
      }

module _ {S : Type 0} (api : NvsApi S) where
  finish-SoundRun :
      (d : Device S) (b : Bool)
      → IsSound true idle_telnet d
      → SoundRun true idle_telnet (finish_start api d b)
  unfolding finish_start
  finish-SoundRun d true v = v
  finish-SoundRun d false v = ground arith

  wait-SoundRun :
      (bit : Option Bool) (es : List (EventAnswer × WifiEvent)) (d : Device S)
      → EventsFit es
      → IsSound true idle_telnet d
      → (r : Run (Device S) Bool) × (wait_for_bits api bit es d ≡ some r)
        × SoundRun true idle_telnet r
  unfolding wait_for_bits
  wait-SoundRun bit [] d fits v = (returned (is_connected_bit bit) d, refl, v)
  wait-SoundRun bit ((a, e) ∷ es) d fits v =
      let (r, handled, v') = event-IsSound api a e d fits.0 v in
      elim (Run-cases r) [
        | inr (d', h) ↦ (aborted d', rw (handled, wait_for_bits) (rw (h, wait_for_bits) refl), tt)
        | inl (u, d', h) ↦
            let (r', waited, v'') =
              wait-SoundRun (first_bit bit (bit_set d.wifi e)) es d' fits.1
                (subst (SoundRun true idle_telnet) h v') in
            (r', rw (handled, wait_for_bits) (rw (h, wait_for_bits) waited), v'')
      ]

  start_driver-SoundRun :
      (a : StartAnswer) (c : Credentials) (d : Device S)
      → IsSound true idle_telnet d
      → SoundRun true idle_telnet (start_driver a c d)
  unfolding start_driver
  start_driver-SoundRun a c d v = Returns-check (IsSound true idle_telnet) a.mode_ret _ _ (
      Returns-check (IsSound true idle_telnet) a.config_ret _ _ (
        Returns-check (IsSound true idle_telnet) a.power_save_ret _ _
          (Returns-check (IsSound true idle_telnet) a.start_ret _ _ (sta_started-IsSound a c d v))))

  start_sta-SoundRun :
      (a : StartAnswer) (c : Credentials) (d : Device S)
      → EventsFit a.events
      → IsSound true idle_telnet d
      → (r : Run (Device S) EspErr) × (start_sta api a c d ≡ some r) × SoundRun true idle_telnet r
  unfolding start_sta finish_wait
  start_sta-SoundRun a c d fits v = elim (Run-cases (start_driver a c d)) [
    | inr (d1, e1) ↦ (aborted d1, rw (e1, start_sta) refl, tt)
    | inl (u, d1, e1) ↦
        let (r, waited, v1) =
          wait-SoundRun none a.events d1 fits
            (subst (SoundRun true idle_telnet) e1 (start_driver-SoundRun a c d v)) in
        elim (Run-cases r) [
          | inr (d2, e2) ↦ (aborted d2, rw (e1, start_sta) (rw (waited, e2) refl), tt)
          | inl (joined, d2, e2) ↦ (
            finish_start api d2 joined,
            rw (e1, start_sta) (rw (waited, e2) refl),
            finish-SoundRun d2 joined (subst (SoundRun true idle_telnet) e2 v1),
          )
        ]
  ]

  start-SoundRun :
      (a : StartAnswer) (d : Device S)
      → ScanFits a.ap.scan
      → EventsFit a.events
      → IsSound true idle_telnet d
      → (r : Run (Device S) EspErr) × (wifi_manager_start api a d ≡ some r)
        × SoundRun true idle_telnet r
  unfolding wifi_manager_start
  start-SoundRun a d s w v = elim (Option-cases (nvs_read api d.nvs)) [
    | inr (c, stored) ↦
        let (r, made, v') = start_sta-SoundRun a c d w v in
        (r, rw (stored, wifi_manager_start) made, v')
    | inl missing ↦
        let (r, made, v') = start_ap-SoundRun a.ap d s v in
        elim (Run-cases r) [
          | inl (u, d', e) ↦ (
            returned ok d',
            rw (missing, wifi_manager_start) (rw (made, e) refl),
            subst (SoundRun true idle_telnet) e v',
          )
          | inr (d', e) ↦ (aborted d', rw (missing, wifi_manager_start) (rw (made, e) refl), tt)
        ]
  ]

  -- From the variables as the C start-up code leaves them and with any store, `app_main` gets to its loop
  -- or halts at an ESP_ERROR_CHECK, with no access out of bounds; at its loop the invariant of the system
  -- holds with no telnet client, the web server is there, the handle of the push task is there exactly
  -- if its task could be created, and
  -- the DNS server runs exactly if the access point is up. The condition: each scan delivers what was
  -- asked of it.
  pub app_main_start-Started :
      (a : MainAnswer) (store : S)
      → ScanFits a.wifi_start.ap.scan
      → EventsFit a.wifi_start.events
      → (r : Run (Device S) (Unit {0})) × (app_main_start api a (boot store) ≡ some r)
        × Returns (Started a) r
  unfolding app_main_start
  app_main_start-Started a store s w =
      let d1 = start_sensors a.queue_created (boot store) in
      elim (Bool-cases (is_ok a.gpio && (is_ok a.isr_service && is_ok a.isr_handler))) [
        | inr broken ↦ (aborted d1, rw (broken, app_main_start) refl, tt)
        | inl fine ↦ rw fine (elim (Run-cases (wifi_manager_init api a.wifi_init d1)) [
          | inr (d2, e) ↦ (aborted d2, rw e refl, tt)
          | inl (u, d2, e) ↦
              let same =
                subst (Returns (λ d'. SameVariables d' d1)) e
                  (init-SameVariables api a.wifi_init d1) in
              let v2 = booted a.queue_created store d2 same in
              let (r, made, v3) =
                start-SoundRun a.wifi_start (wifi_manager_set_ap_shutdown_cb stop_dns d2) s w v2 in
              elim (Run-cases r) [
                | inr (d3, e3) ↦ (aborted d3, rw e (rw (made, e3) refl), tt)
                | inl (ret, d3, e3) ↦ (
                  check ret d3 (start_services a d3),
                  rw e (rw (made, e3) refl),
                  Returns-check (Started a) ret _ _
                      (start_services-Started a d3 (subst (SoundRun true idle_telnet) e3 v3)),
                )
              ]
        ])
      ]
