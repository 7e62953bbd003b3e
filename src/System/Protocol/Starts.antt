-- ===== src/System/Protocol/Starts.antt =====
-- A start of the firmware, from power-on to the loop of `app_main`, is moves of the protocol.
use esp32_hydroponics_govern.Prelude.{
  ◌≡◌, refl, sym, ◌∙◌, ap, subst, Text, true, List, Option, none, some, Bool-cases, Option-cases,
  inl, inr, arith, if◌then◌else◌,
}
use esp32_hydroponics_govern.Platform.{
  EspErr, ok, Run, aborted, check, nvs_flash_init, wifi_scan_start, wifi_start, wifi_set_mode,
  mode_sta, create_netif_ap,
}
use esp32_hydroponics_govern.Platform.Checks.{check-cases}
use esp32_hydroponics_govern.Device.{idle, Device, emit}
use esp32_hydroponics_govern.Sensor.{sensor_set_ap_mode}
use esp32_hydroponics_govern.Wifi.Credentials.{NvsApi}
use esp32_hydroponics_govern.Wifi.Scan.{ScanAnswer, update_scan_cache}
use esp32_hydroponics_govern.Wifi.Startup.{
  ApAnswer, InitAnswer, wants_erase, erase_flash, create_sta_netif, activate_ap, start_ap,
  wifi_manager_init,
}
use esp32_hydroponics_govern.Wifi.Protocol.{Link, link, left}
use esp32_hydroponics_govern.Wifi.Protocol.Handled.{some-inj}
use esp32_hydroponics_govern.System.Start.{ok-cases}
use esp32_hydroponics_govern.System.Protocol.{opening, wiping, Moves, still, later}
use esp32_hydroponics_govern.System.Protocol.Turns.{arrive}

pub none-ne-some : {A : Type 0} {a : A} → ◌≡◌ {A = Option A} none (some a) → ⊥
none-ne-some h = cc h

module _ {S : Type 0} where
  -- What holds of the device that a run leaves, where it holds wherever ESP_ERROR_CHECK may halt it.
  pub left-check :
      {A : Type 0} (P : Device S → Type 0) (e : EspErr) (d : Device S) (rest : Run (Device S) A)
      → P d
      → P (left rest)
      → P (left (check e d rest))
  left-check P e d rest here goes = elim (check-cases e d rest) [
    | inl on ↦ rw on goes
    | inr halts ↦ rw halts here
  ]

  scanned-link :
      (a : ScanAnswer) (d d' : Device S) → update_scan_cache a d ≡ some d' → link d' ≡ link d
  unfolding update_scan_cache
  scanned-link a d d' h = ground arith

  netif-link : (d : Device S) → link (create_sta_netif d) ≡ link d
  unfolding create_sta_netif
  netif-link d = ground arith

module _ {S : Type 0} (api : NvsApi S) (all : List Text) where
  pub init-Moves :
      (a : InitAnswer) (d : Device S)
      → Moves api all (link d) (link (left (wifi_manager_init api a d)))
  unfolding wifi_manager_init erase_flash
  init-Moves a d =
      let P : Device S → Type 0 = λ d'. Moves api all (link d) (link d') in
      let erase = wants_erase a.flash in
      let d0 = emit nvs_flash_init d in
      let m : P (if erase then emit nvs_flash_init (erase_flash api d0) else d0) =
        elim (Bool-cases erase) [
          | inl full ↦ rw full (later still wiping)
          | inr fine ↦ rw fine still
        ] in
      left-check P (if erase then a.flash_again else a.flash) _ _ m (
        left-check P a.netif _ _ m (
          left-check P a.event_loop _ _ m (
            left-check P a.driver _ _ m (
              left-check P a.storage _ _ m (
                left-check P a.mode _ _ m (
                  left-check P a.start _ _ m (
                    left-check P a.power_save _ _ m (
                      left-check P a.stop _ _ m (
                        left-check P a.power_save_again _ _ m (
                          left-check P a.stop_again _ _ m (
                            left-check P a.wifi_handler _ _ m
                              (left-check P a.ip_handler _ _ m m))))))))))))

  pub same_run :
      {A : Type 0} {k : Link S} (x r : Run (Device S) A)
      → some x ≡ some r
      → Moves api all k (link (left x))
      → Moves api all k (link (left r))
  same_run {A} {k} x r e m = subst (λ y. Moves api all k (link (left y))) (some-inj e) m

  activate-Moves :
      (a : ApAnswer) (k : Link S) (d : Device S)
      → d.wifi.state ≡ idle
      → Moves api all k (link d)
      → Moves api all k (link (left (activate_ap a d)))
  unfolding activate_ap sensor_set_ap_mode
  activate-Moves a k d fresh m =
      let P : Device S → Type 0 = λ d'. Moves api all k (link d') in
      left-check P a.mode_apsta_ret _ _ m
        (left-check P a.config_ret _ _ m (later m (opening fresh)))

  pub start_ap-Moves :
      (a : ApAnswer) (d : Device S) (r : Run (Device S) (Unit {0}))
      → d.wifi.state ≡ idle
      → start_ap a d ≡ some r
      → Moves api all (link d) (link (left r))
  unfolding start_ap
  start_ap-Moves a d r fresh h =
      let d1 = emit (wifi_set_mode mode_sta) (create_sta_netif (emit create_netif_ap d)) in
      let d2 = emit (wifi_scan_start true) (emit wifi_start d1) in
      let same : link d1 ≡ link d = netif-link (emit create_netif_ap d) in
      let halted : Moves api all (link d) (link d1) = arrive api all _ same still in
      let o : Option (Run (Device S) (Unit {0})) = elim (update_scan_cache a.scan d2) [
        | none ↦ none
        | some d3 ↦ some (activate_ap a d3)
      ] in
      let stopped = aborted (emit wifi_start d1) in
      elim (ok-cases a.mode_sta_ret (elim a.start_ret [ ok ↦ o | _ ↦ some stopped ])
        (some (aborted d1))) [
          | inr off ↦ same_run (aborted d1) r (sym off ∙ h) halted
          | inl on ↦ elim (ok-cases a.start_ret o (some stopped)) [
            | inr unstarted ↦ same_run stopped r (sym unstarted ∙ (sym on ∙ h)) halted
            | inl started ↦ elim (Option-cases (update_scan_cache a.scan d2)) [
              | inl overrun ↦
                  let lost : o ≡ none = rw overrun refl in
                  absurd (none-ne-some (sym lost ∙ (sym started ∙ (sym on ∙ h))))
              | inr (d3, e) ↦
                  let made : o ≡ some (activate_ap a d3) = rw e refl in
                  let scanned : link d3 ≡ link d = scanned-link a.scan d2 d3 e ∙ same in
                  same_run (activate_ap a d3) r (sym made ∙ (sym started ∙ (sym on ∙ h))) (
                    activate-Moves a (link d) d3 (ap (λ (k : Link S). k.phase) scanned ∙ fresh)
                      (arrive api all _ scanned still))
            ]
          ]
        ]
