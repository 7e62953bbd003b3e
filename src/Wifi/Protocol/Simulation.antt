-- ===== src/Wifi/Protocol/Simulation.antt =====
-- src/wifi_manager.c: the operations follow the protocol.
use esp32_hydroponics_govern.Prelude.{
  ◌≡◌, refl, ◌∙◌, subst, ap, Text, Bool, true, false, List, [], ◌∷◌, ◌++◌, Option, none, some, take,
  Bool-cases, Option-cases, inl, inr, arith,
}
use esp32_hydroponics_govern.Platform.{EspErr, is_ok, returned}
use esp32_hydroponics_govern.Device.{ApRecord, Device}
use esp32_hydroponics_govern.Wifi.Credentials.{NvsApi, nvs_read}
use esp32_hydroponics_govern.Wifi.Scan.{find_scanned_ap, wifi_manager_scan_start}
use esp32_hydroponics_govern.Wifi.Connect.{
  Answer, may_connect, prepare, launch, connect_sta, run_callback, wifi_manager_connect,
  wifi_manager_reconnect, wifi_manager_ap_shutdown,
}
use esp32_hydroponics_govern.Wifi.Events.{wifi_event_handler}
use esp32_hydroponics_govern.Platform.Checks.{check-cases}
use esp32_hydroponics_govern.Wifi.Protocol.{
  launched, Step, stay, attempt, ignored, rejoin, link, WifiOp, connect, reconnect, event,
  scan_start, ap_shutdown, left, wifi_op, wifi_ops, submitted, submit, names_of, Steps, done, more,
}
use esp32_hydroponics_govern.Wifi.Protocol.Handled.{some-inj, land, event-Step}

append-submit : (o : Option Text) (xs ys : List Text) → submit o xs ++ ys ≡ submit o (xs ++ ys)
append-submit none xs ys = refl
append-submit (some name) xs ys = refl

module _ {S : Type 0} (api : NvsApi S) where
  link-scan_start : (ret : EspErr) (d : Device S) → link (wifi_manager_scan_start ret d).0 ≡ link d
  unfolding wifi_manager_scan_start
  link-scan_start ret d = ground arith

  link-ap_shutdown : (d : Device S) → link (wifi_manager_ap_shutdown d) ≡ link d
  unfolding wifi_manager_ap_shutdown run_callback
  link-ap_shutdown d = ground arith

  link-launch :
      (a : Answer) (ssid pass : Text) (is_open : Bool) (o : Option ApRecord) (d : Device S)
      → link (launch a.connect (prepare a ssid pass is_open o d))
        ≡ record (link d) { phase = launched (is_ok a.connect); tries = 0; staged = take 63 ssid }
  unfolding launch prepare
  link-launch a ssid pass is_open none d = ground arith
  link-launch a ssid pass is_open (some found) d = ground arith

  link-prepare :
      (a : Answer) (ssid pass : Text) (is_open : Bool) (o : Option ApRecord) (d : Device S)
      → link (prepare a ssid pass is_open o d)
        ≡ record (link d) { phase = launched true; tries = 0; staged = take 63 ssid }
  unfolding prepare
  link-prepare a ssid pass is_open none d = ground arith
  link-prepare a ssid pass is_open (some found) d = ground arith

  pub connect-Step :
      (a : Answer) (ssid pass : Text) (is_open : Bool) (d : Device S)
      → let d' = left (wifi_manager_connect a ssid pass is_open d) in
        Step api (some ssid) (link d) (link d')
  unfolding wifi_manager_connect connect_sta
  connect-Step a ssid pass is_open d =
      let o = find_scanned_ap d.wifi.scan_records ssid in
      let d1 = prepare a ssid pass is_open o d in
      elim (Bool-cases (may_connect d.wifi.state)) [
        | inr barred ↦ rw barred (ignored ssid barred)
        | inl may ↦ elim (check-cases a.set_config d1 (returned tt (launch a.connect d1))) [
          | inl went ↦
              let gone : link (left (wifi_manager_connect a ssid pass is_open d))
                  ≡ link (launch a.connect d1) =
                rw may (rw went refl) in
              land api _ (gone ∙ link-launch a ssid pass is_open o d)
                (attempt ssid (is_ok a.connect) may)
          | inr halts ↦
              let gone : link (left (wifi_manager_connect a ssid pass is_open d)) ≡ link d1 =
                rw may (rw halts refl) in
              land api _ (gone ∙ link-prepare a ssid pass is_open o d) (attempt ssid true may)
        ]
      ]

  pub reconnect-Step :
      (a : Answer) (d : Device S) → Step api none (link d) (link (wifi_manager_reconnect api a d).0)
  unfolding wifi_manager_reconnect
  reconnect-Step a d = elim (Option-cases (nvs_read api d.nvs)) [
    | inl missing ↦ rw (missing, wifi_manager_reconnect) stay
    | inr (c, stored) ↦
        rw (stored, wifi_manager_reconnect)
          (elim (Bool-cases (is_ok a.connect)) [
            | inl up ↦ rw up (rejoin true)
            | inr down ↦ rw down (rejoin false)
          ])
  ]

  op-Step :
      (o : WifiOp) (d d' : Device S) (on : Bool)
      → wifi_op api o d ≡ some (d', on)
      → Step api (submitted o) (link d) (link d')
  unfolding wifi_op
  op-Step (connect a ssid pass is_open) d d' on h =
      land api _ (ground (arith, h)) (connect-Step a ssid pass is_open d)
  op-Step (reconnect a) d d' on h = land api _ (ground (arith, h)) (reconnect-Step a d)
  op-Step (event a e) d d' on h = elim (Option-cases (wifi_event_handler api a e d)) [
    | inl overrun ↦ absurd (ground arith)
    | inr (r, made) ↦ land api _ (ground (arith, h, made)) (event-Step api a e d r made)
  ]
  op-Step (scan_start ret) d d' on h = land api _ (ground (arith, h, link-scan_start ret d)) stay
  op-Step ap_shutdown d d' on h = land api _ (ground (arith, h, link-ap_shutdown d)) stay

  -- The operations of the Wi-Fi manager implement the protocol. Through any sequence of attempts,
  -- reconnects, events, scans and shutdowns that makes no access out of bounds, whatever the libraries
  -- answer and whether or not an ESP_ERROR_CHECK halts it, the connection state, the retry counter, the
  -- staged name and the store move by steps of the protocol, and the names that these steps submit are
  -- those of the attempts, in their order, from the first up to the halt.
  pub wifi_ops-Steps :
      (os : List WifiOp) (d d' : Device S)
      → wifi_ops api os d ≡ some d'
      → (names rest : List Text) × (names ++ rest ≡ names_of os)
        × Steps api names (link d) (link d')
  unfolding wifi_ops
  wifi_ops-Steps [] d d' h =
      ([], [], refl, subst (λ x. Steps api [] (link d) (link x)) (some-inj h) done)
  wifi_ops-Steps (o ∷ os) d d' h = elim (Option-cases (wifi_op api o d)) [
    | inl overrun ↦ absurd (ground arith)
    | inr ((d1, on), made) ↦
        let first = op-Step o d d1 on made in
        elim (Bool-cases on) [
          | inl runs ↦
              let h1 : wifi_ops api os d1 ≡ some d' = ground (arith, h, made, runs) in
              let (names, rest, all, later) = wifi_ops-Steps os d1 d' h1 in
              (
                submit (submitted o) names,
                rest,
                append-submit (submitted o) names rest ∙ ap (submit (submitted o)) all,
                more first later,
              )
          | inr halts ↦
              let h1 : some d1 ≡ some d' = ground (arith, h, made, halts) in
              (
                submit (submitted o) [],
                names_of os,
                append-submit (submitted o) [] (names_of os),
                more first (subst (λ x. Steps api [] (link d1) (link x)) (some-inj h1) done),
              )
        ]
  ]
