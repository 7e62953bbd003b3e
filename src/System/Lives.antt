-- ===== src/System/Lives.antt =====
-- The firmware over any number of power cycles: each finds the store that the last one has left.
pub mod Provenance
use esp32_hydroponics_govern.Prelude.{
  ℕ, ◌≡◌, ◌⊎◌, refl, sym, ◌∙◌, ap, subst, Text, Bool, true, false, ◌&&◌, List, [], ◌∷◌, ◌++◌,
  Option, none, some, take, Bool-cases, Option-cases, inl, inr, arith, if◌then◌else◌, codes,
}
use esp32_hydroponics_govern.Platform.{FloatOps, EspErr, ok, is_ok, Run, returned, aborted, check}
use esp32_hydroponics_govern.Platform.Checks.{Run-cases, Returns}
use esp32_hydroponics_govern.Device.{Wifi, stop_dns, Device, boot}
use esp32_hydroponics_govern.Sensor.{sensor_manager_init, sensor_register}
use esp32_hydroponics_govern.Dns.{dns_server_start}
use esp32_hydroponics_govern.Telnet.{telnet_server_start}
use esp32_hydroponics_govern.Led.{led_manager_start}
use esp32_hydroponics_govern.Web.Server.{Uri, uris, register_all, web_server_start}
use esp32_hydroponics_govern.Wifi.Credentials.{NvsApi}
use esp32_hydroponics_govern.Wifi.Connect.{wifi_manager_set_ap_shutdown_cb}
use esp32_hydroponics_govern.Wifi.Invariant.{ScanFits}
use esp32_hydroponics_govern.Wifi.Startup.{wifi_manager_init, wifi_manager_start}
use esp32_hydroponics_govern.Wifi.Protocol.{Link, link, left}
use esp32_hydroponics_govern.Wifi.Protocol.Handled.{some-inj}
use esp32_hydroponics_govern.Wifi.Protocol.Provenance.{IsNamed}
use esp32_hydroponics_govern.Main.{
  MainAnswer, LastReading, create_tasks, start_services, start_sensors, app_main_start,
}
use esp32_hydroponics_govern.System.{System, Turn, Outcome, crashed, halted, running, run, power_on}
use esp32_hydroponics_govern.System.Safety.{Outcome-cases, TurnsFit, SoundOutcome}
use esp32_hydroponics_govern.System.Start.{SameVariables, init-SameVariables}
use esp32_hydroponics_govern.System.Boot.{EventsFit}
use esp32_hydroponics_govern.System.PowerOn.{power_on-IsSound}
use esp32_hydroponics_govern.System.Frame.{Keeps, Keeps-refl, Keeps-trans}
use esp32_hydroponics_govern.System.Protocol.{Moves, still, Kept, untouched}
use esp32_hydroponics_govern.System.Protocol.Provenance.{Moves-Kept}
use esp32_hydroponics_govern.System.Protocol.Turns.{arrive}
use esp32_hydroponics_govern.System.Protocol.Runs.{
  posted_names, Among, Among-append, Follows, Moves-trans, after, run-Follows,
}
use esp32_hydroponics_govern.System.Protocol.Starts.{none-ne-some, left-check, same_run, init-Moves}
use esp32_hydroponics_govern.System.Protocol.Boots.{IsFresh, start-Moves}

-- A power cycle: what the libraries answer to `app_main`, and the turns up to its end. It ends by
-- itself, where the firmware halts, or anywhere, by a restart or the loss of power between two turns.
pub record Life : Type 0 where
  pub answer : MainAnswer
  pub last : LastReading
  pub turns : List Turn

-- What the life needs of the libraries to make no access out of bounds.
pub record LifeFits (l : Life) : Type 0 where
  pub scan : ScanFits l.answer.wifi_start.ap.scan
  pub events : EventsFit l.answer.wifi_start.events
  pub turns : TurnsFit l.turns

abbrev pub LivesFit : List Life → Type 0
LivesFit [] = Unit
LivesFit (l ∷ ls) = LifeFits l × LivesFit ls

abbrev pub names_of_lives : List Life → List Text
names_of_lives [] = []
names_of_lives (l ∷ ls) = posted_names l.turns ++ names_of_lives ls

module _ {S : Type 0} where
  -- The store that an outcome leaves; nothing is known of it after an access out of bounds.
  abbrev pub store_left : Outcome S → Option S
  store_left crashed = none
  store_left (halted d) = some d.nvs
  store_left (running s) = some s.device.nvs

module _ {S : Type 0} (api : NvsApi S) (fp : FloatOps) where
  unfoldable pub lives : List Life → S → Option S
  lives [] store = some store
  lives (l ∷ ls) store = elim (store_left (power_on api fp l.answer l.last l.turns store)) [
    | none ↦ none
    | some store' ↦ lives ls store'
  ]

module _ {S : Type 0} where
  uris-Keeps : (us : List Uri) (d : Device S) → Keeps (register_all us d) d
  unfolding register_all
  uris-Keeps [] d = Keeps-refl d
  uris-Keeps (u ∷ us) d = Keeps-trans (uris-Keeps us _) (ground arith)

  web-link : (ret : EspErr) (d : Device S) → link (web_server_start ret d).0 ≡ link d
  unfolding web_server_start
  web-link ret d = ground (arith, uris-Keeps uris _)

  services-link : (a : MainAnswer) (d : Device S) → link (left (start_services a d)) ≡ link d
  unfolding start_services create_tasks dns_server_start telnet_server_start led_manager_start
  services-link a d =
      let P : Device S → Type 0 = λ d'. link d' ≡ link d in
      let (d1, dns_ret) =
        (if d.wifi.ap_active then dns_server_start a.dns_created d else (d, EspErr.ok)) in
      let (d2, http_ret) = web_server_start a.httpd d1 in
      let (d3, telnet_ret) = telnet_server_start a.telnet_mutex a.telnet_created d2 in
      let (d4, led_ret) = led_manager_start a.led_created d3 in
      let e1 : link d1 ≡ link d = ground arith in
      let e2 : link d2 ≡ link d = web-link a.httpd d1 ∙ e1 in
      let e3 : link d3 ≡ link d2 = ground arith in
      left-check P dns_ret _ _ e1 (
        left-check P http_ret _ _ e2
          (left-check P telnet_ret _ _ (e3 ∙ e2) (left-check P led_ret _ _ (e3 ∙ e2) (e3 ∙ e2))))

module _ {S : Type 0} (api : NvsApi S) (all : List Text) where
  -- From the end of `wifi_manager_start` on.
  loop_reached :
      (a : MainAnswer) (k : Link S) (r : Run (Device S) (Unit {0})) (x : Run (Device S) EspErr)
      → Moves api all k (link (left x))
      → ◌≡◌ {A = Option (Run (Device S) (Unit {0}))}
          (elim x [
            | aborted d ↦ some (aborted d)
            | returned ret d ↦ some (check ret d (start_services a d))
          ])
          (some r)
      → Moves api all k (link (left r))
  loop_reached a k r (aborted d) m h = same_run api all (aborted d) r h m
  loop_reached a k r (returned ret d) m h =
      same_run api all (check ret d (start_services a d)) r h (
        left-check (λ d'. Moves api all k (link d')) ret d _ m
          (arrive api all _ (services-link a d) m))

  main-Moves :
      (a : MainAnswer) (store : S) (r : Run (Device S) (Unit {0}))
      → app_main_start api a (boot store) ≡ some r
      → Moves api all (link (boot store)) (link (left r))
  unfolding app_main_start start_sensors boot sensor_register sensor_manager_init
      wifi_manager_set_ap_shutdown_cb
  main-Moves a store r h =
      let d1 = start_sensors a.queue_created (boot store) in
      let k = link (boot store) in
      elim (Bool-cases (is_ok a.gpio && (is_ok a.isr_service && is_ok a.isr_handler))) [
        | inr broken ↦ same_run api all (aborted d1) r (rw (broken, app_main_start) at h) still
        | inl fine ↦
            let h1 = rw (fine, app_main_start) at h in
            let m = init-Moves api all a.wifi_init d1 in
            elim (Run-cases (wifi_manager_init api a.wifi_init d1)) [
              | inr (d2, e) ↦
                  same_run api all (aborted d2) r (rw e at h1)
                    (subst (λ x. Moves api all k (link (left x))) e m)
              | inl (u, d2, e) ↦
                  let h2 = rw e at h1 in
                  let same =
                    subst (Returns (λ d'. SameVariables d' d1)) e
                      (init-SameVariables api a.wifi_init d1) in
                  let m2 = subst (λ x. Moves api all k (link (left x))) e m in
                  let d3 = wifi_manager_set_ap_shutdown_cb stop_dns d2 in
                  elim (Option-cases (wifi_manager_start api a.wifi_start d3)) [
                    | inl overrun ↦ absurd (none-ne-some (rw overrun at h2))
                    | inr (x, made) ↦
                        let fresh : IsFresh d3 = (
                          ap (λ (w : Wifi). w.state) same.1,
                          ap (λ (w : Wifi). w.retry_count) same.1,
                        ) in
                        loop_reached a k r x
                          (Moves-trans api all m2
                            (start-Moves api all a.wifi_start d3 x fresh made))
                          (rw made at h2)
                  ]
            ]
      ]

  pub power_on-Follows :
      (fp : FloatOps) (a : MainAnswer) (last : LastReading) (ts : List Turn) (store : S)
      → Among (posted_names ts) all
      → Follows api all (link (boot store)) (power_on api fp a last ts store)
  unfolding power_on
  power_on-Follows fp a last ts store named =
      elim (Option-cases (app_main_start api a (boot store))) [
        | inl overrun ↦ rw (overrun, Follows) tt
        | inr (r, made) ↦
            let m = main-Moves a store r made in
            rw (made, Follows)
              (elim (Run-cases r) [
                | inr (d, e) ↦
                    rw (e, Follows)
                      (subst (λ x. Moves api all (link (boot store)) (link (left x))) e m)
                | inl (u, d, e) ↦
                    rw (e, Follows)
                      (after api all (link (boot store)) (link d) _
                        (subst (λ x. Moves api all (link (boot store)) (link (left x))) e m)
                        (run-Follows api all fp ts _ named))
              ])
      ]
