-- ===== src/Main/Loop.antt =====
-- src/main.c: the rounds of the main loop.
use esp32_hydroponics_govern.Prelude.{
  ℕ, ◌+◌, ◌-◌, ◌≤◌, ◌≡◌, ◌⊎◌, refl, Text, ◌∙◌, false, List, [], ◌∷◌, none, leb, arith,
  if◌then◌else◌,
}
use esp32_hydroponics_govern.Device.{failed, Device}
use esp32_hydroponics_govern.Sensor.{
  HealthEvent, enqueue_log, log_events, health_msg, notify, now_ms, refresh_all, collect_events,
  sensor_update_health,
}
use esp32_hydroponics_govern.Config.{max_sensors}
use esp32_hydroponics_govern.Wifi.Credentials.{NvsApi, nvs_read}
use esp32_hydroponics_govern.Wifi.Connect.{Answer, wifi_manager_reconnect}
use esp32_hydroponics_govern.Main.{Ticks, main_round}

-- One round's clock readings and what the driver answers in it.
pub record Round : Type 0 where
  pub now : ℕ
  pub health_us : ℕ
  pub answer : Answer

module _ {S : Type 0} where
  enqueue_log-wifi :
      (msg : Text) (d : Device S)
      → ((enqueue_log msg d).wifi ≡ d.wifi) × ((enqueue_log msg d).nvs ≡ d.nvs)
  unfolding enqueue_log
  enqueue_log-wifi msg d = ground arith

  log_events-wifi :
      (es : List HealthEvent) (d : Device S)
      → ((log_events es d).wifi ≡ d.wifi) × ((log_events es d).nvs ≡ d.nvs)
  unfolding log_events
  log_events-wifi [] d = (refl, refl)
  log_events-wifi (e ∷ es) d =
      let (same, kept) = enqueue_log-wifi (health_msg e) d in
      let (same', kept') = log_events-wifi es (enqueue_log (health_msg e) d) in
      (same' ∙ same, kept' ∙ kept)

  pub sensor_update_health-wifi :
      (now_us : ℕ) (d : Device S)
      → let d1 = sensor_update_health now_us d in (d1.wifi ≡ d.wifi) × (d1.nvs ≡ d.nvs)
  unfolding sensor_update_health notify
  sensor_update_health-wifi now_us d =
      let metas = refresh_all (now_ms now_us) d.sensors.metas in
      let d1 : Device S = record d { sensors = record (d.sensors) { metas = metas } } in
      ground (arith, log_events-wifi (collect_events max_sensors metas) d1)

module _ {S : Type 0} (api : NvsApi S) where
  -- The main loop over a list of rounds.
  unfoldable pub main_rounds : List Round → Ticks → Device S → Ticks × Device S
  unfolding main_round
  main_rounds [] t d = (t, d)
  main_rounds (r ∷ rs) t d =
      let next = main_round api r.now r.health_us r.answer t d in main_rounds rs next.0 next.1

  -- A lost connection.
  pub record IsLost (d : Device S) : Type 0 where
    pub ap_off : d.wifi.ap_active ≡ false
    pub is_down : d.wifi.state ≡ failed

  wifi_manager_reconnect-nothing :
      (a : Answer) (d : Device S)
      → nvs_read api d.nvs ≡ none
      → (wifi_manager_reconnect api a d).0 ≡ d
  unfolding wifi_manager_reconnect
  wifi_manager_reconnect-nothing a d missing = rw (missing, wifi_manager_reconnect) refl

  main_round-nothing :
      (r : Round) (t : Ticks) (d : Device S)
      → nvs_read api d.nvs ≡ none
      → let d1 = (main_round api r.now r.health_us r.answer t d).1 in
        (d1.wifi ≡ d.wifi) × (d1.nvs ≡ d.nvs)
  unfolding main_round
  main_round-nothing r t d missing =
      let d2 =
        (if leb 1000000 (r.now - t.last_health_us)
          then sensor_update_health r.health_us d
          else d) in
      let (same, store) = sensor_update_health-wifi r.health_us d in
      let kept : d2.nvs ≡ d.nvs = ground arith in
      let alike : d2.wifi ≡ d.wifi = ground arith in
      let idle = wifi_manager_reconnect-nothing r.answer d2 (rw kept missing) in ground arith

  -- With no credentials in the store the main loop never touches the connection: after any number of
  -- rounds, whatever the times and the driver's answers, all of the Wi-Fi manager's state and the store
  -- are as they were, so a connection that has failed stays so.
  pub main_rounds-nothing :
      (rs : List Round) (t : Ticks) (d : Device S)
      → nvs_read api d.nvs ≡ none
      → let d1 = (main_rounds rs t d).1 in (d1.wifi ≡ d.wifi) × (d1.nvs ≡ d.nvs)
  unfolding main_rounds
  main_rounds-nothing [] t d missing = (refl, refl)
  main_rounds-nothing (r ∷ rs) t d missing =
      let next = main_round api r.now r.health_us r.answer t d in
      let (same, store) = main_round-nothing r t d missing in
      let (alike, kept) = main_rounds-nothing rs next.0 next.1 (rw store missing) in
      (alike ∙ same, kept ∙ store)

  -- A round either leaves the time of the last reconnect, or it comes at least 30 seconds after that
  -- time, with the access point off and the connection failed, and records its own time.
  pub main_round-spaced :
      (r : Round) (t : Ticks) (d : Device S)
      → let next = main_round api r.now r.health_us r.answer t d in
        (next.0.last_reconnect_us ≡ t.last_reconnect_us × next.1.wifi ≡ d.wifi × next.1.nvs ≡ d.nvs)
        ⊎ (t.last_reconnect_us + 30000000 ≤ r.now
            × next.0.last_reconnect_us ≡ r.now
            × d.wifi.ap_active ≡ false
            × d.wifi.state ≡ failed)
  unfolding main_round
  main_round-spaced r t d =
      let (same, store) = sensor_update_health-wifi r.health_us d in ground (arith)
