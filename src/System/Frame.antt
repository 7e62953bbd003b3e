-- ===== src/System/Frame.antt =====
-- What a turn that has no business with the connection leaves alone: the link of the Wi-Fi manager and
-- the counter of the flow sensor's pulses.
pub mod Requests
pub mod Count
pub mod Attempts
use esp32_hydroponics_govern.Prelude.{
  ℕ, ◌≡◌, refl, ◌∙◌, Text, codes, Bool, true, false, ◌||◌, List, [], ◌∷◌, Option, none, some,
  Bool-cases, Option-cases, inl, inr, arith, if◌then◌else◌,
}
use esp32_hydroponics_govern.Config.{max_sensors, ws_json_buf_size}
use esp32_hydroponics_govern.Platform.{is_ok, Float, FloatOps}
use esp32_hydroponics_govern.Device.{Device, emit}
use esp32_hydroponics_govern.Sensor.{
  HealthEvent, health_msg, now_ms, refresh_all, collect_events, any_recovered, log_events,
  enqueue_log, notify, sensor_mark_alive, sensor_update_dht, sensor_update_flow,
  sensor_update_health, sensor_get_json, sensor_is_ap_mode,
}
use esp32_hydroponics_govern.Dns.{dns_round, dns_server_stop}
use esp32_hydroponics_govern.Wifi.Connect.{run_callback, wifi_manager_ap_shutdown}
use esp32_hydroponics_govern.Web.Handlers.{delayed_ap_shutdown_task}
use esp32_hydroponics_govern.Telnet.{
  TelnetEvent, accepted, accept_failed, polled, send, Phase, accepting, polling, telnet_server_send,
  telnet_step,
}
use esp32_hydroponics_govern.Web.Push.{Client, web_server_push_sensor_update}
use esp32_hydroponics_govern.Web.Push.Delivery.{push_sensor_update_lem}
use esp32_hydroponics_govern.Wifi.Protocol.{link}
use esp32_hydroponics_govern.Main.{
  LastReading, dht_round, flow_round, push_round, view_round, heartbeat,
}

pub record Keeps {S : Type 0} (d' d : Device S) : Type 0 where
  pub same_link : link d' ≡ link d
  pub same_count : d'.pulse_count ≡ d.pulse_count

module _ {S : Type 0} where
  pub Keeps-trans : {d1 d2 d3 : Device S} → Keeps d1 d2 → Keeps d2 d3 → Keeps d1 d3
  Keeps-trans h k = record {
    same_link = h.same_link ∙ k.same_link;
    same_count = h.same_count ∙ k.same_count;
  }

  pub Keeps-refl : (d : Device S) → Keeps d d
  Keeps-refl d = record { same_link = refl; same_count = refl }

  enqueue_log-Keeps : (msg : Text) (d : Device S) → Keeps (enqueue_log msg d) d
  unfolding enqueue_log
  enqueue_log-Keeps msg d = ground arith

  log_events-Keeps : (es : List HealthEvent) (d : Device S) → Keeps (log_events es d) d
  unfolding log_events
  log_events-Keeps [] d = Keeps-refl d
  log_events-Keeps (e ∷ es) d =
      Keeps-trans (log_events-Keeps es (enqueue_log (health_msg e) d))
        (enqueue_log-Keeps (health_msg e) d)

  notify-Keeps : (d : Device S) → Keeps (notify d) d
  unfolding notify
  notify-Keeps d = ground arith

  pub health-Keeps : (t_us : ℕ) (d : Device S) → Keeps (sensor_update_health t_us d) d
  unfolding sensor_update_health
  health-Keeps t_us d =
      let metas = refresh_all (now_ms t_us) d.sensors.metas in
      let events = collect_events max_sensors metas in
      let d1 : Device S = record d { sensors = record (d.sensors) { metas = metas } } in
      let logged : Keeps (log_events events d1) d =
        Keeps-trans (log_events-Keeps events d1) (ground arith) in
      elim (Bool-cases (any_recovered events)) [
        | inl back ↦ rw back (Keeps-trans (notify-Keeps (log_events events d1)) logged)
        | inr none_back ↦ rw none_back logged
      ]

  -- The flow task takes the count.
  pub flow_round-link :
      (fp : FloatOps) (now_us : ℕ) (d : Device S)
      → (link (flow_round fp now_us d) ≡ link d) × ((flow_round fp now_us d).pulse_count ≡ 0)
  unfolding flow_round sensor_update_flow sensor_mark_alive notify
  flow_round-link fp now_us d = ground arith

  pub dht_round-Keeps :
      (fp : FloatOps) (alive_us update_us : ℕ) (r : Option (Float × Float)) (last : LastReading)
      (d : Device S)
      → Keeps (dht_round fp alive_us update_us r last d).1 d
  unfolding dht_round sensor_update_dht sensor_mark_alive notify
  dht_round-Keeps fp alive_us update_us none last d = ground arith
  dht_round-Keeps fp alive_us update_us (some (t, h)) last d =
      elim (Bool-cases (fp.ne t last.last_t || fp.ne h last.last_h)) [
        | inl changed ↦ rw changed (ground arith)
        | inr same ↦ rw same (ground arith)
      ]

  choice-Keeps :
      (b : Bool) (d1 d2 d : Device S) → Keeps d1 d → Keeps d2 d → Keeps (if b then d1 else d2) d
  choice-Keeps true d1 d2 d v w = v
  choice-Keeps false d1 d2 d v w = w

  push-Keeps :
      (clients : Option (List Client)) (buf : Text) (d : Device S)
      → Keeps (web_server_push_sensor_update clients buf d) d
  push-Keeps clients buf d = rw (push_sensor_update_lem clients buf d).0 (ground arith)

  pub push_round-Keeps :
      (fp : FloatOps) (clients : Option (List Client)) (d d' : Device S)
      → push_round fp clients d ≡ some d'
      → Keeps d' d
  unfolding push_round
  push_round-Keeps fp clients d d' h =
      elim (Option-cases (sensor_get_json fp d.sensors ws_json_buf_size)) [
        | inl overrun ↦ absurd (ground arith)
        | inr ((buf, ret), got) ↦
            let sent = web_server_push_sensor_update clients buf d in
            ground (
              arith,
              h,
              got,
              choice-Keeps (is_ok ret) sent d d (push-Keeps clients buf d) (Keeps-refl d),
            )
      ]

  pub view_round-Keeps : (fp : FloatOps) (d d' : Device S) → view_round fp d ≡ some d' → Keeps d' d
  unfolding view_round
  view_round-Keeps fp d d' h = elim (Option-cases (sensor_get_json fp d.sensors ws_json_buf_size)) [
    | inl overrun ↦ absurd (ground arith)
    | inr ((buf, ret), got) ↦
        let line = (if sensor_is_ap_mode d then heartbeat buf else buf) in
        ground (
          arith,
          h,
          got,
          choice-Keeps (is_ok ret) (enqueue_log line d) d d (enqueue_log-Keeps line d)
              (Keeps-refl d),
        )
  ]

  pub telnet_step-Keeps :
      (ph : Phase) (e : TelnetEvent) (d : Device S) → Keeps (telnet_step ph e d).1 d
  unfolding telnet_step telnet_server_send
  telnet_step-Keeps accepting (send msg) d = ground arith
  telnet_step-Keeps (polling fd) (send msg) d = ground arith
  telnet_step-Keeps accepting (accepted c) d = ground arith
  telnet_step-Keeps accepting accept_failed d = ground arith
  telnet_step-Keeps accepting (polled r) d = ground arith
  telnet_step-Keeps (polling fd) (polled r) d = ground arith
  telnet_step-Keeps (polling fd) (accepted c) d = ground arith
  telnet_step-Keeps (polling fd) accept_failed d = ground arith

  pub dns_round-Keeps : (buf : List ℕ) (d d' : Device S) → dns_round buf d ≡ some d' → Keeps d' d
  unfolding dns_round
  dns_round-Keeps buf d d' h = ground arith

  pub delayed_shutdown-Keeps : (d : Device S) → Keeps (delayed_ap_shutdown_task d) d
  unfolding delayed_ap_shutdown_task wifi_manager_ap_shutdown run_callback dns_server_stop
  delayed_shutdown-Keeps d = ground arith
