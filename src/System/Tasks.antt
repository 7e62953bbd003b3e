-- ===== src/System/Tasks.antt =====
-- The tasks of src/main.c, the health engine and the reconnects keep the invariant of the system.
use esp32_hydroponics_govern.Prelude.{
  ℕ, ◌-◌, ◌≡◌, refl, Text, codes, Bool, true, false, not, ◌&&◌, ◌||◌, leb, List, [], ◌∷◌, Option,
  none, some, length-take, Bool-cases, Option-cases, inl, inr, arith, if◌then◌else◌,
}
use esp32_hydroponics_govern.Config.{max_sensors, ws_json_buf_size}
use esp32_hydroponics_govern.Platform.{is_ok, delay, task_yield, Float, FloatOps}
use esp32_hydroponics_govern.Device.{Telnet, Sensors, Device, emit}
use esp32_hydroponics_govern.Sensor.{
  HealthEvent, health_msg, now_ms, refresh_all, collect_events, any_recovered, log_events,
  enqueue_log, notify, sensor_mark_alive, sensor_update_dht, sensor_update_flow,
  sensor_update_health, sensor_is_ap_mode,
}
use esp32_hydroponics_govern.Sensor.Registry.{
  IsRegistry, length-refresh_all, refresh_all-NamesFit, mark_alive-IsRegistry,
}
use esp32_hydroponics_govern.Sensor.Report.{sensor_get_json-total}
use esp32_hydroponics_govern.Wifi.Credentials.{NvsApi, nvs_read}
use esp32_hydroponics_govern.Wifi.Connect.{Answer, wifi_manager_reconnect}
use esp32_hydroponics_govern.Web.Push.{Client, web_server_push_sensor_update}
use esp32_hydroponics_govern.Web.Push.Delivery.{push_sensor_update_lem}
use esp32_hydroponics_govern.Main.{
  LastReading, Ticks, flow_round, dht_round, push_round, view_round, main_round, is_failed,
  heartbeat,
}
use esp32_hydroponics_govern.System.Sound.{IsSound}
use esp32_hydroponics_govern.System.Events.{enqueue_log-IsSound}

refreshed-IsRegistry :
    (t : ℕ) (s : Sensors) → IsRegistry s → IsRegistry (record s { metas = refresh_all t s.metas })
refreshed-IsRegistry t s v = record {
  in_table = omega (arith, v.in_table, length-refresh_all t s.metas);
  names_fit = refresh_all-NamesFit t s.metas v.names_fit;
}

module _ {S : Type 0} {up : Bool} {tel : Telnet} where
  choice-IsSound :
      (b : Bool) (d e : Device S)
      → IsSound up tel d
      → IsSound up tel e
      → IsSound up tel (if b then d else e)
  choice-IsSound true d e v w = v
  choice-IsSound false d e v w = w

  notify-IsSound : (d : Device S) → IsSound up tel d → IsSound up tel (notify d)
  unfolding notify
  notify-IsSound d v = ground arith

  mark_alive-IsSound :
      (now_us : ℕ) (name : Text) (d : Device S)
      → IsSound up tel d
      → IsSound up tel (sensor_mark_alive now_us name d)
  unfolding sensor_mark_alive
  mark_alive-IsSound now_us name d v = record {
    registry = mark_alive-IsRegistry now_us name d v.registry;
    fits = v.fits;
    coupled = v.coupled;
    callback = v.callback;
    bound = v.bound;
    telnet = v.telnet;
  }

  log_events-IsSound :
      (es : List HealthEvent) (d : Device S) → IsSound up tel d → IsSound up tel (log_events es d)
  unfolding log_events
  log_events-IsSound [] d v = v
  log_events-IsSound (e ∷ es) d v =
      log_events-IsSound es (enqueue_log (health_msg e) d) (enqueue_log-IsSound (health_msg e) d v)

  update_dht-IsSound :
      (now_us : ℕ) (t h : Float) (d : Device S)
      → IsSound up tel d
      → IsSound up tel (sensor_update_dht now_us t h d)
  unfolding sensor_update_dht
  update_dht-IsSound now_us t h d v =
      let d1 : Device S = record d { sensors = record (d.sensors) { temp = t; hum = h } } in
      let v1 : IsSound up tel d1 = ground arith in
      notify-IsSound (sensor_mark_alive now_us (codes "dht") d1)
        (mark_alive-IsSound now_us (codes "dht") d1 v1)

  update_flow-IsSound :
      (now_us : ℕ) (lpm : Float) (d : Device S)
      → IsSound up tel d
      → IsSound up tel (sensor_update_flow now_us lpm d)
  unfolding sensor_update_flow
  update_flow-IsSound now_us lpm d v =
      let d1 : Device S = record d { sensors = record (d.sensors) { flow = lpm } } in
      let v1 : IsSound up tel d1 = ground arith in
      notify-IsSound (sensor_mark_alive now_us (codes "flow") d1)
        (mark_alive-IsSound now_us (codes "flow") d1 v1)

  refreshed-IsSound :
      (t : ℕ) (d : Device S)
      → IsSound up tel d
      → IsSound up tel
          (record d { sensors = record (d.sensors) { metas = refresh_all t d.sensors.metas } })
  refreshed-IsSound t d v = record {
    registry = refreshed-IsRegistry t d.sensors v.registry;
    fits = v.fits;
    coupled = v.coupled;
    callback = v.callback;
    bound = v.bound;
    telnet = v.telnet;
  }

  health-IsSound :
      (t_us : ℕ) (d : Device S) → IsSound up tel d → IsSound up tel (sensor_update_health t_us d)
  unfolding sensor_update_health
  health-IsSound t_us d v =
      let metas = refresh_all (now_ms t_us) d.sensors.metas in
      let events = collect_events max_sensors metas in
      let d1 : Device S = record d { sensors = record (d.sensors) { metas = metas } } in
      let logged = log_events-IsSound events d1 (refreshed-IsSound (now_ms t_us) d v) in
      elim (Bool-cases (any_recovered events)) [
        | inl back ↦ rw back (notify-IsSound (log_events events d1) logged)
        | inr none_back ↦ rw none_back logged
      ]

  pub flow_round-IsSound :
      (fp : FloatOps) (now_us : ℕ) (d : Device S)
      → IsSound up tel d
      → IsSound up tel (flow_round fp now_us d)
  unfolding flow_round
  flow_round-IsSound fp now_us d v =
      update_flow-IsSound now_us (fp.div_pulses (fp.of_int d.pulse_count))
        (record d { pulse_count = 0 }) v

  pub dht_round-IsSound :
      (fp : FloatOps) (alive_us update_us : ℕ) (r : Option (Float × Float)) (last : LastReading)
      (d : Device S)
      → IsSound up tel d
      → IsSound up tel (dht_round fp alive_us update_us r last d).1
  unfolding dht_round
  dht_round-IsSound fp alive_us update_us none last d v = v
  dht_round-IsSound fp alive_us update_us (some (t, h)) last d v =
      let d1 = sensor_mark_alive alive_us (codes "dht") d in
      let v1 = mark_alive-IsSound alive_us (codes "dht") d v in
      elim (Bool-cases (fp.ne t last.last_t || fp.ne h last.last_h)) [
        | inl changed ↦ rw changed (update_dht-IsSound update_us t h d1 v1)
        | inr same ↦ rw same v1
      ]

  pub push_round-IsSound :
      (fp : FloatOps) (clients : Option (List Client)) (d : Device S)
      → IsSound up tel d
      → (d' : Device S) × (push_round fp clients d ≡ some d') × IsSound up tel d'
  unfolding push_round
  push_round-IsSound fp clients d v =
      let (buf, ret, got) = sensor_get_json-total fp d.sensors ws_json_buf_size v.registry in
      let sent = web_server_push_sensor_update clients buf d in
      let v1 : IsSound up tel sent = rw (push_sensor_update_lem clients buf d).0 v in
      (
        emit task_yield (if is_ok ret then sent else d),
        rw (got, push_round) refl,
        choice-IsSound (is_ok ret) sent d v1 v,
      )

  pub view_round-IsSound :
      (fp : FloatOps) (d : Device S)
      → IsSound up tel d
      → (d' : Device S) × (view_round fp d ≡ some d') × IsSound up tel d'
  unfolding view_round
  view_round-IsSound fp d v =
      let (buf, ret, got) = sensor_get_json-total fp d.sensors ws_json_buf_size v.registry in
      let line = (if sensor_is_ap_mode d then heartbeat buf else buf) in
      let logged = enqueue_log line d in
      (
        emit (delay 1000) (if is_ok ret then logged else d),
        rw (got, view_round) refl,
        choice-IsSound (is_ok ret) logged d (enqueue_log-IsSound line d v) v,
      )

module _ {S : Type 0} {up : Bool} {tel : Telnet} (api : NvsApi S) where
  reconnect-IsSound :
      (a : Answer) (d : Device S)
      → IsSound up tel d
      → IsSound up tel (wifi_manager_reconnect api a d).0
  unfolding wifi_manager_reconnect
  reconnect-IsSound a d v = elim (Option-cases (nvs_read api d.nvs)) [
    | inl missing ↦ rw (missing, wifi_manager_reconnect) v
    | inr (c, stored) ↦
        rw (stored, wifi_manager_reconnect)
          (elim (Bool-cases (is_ok a.connect)) [
            | inl up ↦ rw up (ground (arith, length-take 32 c.ssid))
            | inr down ↦ rw down (ground (arith, length-take 32 c.ssid))
          ])
  ]

  pub main_round-IsSound :
      (now health_us : ℕ) (a : Answer) (t : Ticks) (d : Device S)
      → IsSound up tel d
      → IsSound up tel (main_round api now health_us a t d).1
  unfolding main_round
  main_round-IsSound now health_us a t d v =
      let due = leb 1000000 (now - t.last_health_us) in
      let d1 = (if due then sensor_update_health health_us d else d) in
      let v1 =
        choice-IsSound due (sensor_update_health health_us d) d (health-IsSound health_us d v) v in
      elim (Bool-cases (
        (not d1.wifi.ap_active && is_failed d1.wifi.state)
        && leb 30000000 (now - t.last_reconnect_us))) [
          | inl again ↦ rw again (reconnect-IsSound a d1 v1)
          | inr wait ↦ rw wait v1
        ]
