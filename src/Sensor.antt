-- ===== src/Sensor.antt =====
-- src/sensor_manager.c: the registry of sensors, the tray of readings, the health engine, the JSON
-- snapshot and the log queue. `now_us` is what `esp_timer_get_time` returns.
pub mod Registry
pub mod Health
pub mod Report
pub mod History
use esp32_hydroponics_govern.Prelude.{
  ℕ, ◌+◌, ◌-◌, ◌/◌, ◌%◌, ◌^◌, Text, codes, text_eq, copy_str, Bool, true, false, not, ◌&&◌, ◌||◌,
  List, [], ◌∷◌, ◌++◌, Option, none, some, length, take, ltb, leb, if◌then◌else◌,
}
use esp32_hydroponics_govern.Config.{max_sensors, log_msg_len}
use esp32_hydroponics_govern.Platform.{
  EspErr, ok, no_mem, Float, FloatOps, queue_send, notify_push, create_objects,
}
use esp32_hydroponics_govern.Device.{Meta, Sensors, Device, emit}

unfoldable pub now_ms : ℕ → ℕ
now_ms now_us = now_us / 1000 % 2 ^ 32

-- `sizeof(s->name)`
abbrev pub name_size : ℕ
name_size = 16

unfoldable pub new_meta : Text → ℕ → Meta
new_meta name timeout_ms = record {
  name = copy_str name_size name;
  timeout_ms = timeout_ms;
  last_seen_ms = 0;
  active = false;
  alive = false;
  prev_alive = false;
}

-- The loop of `sensor_mark_alive`: the first sensor of that name.
unfoldable pub touch : Text → ℕ → List Meta → List Meta
touch name t [] = []
touch name t (m ∷ ms) =
    let rest = touch name t ms in
    if text_eq m.name name then record m { last_seen_ms = t; active = true } ∷ ms else m ∷ rest

-- `t - s->last_seen_ms` on uint32_t
unfoldable pub elapsed_ms : ℕ → ℕ → ℕ
elapsed_ms t last = (t + 2 ^ 32 - last) % 2 ^ 32

-- The first three statements of the loop in `sensor_update_health`.
unfoldable pub refresh : ℕ → Meta → Meta
refresh t m = record m {
  prev_alive = m.alive;
  alive = m.active && ltb (elapsed_ms t m.last_seen_ms) m.timeout_ms;
}

-- `evt_t`
pub record HealthEvent : Type 0 where
  pub dead : Bool
  pub transition : Bool
  pub name : Text

-- `prev_alive != alive`
abbrev pub differs : Bool → Bool → Bool
differs true b = not b
differs false b = b

-- The event of one sensor after `refresh`.
unfoldable pub health_event : Meta → List HealthEvent
health_event m =
    let tx = differs m.prev_alive m.alive in
    let e : HealthEvent = record {
      dead = not m.alive;
      transition = tx;
      name = copy_str name_size m.name;
    } in
    if not m.alive || (m.alive && tx) then e ∷ [] else []

-- The loop under the mutex; `room` is what is left of `events[MAX_SENSORS]`.
unfoldable pub collect_events : ℕ → List Meta → List HealthEvent
unfolding health_event
collect_events room [] = []
collect_events room (m ∷ ms) =
    let es = health_event m in
    let fitting = (if ltb 0 room then es else []) in
    fitting ++ collect_events (room - length fitting) ms

unfoldable pub refresh_all : ℕ → List Meta → List Meta
unfolding refresh
refresh_all t [] = []
refresh_all t (m ∷ ms) = refresh t m ∷ refresh_all t ms

-- `snprintf(msg, sizeof(msg), …)`
unfoldable pub health_msg : HealthEvent → Text
health_msg e = take 63 (
    if e.dead
    then codes "[ALERT] Sensor '" ++ (e.name ++ codes "' DEAD")
    else codes "[INFO]  Sensor '" ++ (e.name ++ codes "' RECOVERED"))

unfoldable pub any_recovered : List HealthEvent → Bool
any_recovered [] = false
any_recovered (e ∷ es) = not e.dead || any_recovered es

-- One entry of the sensors object, `"name":true,`.
unfoldable pub json_entry : Meta → Bool → Text
json_entry m more =
    b'"'
    ∷ (m.name
        ++ (codes "\":"
            ++ ((if m.alive then codes "true" else codes "false")
                ++ (if more then codes "," else []))))

abbrev pub nonempty : List Meta → Bool
nonempty [] = false
nonempty (_ ∷ _) = true

-- The loop of `sensor_get_json` over `sp`; `none` is a read past the end of `entry`.
unfoldable pub sensors_loop : Text → List Meta → Option Text
sensors_loop sp [] = some sp
sensors_loop sp (m ∷ ms) =
    let entry = json_entry m (nonempty ms) in
    let sp' = (if ltb (length sp + length entry) 254 then sp ++ entry else sp) in
    let rest = sensors_loop sp' ms in if ltb (length entry) 32 then rest else none

unfoldable pub sensors_object : List Meta → Option Text
sensors_object ms = elim (sensors_loop (b'{' ∷ []) ms) [
  | none ↦ none
  | some sp ↦ if ltb (length sp + 1) 256 then some (sp ++ b'}' ∷ []) else none
]

module _ (fp : FloatOps) where
  -- What the final `snprintf` prints.
  unfoldable pub snapshot : Sensors → Text → Text
  snapshot s sp =
      codes "{\"temp\":"
      ++ (fp.print1 s.temp
          ++ (codes ",\"hum\":"
              ++ (fp.print1 s.hum
                  ++ (codes ",\"flow\":"
                      ++ (fp.print2 s.flow ++ (codes ",\"sensors\":" ++ (sp ++ b'}' ∷ [])))))))

  -- The buffer's string and the result; `none` is an access out of bounds.
  unfoldable pub sensor_get_json : Sensors → ℕ → Option (Text × EspErr)
  sensor_get_json s len = elim (sensors_object s.metas) [
    | none ↦ none
    | some sp ↦
        let out = snapshot s sp in
        some (take (len - 1) out, if ltb 0 (length out) && ltb (length out) len then ok else no_mem)
  ]

module _ {S : Type 0} where
  unfoldable pub enqueue_log : Text → Device S → Device S
  enqueue_log msg d =
      if d.sensors.log_queue then emit (queue_send (copy_str log_msg_len msg)) d else d

  -- `if (push_task_handle) xTaskNotifyGive(push_task_handle);`
  unfoldable pub notify : Device S → Device S
  notify d = if d.sensors.push_task_handle then emit notify_push d else d

  -- `queue_created`: whether `xQueueCreate` returns a queue; its result is stored and not looked at.
  unfoldable pub sensor_manager_init : Bool → Device S → Device S
  sensor_manager_init queue_created d = emit create_objects (record d {
    sensors = record (d.sensors) {
      metas = [];
      temp = 0;
      hum = 0;
      flow = 0;
      log_queue = queue_created;
    };
  })

  unfoldable pub sensor_register : Text → ℕ → Device S → Device S
  unfolding new_meta
  sensor_register name timeout_ms d =
      if leb max_sensors (length d.sensors.metas) then d else record d {
        sensors = record (d.sensors) { metas = d.sensors.metas ++ new_meta name timeout_ms ∷ [] };
      }

  unfoldable pub sensor_mark_alive : ℕ → Text → Device S → Device S
  sensor_mark_alive now_us name d = record d {
    sensors = record (d.sensors) { metas = touch name (now_ms now_us) d.sensors.metas };
  }

  unfoldable pub sensor_update_dht : ℕ → Float → Float → Device S → Device S
  unfolding sensor_mark_alive notify
  sensor_update_dht now_us temp hum d = notify (
      sensor_mark_alive now_us (codes "dht")
        (record d { sensors = record (d.sensors) { temp = temp; hum = hum } }))

  unfoldable pub sensor_update_flow : ℕ → Float → Device S → Device S
  unfolding sensor_mark_alive notify
  sensor_update_flow now_us lpm d = notify (
      sensor_mark_alive now_us (codes "flow")
        (record d { sensors = record (d.sensors) { flow = lpm } }))

  -- The loop over the collected events.
  unfoldable pub log_events : List HealthEvent → Device S → Device S
  unfolding enqueue_log
  log_events [] d = d
  log_events (e ∷ es) d = log_events es (enqueue_log (health_msg e) d)

  -- `t_us` is the time read on entry, before the mutex is taken.
  unfoldable pub sensor_update_health : ℕ → Device S → Device S
  unfolding log_events notify
  sensor_update_health t_us d =
      let metas = refresh_all (now_ms t_us) d.sensors.metas in
      let events = collect_events max_sensors metas in
      let d' = log_events events (record d { sensors = record (d.sensors) { metas = metas } }) in
      if any_recovered events then notify d' else d'

  unfoldable pub sensor_set_ap_mode : Bool → Device S → Device S
  sensor_set_ap_mode ap d = record d { sensors = record (d.sensors) { ap_mode = ap } }

  unfoldable pub sensor_is_ap_mode : Device S → Bool
  sensor_is_ap_mode d = d.sensors.ap_mode
