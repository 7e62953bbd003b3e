-- ===== src/Sensor/Registry.antt =====
-- src/sensor_manager.c: the registry of sensors under every operation of the module.
use esp32_hydroponics_govern.Prelude.{
  ℕ, ◌≤◌, ◌≡◌, refl, Text, codes, Bool, List, [], ◌∷◌, ◌++◌, length, length-append, length-take,
  arith,
}
use esp32_hydroponics_govern.Config.{max_sensors}
use esp32_hydroponics_govern.Platform.{Float}
use esp32_hydroponics_govern.Device.{Meta, Sensors, Device}
use esp32_hydroponics_govern.Sensor.{
  now_ms, new_meta, touch, refresh_all, HealthEvent, health_msg, collect_events, enqueue_log,
  notify, log_events, sensor_manager_init, sensor_register, sensor_mark_alive, sensor_update_dht,
  sensor_update_flow, sensor_update_health, sensor_set_ap_mode,
}

-- Every name leaves room for its NUL in 16 bytes.
abbrev pub NamesFit : List Meta → Type 0
NamesFit [] = Unit
NamesFit (m ∷ ms) = (length m.name ≤ 15) × NamesFit ms

pub record IsRegistry (s : Sensors) : Type 0 where
  pub in_table : length s.metas ≤ max_sensors
  pub names_fit : NamesFit s.metas

NamesFit-append :
    (ms : List Meta) (m : Meta) → NamesFit ms → length m.name ≤ 15 → NamesFit (ms ++ m ∷ [])
NamesFit-append [] m h k = (k, tt)
NamesFit-append (n ∷ ms) m h k = (h.0, NamesFit-append ms m h.1 k)

new_meta-fits : (name : Text) (timeout_ms : ℕ) → length (new_meta name timeout_ms).name ≤ 15
unfolding new_meta
new_meta-fits name timeout_ms = omega (arith, length-take 15 name)

length-touch : (name : Text) (t : ℕ) (ms : List Meta) → length (touch name t ms) ≡ length ms
unfolding touch
length-touch name t [] = refl
length-touch name t (m ∷ ms) = ground (arith, length-touch name t ms)

touch-NamesFit : (name : Text) (t : ℕ) (ms : List Meta) → NamesFit ms → NamesFit (touch name t ms)
unfolding touch
touch-NamesFit name t [] h = tt
touch-NamesFit name t (m ∷ ms) h = ground (arith, touch-NamesFit name t ms h.1)

pub length-refresh_all : (t : ℕ) (ms : List Meta) → length (refresh_all t ms) ≡ length ms
unfolding refresh_all
length-refresh_all t [] = refl
length-refresh_all t (m ∷ ms) = omega (arith, length-refresh_all t ms)

pub refresh_all-NamesFit : (t : ℕ) (ms : List Meta) → NamesFit ms → NamesFit (refresh_all t ms)
unfolding refresh_all
refresh_all-NamesFit t [] h = tt
refresh_all-NamesFit t (m ∷ ms) h = (h.0, refresh_all-NamesFit t ms h.1)

-- The operations of the module, as the other tasks call them.
pub data SensorOp : Type 0 where
  register : Text → ℕ → SensorOp
  mark_alive : ℕ → Text → SensorOp
  update_dht : ℕ → Float → Float → SensorOp
  update_flow : ℕ → Float → SensorOp
  update_health : ℕ → SensorOp
  set_ap_mode : Bool → SensorOp
  log : Text → SensorOp

module _ {S : Type 0} where
  unfoldable pub sensor_op : SensorOp → Device S → Device S
  sensor_op (register name timeout_ms) d = sensor_register name timeout_ms d
  sensor_op (mark_alive now_us name) d = sensor_mark_alive now_us name d
  sensor_op (update_dht now_us t h) d = sensor_update_dht now_us t h d
  sensor_op (update_flow now_us lpm) d = sensor_update_flow now_us lpm d
  sensor_op (update_health t_us) d = sensor_update_health t_us d
  sensor_op (set_ap_mode ap) d = sensor_set_ap_mode ap d
  sensor_op (log msg) d = enqueue_log msg d

  unfoldable pub sensor_ops : List SensorOp → Device S → Device S
  sensor_ops [] d = d
  sensor_ops (o ∷ os) d = sensor_ops os (sensor_op o d)

  pub sensors-notify : (d : Device S) → (notify d).sensors ≡ d.sensors
  unfolding notify
  sensors-notify d = ground arith

  pub sensors-enqueue_log : (msg : Text) (d : Device S) → (enqueue_log msg d).sensors ≡ d.sensors
  unfolding enqueue_log
  sensors-enqueue_log msg d = ground arith

module _ {S : Type 0} where
  pub sensors-log_events :
      (es : List HealthEvent) (d : Device S) → (log_events es d).sensors ≡ d.sensors
  unfolding log_events
  sensors-log_events [] d = refl
  sensors-log_events (e ∷ es) d = ground (
    arith,
    sensors-log_events es (enqueue_log (health_msg e) d),
    sensors-enqueue_log (health_msg e) d,
  )

  register-IsRegistry :
      (name : Text) (timeout_ms : ℕ) (d : Device S)
      → IsRegistry d.sensors
      → IsRegistry (sensor_register name timeout_ms d).sensors
  unfolding sensor_register
  register-IsRegistry name timeout_ms d v = ground (
    arith,
    NamesFit-append d.sensors.metas (new_meta name timeout_ms) v.names_fit
        (new_meta-fits name timeout_ms),
    length-append d.sensors.metas (new_meta name timeout_ms ∷ []),
  )

  pub mark_alive-IsRegistry :
      (now_us : ℕ) (name : Text) (d : Device S)
      → IsRegistry d.sensors
      → IsRegistry (sensor_mark_alive now_us name d).sensors
  unfolding sensor_mark_alive
  mark_alive-IsRegistry now_us name d v = ground (
    arith,
    length-touch name (now_ms now_us) d.sensors.metas,
    touch-NamesFit name (now_ms now_us) d.sensors.metas v.names_fit,
  )

  -- What the health engine leaves in the module's variables.
  pub sensors-sensor_update_health :
      (t_us : ℕ) (d : Device S)
      → (sensor_update_health t_us d).sensors
        ≡ record (d.sensors) { metas = refresh_all (now_ms t_us) d.sensors.metas }
  unfolding sensor_update_health
  sensors-sensor_update_health t_us d =
      let metas = refresh_all (now_ms t_us) d.sensors.metas in
      let d1 : Device S = record d { sensors = record (d.sensors) { metas = metas } } in
      let logged = log_events (collect_events max_sensors metas) d1 in
      ground
        (arith, sensors-log_events (collect_events max_sensors metas) d1, sensors-notify logged)

  pub health-IsRegistry :
      (t_us : ℕ) (d : Device S)
      → IsRegistry d.sensors
      → IsRegistry (sensor_update_health t_us d).sensors
  health-IsRegistry t_us d v = rw (sensors-sensor_update_health t_us d) (record {
    in_table = omega (arith, v.in_table, length-refresh_all (now_ms t_us) d.sensors.metas);
    names_fit = refresh_all-NamesFit (now_ms t_us) d.sensors.metas v.names_fit;
  })

  update_dht-IsRegistry :
      (now_us t h : ℕ) (d : Device S)
      → IsRegistry d.sensors
      → IsRegistry (sensor_update_dht now_us t h d).sensors
  unfolding sensor_update_dht
  update_dht-IsRegistry now_us t h d v = ground (
    arith,
    length-touch (codes "dht") (now_ms now_us) d.sensors.metas,
    touch-NamesFit (codes "dht") (now_ms now_us) d.sensors.metas v.names_fit,
  )

  update_flow-IsRegistry :
      (now_us lpm : ℕ) (d : Device S)
      → IsRegistry d.sensors
      → IsRegistry (sensor_update_flow now_us lpm d).sensors
  unfolding sensor_update_flow
  update_flow-IsRegistry now_us lpm d v = ground (
    arith,
    length-touch (codes "flow") (now_ms now_us) d.sensors.metas,
    touch-NamesFit (codes "flow") (now_ms now_us) d.sensors.metas v.names_fit,
  )

  sensor_op-IsRegistry :
      (o : SensorOp) (d : Device S) → IsRegistry d.sensors → IsRegistry (sensor_op o d).sensors
  unfolding sensor_op
  sensor_op-IsRegistry (register name timeout_ms) d v = register-IsRegistry name timeout_ms d v
  sensor_op-IsRegistry (mark_alive now_us name) d v = mark_alive-IsRegistry now_us name d v
  sensor_op-IsRegistry (update_dht now_us t h) d v = update_dht-IsRegistry now_us t h d v
  sensor_op-IsRegistry (update_flow now_us lpm) d v = update_flow-IsRegistry now_us lpm d v
  sensor_op-IsRegistry (update_health t_us) d v = health-IsRegistry t_us d v
  sensor_op-IsRegistry (set_ap_mode ap) d v =
      unfold sensor_set_ap_mode in record { in_table = v.in_table; names_fit = v.names_fit }
  sensor_op-IsRegistry (log msg) d v = rw (sensors-enqueue_log msg d) v

  sensor_ops-IsRegistry :
      (os : List SensorOp) (d : Device S)
      → IsRegistry d.sensors
      → IsRegistry (sensor_ops os d).sensors
  unfolding sensor_ops
  sensor_ops-IsRegistry [] d v = v
  sensor_ops-IsRegistry (o ∷ os) d v =
      sensor_ops-IsRegistry os (sensor_op o d) (sensor_op-IsRegistry o d v)

  -- After `sensor_manager_init`, whatever operations follow and with whatever names, there are at
  -- most MAX_SENSORS sensors, and every stored name leaves room for its NUL in `name[16]`.
  run-IsRegistry :
      (os : List SensorOp) (queue_created : Bool) (d : Device S)
      → IsRegistry (sensor_ops os (sensor_manager_init queue_created d)).sensors
  unfolding sensor_manager_init
  run-IsRegistry os queue_created d =
      sensor_ops-IsRegistry os (sensor_manager_init queue_created d)
        (record { in_table = omega arith; names_fit = tt })
