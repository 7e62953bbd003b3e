-- ===== src/Tests/Sensors.antt =====
-- Examples for src/sensor_manager.c.
use esp32_hydroponics_govern.Prelude.{
  ◌+◌, ◌-◌, ◌%◌, ◌^◌, ◌<◌, ◌≡◌, ◌↔◌, refl, true, false, ◌&&◌, ltb, length, take, List, [], ◌∷◌,
  ◌++◌, none, some, codes, text_eq, arith, if◌then◌else◌,
}
use esp32_hydroponics_govern.Platform.{ok, no_mem, notify_push}
use esp32_hydroponics_govern.Device.{Meta, Device, boot}
use esp32_hydroponics_govern.Sensor.{
  new_meta, now_ms, elapsed_ms, refresh, sensor_register, sensor_update_health, snapshot,
  sensor_get_json,
}
use esp32_hydroponics_govern.Sensor.Registry.{
  SensorOp, register, mark_alive, update_flow, update_health, sensor_op, sensor_ops, IsRegistry,
}
use esp32_hydroponics_govern.Sensor.Health.{
  find_meta, elapsed_ms_lem, refresh-alive, refresh_race, report, some_recover, sent,
  sensor_update_health-reports,
}
use esp32_hydroponics_govern.Sensor.Report.{whole_object, sensor_get_json_lem}
use esp32_hydroponics_govern.Sensor.History.{last_heard, lives, sensor_ops-lives}
use esp32_hydroponics_govern.Tests.{Store, device, whole_floats, home}

abbrev ops : List SensorOp
ops =
    register home 5000
    ∷ register (home ++ home ++ home ++ home ++ home) 10
    ∷ mark_alive 2000000 home
    ∷ update_flow 2500000 7
    ∷ update_health 9000000
    ∷ []

-- Across the wrap of the counter.
elapsed_ms_lem_example : elapsed_ms ((4294967000 + 500) % 2 ^ 32) (4294967000 % 2 ^ 32) ≡ 500
elapsed_ms_lem_example = elapsed_ms_lem 4294967000 500 (omega arith)

-- A sensor that was seen shortly before the wrap, and one that has come back.
abbrev flow_meta : Meta
flow_meta = record {
  name = b'f' ∷ b'l' ∷ b'o' ∷ b'w' ∷ [];
  timeout_ms = 5000;
  last_seen_ms = 4294967000;
  active = true;
  alive = true;
  prev_alive = true;
}

refresh-alive_example :
    ((refresh ((4294967000 + 500) % 2 ^ 32) flow_meta).alive ≡ true) ↔ (500 < 5000)
refresh-alive_example = refresh-alive flow_meta 4294967000 500 (omega arith) refl refl

abbrev fresh_meta : Meta
fresh_meta = record flow_meta { last_seen_ms = 1001; alive = false; prev_alive = false }

refresh_race_example : (refresh 1000 fresh_meta).alive ≡ false
refresh_race_example =
    refresh_race fresh_meta 1000 1 (omega arith) (omega arith) (omega arith) (omega arith) refl

abbrev running : Device Store
running = record device {
  sensors = record (device.sensors) {
    metas = flow_meta ∷ record fresh_meta { name = home; last_seen_ms = 100 } ∷ [];
    temp = 23;
    log_queue = true;
    push_task_handle = true;
  };
}

running-IsRegistry : IsRegistry running.sensors
running-IsRegistry = record { in_table = omega arith; names_fit = (omega arith, (omega arith, tt)) }

sensor_update_health-reports_example :
    let calls = sent (report (now_ms 1000000) running.sensors.metas) running.trace in
    (sensor_update_health 1000000 running).trace ≡ (
      if some_recover (now_ms 1000000) running.sensors.metas && running.sensors.push_task_handle
      then notify_push ∷ calls
      else calls)
sensor_update_health-reports_example =
    sensor_update_health-reports 1000000 running running-IsRegistry refl

sensor_get_json_lem_example :
    let out = snapshot whole_floats running.sensors (whole_object running.sensors.metas) in
    sensor_get_json whole_floats running.sensors 384
    ≡ some (if ltb (length out) 384 then (out, ok) else (take (384 - 1) out, no_mem))
sensor_get_json_lem_example =
    sensor_get_json_lem whole_floats running.sensors 384 running-IsRegistry

-- `home` is registered, then heard twice, and `flow` never.
abbrev registered : Device Store
registered = sensor_ops (register home 5000 ∷ register (codes "flow") 2000 ∷ []) device

abbrev rounds : List SensorOp
rounds = mark_alive 2000000 home ∷ update_health 2500000 ∷ mark_alive 3000000 home ∷ []

abbrev home_meta : Meta
home_meta = new_meta home 5000

home_found : find_meta home registered.sensors.metas ≡ some home_meta
unfolding find_meta sensor_ops sensor_op sensor_register text_eq boot
home_found = refl

sensor_ops-lives_example :
    (m' : Meta) × (find_meta home
        (sensor_update_health 7000000 (sensor_ops rounds registered)).sensors.metas
      ≡ some m')
    × (m'.alive ≡ lives (now_ms 7000000) 5000 (last_heard home rounds none))
unfolding new_meta
sensor_ops-lives_example = sensor_ops-lives rounds home 7000000 home_meta registered home_found

still_alive : lives (now_ms 7000000) 5000 (last_heard home rounds none) ≡ true
unfolding lives last_heard text_eq elapsed_ms now_ms
still_alive = refl
