-- ===== src/Main.antt =====
-- src/main.c: the flow counter, the bodies of the tasks, the start-up sequence and the main loop.
pub mod Tasks
pub mod Loop
use esp32_hydroponics_govern.Prelude.{
  ℕ, ◌+◌, ◌-◌, ◌%◌, ◌^◌, Text, codes, strstr, Bool, true, false, not, ◌&&◌, ◌||◌, List, [], ◌∷◌,
  ◌++◌, Option, none, some, take, leb, if◌then◌else◌,
}
use esp32_hydroponics_govern.Config.{
  dht_gpio, flow_gpio, sensor_dht_timeout_ms, sensor_flow_timeout_ms, flow_measure_interval_ms,
  ws_json_buf_size,
}
use esp32_hydroponics_govern.Platform.{
  EspErr, is_ok, Float, FloatOps, Run, returned, aborted, check, delay, task_yield, create_task,
  dht_task, flow_task, push_task, logger_task, sensor_view_task, gpio_input_isr,
}
use esp32_hydroponics_govern.Device.{Sensors, WifiState, failed, stop_dns, Device, emit}
use esp32_hydroponics_govern.Sensor.{
  sensor_manager_init, sensor_register, sensor_mark_alive, sensor_update_dht, sensor_update_flow,
  sensor_update_health, sensor_get_json, sensor_is_ap_mode, enqueue_log,
}
use esp32_hydroponics_govern.Dht.{Line, ReadResult, dht11_read}
use esp32_hydroponics_govern.Dns.{dns_server_start}
use esp32_hydroponics_govern.Led.{led_manager_start}
use esp32_hydroponics_govern.Telnet.{telnet_server_start, telnet_server_send}
use esp32_hydroponics_govern.Wifi.Credentials.{NvsApi}
use esp32_hydroponics_govern.Wifi.Connect.{
  Answer, wifi_manager_reconnect, wifi_manager_set_ap_shutdown_cb,
}
use esp32_hydroponics_govern.Wifi.Startup.{
  InitAnswer, StartAnswer, wifi_manager_init, wifi_manager_start,
}
use esp32_hydroponics_govern.Web.Push.{Client, web_server_push_sensor_update}
use esp32_hydroponics_govern.Web.Server.{web_server_start}

-- `last_t` and `last_h` of `dht_task`, which start at -999.0f.
pub record LastReading : Type 0 where
  pub last_t : Float
  pub last_h : Float

abbrev pub is_failed : WifiState → Bool
is_failed failed = true
is_failed _ = false

module _ {S : Type 0} where
  -- `s_pulse_count` is a uint32_t.
  unfoldable pub flow_isr_handler : Device S → Device S
  flow_isr_handler d = record d { pulse_count = (d.pulse_count + 1) % 2 ^ 32 }

  -- The loop body of `flow_task` after its delay.
  unfoldable pub flow_round : FloatOps → ℕ → Device S → Device S
  flow_round fp now_us d =
      sensor_update_flow now_us (fp.div_pulses (fp.of_int d.pulse_count))
        (record d { pulse_count = 0 })

  -- The loop body of `dht_task` with what `dht11_read` returned; `alive_us` and `update_us` are the
  -- times that the two calls read.
  unfoldable pub dht_round :
      FloatOps → ℕ → ℕ → Option (Float × Float) → LastReading → Device S → LastReading × Device S
  dht_round fp alive_us update_us none last d = (last, emit (delay 1000) d)
  dht_round fp alive_us update_us (some (t, h)) last d =
      let d1 = sensor_mark_alive alive_us (codes "dht") d in
      if fp.ne t last.last_t || fp.ne h last.last_h
      then (
        record { last_t = t; last_h = h },
        emit (delay 1000) (sensor_update_dht update_us t h d1),
      )
      else (last, emit (delay 1000) d1)

  -- With the read itself; `none` is a busy-wait out of fuel.
  unfoldable pub dht_cycle :
      FloatOps → Line → ℕ → ℕ → ℕ → ℕ → LastReading → Device S → Option (LastReading × Device S)
  unfolding dht_round
  dht_cycle fp line fuel k alive_us update_us last d = elim (dht11_read fp line fuel dht_gpio k d) [
    | none ↦ none
    | some r ↦ some (dht_round fp alive_us update_us r.reading last r.device)
  ]

  -- The loop body of `push_task` after a notification; `none` is an access out of bounds.
  unfoldable pub push_round : FloatOps → Option (List Client) → Device S → Option (Device S)
  push_round fp clients d = elim (sensor_get_json fp d.sensors ws_json_buf_size) [
    | none ↦ none
    | some (buf, ret) ↦
        some
          (emit task_yield (if is_ok ret then web_server_push_sensor_update clients buf d else d))
  ]

  -- The loop body of `logger_task` with the message that it received.
  unfoldable pub logger_round : Text → Device S → Device S
  logger_round msg d = telnet_server_send msg d

-- `strstr(s, key) != NULL`
abbrev pub mentions : Text → Text → Bool
mentions key s = elim (strstr key s) [ none ↦ false | some _ ↦ true ]

-- The line that `sensor_view_task` logs while the access point is up.
unfoldable pub heartbeat : Text → Text
heartbeat buf =
    let dht_ok = mentions (codes "\"dht\":true") buf in
    let flow_ok = mentions (codes "\"flow\":true") buf in
    take 63 (
      codes "[SENSOR] dht:"
      ++ ((if dht_ok then codes "OK" else codes "DEAD")
          ++ (codes " flow:" ++ (if flow_ok then codes "OK" else codes "DEAD"))))

module _ {S : Type 0} where
  -- The loop body of `sensor_view_task`; `none` is an access out of bounds.
  unfoldable pub view_round : FloatOps → Device S → Option (Device S)
  unfolding heartbeat
  view_round fp d = elim (sensor_get_json fp d.sensors ws_json_buf_size) [
    | none ↦ none
    | some (buf, ret) ↦
        let line = (if sensor_is_ap_mode d then heartbeat buf else buf) in
        some (emit (delay 1000) (if is_ok ret then enqueue_log line d else d))
  ]

-- What the libraries answer to `app_main` up to its loop.
pub record MainAnswer : Type 0 where
  pub gpio : EspErr
  pub isr_service : EspErr
  pub isr_handler : EspErr
  pub wifi_init : InitAnswer
  pub wifi_start : StartAnswer
  pub queue_created : Bool
  pub dns_created : Bool
  pub httpd : EspErr
  pub telnet_mutex : Bool
  pub telnet_created : Bool
  pub led_created : Bool
  pub push_created : Bool

-- `last_health_us` and `last_reconnect_us`
pub record Ticks : Type 0 where
  pub last_health_us : ℕ
  pub last_reconnect_us : ℕ

module _ {S : Type 0} where
  -- Step 7: the tasks. The results of the calls are not looked at; the third sets `push_task_handle`
  -- where it creates its task.
  unfoldable pub create_tasks : Bool → Device S → Device S
  create_tasks push_created d =
      let d1 =
        emit (create_task push_task)
          (emit (create_task flow_task) (emit (create_task dht_task) d)) in
      let d2 = record d1 { sensors = record (d1.sensors) { push_task_handle = push_created } } in
      emit (create_task sensor_view_task) (emit (create_task logger_task) d2)

  -- Steps 4 to 7.
  unfoldable pub start_services : MainAnswer → Device S → Run (Device S) (Unit {0})
  unfolding create_tasks
  start_services a d =
      let (d1, dns_ret) =
        (if d.wifi.ap_active then dns_server_start a.dns_created d else (d, EspErr.ok)) in
      let (d2, http_ret) = web_server_start a.httpd d1 in
      let (d3, telnet_ret) = telnet_server_start a.telnet_mutex a.telnet_created d2 in
      let (d4, led_ret) = led_manager_start a.led_created d3 in
      check dns_ret d1 (
        check http_ret d2
          (check telnet_ret d3 (check led_ret d4 (returned tt (create_tasks a.push_created d4)))))

  -- Steps 1 and 2.
  unfoldable pub start_sensors : Bool → Device S → Device S
  start_sensors queue_created d = emit (gpio_input_isr flow_gpio) (
      sensor_register (codes "flow") sensor_flow_timeout_ms
        (sensor_register (codes "dht") sensor_dht_timeout_ms (sensor_manager_init queue_created d)))

module _ {S : Type 0} (api : NvsApi S) where
  -- `app_main` up to its loop; `none` is a write out of bounds in the scan before the portal.
  unfoldable pub app_main_start : MainAnswer → Device S → Option (Run (Device S) (Unit {0}))
  unfolding start_sensors start_services
  app_main_start a d =
      let d1 = start_sensors a.queue_created d in
      if is_ok a.gpio && (is_ok a.isr_service && is_ok a.isr_handler)
      then elim (wifi_manager_init api a.wifi_init d1) [
        | aborted d2 ↦ some (aborted d2)
        | returned _ d2 ↦
            elim (wifi_manager_start api a.wifi_start
              (wifi_manager_set_ap_shutdown_cb stop_dns d2)) [
                | none ↦ none
                | some r ↦ elim r [
                  | aborted d3 ↦ some (aborted d3)
                  | returned ret d3 ↦ some (check ret d3 (start_services a d3))
                ]
              ]
      ]
      else some (aborted d1)

  -- One round of the main loop at time `now`; `answer` is for a reconnect in it, and `health_us` the
  -- time that the health engine reads.
  unfoldable pub main_round : ℕ → ℕ → Answer → Ticks → Device S → Ticks × Device S
  main_round now health_us answer t d =
      let due = leb 1000000 (now - t.last_health_us) in
      let d1 = (if due then sensor_update_health health_us d else d) in
      let t1 = (if due then record t { last_health_us = now } else t) in
      let lost = not d1.wifi.ap_active && is_failed d1.wifi.state in
      if lost && leb 30000000 (now - t.last_reconnect_us)
      then (
        record t1 { last_reconnect_us = now },
        emit (delay 100) (wifi_manager_reconnect api answer d1).0,
      )
      else (t1, emit (delay 100) d1)
