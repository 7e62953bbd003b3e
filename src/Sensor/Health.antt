-- ===== src/Sensor/Health.antt =====
-- src/sensor_manager.c: when the health engine holds a sensor alive, and what it reports.
use esp32_hydroponics_govern.Prelude.{
  ℕ, ◌+◌, ◌-◌, ◌%◌, ◌^◌, ◌≤◌, ◌<◌, ◌≡◌, refl, ◌↔◌, Text, text_eq, Bool, true, false, not, List,
  Bool-cases, inl, inr, codes, copy_str, ◌&&◌, ◌||◌, length-append, [], ◌∷◌, ◌++◌, Option, none,
  some, length, take, take_all, ltb, lt→ltb, arith, if◌then◌else◌,
}
use esp32_hydroponics_govern.Config.{max_sensors, log_msg_len}
use esp32_hydroponics_govern.Platform.{Call, queue_send, notify_push}
use esp32_hydroponics_govern.Device.{Meta, Device}
use esp32_hydroponics_govern.Sensor.{
  now_ms, elapsed_ms, refresh, refresh_all, HealthEvent, health_event, differs, health_msg,
  collect_events, any_recovered, enqueue_log, log_events, sensor_update_health,
}
use esp32_hydroponics_govern.Sensor.Registry.{
  NamesFit, IsRegistry, sensors-enqueue_log, sensors-log_events, length-refresh_all,
}

-- The first sensor of a name.
unfoldable pub find_meta : Text → List Meta → Option Meta
find_meta name [] = none
find_meta name (m ∷ ms) = if text_eq m.name name then some m else find_meta name ms

-- The 32-bit millisecond counter measures every time shorter than its period, across a wrap too.
pub elapsed_ms_lem : (t0 e : ℕ) → e < 2 ^ 32 → elapsed_ms ((t0 + e) % 2 ^ 32) (t0 % 2 ^ 32) ≡ e
unfolding elapsed_ms
elapsed_ms_lem t0 e h = omega arith

-- A sensor seen at millisecond `t0` of the boot and checked `e` ms later, less than the 2 to the 32 ms of
-- the counter's period, is held alive exactly when `e` is below its timeout, also when the counter has
-- wrapped in between. The sensor has been heard from at all. After a period or more the code measures the
-- remainder only.
pub refresh-alive :
    (m : Meta) (t0 e : ℕ)
    → e < 2 ^ 32
    → m.active ≡ true
    → m.last_seen_ms ≡ t0 % 2 ^ 32
    → ((refresh ((t0 + e) % 2 ^ 32) m).alive ≡ true) ↔ (e < m.timeout_ms)
unfolding refresh
refresh-alive m t0 e h act seen = rw (act, seen, elapsed_ms_lem t0 e h) (ground arith)

-- A sensor marked alive in the 1 to 2 ^ 31 ms after the health engine has read the clock, and before
-- it has the mutex, is held dead, whatever its timeout below 2 ^ 31 ms.
pub refresh_race :
    (m : Meta) (t late : ℕ)
    → 0 < late
    → late ≤ 2 ^ 31
    → t + late < 2 ^ 32
    → m.timeout_ms < 2 ^ 31
    → m.last_seen_ms ≡ t + late
    → (refresh t m).alive ≡ false
unfolding refresh elapsed_ms
refresh_race m t late pos small nowrap timeout seen = ground arith

-- The events of a list of sensors, with no bound on their number.
unfoldable pub all_events : List Meta → List HealthEvent
all_events [] = []
all_events (m ∷ ms) = health_event m ++ all_events ms

length-health_event : (m : Meta) → length (health_event m) ≤ 1
unfolding health_event
length-health_event m = ground arith

collect_events_all :
    (room : ℕ) (ms : List Meta) → length ms ≤ room → collect_events room ms ≡ all_events ms
unfolding collect_events all_events
collect_events_all room [] h = refl
collect_events_all room (m ∷ ms) h =
    let left = room - length (health_event m) in
    rw (
      lt→ltb 0 room (omega arith),
      collect_events_all left ms (omega (arith, length-health_event m)),
    )

-- What a cycle at time `t` has to report of the sensors as they stand before it: every dead sensor,
-- and every living one that was dead.
abbrev pub alert : Text → Text
alert name = codes "[ALERT] Sensor '" ++ (name ++ codes "' DEAD")

abbrev pub recovered : Text → Text
recovered name = codes "[INFO]  Sensor '" ++ (name ++ codes "' RECOVERED")

abbrev pub is_seen : ℕ → Meta → Bool
is_seen t m = m.active && ltb (elapsed_ms t m.last_seen_ms) m.timeout_ms

unfoldable pub report : ℕ → List Meta → List Text
report t [] = []
report t (m ∷ ms) =
    let rest = report t ms in
    if is_seen t m then (if m.alive then rest else recovered m.name ∷ rest) else alert m.name ∷ rest

-- Does a dead sensor come back?
unfoldable pub some_recover : ℕ → List Meta → Bool
some_recover t [] = false
some_recover t (m ∷ ms) = (is_seen t m && not m.alive) || some_recover t ms

-- A trace after so many messages to the log queue.
unfoldable pub sent : List Text → List Call → List Call
sent [] calls = calls
sent (m ∷ ms) calls = sent ms (queue_send m ∷ calls)

-- A name between two fixed texts fits where the whole can have at most `n` bytes.
framed_fits :
    (n : ℕ) (pre name post : Text)
    → length name ≤ 15
    → length pre + 15 + length post ≤ n
    → take n (pre ++ (name ++ post)) ≡ pre ++ (name ++ post)
framed_fits n pre name post h k =
    take_all n (pre ++ (name ++ post))
      (omega (arith, length-append pre (name ++ post), length-append name post))

alert_fits : (n : ℕ) (name : Text) → length name ≤ 15 → 63 ≤ n → take n (alert name) ≡ alert name
unfolding codes
alert_fits n name h k =
    framed_fits n (codes "[ALERT] Sensor '") name (codes "' DEAD") h (omega arith)

recovered_fits :
    (n : ℕ) (name : Text) → length name ≤ 15 → 63 ≤ n → take n (recovered name) ≡ recovered name
unfolding codes
recovered_fits n name h k =
    framed_fits n (codes "[INFO]  Sensor '") name (codes "' RECOVERED") h (omega arith)

message_fits :
    (e : HealthEvent)
    → length e.name ≤ 15
    → copy_str log_msg_len (health_msg e) ≡ (if e.dead then alert e.name else recovered e.name)
unfolding health_msg
message_fits e h = elim (Bool-cases e.dead) [
  | inl dead ↦
      rw (dead, alert_fits 63 e.name h (omega arith), alert_fits 127 e.name h (omega arith))
  | inr back ↦
      rw (back, recovered_fits 63 e.name h (omega arith), recovered_fits 127 e.name h (omega arith))
]

event_of : Bool → Meta → HealthEvent
event_of dead m = record { dead = dead; transition = differs m.alive (not dead); name = m.name }

health_event-refresh :
    (t : ℕ) (m : Meta)
    → length m.name ≤ 15
    → health_event (refresh t m) ≡ (
        if is_seen t m
        then (if m.alive then [] else event_of false m ∷ [])
        else event_of true m ∷ [])
unfolding health_event refresh event_of
health_event-refresh t m h = rw (take_all 15 m.name h) (ground arith)

module _ {S : Type 0} where
  trace-enqueue_log :
      (msg : Text) (d : Device S)
      → d.sensors.log_queue ≡ true
      → (enqueue_log msg d).trace ≡ queue_send (copy_str log_msg_len msg) ∷ d.trace
  unfolding enqueue_log
  trace-enqueue_log msg d q = ground arith

  -- One message, then those of the other sensors.
  log_one :
      (t : ℕ) (ms : List Meta) (d : Device S) (e : HealthEvent) (msg : Text)
      → ((d' : Device S)
          → d'.sensors.log_queue ≡ true
          → (log_events (all_events (refresh_all t ms)) d').trace ≡ sent (report t ms) d'.trace)
      → d.sensors.log_queue ≡ true
      → copy_str log_msg_len (health_msg e) ≡ msg
      → (log_events (e ∷ all_events (refresh_all t ms)) d).trace ≡ sent (msg ∷ report t ms) d.trace
  unfolding log_events sent
  log_one t ms d e msg others q fits =
      let d' = enqueue_log (health_msg e) d in
      rw (
        others d' (rw (sensors-enqueue_log (health_msg e) d) q),
        trace-enqueue_log (health_msg e) d q,
        fits,
      )

  -- What the events of one cycle add to the trace.
  trace-log_events :
      (t : ℕ) (ms : List Meta) (d : Device S)
      → NamesFit ms
      → d.sensors.log_queue ≡ true
      → (log_events (all_events (refresh_all t ms)) d).trace ≡ sent (report t ms) d.trace
  unfolding all_events refresh_all report event_of log_events health_msg
  trace-log_events t [] d h q = unfold sent in refl
  trace-log_events t (m ∷ ms) d h q =
      let others = λ (d' : Device S). trace-log_events t ms d' h.1 in
      let one = λ (dead : Bool) (msg : Text). log_one t ms d (event_of dead m) msg others q in
      elim (Bool-cases (is_seen t m)) [
        | inr lost ↦
            rw (health_event-refresh t m h.0, lost)
              (one true (alert m.name) (message_fits (event_of true m) h.0))
        | inl seen ↦ elim (Bool-cases m.alive) [
          | inl same ↦ rw (health_event-refresh t m h.0, seen, same) (others d q)
          | inr back ↦
              rw (health_event-refresh t m h.0, seen, back)
                (one false (recovered m.name) (message_fits (event_of false m) h.0))
        ]
      ]

any_recovered-all_events :
    (t : ℕ) (ms : List Meta) → any_recovered (all_events (refresh_all t ms)) ≡ some_recover t ms
unfolding any_recovered all_events refresh_all some_recover refresh health_event
any_recovered-all_events t [] = refl
any_recovered-all_events t (m ∷ ms) = ground (arith, any_recovered-all_events t ms)

module _ {S : Type 0} where
  -- With a valid registry and the log queue created, one cycle of the health engine sends an alert
  -- for each dead sensor and a note for each one that has come back, whole, in the order of
  -- registration, and nothing else, and then wakes the push task exactly if a sensor came back and
  -- the task exists.
  pub sensor_update_health-reports :
      (t_us : ℕ) (d : Device S)
      → IsRegistry d.sensors
      → d.sensors.log_queue ≡ true
      → let calls = sent (report (now_ms t_us) d.sensors.metas) d.trace in
        (sensor_update_health t_us d).trace ≡ (
          if some_recover (now_ms t_us) d.sensors.metas && d.sensors.push_task_handle
          then notify_push ∷ calls
          else calls)
  unfolding sensor_update_health
  sensor_update_health-reports t_us d v q =
      let metas = d.sensors.metas in
      let t = now_ms t_us in
      let d1 : Device S = record d {
        sensors = record (d.sensors) { metas = refresh_all t metas };
      } in
      let es = all_events (refresh_all t metas) in
      rw
        (
          collect_events_all max_sensors (refresh_all t metas)
              (omega (arith, length-refresh_all t metas, v.in_table)),
          any_recovered-all_events t metas,
        )
        (ground (arith, trace-log_events t metas d1 v.names_fit q, sensors-log_events es d1))
