-- ===== src/Sensor/History.antt =====
-- src/sensor_manager.c: the registry remembers of its history what the health engine needs. The
-- reference keeps no table: it reads the operations again.
use esp32_hydroponics_govern.Prelude.{
  ℕ, ◌≡◌, refl, sym, ◌∙◌, ap, ap₂, Text, text_eq, text_eq_refl, text_eq_sound, codes, Bool, true,
  false, List, [], ◌∷◌, ◌++◌, Option, none, some, length, Bool-cases, inl, inr, ltb, leb, arith,
  if◌then◌else◌,
}
use esp32_hydroponics_govern.Config.{max_sensors}
use esp32_hydroponics_govern.Device.{Meta, Device}
use esp32_hydroponics_govern.Sensor.{
  now_ms, elapsed_ms, new_meta, touch, refresh, refresh_all, sensor_register, sensor_mark_alive,
  sensor_update_dht, sensor_update_flow, sensor_update_health, sensor_set_ap_mode,
}
use esp32_hydroponics_govern.Sensor.Registry.{
  SensorOp, register, mark_alive, update_dht, update_flow, update_health, set_ap_mode, log,
  sensor_op, sensor_ops, sensors-notify, sensors-enqueue_log, sensors-sensor_update_health,
}
use esp32_hydroponics_govern.Sensor.Health.{find_meta}

-- When an operation hears from a sensor.
abbrev pub heard_in : Text → SensorOp → Option ℕ → Option ℕ
heard_in name (register other timeout_ms) o = o
heard_in name (mark_alive now_us other) o = if text_eq name other then some (now_ms now_us) else o
heard_in name (update_dht now_us t h) o =
    if text_eq name (codes "dht") then some (now_ms now_us) else o
heard_in name (update_flow now_us lpm) o =
    if text_eq name (codes "flow") then some (now_ms now_us) else o
heard_in name (update_health t_us) o = o
heard_in name (set_ap_mode on) o = o
heard_in name (log msg) o = o

-- When a sensor was heard last, through these operations.
unfoldable pub last_heard : Text → List SensorOp → Option ℕ → Option ℕ
last_heard name [] o = o
last_heard name (op ∷ ops) o = last_heard name ops (heard_in name op o)

-- Whether a sensor that was heard then lives.
unfoldable pub lives : ℕ → ℕ → Option ℕ → Bool
lives t timeout_ms none = false
lives t timeout_ms (some seen) = ltb (elapsed_ms t seen) timeout_ms

-- What an entry of the table remembers.
abbrev pub seen : Meta → Option ℕ
seen m = if m.active then some m.last_seen_ms else none

-- The first entry of the name, with this timeout, remembers this.
pub record Remembers (name : Text) (timeout_ms : ℕ) (o : Option ℕ) (ms : List Meta) : Type 0 where
  pub entry : Meta
  pub found : find_meta name ms ≡ some entry
  pub timeout : entry.timeout_ms ≡ timeout_ms
  pub remembered : seen entry ≡ o

find_meta-refresh_all :
    (name : Text) (t : ℕ) (ms : List Meta) (m : Meta)
    → find_meta name ms ≡ some m
    → find_meta name (refresh_all t ms) ≡ some (refresh t m)
unfolding find_meta refresh_all refresh
find_meta-refresh_all name t [] m h = ground (arith, h)
find_meta-refresh_all name t (n ∷ ms) m h = elim (Bool-cases (text_eq n.name name)) [
  | inl same ↦ ground (arith, h, same)
  | inr other ↦ ground (arith, h, other, find_meta-refresh_all name t ms m)
]

find_meta-append :
    (name : Text) (ms ns : List Meta) (m : Meta)
    → find_meta name ms ≡ some m
    → find_meta name (ms ++ ns) ≡ some m
unfolding find_meta
find_meta-append name [] ns m h = ground (arith, h)
find_meta-append name (n ∷ ms) ns m h = ground (arith, find_meta-append name ms ns m)

both_names :
    (a b other : Text) → text_eq a other ≡ true → text_eq b other ≡ true → text_eq a b ≡ true
both_names a b other h k =
    rw (text_eq_sound a other h, text_eq_sound b other k) (text_eq_refl other)

find_meta-touch :
    (name other : Text) (t : ℕ) (ms : List Meta) (m : Meta)
    → find_meta name ms ≡ some m
    → find_meta name (touch other t ms)
      ≡ some (if text_eq name other then record m { last_seen_ms = t; active = true } else m)
unfolding find_meta touch
find_meta-touch name other t [] m h = ground (arith, h)
find_meta-touch name other t (n ∷ ms) m h = elim (Bool-cases (text_eq n.name name)) [
  | inl same ↦
      let e : text_eq name other ≡ text_eq n.name other =
        ap (λ x. text_eq x other) (sym (text_eq_sound n.name name same)) in
      elim (Bool-cases (text_eq n.name other)) [
        | inl hit ↦ ground (arith, h, same, e, hit)
        | inr miss ↦ ground (arith, h, same, e, miss)
      ]
  | inr differ ↦ elim (Bool-cases (text_eq n.name other)) [
    | inr miss ↦ ground (arith, h, differ, miss, find_meta-touch name other t ms m)
    | inl hit ↦ elim (Bool-cases (text_eq name other)) [
      | inr free ↦ ground (arith, h, differ, hit, free)
      | inl both ↦ absurd (ground (arith, differ, both_names n.name name other hit both))
    ]
  ]
]

touch-Remembers :
    (name other : Text) (t timeout_ms : ℕ) (o : Option ℕ) (ms : List Meta)
    → Remembers name timeout_ms o ms
    → Remembers name timeout_ms (if text_eq name other then some t else o) (touch other t ms)
touch-Remembers name other t timeout_ms o ms v = record {
  entry =
      if text_eq name other then record (v.entry) { last_seen_ms = t; active = true } else v.entry;
  found = find_meta-touch name other t ms v.entry v.found;
  timeout = ground (arith, v.timeout);
  remembered = ground (arith, v.remembered);
}

refresh_all-Remembers :
    (name : Text) (t timeout_ms : ℕ) (o : Option ℕ) (ms : List Meta)
    → Remembers name timeout_ms o ms
    → Remembers name timeout_ms o (refresh_all t ms)
unfolding refresh
refresh_all-Remembers name t timeout_ms o ms v = record {
  entry = refresh t v.entry;
  found = find_meta-refresh_all name t ms v.entry v.found;
  timeout = v.timeout;
  remembered = v.remembered;
}

append-Remembers :
    (name : Text) (timeout_ms : ℕ) (o : Option ℕ) (ms ns : List Meta)
    → Remembers name timeout_ms o ms
    → Remembers name timeout_ms o (ms ++ ns)
append-Remembers name timeout_ms o ms ns v = record {
  entry = v.entry;
  found = find_meta-append name ms ns v.entry v.found;
  timeout = v.timeout;
  remembered = v.remembered;
}

refresh-lives : (t : ℕ) (m : Meta) → (refresh t m).alive ≡ lives t m.timeout_ms (seen m)
unfolding refresh lives
refresh-lives t m = elim (Bool-cases m.active) [
  | inl active ↦ rw active refl
  | inr silent ↦ rw silent refl
]

module _ {S : Type 0} where
  op-Remembers :
      (op : SensorOp) (name : Text) (timeout_ms : ℕ) (o : Option ℕ) (d : Device S)
      → Remembers name timeout_ms o d.sensors.metas
      → Remembers name timeout_ms (heard_in name op o) (sensor_op op d).sensors.metas
  unfolding sensor_op sensor_register sensor_mark_alive sensor_update_dht sensor_update_flow
      sensor_set_ap_mode
  op-Remembers (register other limit) name timeout_ms o d v =
      elim (Bool-cases (leb max_sensors (length d.sensors.metas))) [
        | inl full ↦ rw full v
        | inr room ↦
            rw room
              (append-Remembers name timeout_ms o d.sensors.metas (new_meta other limit ∷ []) v)
      ]
  op-Remembers (mark_alive now_us other) name timeout_ms o d v =
      touch-Remembers name other (now_ms now_us) timeout_ms o d.sensors.metas v
  op-Remembers (update_dht now_us t h) name timeout_ms o d v =
      rw
        (sensors-notify (
          sensor_mark_alive now_us (codes "dht")
            (record d { sensors = record (d.sensors) { temp = t; hum = h } })))
        (touch-Remembers name (codes "dht") (now_ms now_us) timeout_ms o d.sensors.metas v)
  op-Remembers (update_flow now_us lpm) name timeout_ms o d v =
      rw
        (sensors-notify (
          sensor_mark_alive now_us (codes "flow")
            (record d { sensors = record (d.sensors) { flow = lpm } })))
        (touch-Remembers name (codes "flow") (now_ms now_us) timeout_ms o d.sensors.metas v)
  op-Remembers (update_health t_us) name timeout_ms o d v =
      rw (sensors-sensor_update_health t_us d)
        (refresh_all-Remembers name (now_ms t_us) timeout_ms o d.sensors.metas v)
  op-Remembers (set_ap_mode on) name timeout_ms o d v = v
  op-Remembers (log msg) name timeout_ms o d v = rw (sensors-enqueue_log msg d) v

  ops-Remembers :
      (ops : List SensorOp) (name : Text) (timeout_ms : ℕ) (o : Option ℕ) (d : Device S)
      → Remembers name timeout_ms o d.sensors.metas
      → Remembers name timeout_ms (last_heard name ops o) (sensor_ops ops d).sensors.metas
  unfolding sensor_ops last_heard
  ops-Remembers [] name timeout_ms o d v = v
  ops-Remembers (op ∷ ops) name timeout_ms o d v =
      ops-Remembers ops name timeout_ms (heard_in name op o) (sensor_op op d)
        (op-Remembers op name timeout_ms o d v)

  -- The table implements the history: for a sensor that is registered, through any operations of any
  -- tasks, the next cycle of the health engine holds it alive exactly if the operations, read again,
  -- have heard from it less than its timeout ago on the 32-bit clock; what came before them counts
  -- where they never did, and a sensor that was never heard is dead.
  pub sensor_ops-lives :
      (ops : List SensorOp) (name : Text) (t_us : ℕ) (m : Meta) (d : Device S)
      → find_meta name d.sensors.metas ≡ some m
      → (m' : Meta) × (find_meta name (sensor_update_health t_us (sensor_ops ops d)).sensors.metas
          ≡ some m')
        × (m'.alive ≡ lives (now_ms t_us) m.timeout_ms (last_heard name ops (seen m)))
  sensor_ops-lives ops name t_us m d h =
      let v =
        ops-Remembers ops name m.timeout_ms (seen m) d
          (record { entry = m; found = h; timeout = refl; remembered = refl }) in
      let d1 = sensor_ops ops d in
      (
        refresh (now_ms t_us) v.entry,
        rw (sensors-sensor_update_health t_us d1)
            (find_meta-refresh_all name (now_ms t_us) d1.sensors.metas v.entry v.found),
        refresh-lives (now_ms t_us) v.entry
            ∙ ap₂ (λ l o. lives (now_ms t_us) l o) v.timeout v.remembered,
      )
