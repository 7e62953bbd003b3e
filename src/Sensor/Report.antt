-- ===== src/Sensor/Report.antt =====
-- src/sensor_manager.c: the JSON snapshot stays inside its buffers and names every sensor.
use esp32_hydroponics_govern.Prelude.{
  ℕ, ◌+◌, ◌-◌, ◌*◌, ◌≤◌, ◌<◌, ◌≡◌, refl, ap, Text, codes, Bool, true, false, List, [], ◌∷◌, ◌++◌,
  append_assoc, append-nil, some, length, length-append, take, take_all, ltb, lt→ltb, arith,
  if◌then◌else◌, Bool-cases, inl, inr,
}
use esp32_hydroponics_govern.Platform.{EspErr, ok, no_mem, FloatOps}
use esp32_hydroponics_govern.Device.{Meta, Sensors}
use esp32_hydroponics_govern.Sensor.{
  json_entry, nonempty, sensors_loop, sensors_object, snapshot, sensor_get_json,
}
use esp32_hydroponics_govern.Sensor.Registry.{NamesFit, IsRegistry}

-- Every entry, with nothing cut.
unfoldable pub all_entries : List Meta → Text
all_entries [] = []
all_entries (m ∷ ms) = json_entry m (nonempty ms) ++ all_entries ms

length-flag : (b : Bool) → length (if b then codes "true" else codes "false") ≤ 5
unfolding codes
length-flag true = omega arith
length-flag false = omega arith

length-comma : (b : Bool) → length (if b then codes "," else []) ≤ 1
unfolding codes
length-comma true = omega arith
length-comma false = omega arith

length-json_entry : (m : Meta) (more : Bool) → length m.name ≤ 15 → length (json_entry m more) ≤ 24
unfolding json_entry
length-json_entry m more h =
    let flag = (if m.alive then codes "true" else codes "false") in
    let comma = (if more then codes "," else []) in
    let colon : length (codes "\":") ≡ 2 = unfold codes in refl in
    omega (
      arith,
      colon,
      length-append m.name (codes "\":" ++ (flag ++ comma)),
      length-append (codes "\":") (flag ++ comma),
      length-append flag comma,
      length-flag m.alive,
      length-comma more,
    )

-- Entries of at most 24 bytes each never meet the guard on `sp`.
sensors_loop_lem :
    (sp : Text) (ms : List Meta)
    → NamesFit ms
    → length sp + 24 * length ms < 254
    → (sensors_loop sp ms ≡ some (sp ++ all_entries ms))
      × (length (all_entries ms) ≤ 24 * length ms)
unfolding sensors_loop all_entries
sensors_loop_lem sp [] h k = (rw append-nil, omega arith)
sensors_loop_lem sp (m ∷ ms) h k =
    let entry = json_entry m (nonempty ms) in
    let short = length-json_entry m (nonempty ms) h.0 in
    let longer = length-append sp entry in
    let rest = sensors_loop_lem (sp ++ entry) ms h.1 (omega arith) in
    (
      rw
          (
            lt→ltb (length sp + length entry) 254 (omega arith),
            rest.0,
            lt→ltb (length entry) 32 (omega arith),
          )
          (ap some (append_assoc sp entry (all_entries ms))),
      omega (arith, rest.1, length-append entry (all_entries ms)),
    )

-- The object of a valid registry, `{"dht":true,"flow":false}`.
abbrev pub whole_object : List Meta → Text
whole_object ms = (b'{' ∷ all_entries ms) ++ b'}' ∷ []

-- For a valid registry the loop over `sp[256]` reads and writes in bounds and drops no sensor: the
-- object has the entry of every sensor, in order, whole, and takes at most 242 bytes.
pub sensors_object_lem :
    (s : Sensors)
    → IsRegistry s
    → (sensors_object s.metas ≡ some (whole_object s.metas)) × (length (whole_object s.metas) ≤ 242)
unfolding sensors_object
sensors_object_lem s v =
    let loop = sensors_loop_lem (b'{' ∷ []) s.metas v.names_fit (omega (arith, v.in_table)) in
    let fits : length (b'{' ∷ all_entries s.metas) ≤ 241 = omega (arith, loop.1, v.in_table) in
    (
      ground (arith, loop.0, lt→ltb (length (b'{' ∷ all_entries s.metas) + 1) 256 (omega arith)),
      omega (arith, length-append (b'{' ∷ all_entries s.metas) (b'}' ∷ [])),
    )

module _ (fp : FloatOps) where
  length-snapshot :
      (s : Sensors) (sp : Text)
      → length (snapshot fp s sp)
        ≡ 35
          + length (fp.print1 s.temp)
          + length (fp.print1 s.hum)
          + length (fp.print2 s.flow)
          + length sp
  unfolding snapshot codes
  length-snapshot s sp = simp length-append (omega arith)

  -- What `sensor_get_json` answers for a valid registry, whatever the readings and the buffer: no
  -- access out of bounds; the buffer gets the whole snapshot and the result is ESP_OK exactly if the
  -- snapshot leaves room for the NUL, and otherwise the buffer is cut and the result ESP_ERR_NO_MEM.
  pub sensor_get_json_lem :
      (s : Sensors) (len : ℕ)
      → IsRegistry s
      → let out = snapshot fp s (whole_object s.metas) in
        sensor_get_json fp s len
        ≡ some (if ltb (length out) len then (out, ok) else (take (len - 1) out, no_mem))
  unfolding sensor_get_json
  sensor_get_json_lem s len v =
      let out = snapshot fp s (whole_object s.metas) in
      ground (
        arith,
        (sensors_object_lem s v).0,
        length-snapshot s (whole_object s.metas),
        take_all (len - 1) out,
      )

  pub sensor_get_json-total :
      (s : Sensors) (len : ℕ)
      → IsRegistry s
      → (buf : Text) × (ret : EspErr) × (sensor_get_json fp s len ≡ some (buf, ret))
  sensor_get_json-total s len v =
      let out = snapshot fp s (whole_object s.metas) in
      elim (Bool-cases (ltb (length out) len)) [
        | inl room ↦ (out, ok, rw (sensor_get_json_lem s len v) (rw room refl))
        | inr cut ↦ (take (len - 1) out, no_mem, rw (sensor_get_json_lem s len v) (rw cut refl))
      ]
