-- ===== src/Main/Tasks.antt =====
-- src/main.c: what the flow counter adds up to, and the bodies of the tasks.
use esp32_hydroponics_govern.Prelude.{ℕ, zero, suc, ◌+◌, ◌%◌, ◌^◌, ◌<◌, ◌≡◌, arith}
use esp32_hydroponics_govern.Platform.{FloatOps}
use esp32_hydroponics_govern.Device.{Device}
use esp32_hydroponics_govern.Sensor.{sensor_mark_alive, notify, sensor_update_flow}
use esp32_hydroponics_govern.Main.{flow_isr_handler, flow_round}

module _ {S : Type 0} where
  -- So many interrupts.
  unfoldable pub interrupts : ℕ → Device S → Device S
  unfolding flow_isr_handler
  interrupts zero d = d
  interrupts (suc n) d = interrupts n (flow_isr_handler d)

  pulse_count-interrupts :
      (n : ℕ) (d : Device S)
      → d.pulse_count < 2 ^ 32
      → (interrupts n d).pulse_count ≡ (d.pulse_count + n) % 2 ^ 32
  unfolding interrupts flow_isr_handler
  pulse_count-interrupts zero d h = omega (arith, h)
  pulse_count-interrupts (suc n) d h =
      omega (arith, h, pulse_count-interrupts n (flow_isr_handler d) (omega arith))

  pub flow_round-reports :
      (fp : FloatOps) (now_us : ℕ) (d : Device S)
      → let d1 = flow_round fp now_us d in
        (d1.sensors.flow ≡ fp.div_pulses (fp.of_int d.pulse_count)) × (d1.pulse_count ≡ 0)
  unfolding flow_round sensor_update_flow sensor_mark_alive notify
  flow_round-reports fp now_us d = ground arith

  -- The flow that a window reports is the division of the pulses counted in it, whatever was counted
  -- before: after a round of the flow task, so many interrupts and the next round, the snapshot's flow
  -- is that of this many pulses modulo 2 to the 32, and the counter is at zero again.
  flow_window :
      (fp : FloatOps) (before_us after_us n : ℕ) (d : Device S)
      → let d1 = flow_round fp after_us (interrupts n (flow_round fp before_us d)) in
        (d1.sensors.flow ≡ fp.div_pulses (fp.of_int (n % 2 ^ 32))) × (d1.pulse_count ≡ 0)
  unfolding interrupts
  flow_window fp before_us after_us n d =
      let d0 = flow_round fp before_us d in
      let (reported, empty) = flow_round-reports fp after_us (interrupts n d0) in
      let start : d0.pulse_count ≡ 0 = (flow_round-reports fp before_us d).1 in
      let counted : (interrupts n d0).pulse_count ≡ n % 2 ^ 32 =
        rw (pulse_count-interrupts n d0 (omega (arith, start))) (rw start (omega arith)) in
      (rw counted at reported, empty)
