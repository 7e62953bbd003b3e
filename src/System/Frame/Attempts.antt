-- ===== src/System/Frame/Attempts.antt =====
-- Attempts to connect, in pieces or whole, and the main loop leave the flow sensor's count alone.
use esp32_hydroponics_govern.Prelude.{
  ◌-◌, ◌≡◌, refl, sym, ◌∙◌, ap, codes, cstr, not, ◌&&◌, leb, ◌==◌, Option, none, some, Bool-cases,
  inl, inr, arith, if◌then◌else◌, ℕ,
}
use esp32_hydroponics_govern.Platform.{StaConfig, Run, returned, aborted, wifi_set_max_tx_power}
use esp32_hydroponics_govern.Device.{Device, emit}
use esp32_hydroponics_govern.Sensor.{sensor_update_health}
use esp32_hydroponics_govern.Wifi.Credentials.{NvsApi, is_empty}
use esp32_hydroponics_govern.Wifi.Connect.{Answer, may_connect, launch}
use esp32_hydroponics_govern.Wifi.Connect.Paused.{
  Slot, begin_attempt, finish_attempt, resume_attempt,
}
use esp32_hydroponics_govern.Web.Save.{Request, is_busy, field_string, recv_size, save_handler}
use esp32_hydroponics_govern.Web.Save.Paused.{
  Worker, serving, settling, realigning, Served, waiting, answered, answer_save, begin_connect,
  begin_save, served_piece, resume_save, twice,
}
use esp32_hydroponics_govern.Web.Save.Undisturbed.{pieces-save_handler}
use esp32_hydroponics_govern.Main.{Ticks, main_round, is_failed}
use esp32_hydroponics_govern.System.Frame.{health-Keeps}
use esp32_hydroponics_govern.System.Protocol.Starts.{left-check}
use esp32_hydroponics_govern.System.Frame.Count.{run_count, served_count, reconnect-count}

module _ {S : Type 0} where
  answer-count : (r : Run (Device S) (Unit {0})) → run_count (answer_save r) ≡ run_count r
  unfolding answer_save
  answer-count (returned u d) = refl
  answer-count (aborted d) = refl

  finish-count :
      (a : Answer) (cfg : StaConfig) (d : Device S)
      → run_count (finish_attempt a cfg d) ≡ d.pulse_count
  unfolding finish_attempt launch
  finish-count a cfg d =
      left-check (λ d'. d'.pulse_count ≡ d.pulse_count) a.set_config _ _ refl (ground arith)

  resume-count :
      (a : Answer) (slot : Option Slot) (cfg : StaConfig) (d : Device S)
      → served_count (served_piece (resume_attempt a slot cfg d)) ≡ d.pulse_count
  unfolding served_piece resume_attempt
  resume-count a none cfg d =
      let d1 = emit (wifi_set_max_tx_power 80) d in
      answer-count (finish_attempt a cfg d1) ∙ finish-count a cfg d1
  resume-count a (some (i, r)) cfg d = elim (Bool-cases (a.curr_chan == r.primary)) [
    | inl same ↦
        let d1 = emit (wifi_set_max_tx_power 80) d in
        rw same (answer-count (finish_attempt a cfg d1) ∙ finish-count a cfg d1)
    | inr other ↦ rw other refl
  ]

  pub resume_save-count :
      (a : Answer) (w : Worker) (d : Device S) → served_count (resume_save a w d) ≡ d.pulse_count
  unfolding resume_save
  resume_save-count a serving d = refl
  resume_save-count a (settling slot cfg) d = resume-count a slot cfg d
  resume_save-count a (realigning cfg) d =
      answer-count (finish_attempt a cfg d) ∙ finish-count a cfg d

  pub begin_save-count :
      (req : Request) (d : Device S) → served_count (begin_save req d) ≡ d.pulse_count
  unfolding begin_save begin_connect begin_attempt
  begin_save-count req d =
      let bytes = req.recv (recv_size req) in
      let ssid = field_string (cstr bytes) (codes "s") 64 in
      elim (Bool-cases (is_busy d.wifi.state)) [
        | inl busy ↦ rw busy refl
        | inr free ↦ rw free (elim (Bool-cases (is_empty bytes)) [
          | inl hollow ↦ rw hollow refl
          | inr whole ↦ rw whole (elim (Bool-cases (is_empty ssid)) [
            | inl unnamed ↦ rw unnamed refl
            | inr named ↦ rw named (elim (Bool-cases (may_connect d.wifi.state)) [
              | inl may ↦ rw may refl
              | inr barred ↦ rw barred refl
            ])
          ])
        ])
      ]

  twice-count : (a : Answer) (o : Served S) → served_count (twice a o) ≡ served_count o
  twice-count a (answered r) = refl
  twice-count a (waiting w d) = second (resume_save a w d) ∙ resume_save-count a w d
    where
      second :
          (o : Served S)
          → served_count (elim o [ answered r ↦ answered r | waiting w' d' ↦ resume_save a w' d' ])
            ≡ served_count o
      second (answered r) = refl
      second (waiting w' d') = resume_save-count a w' d'

  -- The whole handler is its pieces.
  pub save-count :
      (a : Answer) (req : Request) (d : Device S) → run_count (save_handler a req d) ≡ d.pulse_count
  save-count a req d =
      ap served_count (sym (pieces-save_handler a req d))
      ∙ (twice-count a (begin_save req d) ∙ begin_save-count req d)

module _ {S : Type 0} (api : NvsApi S) where
  pub main_round-count :
      (now health_us : ℕ) (a : Answer) (t : Ticks) (d : Device S)
      → (main_round api now health_us a t d).1.pulse_count ≡ d.pulse_count
  unfolding main_round
  main_round-count now health_us a t d =
      let due = leb 1000000 (now - t.last_health_us) in
      let d1 = (if due then sensor_update_health health_us d else d) in
      let same : d1.pulse_count ≡ d.pulse_count = elim (Bool-cases due) [
        | inl tick ↦ rw tick (health-Keeps health_us d).same_count
        | inr wait ↦ rw wait refl
      ] in
      elim (Bool-cases (
        (not d1.wifi.ap_active && is_failed d1.wifi.state)
        && leb 30000000 (now - t.last_reconnect_us))) [
          | inl again ↦ rw again (reconnect-count api a d1 ∙ same)
          | inr wait ↦ rw wait same
        ]
