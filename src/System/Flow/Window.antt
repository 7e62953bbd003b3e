-- ===== src/System/Flow/Window.antt =====
-- What a reading of the flow sensor counts.
use esp32_hydroponics_govern.Prelude.{
  ℕ, suc, ◌+◌, ◌%◌, ◌^◌, ◌<◌, ◌≡◌, refl, ◌∙◌, ap, sym, subst, Bool, true, false, List, [], ◌∷◌,
  ◌++◌, inl, inr, arith,
}
use esp32_hydroponics_govern.Platform.{FloatOps, Float}
use esp32_hydroponics_govern.Wifi.Credentials.{NvsApi}
use esp32_hydroponics_govern.Main.{flow_isr_handler, flow_round}
use esp32_hydroponics_govern.Main.Tasks.{flow_round-reports}
use esp32_hydroponics_govern.System.{
  System, Turn, event, request, post, wake, main_loop, pulse, view, delayed_shutdown, flow, dht,
  push, telnet, dns, Outcome, crashed, halted, running, task_turn, turn, run,
}
use esp32_hydroponics_govern.Web.Save.Paused.{overwritten, begin_save, resume_save}
use esp32_hydroponics_govern.Wifi.Events.{wifi_event_handler}
use esp32_hydroponics_govern.Web.Requests.{handle}
use esp32_hydroponics_govern.Main.{push_round, view_round}
use esp32_hydroponics_govern.System.Safety.{
  Outcome-cases, TurnsFit, IsSystem, SoundOutcome, run-IsSystem,
}
use esp32_hydroponics_govern.System.Frame.{
  dht_round-Keeps, push_round-Keeps, view_round-Keeps, telnet_step-Keeps, delayed_shutdown-Keeps,
  flow_round-link,
}
use esp32_hydroponics_govern.System.Frame.Count.{event-count}
use esp32_hydroponics_govern.System.Frame.Attempts.{
  resume_save-count, begin_save-count, main_round-count,
}
use esp32_hydroponics_govern.System.Flow.{
  counted, Counts, served, guarded, overwritten_count, some_outcome, observed, handle-count,
  polled_dns,
}

-- The interrupts among turns.
abbrev pub pulses : List Turn → ℕ
pulses [] = 0
pulses (pulse ∷ ts) = suc (pulses ts)
pulses (_ ∷ ts) = pulses ts

abbrev pub is_flow : Turn → Bool
is_flow (flow now_us) = true
is_flow _ = false

-- The flow task has no turn among these.
abbrev pub NoFlow : List Turn → Type 0
NoFlow [] = Unit
NoFlow (t ∷ ts) = (is_flow t ≡ false) × NoFlow ts

-- Turn by turn, the count is the interrupts modulo 2 to the 32.
counted_on :
    (t : Turn) (ts : List Turn) (n : ℕ)
    → is_flow t ≡ false
    → n < 2 ^ 32
    → ((counted t n + pulses ts) % 2 ^ 32 ≡ (n + pulses (t ∷ ts)) % 2 ^ 32) × (counted t n < 2 ^ 32)
counted_on pulse ts n h small = (omega arith, omega arith)
counted_on (flow now_us) ts n h small = cc
counted_on (event a e) ts n h small = (refl, small)
counted_on (request r) ts n h small = (refl, small)
counted_on (post req) ts n h small = (refl, small)
counted_on (wake a) ts n h small = (refl, small)
counted_on (main_loop now health_us a) ts n h small = (refl, small)
counted_on view ts n h small = (refl, small)
counted_on delayed_shutdown ts n h small = (refl, small)
counted_on (dht alive_us update_us reading) ts n h small = (refl, small)
counted_on (push clients) ts n h small = (refl, small)
counted_on (telnet e) ts n h small = (refl, small)
counted_on (dns buf) ts n h small = (refl, small)

-- Where the firmware runs on, the snapshot has this flow, and the count is at zero.
abbrev Reads : {S : Type 0} → Float → Outcome S → Type 0
Reads v crashed = Unit
Reads v (halted d) = Unit
Reads v (running s) = (s.device.sensors.flow ≡ v) × (s.device.pulse_count ≡ 0)

-- The same, and the firmware makes no access out of bounds.
abbrev pub Stores : {S : Type 0} → Float → Outcome S → Type 0
Stores v crashed = ⊥
Stores v (halted d) = Unit
Stores v (running s) = (s.device.sensors.flow ≡ v) × (s.device.pulse_count ≡ 0)

module _ {S : Type 0} (api : NvsApi S) (fp : FloatOps) where
  task_turn-Counts :
      (t : Turn) (s : System S) → Counts (counted t s.device.pulse_count) (task_turn api fp t s)
  unfolding task_turn
  task_turn-Counts (event a e) s =
      observed s (wifi_event_handler api a e s.device) (λ r h. event-count api a e s.device r h)
  task_turn-Counts (request r) s =
      (guarded s.http _ s
        (observed s (handle fp r s.device) (λ o h. handle-count fp r s.device o h))).0
  task_turn-Counts (post req) s =
      (guarded s.http _ s
        (served s.device.pulse_count s (begin_save req s.device) (begin_save-count req s.device))).0
  task_turn-Counts (wake a) s =
      (guarded s.http _ s (
        served s.device.pulse_count s (resume_save a s.http s.device)
          (resume_save-count a s.http s.device))).1
  task_turn-Counts (main_loop now health_us a) s =
      main_round-count api now health_us a s.ticks s.device
  task_turn-Counts pulse s = unfold flow_isr_handler in refl
  task_turn-Counts (flow now_us) s = (flow_round-link fp now_us s.device).1
  task_turn-Counts (dht alive_us update_us reading) s =
      (dht_round-Keeps fp alive_us update_us reading s.last s.device).same_count
  task_turn-Counts (push clients) s =
      some_outcome s (push_round fp clients s.device)
        (λ d h. push_round-Keeps fp clients s.device d h)
  task_turn-Counts view s =
      some_outcome s (view_round fp s.device) (λ d h. view_round-Keeps fp s.device d h)
  task_turn-Counts (telnet e) s = (telnet_step-Keeps s.phase e s.device).same_count
  task_turn-Counts (dns buf) s = polled_dns buf s s.receiving
  task_turn-Counts delayed_shutdown s = (delayed_shutdown-Keeps s.device).same_count

  -- The turns up to a turn of the flow task, and that turn.
  window_from :
      (after_us : ℕ) (ts : List Turn) (s : System S)
      → NoFlow ts
      → s.device.pulse_count < 2 ^ 32
      → Reads
          (fp.div_pulses (fp.of_int ((s.device.pulse_count + pulses ts) % 2 ^ 32)))
          (run api fp (ts ++ flow after_us ∷ []) s)
  unfolding run turn task_turn
  window_from after_us [] s idle small =
      let (reported, empty) = flow_round-reports fp after_us s.device in
      (reported ∙ ap (λ (n : ℕ). fp.div_pulses (fp.of_int n)) (omega (arith, small)), empty)
  window_from after_us (t ∷ ts) s idle small =
      let first = overwritten_count _ _ (task_turn-Counts t s) in
      let (sum, bound) = counted_on t ts s.device.pulse_count idle.0 small in
      elim (Outcome-cases (turn api fp t s)) [
        | inl lost ↦ rw (lost, Reads) tt
        | inr (inl (d, halts)) ↦ rw (halts, Reads) tt
        | inr (inr (s', goes)) ↦
            let count : s'.device.pulse_count ≡ counted t s.device.pulse_count =
              subst (Counts _) goes first in
            rw (goes, Reads)
              (subst
                (λ n.
                  Reads (fp.div_pulses (fp.of_int n)) (run api fp (ts ++ flow after_us ∷ []) s'))
                (ap (λ (n : ℕ). (n + pulses ts) % 2 ^ 32) count ∙ sum)
                (window_from after_us ts s' idle.1 (subst (λ n. n < 2 ^ 32) (sym count) bound)))
      ]

  readings :
      (before_us after_us : ℕ) (ts : List Turn) (s : System S)
      → NoFlow ts
      → Reads
          (fp.div_pulses (fp.of_int (pulses ts % 2 ^ 32)))
          (run api fp (flow before_us ∷ (ts ++ flow after_us ∷ [])) s)
  unfolding run turn task_turn
  readings before_us after_us ts s idle =
      let d = flow_round fp before_us s.device in
      let start : d.pulse_count ≡ 0 = (flow_round-link fp before_us s.device).1 in
      let sum : (d.pulse_count + pulses ts) % 2 ^ 32 ≡ pulses ts % 2 ^ 32 = omega (arith, start) in
      let s1 : System S = record s { device = d; http = overwritten d.wifi.scan_records s.http } in
      subst (λ n. Reads (fp.div_pulses (fp.of_int n)) (run api fp (ts ++ flow after_us ∷ []) s1))
        sum (window_from after_us ts s1 idle (omega (arith, start)))

  fits_snoc : (after_us : ℕ) (ts : List Turn) → TurnsFit ts → TurnsFit (ts ++ flow after_us ∷ [])
  fits_snoc after_us [] fits = (tt, tt)
  fits_snoc after_us (t ∷ ts) fits = (fits.0, fits_snoc after_us ts fits.1)

  sound_reading :
      (up : Bool) (v : Float) (o : Outcome S) → SoundOutcome up o → Reads v o → Stores v o
  sound_reading up v crashed sound reads = absurd sound
  sound_reading up v (halted d) sound reads = tt
  sound_reading up v (running s) sound reads = reads

  -- Between two turns of the flow task any turns of everything else run, in any order, also in the middle
  -- of a request. The second flow turn stores the flow of the interrupts that came in between, modulo 2 to
  -- the 32, and leaves the counter at zero, so that no pulse is lost and none counted twice, unless an
  -- ESP_ERROR_CHECK has stopped the firmware before. The condition: the invariant of the system holds, each
  -- scan delivers what was asked of it, and a DNS query leaves room for its answer.
  pub flow_counts_pulses :
      (up : Bool) (before_us after_us : ℕ) (ts : List Turn) (s : System S)
      → NoFlow ts
      → TurnsFit ts
      → IsSystem up s
      → Stores
          (fp.div_pulses (fp.of_int (pulses ts % 2 ^ 32)))
          (run api fp (flow before_us ∷ (ts ++ flow after_us ∷ [])) s)
  flow_counts_pulses up before_us after_us ts s idle fits sound =
      let window : List Turn = flow before_us ∷ (ts ++ flow after_us ∷ []) in
      sound_reading up _ (run api fp window s)
        (run-IsSystem api fp window s (tt, fits_snoc after_us ts fits) sound)
        (readings before_us after_us ts s idle)
