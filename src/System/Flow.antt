-- ===== src/System/Flow.antt =====
-- The flow sensor of src/main.c among everything else that runs: the interrupt counts, the flow task
-- takes the count, and no other turn touches it.
pub mod Window
use esp32_hydroponics_govern.Prelude.{
  ℕ, ◌+◌, ◌%◌, ◌^◌, ◌<◌, ◌≡◌, ◌⊎◌, refl, sym, ◌∙◌, subst, Bool, true, false, List, [], ◌∷◌, Option,
  none, some, Bool-cases, Option-cases, inl, inr, arith, if◌then◌else◌,
}
use esp32_hydroponics_govern.Platform.{FloatOps, Run, returned, aborted}
use esp32_hydroponics_govern.Device.{Device}
use esp32_hydroponics_govern.Dns.{dns_round}
use esp32_hydroponics_govern.Wifi.Credentials.{NvsApi}
use esp32_hydroponics_govern.Wifi.Events.{wifi_event_handler}
use esp32_hydroponics_govern.Wifi.Protocol.Handled.{some-inj}
use esp32_hydroponics_govern.Web.Requests.{HttpRequest, save, handle}
use esp32_hydroponics_govern.Web.Save.{save_handler}
use esp32_hydroponics_govern.Web.Save.Paused.{
  Worker, serving, settling, realigning, Served, waiting, answered, begin_save, resume_save,
}
use esp32_hydroponics_govern.Main.{flow_isr_handler, flow_round, push_round, view_round}
use esp32_hydroponics_govern.System.{
  System, Turn, event, request, post, wake, main_loop, pulse, view, delayed_shutdown, flow, dht,
  push, telnet, dns, resume, resume_run, resume_served, if_serving, if_waiting, overwrite, tested,
  Outcome, crashed, halted, running, task_turn, turn, run,
}
use esp32_hydroponics_govern.System.Safety.{Outcome-cases}
use esp32_hydroponics_govern.System.Frame.{
  Keeps, dht_round-Keeps, push_round-Keeps, view_round-Keeps, telnet_step-Keeps, dns_round-Keeps,
  delayed_shutdown-Keeps, flow_round-link,
}
use esp32_hydroponics_govern.System.Frame.Requests.{saves, request-cases, handle-Keeps}
use esp32_hydroponics_govern.System.Frame.Count.{run_count, served_count, event-count}
use esp32_hydroponics_govern.System.Frame.Attempts.{
  resume_save-count, begin_save-count, save-count, main_round-count,
}

-- What a turn makes of the count.
abbrev pub counted : Turn → ℕ → ℕ
counted pulse n = (n + 1) % 2 ^ 32
counted (flow now_us) n = 0
counted _ n = n

-- Where the firmware runs on, the count is this.
abbrev pub Counts : {S : Type 0} → ℕ → Outcome S → Type 0
Counts n crashed = Unit
Counts n (halted d) = Unit
Counts n (running s) = s.device.pulse_count ≡ n

module _ {S : Type 0} where
  resumed :
      {A : Type 0} (n : ℕ) (s : System S) (r : Run (Device S) A)
      → run_count r ≡ n
      → Counts n (resume_run s (some r))
  resumed n s (returned _ d) e = e
  resumed n s (aborted d) e = tt

  pub served :
      (n : ℕ) (s : System S) (o : Served S) → served_count o ≡ n → Counts n (resume_served s o)
  served n s (waiting w d) e = e
  served n s (answered (returned _ d)) e = e
  served n s (answered (aborted d)) e = tt

  pub guarded :
      (w : Worker) (o : Outcome S) (s : System S)
      → Counts s.device.pulse_count o
      → Counts s.device.pulse_count (if_serving w o s)
        × Counts s.device.pulse_count (if_waiting w o s)
  guarded serving o s e = (e, refl)
  guarded (settling slot cfg) o s e = (refl, e)
  guarded (realigning cfg) o s e = (refl, e)

  pub overwritten_count : (n : ℕ) (o : Outcome S) → Counts n o → Counts n (overwrite o)
  overwritten_count n crashed e = e
  overwritten_count n (halted d) e = e
  overwritten_count n (running s) e = e

  pub some_outcome :
      (s : System S) (o : Option (Device S))
      → ((d : Device S) → o ≡ some d → Keeps d s.device)
      → Counts s.device.pulse_count (resume s o)
  some_outcome s none kept = tt
  some_outcome s (some d) kept = (kept d refl).same_count

  pub observed :
      {A : Type 0} (s : System S) (o : Option (Run (Device S) A))
      → ((r : Run (Device S) A) → o ≡ some r → run_count r ≡ s.device.pulse_count)
      → Counts s.device.pulse_count (resume_run s o)
  observed s none e = tt
  observed s (some r) e = resumed s.device.pulse_count s r (e r refl)

  pub handle-count :
      (fp : FloatOps) (r : HttpRequest) (d : Device S) (o : Run (Device S) _)
      → handle fp r d ≡ some o
      → run_count o ≡ d.pulse_count
  unfolding handle
  handle-count fp r d o h = elim (request-cases r) [
    | inl (a, req, e) ↦
        let whole : some (save_handler a req d) ≡ some o =
          subst (λ x. handle fp x d ≡ some o) e h in
        subst (λ x. run_count x ≡ d.pulse_count) (some-inj whole) (save-count a req d)
    | inr other ↦ (handle-Keeps fp r d o other h).same_count
  ]

  tested_count : (n : ℕ) (o : Outcome S) → Counts n o → Counts n (tested o)
  tested_count n crashed e = e
  tested_count n (halted d) e = e
  tested_count n (running s) e = e

  pub polled_dns :
      (buf : List ℕ) (s : System S) (live : Bool)
      → Counts s.device.pulse_count
          (if live then tested (resume s (dns_round buf s.device)) else running s)
  polled_dns buf s true =
      tested_count s.device.pulse_count (resume s (dns_round buf s.device))
        (some_outcome s (dns_round buf s.device) (λ d h. dns_round-Keeps buf s.device d h))
  polled_dns buf s false = refl
