-- ===== src/System/Protocol/Turns.antt =====
-- What each turn does to the link: moves of the protocol.
use esp32_hydroponics_govern.Prelude.{
  ℕ, ◌-◌, ◌≡◌, refl, sym, ◌∙◌, ap, subst, Text, codes, cstr, Bool, true, not, ◌&&◌, leb, ◌==◌, List,
  [], ◌∷◌, Option, none, some, take, Bool-cases, inl, inr, arith, if◌then◌else◌,
}
use esp32_hydroponics_govern.Platform.{
  is_ok, StaConfig, Run, returned, aborted, wifi_set_max_tx_power,
}
use esp32_hydroponics_govern.Platform.Checks.{Run-cases, check-cases}
use esp32_hydroponics_govern.Device.{Device, emit}
use esp32_hydroponics_govern.Sensor.{sensor_update_health}
use esp32_hydroponics_govern.Wifi.Credentials.{NvsApi, is_empty}
use esp32_hydroponics_govern.Wifi.Connect.{
  Answer, may_connect, launch, wifi_manager_connect, wifi_manager_reconnect,
}
use esp32_hydroponics_govern.Wifi.Connect.Paused.{
  Slot, begin_attempt, finish_attempt, resume_attempt,
}
use esp32_hydroponics_govern.Wifi.Events.{EventAnswer, WifiEvent, wifi_event_handler}
use esp32_hydroponics_govern.Wifi.Protocol.{Link, launched, link, left}
use esp32_hydroponics_govern.Wifi.Protocol.Handled.{event-Step}
use esp32_hydroponics_govern.Wifi.Protocol.Simulation.{connect-Step, reconnect-Step}
use esp32_hydroponics_govern.Wifi.Protocol.Provenance.{IsNamed, Within}
use esp32_hydroponics_govern.Web.Save.{
  Request, is_busy, field_string, recv_size, is_one, save_handler,
}
use esp32_hydroponics_govern.Web.Save.Outcome.{posted}
use esp32_hydroponics_govern.Web.Save.Paused.{
  Worker, serving, settling, realigning, Served, waiting, answered, answer_save, begin_connect,
  begin_save, served_piece, resume_save,
}
use esp32_hydroponics_govern.Main.{Ticks, main_round, is_failed}
use esp32_hydroponics_govern.System.Frame.{Keeps, health-Keeps}
use esp32_hydroponics_govern.System.Protocol.{Move, step, staging, launching, Moves, still, later}

-- The name that a request posts.
abbrev pub name_of : Request → Text
name_of req = posted req (codes "s") 64

from_one : (all : List Text) (ssid : Text) → IsNamed (take 63 ssid) all → Within (ssid ∷ []) all
from_one all ssid named x (inl e) = subst (λ y. IsNamed y all) (sym e) named
from_one all ssid named x (inr h) = absurd h

-- Where a piece of the handler ends.
abbrev pub served_link : {S : Type 0} → Served S → Link S
served_link (waiting w d) = link d
served_link (answered r) = link (left r)

module _ {S : Type 0} (api : NvsApi S) (all : List Text) where
  -- Nothing happens to the link, or one move.
  pub arrive : {k l : Link S} (m : Link S) → m ≡ l → Moves api all k l → Moves api all k m
  arrive {k} m e s = subst (Moves api all k) (sym e) s

  one : {k l : Link S} → Move api all k l → Moves api all k l
  one m = later still m

  pub kept-Moves : {d' d : Device S} → Keeps d' d → Moves api all (link d) (link d')
  kept-Moves {d'} k = arrive (link d') k.same_link still

  pub event-Moves :
      (a : EventAnswer) (e : WifiEvent) (d : Device S) (r : Run (Device S) (Unit {0}))
      → wifi_event_handler api a e d ≡ some r
      → Moves api all (link d) (link (left r))
  event-Moves a e d r h = one (step none (λ x n. absurd n) (event-Step api a e d r h))

  reconnect-Moves :
      (a : Answer) (d : Device S) → Moves api all (link d) (link (wifi_manager_reconnect api a d).0)
  reconnect-Moves a d = one (step none (λ x n. absurd n) (reconnect-Step api a d))

  answer-link : (r : Run (Device S) (Unit {0})) → link (left (answer_save r)) ≡ link (left r)
  unfolding answer_save
  answer-link (returned u d) = refl
  answer-link (aborted d) = refl

  link-finish :
      (a : Answer) (cfg : StaConfig) (d : Device S)
      → (went : Bool) × (link (left (finish_attempt a cfg d))
          ≡ record (link d) { phase = launched went })
  unfolding finish_attempt launch
  link-finish a cfg d = elim (check-cases a.set_config _ _) [
    | inl on ↦ (is_ok a.connect, ap (λ r. link (left r)) on ∙ ground arith)
    | inr halts ↦ (true, ap (λ r. link (left r)) halts ∙ refl)
  ]

  finish-Moves :
      (a : Answer) (cfg : StaConfig) (d0 d : Device S)
      → link d0 ≡ link d
      → Moves api all (link d) (link (left (answer_save (finish_attempt a cfg d0))))
  finish-Moves a cfg d0 d same =
      let (went, e) = link-finish a cfg d0 in
      arrive _
        (answer-link (finish_attempt a cfg d0)
          ∙ e
          ∙ ap (λ (k : Link S). record k { phase = launched went }) same)
        (one (launching went))

  resume-Moves :
      (a : Answer) (slot : Option Slot) (cfg : StaConfig) (d : Device S)
      → Moves api all (link d) (served_link (served_piece (resume_attempt a slot cfg d)))
  unfolding served_piece resume_attempt
  resume-Moves a none cfg d = finish-Moves a cfg (emit (wifi_set_max_tx_power 80) d) d refl
  resume-Moves a (some (i, r)) cfg d = elim (Bool-cases (a.curr_chan == r.primary)) [
    | inl same ↦ rw same (finish-Moves a cfg (emit (wifi_set_max_tx_power 80) d) d refl)
    | inr other ↦ rw other still
  ]

  pub resume_save-Moves :
      (a : Answer) (w : Worker) (d : Device S)
      → Moves api all (link d) (served_link (resume_save a w d))
  unfolding resume_save
  resume_save-Moves a serving d = still
  resume_save-Moves a (settling slot cfg) d = resume-Moves a slot cfg d
  resume_save-Moves a (realigning cfg) d = finish-Moves a cfg d d refl

  link-begin :
      (ssid pass : Text) (is_open : Bool) (d : Device S)
      → link (begin_attempt ssid pass is_open d).0
        ≡ record (link d) { tries = 0; staged = take 63 ssid }
  unfolding begin_attempt
  link-begin ssid pass is_open d = ground arith

  begin_connect-Moves :
      (ssid pass : Text) (is_open : Bool) (d : Device S)
      → IsNamed (take 63 ssid) all
      → Moves api all (link d) (served_link (begin_connect ssid pass is_open d))
  unfolding begin_connect
  begin_connect-Moves ssid pass is_open d named = elim (Bool-cases (may_connect d.wifi.state)) [
    | inr barred ↦ rw barred still
    | inl may ↦ rw may (arrive _ (link-begin ssid pass is_open d) (one (staging ssid may named)))
  ]

  pub begin_save-Moves :
      (req : Request) (d : Device S)
      → IsNamed (take 63 (name_of req)) all
      → Moves api all (link d) (served_link (begin_save req d))
  unfolding begin_save posted
  begin_save-Moves req d named =
      let bytes = req.recv (recv_size req) in
      let body = cstr bytes in
      let ssid = field_string body (codes "s") 64 in
      let pass = field_string body (codes "p") 64 in
      let is_open = is_one (field_string body (codes "o") 4) in
      elim (Bool-cases (is_busy d.wifi.state)) [
        | inl busy ↦ rw busy still
        | inr free ↦ rw free (elim (Bool-cases (is_empty bytes)) [
          | inl hollow ↦ rw hollow still
          | inr whole ↦ rw whole (elim (Bool-cases (is_empty ssid)) [
            | inl unnamed ↦ rw unnamed still
            | inr given ↦ rw given (begin_connect-Moves ssid pass is_open d named)
          ])
        ])
      ]

  pub save-Moves :
      (a : Answer) (req : Request) (d : Device S)
      → IsNamed (take 63 (name_of req)) all
      → Moves api all (link d) (link (left (save_handler a req d)))
  unfolding save_handler posted
  save-Moves a req d named =
      let bytes = req.recv (recv_size req) in
      let body = cstr bytes in
      let ssid = field_string body (codes "s") 64 in
      let pass = field_string body (codes "p") 64 in
      let is_open = is_one (field_string body (codes "o") 4) in
      elim (Bool-cases (is_busy d.wifi.state)) [
        | inl busy ↦ rw busy still
        | inr free ↦ rw free (elim (Bool-cases (is_empty bytes)) [
          | inl hollow ↦ rw hollow still
          | inr whole ↦ rw whole (elim (Bool-cases (is_empty ssid)) [
            | inl unnamed ↦ rw unnamed still
            | inr given ↦
                let went = one (
                  step (some ssid) (from_one all ssid named)
                    (connect-Step api a ssid pass is_open d)) in
                rw given (elim (Run-cases (wifi_manager_connect a ssid pass is_open d)) [
                  | inl (ret, d', e) ↦ rw e (arrive _ (sym (ap (λ r. link (left r)) e)) went)
                  | inr (d', e) ↦ rw e (arrive _ (sym (ap (λ r. link (left r)) e)) went)
                ])
          ])
        ])
      ]

  pub main_round-Moves :
      (now health_us : ℕ) (a : Answer) (t : Ticks) (d : Device S)
      → Moves api all (link d) (link (main_round api now health_us a t d).1)
  unfolding main_round
  main_round-Moves now health_us a t d =
      let due = leb 1000000 (now - t.last_health_us) in
      let d1 = (if due then sensor_update_health health_us d else d) in
      let same : link d1 ≡ link d = elim (Bool-cases due) [
        | inl tick ↦ rw tick (health-Keeps health_us d).same_link
        | inr wait ↦ rw wait refl
      ] in
      elim (Bool-cases (
        (not d1.wifi.ap_active && is_failed d1.wifi.state)
        && leb 30000000 (now - t.last_reconnect_us))) [
          | inl again ↦ rw again (
              subst (λ k. Moves api all k (link (wifi_manager_reconnect api a d1).0)) same
                (reconnect-Moves a d1))
          | inr wait ↦ rw wait (arrive _ same still)
        ]
