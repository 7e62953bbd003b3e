-- ===== src/System/Protocol/Runs.antt =====
-- Any turns of the running firmware are moves of the protocol.
use esp32_hydroponics_govern.Prelude.{
  ℕ, ◌≡◌, refl, subst, Text, Bool, true, false, List, [], ◌∷◌, ◌++◌, Option, none, some, take, inl,
  inr, if◌then◌else◌,
}
use esp32_hydroponics_govern.Platform.{FloatOps, Run, returned, aborted}
use esp32_hydroponics_govern.Device.{Device}
use esp32_hydroponics_govern.Dns.{dns_round}
use esp32_hydroponics_govern.Wifi.Credentials.{NvsApi}
use esp32_hydroponics_govern.Wifi.Events.{wifi_event_handler}
use esp32_hydroponics_govern.Wifi.Protocol.{Link, link, left}
use esp32_hydroponics_govern.Wifi.Protocol.Handled.{some-inj}
use esp32_hydroponics_govern.Wifi.Protocol.Provenance.{IsNamed}
use esp32_hydroponics_govern.Web.Requests.{HttpRequest, save, handle}
use esp32_hydroponics_govern.Web.Save.{save_handler}
use esp32_hydroponics_govern.Web.Save.Paused.{
  Worker, serving, settling, realigning, Served, waiting, answered, begin_save, resume_save,
}
use esp32_hydroponics_govern.Main.{flow_isr_handler, push_round, view_round}
use esp32_hydroponics_govern.System.{
  System, Turn, event, request, post, wake, main_loop, pulse, view, delayed_shutdown, flow, dht,
  push, telnet, dns, resume, resume_run, resume_served, if_serving, if_waiting, overwrite, tested,
  Outcome, crashed, halted, running, task_turn, turn, run,
}
use esp32_hydroponics_govern.System.Safety.{Outcome-cases}
use esp32_hydroponics_govern.System.Frame.{
  Keeps, flow_round-link, dht_round-Keeps, push_round-Keeps, view_round-Keeps, telnet_step-Keeps,
  dns_round-Keeps, delayed_shutdown-Keeps,
}
use esp32_hydroponics_govern.System.Frame.Requests.{request-cases, handle-Keeps}
use esp32_hydroponics_govern.System.Protocol.{Moves, still, later}
use esp32_hydroponics_govern.System.Protocol.Turns.{
  name_of, arrive, kept-Moves, event-Moves, served_link, resume_save-Moves, begin_save-Moves,
  save-Moves, main_round-Moves,
}

-- The names that turns post, as the form has them.
abbrev pub turn_names : Turn → List Text
turn_names (post req) = name_of req ∷ []
turn_names (request (save a req)) = name_of req ∷ []
turn_names _ = []

abbrev pub posted_names : List Turn → List Text
posted_names [] = []
posted_names (t ∷ ts) = turn_names t ++ posted_names ts

-- The names of these are among all.
abbrev pub Among : List Text → List Text → Type 0
Among [] all = Unit
Among (n ∷ ns) all = IsNamed (take 63 n) all × Among ns all

pub Among-append : (ns ms all : List Text) → Among (ns ++ ms) all → Among ns all × Among ms all
Among-append [] ms all h = (tt, h)
Among-append (n ∷ ns) ms all h =
    let (front, back) = Among-append ns ms all h.1 in ((h.0, front), back)

-- What an outcome has made of a link; nothing is said of one that is lost.
abbrev pub Follows : {S : Type 0} → NvsApi S → List Text → Link S → Outcome S → Type 0
Follows api all k crashed = Unit
Follows api all k (halted d) = Moves api all k (link d)
Follows api all k (running s) = Moves api all k (link s.device)

module _ {S : Type 0} (api : NvsApi S) (all : List Text) where
  pub Moves-trans : {k l m : Link S} → Moves api all k l → Moves api all l m → Moves api all k m
  Moves-trans f still = f
  Moves-trans f (later g m) = later (Moves-trans f g) m

  resumed :
      {A : Type 0} (k : Link S) (s : System S) (r : Run (Device S) A)
      → Moves api all k (link (left r))
      → Follows api all k (resume_run s (some r))
  resumed k s (returned _ d) m = m
  resumed k s (aborted d) m = m

  served :
      (k : Link S) (s : System S) (o : Served S)
      → Moves api all k (served_link o)
      → Follows api all k (resume_served s o)
  served k s (waiting w d) m = m
  served k s (answered (returned _ d)) m = m
  served k s (answered (aborted d)) m = m

  guarded :
      (w : Worker) (o : Outcome S) (s : System S)
      → Follows api all (link s.device) o
      → Follows api all (link s.device) (if_serving w o s)
        × Follows api all (link s.device) (if_waiting w o s)
  guarded serving o s m = (m, still)
  guarded (settling slot cfg) o s m = (still, m)
  guarded (realigning cfg) o s m = (still, m)

  overwritten_link :
      (k : Link S) (o : Outcome S) → Follows api all k o → Follows api all k (overwrite o)
  overwritten_link k crashed m = m
  overwritten_link k (halted d) m = m
  overwritten_link k (running s) m = m

  pub after :
      (k l : Link S) (o : Outcome S) → Moves api all k l → Follows api all l o → Follows api all k o
  after k l crashed m n = n
  after k l (halted d) m n = Moves-trans m n
  after k l (running t) m n = Moves-trans m n

  some_outcome :
      (s : System S) (o : Option (Device S))
      → ((d : Device S) → o ≡ some d → Keeps d s.device)
      → Follows api all (link s.device) (resume s o)
  some_outcome s none kept = tt
  some_outcome s (some d) kept = kept-Moves api all (kept d refl)

  handled :
      (fp : FloatOps) (r : HttpRequest) (s : System S) (o : Option (Run (Device S) _))
      → Among (turn_names (request r)) all
      → handle fp r s.device ≡ o
      → Follows api all (link s.device) (resume_run s o)
  unfolding handle
  handled fp r s none named h = tt
  handled fp r s (some o) named h = resumed (link s.device) s o (elim (request-cases r) [
    | inl (a, req, e) ↦
        let whole : some (save_handler a req s.device) ≡ some o =
          subst (λ x. handle fp x s.device ≡ some o) e h in
        let name = subst (λ x. Among (turn_names (request x)) all) e named in
        subst (λ x. Moves api all (link s.device) (link (left x))) (some-inj whole)
          (save-Moves api all a req s.device name.0)
    | inr other ↦ kept-Moves api all (handle-Keeps fp r s.device o other h)
  ])

  observed :
      (s : System S) (o : Option (Run (Device S) (Unit {0})))
      → ((r : Run (Device S) (Unit {0}))
          → o ≡ some r
          → Moves api all (link s.device) (link (left r)))
      → Follows api all (link s.device) (resume_run s o)
  observed s none moves = tt
  observed s (some r) moves = resumed (link s.device) s r (moves r refl)

  tested_link : (k : Link S) (o : Outcome S) → Follows api all k o → Follows api all k (tested o)
  tested_link k crashed m = m
  tested_link k (halted d) m = m
  tested_link k (running s) m = m

  polled_dns :
      (buf : List ℕ) (s : System S) (live : Bool)
      → Follows api all
          (link s.device)
          (if live then tested (resume s (dns_round buf s.device)) else running s)
  polled_dns buf s true =
      tested_link (link s.device) (resume s (dns_round buf s.device))
        (some_outcome s (dns_round buf s.device) (λ d h. dns_round-Keeps buf s.device d h))
  polled_dns buf s false = still

  task_turn-Follows :
      (fp : FloatOps) (t : Turn) (s : System S)
      → Among (turn_names t) all
      → Follows api all (link s.device) (task_turn api fp t s)
  unfolding task_turn
  task_turn-Follows fp (event a e) s named =
      observed s (wifi_event_handler api a e s.device) (λ r h. event-Moves api all a e s.device r h)
  task_turn-Follows fp (request r) s named =
      (guarded s.http _ s (handled fp r s (handle fp r s.device) named refl)).0
  task_turn-Follows fp (post req) s named =
      (guarded s.http _ s (
        served (link s.device) s (begin_save req s.device)
          (begin_save-Moves api all req s.device named.0))).0
  task_turn-Follows fp (wake a) s named =
      (guarded s.http _ s (
        served (link s.device) s (resume_save a s.http s.device)
          (resume_save-Moves api all a s.http s.device))).1
  task_turn-Follows fp (main_loop now health_us a) s named =
      main_round-Moves api all now health_us a s.ticks s.device
  task_turn-Follows fp pulse s named = unfold flow_isr_handler in still
  task_turn-Follows fp (flow now_us) s named =
      arrive api all _ (flow_round-link fp now_us s.device).0 still
  task_turn-Follows fp (dht alive_us update_us reading) s named =
      kept-Moves api all (dht_round-Keeps fp alive_us update_us reading s.last s.device)
  task_turn-Follows fp (push clients) s named =
      some_outcome s (push_round fp clients s.device)
        (λ d h. push_round-Keeps fp clients s.device d h)
  task_turn-Follows fp view s named =
      some_outcome s (view_round fp s.device) (λ d h. view_round-Keeps fp s.device d h)
  task_turn-Follows fp (telnet e) s named =
      kept-Moves api all (telnet_step-Keeps s.phase e s.device)
  task_turn-Follows fp (dns buf) s named = polled_dns buf s s.receiving
  task_turn-Follows fp delayed_shutdown s named =
      kept-Moves api all (delayed_shutdown-Keeps s.device)

  pub run-Follows :
      (fp : FloatOps) (ts : List Turn) (s : System S)
      → Among (posted_names ts) all
      → Follows api all (link s.device) (run api fp ts s)
  unfolding run turn
  run-Follows fp [] s named = still
  run-Follows fp (t ∷ ts) s named =
      let (here, rest) = Among-append (turn_names t) (posted_names ts) all named in
      let first = overwritten_link (link s.device) _ (task_turn-Follows fp t s here) in
      elim (Outcome-cases (turn api fp t s)) [
        | inl lost ↦ rw (lost, Follows) tt
        | inr (inl (d, halts)) ↦
            rw (halts, Follows) (subst (Follows api all (link s.device)) halts first)
        | inr (inr (s', goes)) ↦
            rw (goes, Follows)
              (after (link s.device) (link s'.device) _
                (subst (Follows api all (link s.device)) goes first) (run-Follows fp ts s' rest))
      ]
