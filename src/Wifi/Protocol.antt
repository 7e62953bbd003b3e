-- ===== src/Wifi/Protocol.antt =====
-- src/wifi_manager.c: the connection protocol, as a caller of the Wi-Fi manager may think of it. A
-- link has a state, the retries of the attempt, the name of the credentials that wait to be saved,
-- and the store; its steps are the edges of the protocol. `WifiOp` are the operations of the file that
-- its tasks call, in the order in which the calls happen.
pub mod Handled
pub mod Simulation
pub mod Provenance
pub mod Untried
pub mod Waits
use esp32_hydroponics_govern.Prelude.{
  ℕ, ◌≡◌, ◌⊎◌, Text, Bool, true, false, List, [], ◌∷◌, Option, none, some, take, if◌then◌else◌,
}
use esp32_hydroponics_govern.Platform.{EspErr, Run, returned, aborted}
use esp32_hydroponics_govern.Device.{WifiState, connecting, connected, failed, Device}
use esp32_hydroponics_govern.Wifi.Credentials.{NvsApi, Credentials, is_empty, nvs_write, nvs_clear}
use esp32_hydroponics_govern.Wifi.Scan.{wifi_manager_scan_start}
use esp32_hydroponics_govern.Wifi.Connect.{
  Answer, may_connect, wifi_manager_connect, wifi_manager_reconnect, wifi_manager_ap_shutdown,
}
use esp32_hydroponics_govern.Wifi.Events.{EventAnswer, WifiEvent, wifi_event_handler}

pub record Link (S : Type 0) : Type 0 where
  pub phase : WifiState
  pub tries : ℕ
  pub staged : Text
  pub store : S

-- The state in which `esp_wifi_connect` leaves an attempt.
abbrev pub launched : Bool → WifiState
launched true = connecting
launched false = failed

-- The first index is the name that the step submits, if it does.
pub data Step {S : Type 0} (api : NvsApi S) : Option Text → Link S → Link S → Type 0 where
  stay : {l : Link S} → Step api none l l
  attempt :
      {l : Link S}
      → (name : Text) → (went : Bool) → may_connect l.phase ≡ true
      → Step api
          (some name)
          l
          (record l { phase = launched went; tries = 0; staged = take 63 name })
  ignored : {l : Link S} → (name : Text) → may_connect l.phase ≡ false → Step api (some name) l l
  rejoin :
      {l : Link S} → (went : Bool) → Step api none l (record l { phase = launched went; tries = 0 })
  again :
      {l : Link S} → l.phase ≡ connecting → l.tries ≡ 0 → Step api none l (record l { tries = 1 })
  given_up :
      {l : Link S}
      → l.phase ≡ connecting
      → Step api none l (record l { phase = failed; staged = [] })
  refused :
      {l : Link S}
      → l.phase ≡ connecting
      → Step api none l (record l { phase = failed; staged = []; store = nvs_clear api l.store })
  lost : {l : Link S} → l.phase ≡ connected → Step api none l (record l { phase = failed })
  joined :
      {l : Link S} → is_empty l.staged ≡ true → Step api none l (record l { phase = connected })
  saved :
      {l : Link S}
      → (c : Credentials) → c.ssid ≡ l.staged
      → is_empty l.staged ≡ false
      → Step api none l
          (record l { phase = connected; staged = []; store = (nvs_write api c l.store).0 })

abbrev pub submit : Option Text → List Text → List Text
submit none names = names
submit (some name) names = name ∷ names

-- Any number of steps, with the names that they submit.
pub data Steps {S : Type 0} (api : NvsApi S) : List Text → Link S → Link S → Type 0 where
  done : {l : Link S} → Steps api [] l l
  more :
      {o : Option Text} {names : List Text} {k l m : Link S}
      → Step api o k l
      → Steps api names l m
      → Steps api (submit o names) k m

abbrev pub link : {S : Type 0} → Device S → Link S
link d = record {
  phase = d.wifi.state;
  tries = d.wifi.retry_count;
  staged = d.wifi.pending_ssid;
  store = d.nvs;
}

pub data WifiOp : Type 0 where
  connect : Answer → Text → Text → Bool → WifiOp
  reconnect : Answer → WifiOp
  event : EventAnswer → WifiEvent → WifiOp
  scan_start : EspErr → WifiOp
  ap_shutdown : WifiOp

-- The device after a run, whether or not it goes on.
abbrev pub left : {S A : Type 0} → Run (Device S) A → Device S
left (returned _ d) = d
left (aborted d) = d

abbrev pub goes_on : {S A : Type 0} → Run (Device S) A → Bool
goes_on (returned _ d) = true
goes_on (aborted d) = false

module _ {S : Type 0} (api : NvsApi S) where
  -- The device that an operation leaves, with whether the program goes on; `none` is an access out of
  -- bounds.
  unfoldable pub wifi_op : WifiOp → Device S → Option (Device S × Bool)
  wifi_op (connect a ssid pass is_open) d =
      let r = wifi_manager_connect a ssid pass is_open d in some (left r, goes_on r)
  wifi_op (reconnect a) d = some ((wifi_manager_reconnect api a d).0, true)
  wifi_op (event a e) d = elim (wifi_event_handler api a e d) [
    | none ↦ none
    | some r ↦ some (left r, goes_on r)
  ]
  wifi_op (scan_start ret) d = some ((wifi_manager_scan_start ret d).0, true)
  wifi_op ap_shutdown d = some (wifi_manager_ap_shutdown d, true)

  -- Operations until one halts the program.
  unfoldable pub wifi_ops : List WifiOp → Device S → Option (Device S)
  unfolding wifi_op
  wifi_ops [] d = some d
  wifi_ops (o ∷ os) d = elim (wifi_op o d) [
    | none ↦ none
    | some (d', true) ↦ wifi_ops os d'
    | some (d', false) ↦ some d'
  ]

-- The name that an operation hands to `wifi_manager_connect`.
abbrev pub submitted : WifiOp → Option Text
submitted (connect a ssid pass is_open) = some ssid
submitted (reconnect a) = none
submitted (event a e) = none
submitted (scan_start ret) = none
submitted ap_shutdown = none

abbrev pub names_of : List WifiOp → List Text
names_of [] = []
names_of (o ∷ os) = submit (submitted o) (names_of os)
