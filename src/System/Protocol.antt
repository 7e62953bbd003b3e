-- ===== src/System/Protocol.antt =====
-- The connection protocol as the whole firmware moves through it: the steps of Wifi.Protocol, those of
-- an attempt that other tasks interrupt, and those of a start. `all` are the names that were posted.
pub mod Provenance
pub mod Turns
pub mod Runs
pub mod Starts
pub mod Boots
use esp32_hydroponics_govern.Prelude.{
  ◌≡◌, ◌⊎◌, refl, Text, true, Bool, List, [], ◌∷◌, Option, none, some, take, inl, inr,
}
use esp32_hydroponics_govern.Device.{idle, ap_only, connecting}
use esp32_hydroponics_govern.Wifi.Credentials.{NvsApi, Credentials, is_empty, nvs_write, nvs_clear}
use esp32_hydroponics_govern.Wifi.Connect.{may_connect}
use esp32_hydroponics_govern.Wifi.Protocol.{Link, launched, Step, submit}
use esp32_hydroponics_govern.Wifi.Protocol.Provenance.{IsNamed, Within}

-- `staging` and `launching` are the two ends of an attempt; the others are those of a start.
pub data Move {S : Type 0} (api : NvsApi S) (all : List Text) : Link S → Link S → Type 0 where
  step :
      {k l : Link S}
      → (o : Option Text) → Within (submit o []) all
      → Step api o k l
      → Move api all k l
  staging :
      {l : Link S}
      → (name : Text) → may_connect l.phase ≡ true
      → IsNamed (take 63 name) all
      → Move api all l (record l { tries = 0; staged = take 63 name })
  launching : {l : Link S} → (went : Bool) → Move api all l (record l { phase = launched went })
  starting :
      {l : Link S} → l.phase ≡ idle → Move api all l (record l { phase = connecting; tries = 0 })
  opening : {l : Link S} → l.phase ≡ idle → Move api all l (record l { phase = ap_only })
  giving_up : {l : Link S} → Move api all l (record l { store = nvs_clear api l.store })
  wiping : {l : Link S} → Move api all l (record l { store = api.flash_erase l.store })

pub data Moves {S : Type 0} (api : NvsApi S) (all : List Text) (k : Link S) : Link S → Type 0 where
  still : Moves api all k k
  later : {l m : Link S} → Moves api all k l → Move api all l m → Moves api all k m

-- What erasing the store or the flash, and saving credentials of these names, make of a store.
pub data Kept {S : Type 0} (api : NvsApi S) (names : List Text) (first : S) : S → Type 0 where
  untouched : Kept api names first first
  erased : {s : S} → Kept api names first s → Kept api names first (nvs_clear api s)
  wiped : {s : S} → Kept api names first s → Kept api names first (api.flash_erase s)
  wrote :
      {s : S}
      → (c : Credentials) → IsNamed c.ssid names
      → Kept api names first s
      → Kept api names first (nvs_write api c s).0
