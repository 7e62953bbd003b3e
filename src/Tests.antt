-- ===== src/Tests.antt =====
-- The devices, stores and lines that the examples run on.
mod Sensors
mod Services
mod Network
mod Portal
mod Protocol
mod Systems
mod Waves
use esp32_hydroponics_govern.Prelude.{
  ℕ, ◌+◌, ◌*◌, ◌%◌, ◌≡◌, refl, Text, codes, decimal, Bool, true, false, ◌||◌, Bool-cases, inl, inr,
  List, [], ◌∷◌, ℤ, negsuc, Option, none, some, length, ltb, ◌==◌, ◌/◌, arith, if◌then◌else◌,
}
use esp32_hydroponics_govern.Platform.{EspErr, ok, not_found, FloatOps}
use esp32_hydroponics_govern.Device.{WifiState, connecting, ApRecord, Wifi, Device, boot}
use esp32_hydroponics_govern.Dht.{Line}
use esp32_hydroponics_govern.Wifi.Credentials.{NvsKey, NvsApi, Credentials, nvs_write}
use esp32_hydroponics_govern.Wifi.Credentials.RoundTrip.{NvsLaws, same_key}

-- A store that keeps what was set last under each key, and whether the namespace exists.
pub record Store : Type 0 where
  pub strings : NvsKey → Option Text
  pub numbers : NvsKey → Option ℕ
  pub blobs : NvsKey → Option (List ℕ)
  pub created : Bool

abbrev pub fitting : ℕ → Option Text → Option Text
fitting n none = none
fitting n (some v) = if ltb (length v) n then some v else none

abbrev pub fitting_blob : ℕ → Option (List ℕ) → Option (List ℕ)
fitting_blob n none = none
fitting_blob n (some v) = if ltb n (length v) then none else some v

abbrev pub empty_store : Store
empty_store = record {
  strings = λ k. none;
  numbers = λ k. none;
  blobs = λ k. none;
  created = false;
}

abbrev pub store_api : NvsApi Store
store_api = record {
  open_rw = λ s. ok;
  open_ro = λ s. if s.created then ok else not_found;
  set_str = λ j v s. record s {
    strings = λ k. if same_key k j then some v else s.strings k;
    created = true;
  };
  set_u8 = λ j v s. record s {
    numbers = λ k. if same_key k j then some v else s.numbers k;
    created = true;
  };
  set_blob =
      λ j v s. record s { blobs = λ k. if same_key k j then some v else s.blobs k; created = true };
  commit = λ s. s;
  erase_all = λ s. record empty_store { created = s.created };
  flash_erase = λ s. empty_store;
  get_str = λ k n s. fitting n (s.strings k);
  get_u8 = λ k s. s.numbers k;
  get_blob = λ k n s. fitting_blob n (s.blobs k);
}

set_then_get :
    (b : Bool) (n : ℕ) (v : Text) (old : Option Text)
    → fitting n (if b then some v else old)
      ≡ (if b then (if ltb (length v) n then some v else none) else fitting n old)
set_then_get true n v old = refl
set_then_get false n v old = refl

set_then_get_blob :
    (b : Bool) (n : ℕ) (v : List ℕ) (old : Option (List ℕ))
    → fitting_blob n (if b then some v else old)
      ≡ (if b then (if ltb n (length v) then none else some v) else fitting_blob n old)
set_then_get_blob true n v old = refl
set_then_get_blob false n v old = refl

pub store_laws : NvsLaws store_api
store_laws = record {
  str-set_str = λ k j n v s. set_then_get (same_key k j) n v (s.strings k);
  str-set_u8 = λ k j n v s h. refl;
  str-set_blob = λ k j n v s h. refl;
  u8-set_u8 = λ k j v s. refl;
  u8-set_blob = λ k j v s h. refl;
  blob-set_blob = λ k j n v s. set_then_get_blob (same_key k j) n v (s.blobs k);
  blob-set_u8 = λ k j n v s h. refl;
  str-commit = λ k n s. refl;
  u8-commit = λ k s. refl;
  blob-commit = λ k n s. refl;
  str-erase_all = λ k n s. refl;
}

-- A save creates the namespace.
pub opens_saved : (c : Credentials) (s : Store) → store_api.open_ro (nvs_write store_api c s).0 ≡ ok
unfolding nvs_write
opens_saved c s = refl

abbrev pub device : Device Store
device = boot empty_store

-- Readings as whole numbers.
abbrev pub whole_floats : FloatOps
whole_floats = record {
  of_int = λ n. n;
  div_pulses = λ n. n * 4 / 15;
  ne = λ a b. if a == b then false else true;
  print1 = decimal;
  print2 = decimal;
}

-- A DHT11 that sends humidity 1, temperature 0 and the checksum 1: two pulses are long.
abbrev pub dht_line : Line
dht_line = record {
  level = λ k. if (k % 8 == 2) || (k == 4) then 1 else 0;
  time = λ k. 5 * k + ((if ltb 70 k then 30 else 0) + (if ltb 326 k then 30 else 0));
}

abbrev pub home : Text
home = b'h' ∷ b'o' ∷ b'm' ∷ b'e' ∷ []

abbrev pub secret : Text
secret = b'a' ∷ b'&' ∷ b'=' ∷ b'+' ∷ b' ' ∷ b'b' ∷ b'%' ∷ 200 ∷ []

abbrev pub home_ap : ApRecord
home_ap = record {
  bssid = 1 ∷ 2 ∷ 3 ∷ 4 ∷ 5 ∷ 6 ∷ [];
  ssid = home;
  primary = 11;
  rssi = negsuc 49;
  authmode = 3;
}

abbrev pub far_ap : ApRecord
far_ap = record home_ap { bssid = 9 ∷ 9 ∷ 9 ∷ 9 ∷ 9 ∷ 9 ∷ []; primary = 1; rssi = negsuc 79 }

-- A device that is connecting to `home` with credentials staged.
abbrev pub joining : Device Store
joining = record device {
  wifi = record (device.wifi) {
    state = connecting;
    pending_ssid = home;
    pending_pass = secret;
    pending_bssid = home_ap.bssid;
    pending_bssid_set = true;
    pending_auth = 3;
    scan_records = far_ap ∷ home_ap ∷ [];
  };
}
