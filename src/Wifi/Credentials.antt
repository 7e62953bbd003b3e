-- ===== src/Wifi/Credentials.antt =====
-- src/wifi_manager.c: the credentials in non-volatile storage. The NVS library is a parameter.
pub mod RoundTrip
use esp32_hydroponics_govern.Prelude.{
  ℕ, Text, Bool, true, false, not, List, [], ◌∷◌, Option, none, some, ltb, ◌==◌, if◌then◌else◌,
}
use esp32_hydroponics_govern.Platform.{EspErr, ok, is_ok}

-- The keys "ssid", "pass", "bssid_set", "bssid" and "authmode" of namespace "wifi".
pub data NvsKey : Type 0 where
  key_ssid key_pass key_bssid_set key_bssid key_auth : NvsKey

-- What the NVS library does with a store. `get_str k n` and `get_blob k n` have room for `n` bytes;
-- `none` is any result but ESP_OK. `flash_erase` is what `nvs_flash_erase` makes of the whole partition.
pub record NvsApi (S : Type 0) : Type 0 where
  pub open_rw : S → EspErr
  pub open_ro : S → EspErr
  pub set_str : NvsKey → Text → S → S
  pub set_u8 : NvsKey → ℕ → S → S
  pub set_blob : NvsKey → List ℕ → S → S
  pub commit : S → S
  pub erase_all : S → S
  pub flash_erase : S → S
  pub get_str : NvsKey → ℕ → S → Option Text
  pub get_u8 : NvsKey → S → Option ℕ
  pub get_blob : NvsKey → ℕ → S → Option (List ℕ)

-- What `nvs_read` leaves in its arguments.
pub record Credentials : Type 0 where
  pub ssid : Text
  pub pass : Text
  pub bssid_set : Bool
  pub bssid : List ℕ
  pub auth : ℕ

-- WIFI_AUTH_OPEN and WIFI_AUTH_WPA2_PSK
abbrev pub auth_open : ℕ
auth_open = 0

abbrev pub auth_wpa2_psk : ℕ
auth_wpa2_psk = 3

abbrev pub zero_bssid : List ℕ
zero_bssid = 0 ∷ 0 ∷ 0 ∷ 0 ∷ 0 ∷ 0 ∷ []

-- `(uint8_t)b`
abbrev pub bool_u8 : Bool → ℕ
bool_u8 b = if b then 1 else 0

abbrev pub is_empty : Text → Bool
is_empty [] = true
is_empty (_ ∷ _) = false

-- What a variable holds after a `get` that may leave it alone.
abbrev pub or_else : {A : Type 0} → Option A → A → A
or_else none a = a
or_else (some b) a = b

module _ {S : Type 0} (api : NvsApi S) where
  unfoldable pub nvs_write : Credentials → S → S × EspErr
  nvs_write c s =
      let ret = api.open_rw s in
      let s1 = api.set_str key_pass c.pass (api.set_str key_ssid c.ssid s) in
      let s2 = api.set_u8 key_bssid_set (bool_u8 c.bssid_set) s1 in
      let s3 = (if c.bssid_set then api.set_blob key_bssid c.bssid s2 else s2) in
      if is_ok ret then (api.commit (api.set_u8 key_auth c.auth s3), ok) else (s, ret)

  unfoldable pub nvs_clear : S → S
  nvs_clear s = if is_ok (api.open_rw s) then api.commit (api.erase_all s) else s

  -- With both strings read, the rest of `nvs_read`.
  unfoldable pub read_rest : Text → Text → S → Credentials
  read_rest ssid pass s =
      let flag = not (or_else (api.get_u8 key_bssid_set s) 0 == 0) in
      record {
        ssid = ssid;
        pass = pass;
        bssid_set = flag;
        bssid = if flag then or_else (api.get_blob key_bssid 6 s) zero_bssid else zero_bssid;
        auth = or_else (api.get_u8 key_auth s) auth_wpa2_psk;
      }

  -- `none` where it returns false. The callers' buffers have 64 bytes and hold the defaults.
  unfoldable pub nvs_read : S → Option Credentials
  unfolding read_rest
  nvs_read s =
      if is_ok (api.open_ro s)
      then elim (api.get_str key_ssid 64 s) [
        | none ↦ none
        | some ssid ↦ if is_empty ssid then none else elim (api.get_str key_pass 64 s) [
          | none ↦ none
          | some pass ↦ some (read_rest ssid pass s)
        ]
      ]
      else none
