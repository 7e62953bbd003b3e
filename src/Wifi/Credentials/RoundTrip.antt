-- ===== src/Wifi/Credentials/RoundTrip.antt =====
-- src/wifi_manager.c: credentials that were saved are read back.
use esp32_hydroponics_govern.Prelude.{
  ℕ, ◌<◌, ◌≡◌, refl, Text, Bool, true, false, List, none, some, length, arith, inl, inr, Bool-cases,
  if◌then◌else◌, ltb,
}
use esp32_hydroponics_govern.Platform.{ok}
use esp32_hydroponics_govern.Wifi.Credentials.{
  NvsKey, key_ssid, key_pass, key_bssid_set, key_bssid, key_auth, NvsApi, Credentials, zero_bssid,
  bool_u8, is_empty, nvs_write, nvs_clear, nvs_read,
}

abbrev pub same_key : NvsKey → NvsKey → Bool
same_key key_ssid key_ssid = true
same_key key_pass key_pass = true
same_key key_bssid_set key_bssid_set = true
same_key key_bssid key_bssid = true
same_key key_auth key_auth = true
same_key _ _ = false

-- What the NVS documentation promises of a store with room: a `get` sees the last `set` of its key
-- if the buffer has room, an entry of another key or type is not touched, an erased namespace is
-- empty, and `nvs_commit` changes nothing that is read.
pub record NvsLaws {S : Type 0} (api : NvsApi S) : Type 0 where
  pub str-set_str :
      (k j : NvsKey) (n : ℕ) (v : Text) (s : S)
      → api.get_str k n (api.set_str j v s)
        ≡ (if same_key k j then (if ltb (length v) n then some v else none) else api.get_str k n s)
  pub str-set_u8 :
      (k j : NvsKey) (n v : ℕ) (s : S)
      → same_key k j ≡ false
      → api.get_str k n (api.set_u8 j v s) ≡ api.get_str k n s
  pub str-set_blob :
      (k j : NvsKey) (n : ℕ) (v : List ℕ) (s : S)
      → same_key k j ≡ false
      → api.get_str k n (api.set_blob j v s) ≡ api.get_str k n s
  pub u8-set_u8 :
      (k j : NvsKey) (v : ℕ) (s : S)
      → api.get_u8 k (api.set_u8 j v s) ≡ (if same_key k j then some v else api.get_u8 k s)
  pub u8-set_blob :
      (k j : NvsKey) (v : List ℕ) (s : S)
      → same_key k j ≡ false
      → api.get_u8 k (api.set_blob j v s) ≡ api.get_u8 k s
  pub blob-set_blob :
      (k j : NvsKey) (n : ℕ) (v : List ℕ) (s : S)
      → api.get_blob k n (api.set_blob j v s)
        ≡ (if same_key k j then (if ltb n (length v) then none else some v) else api.get_blob k n s)
  pub blob-set_u8 :
      (k j : NvsKey) (n v : ℕ) (s : S)
      → same_key k j ≡ false
      → api.get_blob k n (api.set_u8 j v s) ≡ api.get_blob k n s
  pub str-commit : (k : NvsKey) (n : ℕ) (s : S) → api.get_str k n (api.commit s) ≡ api.get_str k n s
  pub u8-commit : (k : NvsKey) (s : S) → api.get_u8 k (api.commit s) ≡ api.get_u8 k s
  pub blob-commit :
      (k : NvsKey) (n : ℕ) (s : S) → api.get_blob k n (api.commit s) ≡ api.get_blob k n s
  pub str-erase_all : (k : NvsKey) (n : ℕ) (s : S) → api.get_str k n (api.erase_all s) ≡ none

-- Credentials as `connect_sta` stages them: strings that fit their buffers, a name, a whole BSSID.
pub record IsStaged (c : Credentials) : Type 0 where
  pub named : is_empty c.ssid ≡ false
  pub ssid_fits : length c.ssid < 64
  pub pass_fits : length c.pass < 64
  pub bssid_whole : length c.bssid ≡ 6

-- What `nvs_read` makes of a store by what its gets return.
read_known :
    {S : Type 0} (api : NvsApi S) (c : Credentials) (s : S)
    → api.open_ro s ≡ ok
    → api.get_str key_ssid 64 s ≡ some c.ssid
    → api.get_str key_pass 64 s ≡ some c.pass
    → api.get_u8 key_bssid_set s ≡ some (bool_u8 c.bssid_set)
    → api.get_u8 key_auth s ≡ some c.auth
    → (c.bssid_set ≡ true → api.get_blob key_bssid 6 s ≡ some c.bssid)
    → is_empty c.ssid ≡ false
    → nvs_read api s ≡ some (record c { bssid = if c.bssid_set then c.bssid else zero_bssid })
unfolding nvs_read
read_known api c s ro ssid pass flag auth blob named = ground arith

module _ {S : Type 0} (api : NvsApi S) (laws : NvsLaws api) where
  -- The stores between the writes of `nvs_write`.
  abbrev with_strings : Credentials → S → S
  with_strings c s = api.set_str key_pass c.pass (api.set_str key_ssid c.ssid s)

  abbrev with_flag : Credentials → S → S
  with_flag c s = api.set_u8 key_bssid_set (bool_u8 c.bssid_set) (with_strings c s)

  abbrev with_bssid : Credentials → S → S
  with_bssid c s =
      if c.bssid_set then api.set_blob key_bssid c.bssid (with_flag c s) else with_flag c s

  abbrev with_auth : Credentials → S → S
  with_auth c s = api.set_u8 key_auth c.auth (with_bssid c s)

  written :
      (c : Credentials) (s : S)
      → api.open_rw s ≡ ok
      → (nvs_write api c s).0 ≡ api.commit (with_auth c s)
  unfolding nvs_write
  written c s open_ok = ground arith

  got_str :
      (k : NvsKey) (c : Credentials) (s : S)
      → same_key k key_auth ≡ false
      → same_key k key_bssid ≡ false
      → same_key k key_bssid_set ≡ false
      → api.get_str k 64 (api.commit (with_auth c s)) ≡ api.get_str k 64 (with_strings c s)
  got_str k c s ha hb hf = elim (Bool-cases c.bssid_set) [
    | inl b ↦ rw (
      laws.str-commit k 64 (with_auth c s),
      laws.str-set_u8 k key_auth 64 c.auth (with_bssid c s) ha,
      b,
      laws.str-set_blob k key_bssid 64 c.bssid _ hb,
      laws.str-set_u8 k key_bssid_set 64 _ (with_strings c s) hf,
    )
    | inr b ↦ rw (
      laws.str-commit k 64 (with_auth c s),
      laws.str-set_u8 k key_auth 64 c.auth (with_bssid c s) ha,
      b,
      laws.str-set_u8 k key_bssid_set 64 _ (with_strings c s) hf,
    )
  ]

  got_ssid :
      (c : Credentials) (s : S)
      → length c.ssid < 64
      → api.get_str key_ssid 64 (api.commit (with_auth c s)) ≡ some c.ssid
  got_ssid c s fits = ground (
    arith,
    got_str key_ssid c s refl refl refl,
    laws.str-set_str key_ssid key_pass 64 c.pass (api.set_str key_ssid c.ssid s),
    laws.str-set_str key_ssid key_ssid 64 c.ssid s,
  )

  got_pass :
      (c : Credentials) (s : S)
      → length c.pass < 64
      → api.get_str key_pass 64 (api.commit (with_auth c s)) ≡ some c.pass
  got_pass c s fits = ground (
    arith,
    got_str key_pass c s refl refl refl,
    laws.str-set_str key_pass key_pass 64 c.pass (api.set_str key_ssid c.ssid s),
  )

  got_auth :
      (c : Credentials) (s : S) → api.get_u8 key_auth (api.commit (with_auth c s)) ≡ some c.auth
  got_auth c s = ground (
    arith,
    laws.u8-commit key_auth (with_auth c s),
    laws.u8-set_u8 key_auth key_auth c.auth (with_bssid c s),
  )

  got_flag :
      (c : Credentials) (s : S)
      → api.get_u8 key_bssid_set (api.commit (with_auth c s)) ≡ some (bool_u8 c.bssid_set)
  got_flag c s = ground (
    arith,
    laws.u8-commit key_bssid_set (with_auth c s),
    laws.u8-set_u8 key_bssid_set key_auth c.auth (with_bssid c s),
    laws.u8-set_blob key_bssid_set key_bssid c.bssid (with_flag c s) refl,
    laws.u8-set_u8 key_bssid_set key_bssid_set (bool_u8 c.bssid_set) (with_strings c s),
  )

  got_bssid :
      (c : Credentials) (s : S)
      → length c.bssid ≡ 6
      → c.bssid_set ≡ true
      → api.get_blob key_bssid 6 (api.commit (with_auth c s)) ≡ some c.bssid
  got_bssid c s six b = ground (
    arith,
    laws.blob-commit key_bssid 6 (with_auth c s),
    laws.blob-set_u8 key_bssid key_auth 6 c.auth (with_bssid c s) refl,
    laws.blob-set_blob key_bssid key_bssid 6 c.bssid (with_flag c s),
  )

  -- Credentials that `nvs_write` saves are what `nvs_read` finds, if the store opens both ways: both
  -- strings, the flag, the authentication mode, and the BSSID where the flag is set.
  pub nvs_read-nvs_write :
      (c : Credentials) (s : S)
      → IsStaged c
      → api.open_rw s ≡ ok
      → api.open_ro (nvs_write api c s).0 ≡ ok
      → nvs_read api (nvs_write api c s).0
        ≡ some (record c { bssid = if c.bssid_set then c.bssid else zero_bssid })
  nvs_read-nvs_write c s v rw_ok ro_ok = rw (written c s rw_ok) (
      read_known api c (api.commit (with_auth c s)) (rw (written c s rw_ok) at ro_ok)
        (got_ssid c s v.ssid_fits) (got_pass c s v.pass_fits) (got_flag c s) (got_auth c s)
        (got_bssid c s v.bssid_whole) v.named)

  -- After `nvs_clear` on a store that opens for writing there are no credentials, whatever was saved.
  pub nvs_read-nvs_clear : (s : S) → api.open_rw s ≡ ok → nvs_read api (nvs_clear api s) ≡ none
  unfolding nvs_read nvs_clear
  nvs_read-nvs_clear s rw_ok =
      ground
        (arith, laws.str-commit key_ssid 64 (api.erase_all s), laws.str-erase_all key_ssid 64 s)
