-- ===== src/Wifi/Scan.antt =====
-- src/wifi_manager.c: the scan and its cache, from which a target's access point is looked up and
-- the portal's list of networks is printed.
pub mod Lookup
pub mod Bounds
pub mod Reader
pub mod Json
use esp32_hydroponics_govern.Prelude.{
  ℕ, ◌+◌, ◌-◌, Text, codes, text_eq, signed_decimal, ltb_ℤ, Bool, true, false, ◌||◌, List, [], ◌∷◌,
  ◌++◌, Option, none, some, length, take, ltb, leb, ◌==◌, if◌then◌else◌,
}
use esp32_hydroponics_govern.Platform.{EspErr, ok, invalid_state, is_ok, wifi_scan_start}
use esp32_hydroponics_govern.Device.{ApRecord, Wifi, Device, emit}
use esp32_hydroponics_govern.Wifi.Credentials.{is_empty, auth_open}

-- One round of the loop of `find_scanned_ap`.
unfoldable pub better : Text → Option ApRecord → ApRecord → Option ApRecord
better ssid best r =
    if text_eq r.ssid ssid
    then elim best [ none ↦ some r | some b ↦ if ltb_ℤ b.rssi r.rssi then some r else some b ]
    else best

unfoldable pub find_from : Text → Option ApRecord → List ApRecord → Option ApRecord
find_from ssid best [] = best
find_from ssid best (r ∷ rs) = find_from ssid (better ssid best r) rs

unfoldable pub find_scanned_ap : List ApRecord → Text → Option ApRecord
find_scanned_ap records ssid = find_from ssid none records

-- What is written of one byte of an SSID.
unfoldable pub escape_char : ℕ → Text
escape_char c =
    if c == b'\\' || c == b'"' then b'\\' ∷ c ∷ [] else (if leb 0x20 c then c ∷ [] else [])

-- The loop that fills `ssid_json[96]`, with `out` bytes written.
unfoldable pub escape : ℕ → Text → Text
escape out [] = []
escape out (c ∷ s) =
    let w = escape_char c in
    let rest = escape (out + length w) s in if ltb out 93 then w ++ rest else []

-- What the third `snprintf` prints of a record.
unfoldable pub network_entry : ApRecord → Text
network_entry r =
    codes "{\"ssid\":\""
    ++ (escape 0 r.ssid
        ++ (codes "\",\"rssi\":"
            ++ (signed_decimal r.rssi
                ++ (codes ",\"open\":"
                    ++ ((if r.authmode == auth_open then codes "true" else codes "false")
                        ++ b'}' ∷ [])))))

-- `s_scan_json` and `pos`.
pub record Buf : Type 0 where
  pub text : Text
  pub pos : ℕ

-- `sizeof(s_scan_json)`
abbrev pub json_size : ℕ
json_size = 2048

-- `pos += snprintf(s_scan_json + pos, sizeof(s_scan_json) - pos, …)`. `none` where `pos` has passed
-- the end, when the size wraps and the write is out of bounds.
unfoldable pub print : Text → Buf → Option Buf
print s b =
    if ltb b.pos json_size
    then some (record { text = b.text ++ take (json_size - 1 - b.pos) s; pos = b.pos + length s })
    else none

unfoldable pub is_duplicate : ApRecord → List ApRecord → Bool
is_duplicate r [] = false
is_duplicate r (q ∷ seen) = text_eq q.ssid r.ssid || is_duplicate r seen

-- The comma, if this is not the first entry, and the entry.
unfoldable pub print_entry : Bool → ApRecord → Buf → Option Buf
print_entry true r b = print (network_entry r) b
print_entry false r b = elim (print (b',' ∷ []) b) [
  | none ↦ none
  | some b' ↦ print (network_entry r) b'
]

-- The loop over the records; `seen` holds those before.
unfoldable pub entries : List ApRecord → Bool → Buf → List ApRecord → Option Buf
entries seen first b [] = some b
entries seen first b (r ∷ rs) =
    let skipped = entries (r ∷ seen) first b rs in
    if ltb b.pos (json_size - 96)
    then (if is_empty r.ssid || is_duplicate r seen then skipped else elim (print_entry first r b) [
      | none ↦ none
      | some b' ↦ entries (r ∷ seen) false b' rs
    ])
    else some b

-- `none` is a write out of bounds.
unfoldable pub scan_listing : List ApRecord → Option Text
scan_listing aps = elim (print (b'[' ∷ []) (record { text = []; pos = 0 })) [
  | none ↦ none
  | some b0 ↦ elim (entries [] true b0 aps) [
    | none ↦ none
    | some b ↦ elim (print (b']' ∷ []) b) [ none ↦ none | some b' ↦ some b'.text ]
  ]
]

-- What the driver and `calloc` answer to `update_scan_cache`.
pub record ScanAnswer : Type 0 where
  pub ap_num : ℕ
  pub allocated : Bool
  pub ret : EspErr
  pub records : List ApRecord

abbrev pub no_networks : Text
no_networks = b'[' ∷ b']' ∷ []

module _ {S : Type 0} where
  abbrev pub with_scan : Text → List ApRecord → Device S → Device S
  with_scan json records d = record d {
    wifi = record (d.wifi) { scan_json = json; scan_records = records };
  }

  -- `none` is a write out of bounds.
  unfoldable pub update_scan_cache : ScanAnswer → Device S → Option (Device S)
  update_scan_cache a d =
      if a.ap_num == 0
      then some (with_scan no_networks [] d)
      else (if a.allocated
          then (if is_ok a.ret
              then elim (scan_listing a.records) [
                | none ↦ none
                | some json ↦ some (with_scan json (take 20 a.records) d)
              ]
              else some (with_scan no_networks [] d))
          else some (with_scan no_networks d.wifi.scan_records d))

  -- `ret`: what `esp_wifi_scan_start` returns.
  unfoldable pub wifi_manager_scan_start : EspErr → Device S → Device S × EspErr
  wifi_manager_scan_start ret d =
      let d' = emit (wifi_scan_start false) (record d {
        wifi = record (d.wifi) { scanning = true; last_scan_err = ok; scan_json = no_networks };
      }) in
      if d.wifi.scanning
      then (d, invalid_state)
      else (if is_ok ret then (d', ok) else (
        record d' { wifi = record (d'.wifi) { scanning = false; last_scan_err = ret } },
        ret,
      ))

  -- The string that is left in a buffer of `len` bytes.
  unfoldable pub wifi_manager_get_scan_json : ℕ → Device S → Text
  wifi_manager_get_scan_json len d =
      if d.wifi.scanning
      then no_networks
      else (if is_ok d.wifi.last_scan_err then take (len - 1) d.wifi.scan_json else no_networks)
