-- ===== src/Wifi/Scan/Json.antt =====
-- src/wifi_manager.c: what a reader of JSON makes of the list of networks.
use esp32_hydroponics_govern.Prelude.{
  ℕ, zero, suc, ◌≤◌, ◌<◌, ◌≡◌, refl, subst, Text, codes, signed_decimal, Bool, true, false, ◌||◌,
  List, [], ◌∷◌, ◌++◌, append_assoc, some, length, ◌==◌, arith, Bool-cases, inl, inr, if◌then◌else◌,
}
use esp32_hydroponics_govern.Device.{ApRecord}
use esp32_hydroponics_govern.Wifi.Credentials.{is_empty, auth_open}
use esp32_hydroponics_govern.Wifi.Scan.{escape, network_entry, is_duplicate, scan_listing}
use esp32_hydroponics_govern.Wifi.Scan.Bounds.{SsidFits, AllFit, networks, scan_listing_lem}
use esp32_hydroponics_govern.Wifi.Scan.Reader.{
  strip, read_entry, read_entries, read_names, shown, shown_names, RssiFits, AllRssiFit,
  read_string-escape, NoBrace, past_brace-append, append-NoBrace, signed_decimal-NoBrace,
  truth-NoBrace,
}

-- An entry after its name, up to its brace.
abbrev entry_tail : ApRecord → Text
entry_tail r =
    codes ",\"rssi\":"
    ++ (signed_decimal r.rssi
        ++ (codes ",\"open\":"
            ++ (if r.authmode == auth_open then codes "true" else codes "false")))

entry_tail-NoBrace : (r : ApRecord) → RssiFits r.rssi → NoBrace (entry_tail r)
unfolding codes NoBrace
entry_tail-NoBrace r h =
    let flag = (if r.authmode == auth_open then codes "true" else codes "false") in
    let inner : NoBrace (codes ",\"open\":" ++ flag) =
      append-NoBrace (codes ",\"open\":") flag (unfold codes NoBrace in ground arith)
        (truth-NoBrace (r.authmode == auth_open)) in
    append-NoBrace (codes ",\"rssi\":") (signed_decimal r.rssi ++ (codes ",\"open\":" ++ flag))
      (ground arith)
      (append-NoBrace (signed_decimal r.rssi) (codes ",\"open\":" ++ flag)
        (signed_decimal-NoBrace r.rssi h) inner)

network_entry-split :
    (r : ApRecord) (rest : Text)
    → network_entry r ++ rest
      ≡ codes "{\"ssid\":\"" ++ (escape 0 r.ssid ++ b'"' ∷ (entry_tail r ++ b'}' ∷ rest))
unfolding network_entry codes
network_entry-split r rest = simp append_assoc refl

read_entry-network_entry :
    (r : ApRecord) (rest : Text)
    → SsidFits r
    → RssiFits r.rssi
    → read_entry (network_entry r ++ rest) ≡ some (shown r.ssid, rest)
unfolding read_entry strip codes
read_entry-network_entry r rest h k = rw (network_entry-split r rest) (
    rw (read_string-escape 0 r.ssid (entry_tail r ++ b'}' ∷ rest) (omega (arith, h)), read_entry)
      (rw (past_brace-append (entry_tail r) rest (entry_tail-NoBrace r k)) refl))

read_entries-entry :
    (fuel : ℕ) (first : Bool) (r : ApRecord) (rest : Text) (names : List Text)
    → SsidFits r
    → RssiFits r.rssi
    → read_entries fuel false rest ≡ some names
    → read_entries
        (suc fuel)
        first
        ((if first then network_entry r else b',' ∷ network_entry r) ++ rest)
      ≡ some (shown r.ssid ∷ names)
unfolding read_entries strip codes
read_entries-entry fuel true r rest names h k later =
    let split = network_entry-split r rest in
    let e =
      subst (λ t. read_entry t ≡ some (shown r.ssid, rest)) split
        (read_entry-network_entry r rest h k) in
    rw split (rw (e, read_entries) (rw later refl))
read_entries-entry fuel false r rest names h k later =
    rw (read_entry-network_entry r rest h k, read_entries) (rw later refl)

networks-reads :
    (fuel : ℕ) (seen : List ApRecord) (first : Bool) (rs : List ApRecord)
    → AllFit rs
    → AllRssiFit rs
    → length rs < fuel
    → read_entries fuel first (networks seen first rs ++ b']' ∷ []) ≡ some (shown_names seen rs)
unfolding networks shown_names read_entries
networks-reads zero seen first rs h k enough = absurd (omega (arith, enough))
networks-reads (suc fuel) seen first [] h k enough = refl
networks-reads (suc fuel) seen first (r ∷ rs) h k enough =
    elim (Bool-cases (is_empty r.ssid || is_duplicate r seen)) [
      | inl skip ↦
          rw skip (networks-reads (suc fuel) (r ∷ seen) first rs h.1 k.1 (omega (arith, enough)))
      | inr show ↦
          let later = networks-reads fuel (r ∷ seen) false rs h.1 k.1 (omega (arith, enough)) in
          let entry = (if first then network_entry r else b',' ∷ network_entry r) in
          rw show (
            rw (append_assoc entry (networks (r ∷ seen) false rs) (b']' ∷ [])) (
              read_entries-entry fuel first r (networks (r ∷ seen) false rs ++ b']' ∷ [])
                (shown_names (r ∷ seen) rs) h.0 k.0 later))
    ]

-- The portal reads back what the scan has found: for at most 20 records with SSIDs of at most 32
-- bytes and an int8_t for the signal, the list that is printed is an array in which a reader of JSON
-- strings finds the names of the visible networks, one for each different SSID, in the order of the
-- scan, whole but for their control characters, which are left out, whatever quotes, backslashes and
-- braces they hold.
pub scan_listing-names :
    (aps : List ApRecord)
    → AllFit aps
    → AllRssiFit aps
    → length aps ≤ 20
    → (json : Text) × (scan_listing aps ≡ some json)
      × (read_names (suc (length aps)) json ≡ some (shown_names [] aps))
unfolding read_names strip
scan_listing-names aps h k few =
    let (listed, size) = scan_listing_lem aps h few in
    (
      b'[' ∷ (networks [] true aps ++ b']' ∷ []),
      listed,
      networks-reads (suc (length aps)) [] true aps h k (omega arith),
    )
