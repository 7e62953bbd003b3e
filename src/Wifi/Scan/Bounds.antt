-- ===== src/Wifi/Scan/Bounds.antt =====
-- src/wifi_manager.c: the list of networks fits `s_scan_json[2048]`, whole.
use esp32_hydroponics_govern.Prelude.{
  ℕ, suc, ◌+◌, ◌-◌, ◌*◌, ◌≤◌, ◌≡◌, refl, Text, codes, length-decimal, signed_decimal, ℤ, pos,
  negsuc, Bool, true, false, ◌||◌, List, [], ◌∷◌, ◌++◌, append-nil, append_assoc, Option, some,
  length, length-append, take_all, lt→ltb, ◌==◌, arith, Bool-cases, inl, inr, if◌then◌else◌,
}
use esp32_hydroponics_govern.Device.{ApRecord}
use esp32_hydroponics_govern.Wifi.Credentials.{is_empty, auth_open}
use esp32_hydroponics_govern.Wifi.Scan.{
  escape_char, escape, network_entry, Buf, json_size, print, is_duplicate, print_entry, entries,
  scan_listing,
}

length-escape_char : (c : ℕ) → length (escape_char c) ≤ 2
unfolding escape_char
length-escape_char c = ground arith

length-escape : (out : ℕ) (s : Text) → length (escape out s) ≤ 2 * length s
unfolding escape
length-escape out [] = omega arith
length-escape out (c ∷ s) =
    let w = escape_char c in
    ground (
      arith,
      length-escape (out + length w) s,
      length-append w (escape (out + length w) s),
      length-escape_char c,
    )

length-signed_decimal : (n : ℤ) → length (signed_decimal n) ≤ 4
unfolding signed_decimal
length-signed_decimal (pos n) = omega (arith, length-decimal n)
length-signed_decimal (negsuc n) = omega (arith, length-decimal (suc n))

length-truth : (b : Bool) → length (if b then codes "true" else codes "false") ≤ 5
unfolding codes
length-truth true = omega arith
length-truth false = omega arith

-- An SSID has at most 32 bytes.
abbrev pub SsidFits : ApRecord → Type 0
SsidFits r = length r.ssid ≤ 32

abbrev pub AllFit : List ApRecord → Type 0
AllFit [] = Unit
AllFit (r ∷ rs) = SsidFits r × AllFit rs

pub length-network_entry : (r : ApRecord) → SsidFits r → length (network_entry r) ≤ 100
unfolding network_entry
length-network_entry r h =
    let flag = (if r.authmode == auth_open then codes "true" else codes "false") in
    let h1 : length (codes "{\"ssid\":\"") ≡ 9 = unfold codes in refl in
    let h2 : length (codes "\",\"rssi\":") ≡ 9 = unfold codes in refl in
    let h3 : length (codes ",\"open\":") ≡ 8 = unfold codes in refl in
    simp length-append (
      omega (
        arith,
        h1,
        h2,
        h3,
        length-escape 0 r.ssid,
        length-signed_decimal r.rssi,
        length-truth (r.authmode == auth_open),
      ))

-- A print that fits is whole.
print_fits :
    (s : Text) (b : Buf)
    → b.pos ≡ length b.text
    → b.pos + length s ≤ 2047
    → print s b ≡ some (record { text = b.text ++ s; pos = b.pos + length s })
unfolding print
print_fits s b same h = rw (take_all (json_size - 1 - b.pos) s (omega arith)) (ground arith)

-- What the loop has to print: the visible networks, each name once, separated by commas.
unfoldable pub networks : List ApRecord → Bool → List ApRecord → Text
networks seen first [] = []
networks seen first (r ∷ rs) =
    let skipped = networks (r ∷ seen) first rs in
    let others = networks (r ∷ seen) false rs in
    if is_empty r.ssid || is_duplicate r seen
    then skipped
    else ((if first then network_entry r else b',' ∷ network_entry r) ++ others)

print_entry_fits :
    (first : Bool) (r : ApRecord) (b : Buf)
    → SsidFits r
    → b.pos ≡ length b.text
    → b.pos + 101 ≤ 2047
    → let s = (if first then network_entry r else b',' ∷ network_entry r) in
      print_entry first r b ≡ some (record { text = b.text ++ s; pos = b.pos + length s })
unfolding print_entry
print_entry_fits true r b h same k =
    print_fits (network_entry r) b same (omega (arith, length-network_entry r h))
print_entry_fits false r b h same k =
    let b1 : Buf = record { text = b.text ++ b',' ∷ []; pos = b.pos + 1 } in
    ground (
      arith,
      print_fits (b',' ∷ []) b same (omega arith),
      print_fits (network_entry r) b1 (omega (arith, length-append b.text (b',' ∷ [])))
          (omega (arith, length-network_entry r h)),
      append_assoc b.text (b',' ∷ []) (network_entry r),
    )

length-entry :
    (first : Bool) (r : ApRecord)
    → SsidFits r
    → length (if first then network_entry r else b',' ∷ network_entry r) ≤ 101
length-entry true r h = omega (arith, length-network_entry r h)
length-entry false r h = omega (arith, length-network_entry r h)

-- A buffer whose string ends where the next print begins.
abbrev IsTight : Buf → Type 0
IsTight b = b.pos ≡ length b.text

abbrev extend : Buf → Text → Buf
extend b s = record { text = b.text ++ s; pos = b.pos + length s }

extend-IsTight : (b : Buf) (s : Text) → IsTight b → IsTight (extend b s)
extend-IsTight b s h = omega (arith, length-append b.text s)

extend-extend :
    (b : Buf) (s t : Text)
    → ◌≡◌ {A = Option Buf} (some (extend (extend b s) t)) (some (extend b (s ++ t)))
extend-extend b s t = ground (arith, append_assoc b.text s t, length-append s t)

entries_lem :
    (seen : List ApRecord) (first : Bool) (b : Buf) (rs : List ApRecord)
    → AllFit rs
    → IsTight b
    → b.pos + 101 * length rs ≤ 2021
    → (entries seen first b rs ≡ some (extend b (networks seen first rs)))
      × (length (networks seen first rs) ≤ 101 * length rs)
unfolding entries networks
entries_lem seen first b [] h tight k = (ground (arith, append-nil b.text), omega arith)
entries_lem seen first b (r ∷ rs) h tight k =
    elim (Bool-cases (is_empty r.ssid || is_duplicate r seen)) [
      | inl skip ↦
          let (same, size) = entries_lem (r ∷ seen) first b rs h.1 tight (omega arith) in
          rw (skip, lt→ltb b.pos 1952 (omega arith)) (same, omega (arith, size))
      | inr show ↦
          let s = (if first then network_entry r else b',' ∷ network_entry r) in
          let (same, size) =
            entries_lem (r ∷ seen) false (extend b s) rs h.1 (extend-IsTight b s tight)
              (omega (arith, length-entry first r h.0)) in
          rw
            (
              show,
              lt→ltb b.pos 1952 (omega arith),
              print_entry_fits first r b h.0 tight (omega arith),
              same,
            )
            (
              extend-extend b s (networks (r ∷ seen) false rs),
              omega (
                arith,
                size,
                length-entry first r h.0,
                length-append s (networks (r ∷ seen) false rs),
              ),
            )
    ]

-- With at most 20 records, as many as the code fetches, and SSIDs of at most 32 bytes, the list is
-- printed in bounds and whole: an array with one entry for each visible name, in the order of the
-- scan, with no loop cut short and no print truncated.
pub scan_listing_lem :
    (aps : List ApRecord)
    → AllFit aps
    → length aps ≤ 20
    → (scan_listing aps ≡ some (b'[' ∷ (networks [] true aps ++ b']' ∷ [])))
      × (length (networks [] true aps) ≤ 2020)
unfolding scan_listing
scan_listing_lem aps h k =
    let b0 : Buf = record { text = b'[' ∷ []; pos = 1 } in
    let (same, size) = entries_lem [] true b0 aps h refl (omega arith) in
    let b1 = extend b0 (networks [] true aps) in
    (
      ground (
        arith,
        print_fits (b'[' ∷ []) (record { text = []; pos = 0 }) refl (omega arith),
        same,
        print_fits (b']' ∷ []) b1 (extend-IsTight b0 (networks [] true aps) refl)
            (omega (arith, size)),
      ),
      omega (arith, size),
    )
