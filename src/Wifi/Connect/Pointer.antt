-- ===== src/Wifi/Connect/Pointer.antt =====
-- src/wifi_manager.c: the pointer into `s_scan_records` that `connect_sta` keeps, and its buffers.
use esp32_hydroponics_govern.Prelude.{
  ℕ, ◌+◌, ◌<◌, ◌≤◌, sym, subst, Text, Bool, List, [], ◌∷◌, Option, none, some, length, text_eq,
  ltb_ℤ, Bool-cases, inl, inr, arith,
}
use esp32_hydroponics_govern.Device.{ApRecord, Device}
use esp32_hydroponics_govern.Wifi.Connect.Paused.{
  Slot, better_slot, find_slot_from, find_slot, record_of, reread, begin_attempt,
}
use esp32_hydroponics_govern.Wifi.Scan.{find_scanned_ap}
use esp32_hydroponics_govern.Wifi.Scan.Lookup.{find_scanned_ap-IsBest}
use esp32_hydroponics_govern.Wifi.Connect.Undisturbed.{record_of-find_slot}
use esp32_hydroponics_govern.Wifi.Invariant.{WifiFits, Found, Found-IsBest, stage-WifiFits}

-- The pointer is NULL or below this index.
abbrev pub IsBelow : ℕ → Option Slot → Type 0
IsBelow n none = Unit
IsBelow n (some (i, r)) = i < n

better_slot-IsBelow :
    (ssid : Text) (best : Option Slot) (i : ℕ) (r : ApRecord)
    → IsBelow i best
    → IsBelow (i + 1) (better_slot ssid best (i, r))
unfolding better_slot
better_slot-IsBelow ssid none i r h = elim (Bool-cases (text_eq r.ssid ssid)) [
  | inl same ↦ rw same (omega arith)
  | inr other ↦ rw other tt
]
better_slot-IsBelow ssid (some (j, b)) i r h = elim (Bool-cases (text_eq r.ssid ssid)) [
  | inr other ↦ rw other (omega (arith, h))
  | inl same ↦ elim (Bool-cases (ltb_ℤ b.rssi r.rssi)) [
    | inl up ↦ rw (same, up) (omega arith)
    | inr down ↦ rw (same, down) (omega (arith, h))
  ]
]

find_slot_from-IsBelow :
    (ssid : Text) (best : Option Slot) (i n : ℕ) (rs : List ApRecord)
    → i + length rs ≤ n
    → IsBelow i best
    → IsBelow n (find_slot_from ssid best i rs)
unfolding find_slot_from
find_slot_from-IsBelow ssid none i n [] fits h = tt
find_slot_from-IsBelow ssid (some (j, b)) i n [] fits h = omega (arith, h, fits)
find_slot_from-IsBelow ssid best i n (r ∷ rs) fits h =
    find_slot_from-IsBelow ssid (better_slot ssid best (i, r)) (i + 1) n rs (omega (arith, fits))
      (better_slot-IsBelow ssid best i r h)

-- The pointer that the lookup returns is within the records, and so within the array,
pub find_slot-IsBelow :
    (records : List ApRecord) (ssid : Text) (n : ℕ)
    → length records ≤ n
    → IsBelow n (find_slot records ssid)
unfolding find_slot
find_slot-IsBelow records ssid n fits =
    find_slot_from-IsBelow ssid none 0 n records (omega (arith, fits)) tt

-- and stays so whatever is written there.
pub reread-IsBelow :
    (records : List ApRecord) (n : ℕ) (slot : Option Slot)
    → IsBelow n slot
    → IsBelow n (reread records slot)
unfolding reread
reread-IsBelow records n none h = tt
reread-IsBelow records n (some (i, r)) h = h

-- Up to the first wait the buffers stay within their arrays.
pub begin-WifiFits :
    {S : Type 0} (ssid pass : Text) (is_open : Bool) (d : Device S)
    → WifiFits d.wifi
    → WifiFits (begin_attempt ssid pass is_open d).0.wifi
unfolding begin_attempt
begin-WifiFits ssid pass is_open d v =
    let records = d.wifi.scan_records in
    let found = subst Found (sym (record_of-find_slot records ssid)) (
      Found-IsBest ssid records (find_scanned_ap records ssid) v.bssids
        (find_scanned_ap-IsBest records ssid)) in
    let w = stage-WifiFits ssid pass (record_of (find_slot records ssid)) d.wifi found v in
    ground arith
