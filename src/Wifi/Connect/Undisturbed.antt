-- ===== src/Wifi/Connect/Undisturbed.antt =====
-- src/wifi_manager.c: the pieces of `connect_sta`, with nothing in between, are `connect_sta`.
use esp32_hydroponics_govern.Prelude.{
  ℕ, ◌+◌, ◌≡◌, refl, sym, ◌∙◌, ap, Text, Bool, List, [], ◌∷◌, Option, none, some, ◌==◌, Bool-cases,
  inl, inr, arith,
}
use esp32_hydroponics_govern.Device.{ApRecord, Device}
use esp32_hydroponics_govern.Wifi.Scan.{better, find_from, find_scanned_ap}
use esp32_hydroponics_govern.Wifi.Connect.{Answer, prepare, launch, connect_sta}
use esp32_hydroponics_govern.Wifi.Connect.Paused.{
  Slot, better_slot, find_slot_from, find_slot, record_of, finish_attempt, begin_attempt,
  resume_attempt, undisturbed,
}

better-slot :
    (ssid : Text) (best : Option Slot) (i : ℕ) (r : ApRecord)
    → record_of (better_slot ssid best (i, r)) ≡ better ssid (record_of best) r
unfolding better_slot better
better-slot ssid none i r = ground arith
better-slot ssid (some (j, b)) i r = ground arith

find_from-slot :
    (ssid : Text) (best : Option Slot) (i : ℕ) (rs : List ApRecord)
    → record_of (find_slot_from ssid best i rs) ≡ find_from ssid (record_of best) rs
unfolding find_slot_from find_from
find_from-slot ssid best i [] = refl
find_from-slot ssid best i (r ∷ rs) =
    find_from-slot ssid (better_slot ssid best (i, r)) (i + 1) rs
    ∙ ap (λ o. find_from ssid o rs) (better-slot ssid best i r)

-- The pointer is to the record that the lookup finds.
pub record_of-find_slot :
    (records : List ApRecord) (ssid : Text)
    → record_of (find_slot records ssid) ≡ find_scanned_ap records ssid
unfolding find_slot find_scanned_ap
record_of-find_slot records ssid = find_from-slot ssid none 0 records

module _ {S : Type 0} where
  pieces-found :
      (a : Answer) (ssid pass : Text) (is_open : Bool) (d : Device S) (o : Option Slot)
      → find_slot d.wifi.scan_records ssid ≡ o
      → (let (d1, slot, cfg) = begin_attempt ssid pass is_open d in
          undisturbed a (resume_attempt a slot cfg d1))
        ≡ connect_sta a ssid pass is_open d
  unfolding begin_attempt resume_attempt finish_attempt connect_sta prepare launch
  pieces-found a ssid pass is_open d none e =
      let found : find_scanned_ap d.wifi.scan_records ssid ≡ none =
        sym (record_of-find_slot d.wifi.scan_records ssid) ∙ ap record_of e in
      rw (e, found) refl
  pieces-found a ssid pass is_open d (some (i, r)) e =
      let found : find_scanned_ap d.wifi.scan_records ssid ≡ some r =
        sym (record_of-find_slot d.wifi.scan_records ssid) ∙ ap record_of e in
      elim (Bool-cases (a.curr_chan == r.primary)) [
        | inl same ↦ rw (e, found) (rw same refl)
        | inr other ↦ rw (e, found) (rw other refl)
      ]

  pub pieces-connect_sta :
      (a : Answer) (ssid pass : Text) (is_open : Bool) (d : Device S)
      → (let (d1, slot, cfg) = begin_attempt ssid pass is_open d in
          undisturbed a (resume_attempt a slot cfg d1))
        ≡ connect_sta a ssid pass is_open d
  pieces-connect_sta a ssid pass is_open d =
      pieces-found a ssid pass is_open d (find_slot d.wifi.scan_records ssid) refl
