-- ===== src/Wifi/Connect/Paused.antt =====
-- src/wifi_manager.c: `connect_sta` in the pieces between its waits. While it waits, 600 ms for the
-- driver and then 400 ms if it has moved to another channel, the other tasks run; what it comes back
-- to is the variables as they have left them, and what its pointer into `s_scan_records` reads then.
use esp32_hydroponics_govern.Prelude.{
  ℕ, ◌+◌, Text, Bool, List, [], ◌∷◌, Option, none, some, get_or, text_eq, ltb_ℤ, ◌==◌,
  if◌then◌else◌,
}
use esp32_hydroponics_govern.Platform.{
  if_sta, if_ap, StaConfig, Run, returned, check, delay, clear_bits, wifi_disconnect, wifi_set_sta,
  wifi_set_channel, wifi_set_ht20, wifi_set_max_tx_power,
}
use esp32_hydroponics_govern.Device.{connecting, ApRecord, Device, emit}
use esp32_hydroponics_govern.Wifi.Connect.{Answer, sta_config, stage, launch}

-- A pointer into `s_scan_records`: the index, and what the array holds there.
abbrev pub Slot : Type 0
Slot = ℕ × ApRecord

-- One round of the loop of `find_scanned_ap`, with the pointer that it keeps,
unfoldable pub better_slot : Text → Option Slot → Slot → Option Slot
better_slot ssid best r =
    if text_eq r.1.ssid ssid
    then elim best [ none ↦ some r | some b ↦ if ltb_ℤ b.1.rssi r.1.rssi then some r else some b ]
    else best

-- the loop,
unfoldable pub find_slot_from : Text → Option Slot → ℕ → List ApRecord → Option Slot
find_slot_from ssid best i [] = best
find_slot_from ssid best i (r ∷ rs) = find_slot_from ssid (better_slot ssid best (i, r)) (i + 1) rs

-- and its result.
unfoldable pub find_slot : List ApRecord → Text → Option Slot
unfolding find_slot_from better_slot
find_slot records ssid = find_slot_from ssid none 0 records

abbrev pub record_of : Option Slot → Option ApRecord
record_of none = none
record_of (some (i, r)) = some r

-- What the pointer reads once the scan cache holds these records; `memcpy` has left alone what lies
-- behind them in the array.
unfoldable pub reread : List ApRecord → Option Slot → Option Slot
reread records none = none
reread records (some (i, r)) = some (i, get_or records i r)

-- What the first wait leads to: the second, or the result of the whole.
pub data Piece (S : Type 0) : Type 0 where
  realigned : StaConfig → Device S → Piece S
  finished : Run (Device S) (Unit {0}) → Piece S

module _ {S : Type 0} where
  -- `connect_sta` up to its first wait.
  unfoldable pub begin_attempt : Text → Text → Bool → Device S → Device S × Option Slot × StaConfig
  unfolding stage find_slot
  begin_attempt ssid pass is_open d =
      let slot = find_slot d.wifi.scan_records ssid in
      let d1 = record d {
        wifi = record (stage ssid pass (record_of slot) d.wifi) { retry_count = 0 };
      } in
      (
        emit (delay 600) (emit wifi_disconnect d1),
        slot,
        sta_config ssid pass is_open (record_of slot),
      )

  -- What follows the last wait.
  unfoldable pub finish_attempt : Answer → StaConfig → Device S → Run (Device S) (Unit {0})
  unfolding launch
  finish_attempt a cfg d =
      let d1 = emit (wifi_set_ht20 if_ap) (emit (wifi_set_ht20 if_sta) d) in
      let d2 = record d1 {
        wifi = record (d1.wifi) { state = connecting; conn_start_us = a.now_us };
      } in
      let d3 = emit (wifi_set_sta cfg) (emit clear_bits d2) in
      check a.set_config d3 (returned tt (launch a.connect d3))

  -- From the first wait on.
  unfoldable pub resume_attempt : Answer → Option Slot → StaConfig → Device S → Piece S
  unfolding finish_attempt
  resume_attempt a none cfg d = finished (finish_attempt a cfg (emit (wifi_set_max_tx_power 80) d))
  resume_attempt a (some (i, ap)) cfg d =
      let d1 = emit (wifi_set_max_tx_power 80) d in
      if a.curr_chan == ap.primary
      then finished (finish_attempt a cfg d1)
      else realigned cfg (emit (delay 400) (emit (wifi_set_channel ap.primary) d1))

  -- The rest of an attempt that nobody disturbs.
  abbrev pub undisturbed : Answer → Piece S → Run (Device S) (Unit {0})
  undisturbed a (finished r) = r
  undisturbed a (realigned cfg d) = finish_attempt a cfg d
