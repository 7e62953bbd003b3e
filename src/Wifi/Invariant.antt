-- ===== src/Wifi/Invariant.antt =====
-- src/wifi_manager.c: what holds of the static variables between any two operations.
use esp32_hydroponics_govern.Prelude.{
  ℕ, zero, suc, ◌≤◌, ◌≡◌, subst, Text, Bool, true, false, List, [], ◌∷◌, ◌++◌, Option, none, some,
  length, length-append, take, length-take, Bool-cases, inl, inr, ◌==◌, arith, if◌then◌else◌,
}
use esp32_hydroponics_govern.Platform.{EspErr, is_ok, returned}
use esp32_hydroponics_govern.Device.{connecting, failed, ApRecord, Wifi, Device}
use esp32_hydroponics_govern.Wifi.Scan.{
  ScanAnswer, with_scan, no_networks, find_scanned_ap, update_scan_cache, wifi_manager_scan_start,
}
use esp32_hydroponics_govern.Wifi.Scan.Bounds.{AllFit, networks, scan_listing_lem}
use esp32_hydroponics_govern.Wifi.Scan.Lookup.{All, Among, IsBest, find_scanned_ap-IsBest}
use esp32_hydroponics_govern.Wifi.Connect.{
  Answer, stage, prepare, launch, connect_sta, wifi_manager_connect, run_callback,
  wifi_manager_ap_shutdown,
}

abbrev pub IsBssid : ApRecord → Type 0
IsBssid r = length r.bssid ≡ 6

-- Every buffer holds no more than its array, with the NUL; a BSSID is whole; there is at most one
-- retry.
pub record WifiFits (w : Wifi) : Type 0 where
  pub ip : length w.ip ≤ 19
  pub gw_ip : length w.gw_ip ≤ 19
  pub target_ssid : length w.target_ssid ≤ 32
  pub pending_ssid : length w.pending_ssid ≤ 63
  pub pending_pass : length w.pending_pass ≤ 63
  pub pending_bssid : length w.pending_bssid ≡ 6
  pub scan_json : length w.scan_json ≤ 2047
  pub scan_records : length w.scan_records ≤ 20
  pub bssids : All IsBssid w.scan_records
  pub retries : w.retry_count ≤ 1

-- What the driver delivers of a scan: at most as many records as were asked for, each with a name
-- of at most 32 bytes and a BSSID of 6.
pub record ScanFits (a : ScanAnswer) : Type 0 where
  pub names : AllFit a.records
  pub fetched : length a.records ≤ 20
  pub addresses : All IsBssid a.records

All-take : (P : ApRecord → Type 0) (n : ℕ) (rs : List ApRecord) → All P rs → All P (take n rs)
All-take P zero rs h = tt
All-take P (suc n) [] h = tt
All-take P (suc n) (r ∷ rs) h = (h.0, All-take P n rs h.1)

All-Among :
    (P : ApRecord → Type 0) (r : ApRecord) (rs : List ApRecord) → All P rs → Among r rs → P r
All-Among P r [] h m = absurd m
All-Among P r (q ∷ rs) h (inl e) = subst P e h.0
All-Among P r (q ∷ rs) h (inr m) = All-Among P r rs h.1 m

abbrev pub Found : Option ApRecord → Type 0
Found none = Unit
Found (some r) = IsBssid r

pub Found-IsBest :
    (ssid : Text) (rs : List ApRecord) (o : Option ApRecord)
    → All IsBssid rs
    → IsBest ssid rs o
    → Found o
Found-IsBest ssid rs none h best = tt
Found-IsBest ssid rs (some r) h best = All-Among IsBssid r rs h best.0

pub stage-WifiFits :
    (ssid pass : Text) (o : Option ApRecord) (w : Wifi)
    → Found o
    → WifiFits w
    → WifiFits (stage ssid pass o w)
unfolding stage
stage-WifiFits ssid pass none w f v =
    ground (arith, length-take 32 ssid, length-take 63 ssid, length-take 63 pass)
stage-WifiFits ssid pass (some found) w f v =
    ground (arith, length-take 32 ssid, length-take 63 ssid, length-take 63 pass)

module _ {S : Type 0} where
  pub update_scan_cache-WifiFits :
      (a : ScanAnswer) (d : Device S)
      → ScanFits a
      → WifiFits d.wifi
      → (json : Text) × (rs : List ApRecord) × (update_scan_cache a d ≡ some (with_scan json rs d))
        × WifiFits (with_scan json rs d).wifi
  unfolding update_scan_cache
  update_scan_cache-WifiFits a d s v = elim (Bool-cases (a.ap_num == 0)) [
    | inl nothing ↦ (no_networks, [], ground arith, ground arith)
    | inr found ↦ elim (Bool-cases a.allocated) [
      | inr starved ↦ (no_networks, d.wifi.scan_records, ground arith, ground arith)
      | inl there ↦ elim (Bool-cases (is_ok a.ret)) [
        | inr broken ↦ (no_networks, [], ground arith, ground arith)
        | inl got ↦
            let (listed, size) = scan_listing_lem a.records s.names s.fetched in
            let json = b'[' ∷ (networks [] true a.records ++ b']' ∷ []) in
            (
              json,
              take 20 a.records,
              ground arith,
              record {
                ip = v.ip;
                gw_ip = v.gw_ip;
                target_ssid = v.target_ssid;
                pending_ssid = v.pending_ssid;
                pending_pass = v.pending_pass;
                pending_bssid = v.pending_bssid;
                scan_json =
                    omega (arith, size, length-append (networks [] true a.records) (b']' ∷ []));
                scan_records = omega (arith, length-take 20 a.records);
                bssids = All-take IsBssid 20 a.records s.addresses;
                retries = v.retries;
              },
            )
      ]
    ]
  ]

  pub scan_start-WifiFits :
      (ret : EspErr) (d : Device S)
      → WifiFits d.wifi
      → WifiFits (wifi_manager_scan_start ret d).0.wifi
  unfolding wifi_manager_scan_start
  scan_start-WifiFits ret d v = ground arith

  pub ap_shutdown-wifi :
      (d : Device S) → (wifi_manager_ap_shutdown d).wifi ≡ record (d.wifi) { ap_active = false }
  unfolding wifi_manager_ap_shutdown run_callback
  ap_shutdown-wifi d = ground arith

  pub ap_shutdown-WifiFits :
      (d : Device S) → WifiFits d.wifi → WifiFits (wifi_manager_ap_shutdown d).wifi
  ap_shutdown-WifiFits d v = rw (ap_shutdown-wifi d) (ground arith)

  -- What an attempt makes of the variables.
  pub wifi-launch :
      (a : Answer) (ssid pass : Text) (is_open : Bool) (o : Option ApRecord) (d : Device S)
      → (launch a.connect (prepare a ssid pass is_open o d)).wifi
        ≡ record (stage ssid pass o d.wifi) {
          retry_count = 0;
          conn_start_us = a.now_us;
          state = if is_ok a.connect then connecting else failed;
        }
  unfolding launch prepare
  wifi-launch a ssid pass is_open none d = ground arith
  wifi-launch a ssid pass is_open (some found) d = ground arith

  pub launched-WifiFits :
      (a : Answer) (ssid pass : Text) (is_open : Bool) (o : Option ApRecord) (d : Device S)
      → Found o
      → WifiFits d.wifi
      → WifiFits (launch a.connect (prepare a ssid pass is_open o d)).wifi
  launched-WifiFits a ssid pass is_open o d f v =
      let w = stage-WifiFits ssid pass o d.wifi f v in
      rw (wifi-launch a ssid pass is_open o d) (ground arith)

  pub connect-WifiFits :
      (a : Answer) (ssid pass : Text) (is_open : Bool) (d d' : Device S) (ret : EspErr)
      → WifiFits d.wifi
      → wifi_manager_connect a ssid pass is_open d ≡ returned ret d'
      → WifiFits d'.wifi
  unfolding wifi_manager_connect connect_sta
  connect-WifiFits a ssid pass is_open d d' ret v h =
      let o = find_scanned_ap d.wifi.scan_records ssid in
      let f =
        Found-IsBest ssid d.wifi.scan_records o v.bssids
          (find_scanned_ap-IsBest d.wifi.scan_records ssid) in
      ground (arith, launched-WifiFits a ssid pass is_open o d f v)
