-- ===== src/System/Attempts.antt =====
-- The attempts that src/web_server.c starts keep the invariant of the system.
use esp32_hydroponics_govern.Prelude.{
  ◌≡◌, ◌∙◌, subst, Text, codes, Bool, Option, none, some, cstr, Bool-cases, inl, inr, arith,
}
use esp32_hydroponics_govern.Platform.{returned}
use esp32_hydroponics_govern.Wifi.Credentials.{is_empty}
use esp32_hydroponics_govern.Platform.Checks.{Run-cases, check-cases}
use esp32_hydroponics_govern.Device.{Telnet, ApRecord, Device}
use esp32_hydroponics_govern.Wifi.Scan.{find_scanned_ap}
use esp32_hydroponics_govern.Wifi.Connect.{
  Answer, may_connect, launch, prepare, connect_sta, wifi_manager_connect,
}
use esp32_hydroponics_govern.Wifi.Invariant.{launched-WifiFits, Found-IsBest}
use esp32_hydroponics_govern.Wifi.Scan.Lookup.{find_scanned_ap-IsBest}
use esp32_hydroponics_govern.Web.Save.{
  Request, is_busy, field_string, recv_size, is_one, save_handler,
}
use esp32_hydroponics_govern.System.Sound.{IsSound, SoundRun}

module _ {S : Type 0} where
  launch-keeps :
      (a : Answer) (ssid pass : Text) (is_open : Bool) (o : Option ApRecord) (d : Device S)
      → let d' = launch a.connect (prepare a ssid pass is_open o d) in
        (d'.sensors ≡ d.sensors)
        × (d'.dns_running ≡ d.dns_running)
        × (d'.wifi.ap_active ≡ d.wifi.ap_active)
        × (d'.wifi.shutdown_cb ≡ d.wifi.shutdown_cb)
        × (d'.telnet ≡ d.telnet)
  unfolding launch prepare
  launch-keeps a ssid pass is_open none d = ground arith
  launch-keeps a ssid pass is_open (some found) d = ground arith

module _ {S : Type 0} {up : Bool} {tel : Telnet} where
  launched-IsSound :
      (a : Answer) (ssid pass : Text) (is_open : Bool) (d : Device S)
      → IsSound up tel d
      → IsSound up tel (
          launch a.connect
            (prepare a ssid pass is_open (find_scanned_ap d.wifi.scan_records ssid) d))
  launched-IsSound a ssid pass is_open d v =
      let o = find_scanned_ap d.wifi.scan_records ssid in
      let f =
        Found-IsBest ssid d.wifi.scan_records o v.fits.bssids
          (find_scanned_ap-IsBest d.wifi.scan_records ssid) in
      let w = launched-WifiFits a ssid pass is_open o d f v.fits in
      let keeps = launch-keeps a ssid pass is_open o d in
      record {
        registry = rw keeps.0 v.registry;
        fits = w;
        coupled = rw (keeps.1, keeps.2) v.coupled;
        callback = keeps.3 ∙ v.callback;
        bound = rw keeps.2 v.bound;
        telnet = keeps.4 ∙ v.telnet;
      }

  connect-SoundRun :
      (a : Answer) (ssid pass : Text) (is_open : Bool) (d : Device S)
      → IsSound up tel d
      → SoundRun up tel (wifi_manager_connect a ssid pass is_open d)
  unfolding wifi_manager_connect connect_sta
  connect-SoundRun a ssid pass is_open d v = elim (Bool-cases (may_connect d.wifi.state)) [
    | inr barred ↦ rw barred v
    | inl may ↦
        rw may
          (elim (check-cases a.set_config
            (prepare a ssid pass is_open (find_scanned_ap d.wifi.scan_records ssid) d)
            (returned tt (
              launch a.connect
                (prepare a ssid pass is_open (find_scanned_ap d.wifi.scan_records ssid) d)))) [
                  | inl went ↦ rw went (launched-IsSound a ssid pass is_open d v)
                  | inr halts ↦ rw halts tt
                ])
  ]

  pub save-SoundRun :
      (a : Answer) (req : Request) (d : Device S)
      → IsSound up tel d
      → SoundRun up tel (save_handler a req d)
  unfolding save_handler
  save-SoundRun a req d v =
      let bytes = req.recv (recv_size req) in
      let body = cstr bytes in
      let ssid = field_string body (codes "s") 64 in
      let pass = field_string body (codes "p") 64 in
      let is_open = is_one (field_string body (codes "o") 4) in
      elim (Bool-cases (is_busy d.wifi.state)) [
        | inl busy ↦ rw busy v
        | inr free ↦ rw free (elim (Bool-cases (is_empty bytes)) [
          | inl nothing ↦ rw nothing v
          | inr something ↦ rw something (elim (Bool-cases (is_empty ssid)) [
            | inl unnamed ↦ rw unnamed v
            | inr named ↦ rw named (elim (Run-cases (wifi_manager_connect a ssid pass is_open d)) [
              | inl (ret, d', went) ↦
                  rw went (subst (SoundRun up tel) went (connect-SoundRun a ssid pass is_open d v))
              | inr (d', halts) ↦ rw halts tt
            ])
          ])
        ])
      ]
