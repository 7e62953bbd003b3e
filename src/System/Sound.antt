-- ===== src/System/Sound.antt =====
-- What holds of the shared variables between any two turns, and that the Wi-Fi events keep it.
use esp32_hydroponics_govern.Prelude.{◌≡◌, Bool, true, false, not, ◌&&◌, none, some}
use esp32_hydroponics_govern.Platform.{Run}
use esp32_hydroponics_govern.Platform.Checks.{Returns}
use esp32_hydroponics_govern.Device.{Sensors, Wifi, Telnet, stop_dns, Device}
use esp32_hydroponics_govern.Telnet.{Phase}
use esp32_hydroponics_govern.Telnet.Session.{client_of}
use esp32_hydroponics_govern.Sensor.Registry.{IsRegistry}
use esp32_hydroponics_govern.Wifi.Invariant.{WifiFits}

-- The registry and the buffers are within their arrays, the DNS server runs at most while the access
-- point is up, shutting the access point down will stop it, the access point is down if `up` is false, and
-- the variables of the telnet server are these.
pub record SoundOf (up : Bool) (tel : Telnet) (s : Sensors) (w : Wifi) (dns : Bool) (now : Telnet)
    : Type 0 where
  pub registry : IsRegistry s
  pub fits : WifiFits w
  pub coupled : (dns && not w.ap_active) ≡ false
  pub callback : w.shutdown_cb ≡ some stop_dns
  pub bound : (w.ap_active && not up) ≡ false
  pub telnet : now ≡ tel

abbrev pub IsSound : {S : Type 0} → Bool → Telnet → Device S → Type 0
IsSound up tel d = SoundOf up tel d.sensors d.wifi d.dns_running d.telnet

-- What a turn may rely on after a run that may have halted.
abbrev pub SoundRun : {S A : Type 0} → Bool → Telnet → Run (Device S) A → Type 0
SoundRun up tel r = Returns (IsSound up tel) r

-- The variables of telnet_server.c before its start, and while its task stands at this phase: what the
-- task and the senders see of the client agrees.
abbrev pub idle_telnet : Telnet
idle_telnet = record { client_fd = none; mutex = false }

abbrev pub telnet_of : Phase → Telnet
telnet_of ph = record { client_fd = client_of ph; mutex = true }
