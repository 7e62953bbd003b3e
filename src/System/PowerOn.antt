-- ===== src/System/PowerOn.antt =====
-- The firmware from power-on, through any turns.
use esp32_hydroponics_govern.Prelude.{true, List, inl, inr, subst}
use esp32_hydroponics_govern.Platform.{FloatOps}
use esp32_hydroponics_govern.Platform.Checks.{Run-cases}
use esp32_hydroponics_govern.Wifi.Credentials.{NvsApi}
use esp32_hydroponics_govern.Wifi.Invariant.{ScanFits}
use esp32_hydroponics_govern.Main.{MainAnswer, LastReading}
use esp32_hydroponics_govern.System.{Turn, power_on}
use esp32_hydroponics_govern.System.Safety.{TurnsFit, SoundOutcome, run-IsSystem}
use esp32_hydroponics_govern.Platform.Checks.{Returns}
use esp32_hydroponics_govern.System.Services.{Started}
use esp32_hydroponics_govern.System.Boot.{EventsFit, app_main_start-Started}

module _ {S : Type 0} (api : NvsApi S) (fp : FloatOps) where
  -- From power-on with any store, with any answers of the libraries and through any turns of the
  -- tasks, the events, the requests and the callbacks, in any order and also in the waits of a
  -- request that starts a connection, the firmware makes no access out of bounds: it has halted at
  -- an ESP_ERROR_CHECK, or it runs with the registry and every buffer of the Wi-Fi manager within
  -- its array, with the pointer of such a request within the array of scan records, with `s_running`
  -- of the DNS server false unless the access point is up, and with log messages going to the client
  -- that the telnet task polls, or to nobody while it waits for one. The conditions: each scan
  -- delivers what was asked of it, and a DNS packet has at most 496 bytes, so that it leaves room
  -- for its answer.
  pub power_on-IsSound :
      (a : MainAnswer) (last : LastReading) (ts : List Turn) (store : S)
      → ScanFits a.wifi_start.ap.scan
      → EventsFit a.wifi_start.events
      → TurnsFit ts
      → SoundOutcome true (power_on api fp a last ts store)
  unfolding power_on
  power_on-IsSound a last ts store s w fits =
      let (r, made, v) = app_main_start-Started api a store s w in
      elim (Run-cases r) [
        | inr (d, e) ↦ rw (made, SoundOutcome) (rw (e, SoundOutcome) tt)
        | inl (u, d, e) ↦
            rw (made, SoundOutcome)
              (rw (e, SoundOutcome)
                (run-IsSystem api fp ts _ fits ((subst (Returns (Started a)) e v).sound, tt)))
      ]
