-- ===== src/Web/Requests.antt =====
-- src/web_server.c: the handlers behind the URI table, with what the libraries answer to each.
pub mod Once
use esp32_hydroponics_govern.Prelude.{ℕ, Bool, List, Option, none, some}
use esp32_hydroponics_govern.Platform.{EspErr, FloatOps, Run, returned}
use esp32_hydroponics_govern.Device.{Device}
use esp32_hydroponics_govern.Wifi.Connect.{Answer}
use esp32_hydroponics_govern.Web.Handlers.{
  root_handler, reboot_handler, scan_handler, scanresults_handler, scanstatus_handler,
  keepalive_handler, favicon_handler, status_handler, ap_shutdown_handler, dashready_handler,
  data_handler, ws_handler, captive_android_handler, captive_windows_handler, captive_apple_handler,
  not_found_handler,
}
use esp32_hydroponics_govern.Web.Save.{Request, save_handler}
use esp32_hydroponics_govern.Web.Ota.{OtaAnswer, ota_handler}

pub data HttpRequest : Type 0 where
  root : Bool → HttpRequest
  scan : EspErr → HttpRequest
  scanresults scanstatus keepalive favicon status reboot dashready sensor_data : HttpRequest
  save : Answer → Request → HttpRequest
  ap_shutdown : Bool → HttpRequest
  ota : OtaAnswer → HttpRequest
  captive_android captive_windows captive_apple not_found : HttpRequest
  ws : Bool → EspErr → ℕ → EspErr → List ℕ → HttpRequest

-- A handler that always comes back.
abbrev pub done : {S : Type 0} → Device S × EspErr → Option (Run (Device S) EspErr)
done (d, ret) = some (returned ret d)

module _ {S : Type 0} where
  -- `none` is an access out of bounds, or an upload out of fuel.
  unfoldable pub handle : FloatOps → HttpRequest → Device S → Option (Run (Device S) EspErr)
  handle fp (root created) d = done (root_handler created d)
  handle fp (scan ret) d = done (scan_handler ret d)
  handle fp scanresults d = done (scanresults_handler d)
  handle fp scanstatus d = done (scanstatus_handler d)
  handle fp keepalive d = done (keepalive_handler d)
  handle fp favicon d = done (favicon_handler d)
  handle fp (save a req) d = some (save_handler a req d)
  handle fp status d = done (status_handler d)
  handle fp (ap_shutdown created) d = done (ap_shutdown_handler created d)
  handle fp reboot d = done (reboot_handler d)
  handle fp dashready d = done (dashready_handler d)
  handle fp sensor_data d = elim (data_handler fp d) [ none ↦ none | some r ↦ done r ]
  handle fp (ota a) d = elim (ota_handler a d) [ none ↦ none | some r ↦ done r ]
  handle fp captive_android d = done (captive_android_handler d)
  handle fp captive_windows d = done (captive_windows_handler d)
  handle fp captive_apple d = done (captive_apple_handler d)
  handle fp not_found d = done (not_found_handler d)
  handle fp (ws upgrade len_ret len frame_ret payload) d =
      done (ws_handler upgrade len_ret len frame_ret payload d)
