-- ===== src/Web/Server.antt =====
-- src/web_server.c: the URI table, and starting and stopping the server.
use esp32_hydroponics_govern.Prelude.{
  ℕ, codes, String, Bool, true, false, List, [], ◌∷◌, if◌then◌else◌,
}
use esp32_hydroponics_govern.Platform.{
  EspErr, ok, is_ok, httpd_start, httpd_stop, register_uri, register_not_found,
}
use esp32_hydroponics_govern.Device.{Device, emit}

pub data Method : Type 0 where
  http_get http_post : Method

pub data Handler : Type 0 where
  root scan scanresults scanstatus keepalive favicon save status ap_shutdown reboot : Handler
  dashready sensor_data ota captive_android captive_windows captive_apple ws : Handler

-- `httpd_uri_t`
pub record Uri : Type 0 where
  pub uri : String
  pub method : Method
  pub handler : Handler
  pub is_websocket : Bool

abbrev pub get : String → Handler → Uri
get uri h = record { uri = uri; method = http_get; handler = h; is_websocket = false }

abbrev pub post : String → Handler → Uri
post uri h = record { uri = uri; method = http_post; handler = h; is_websocket = false }

unfoldable pub uris : List Uri
uris =
    get "/" root
    ∷ get "/scan" scan
    ∷ get "/scanresults" scanresults
    ∷ get "/scanstatus" scanstatus
    ∷ get "/keepalive" keepalive
    ∷ get "/favicon.ico" favicon
    ∷ post "/save" save
    ∷ get "/status" status
    ∷ post "/ap_shutdown" ap_shutdown
    ∷ post "/reboot" reboot
    ∷ get "/dashready" dashready
    ∷ get "/data" sensor_data
    ∷ post "/ota" ota
    ∷ get "/generate_204" captive_android
    ∷ get "/connecttest.txt" captive_windows
    ∷ get "/fwlink" captive_windows
    ∷ get "/ncsi.txt" captive_windows
    ∷ get "/hotspot-detect.html" captive_apple
    ∷ get "/success.txt" captive_apple
    ∷ record { uri = "/ws"; method = http_get; handler = ws; is_websocket = true }
    ∷ []

-- `cfg.max_uri_handlers`
abbrev pub max_uri_handlers : ℕ
max_uri_handlers = 24

module _ {S : Type 0} where
  -- The loop over the table. A failure is only logged.
  unfoldable pub register_all : List Uri → Device S → Device S
  register_all [] d = d
  register_all (u ∷ us) d = register_all us (emit (register_uri (codes u.uri)) d)

  -- `ret`: what `httpd_start` returns.
  unfoldable pub web_server_start : EspErr → Device S → Device S × EspErr
  unfolding register_all uris
  web_server_start ret d =
      let d1 = emit httpd_start d in
      let d2 = register_all uris (record d1 { web = record (d1.web) { server = true } }) in
      if is_ok ret then (emit register_not_found d2, ok) else (d1, ret)

  unfoldable pub web_server_stop : Device S → Device S
  web_server_stop d =
      if d.web.server
      then (let d1 = emit httpd_stop d in record d1 { web = record (d1.web) { server = false } })
      else d
