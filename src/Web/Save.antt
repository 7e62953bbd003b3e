-- ===== src/Web/Save.antt =====
-- src/web_server.c: `save_handler`, which takes the credentials from the portal.
pub mod Outcome
pub mod Posted
pub mod Paused
pub mod Undisturbed
use esp32_hydroponics_govern.Prelude.{
  ℕ, Text, codes, cstr, Bool, true, false, List, [], ◌∷◌, Option, none, some, get_or, ltb, ◌==◌,
  if◌then◌else◌,
}
use esp32_hydroponics_govern.Platform.{
  EspErr, ok, fail, is_ok, Run, returned, aborted, resp_type, resp_send, resp_err,
}
use esp32_hydroponics_govern.Device.{WifiState, connecting, connected, Wifi, Device, emit}
use esp32_hydroponics_govern.Wifi.Credentials.{is_empty, or_else}
use esp32_hydroponics_govern.Wifi.Connect.{Answer, wifi_manager_connect}
use esp32_hydroponics_govern.Web.Form.{extract_field}
use esp32_hydroponics_govern.Web.Handlers.{json_type, json_response}

-- `st == WIFI_MGR_CONNECTING || st == WIFI_MGR_CONNECTED`
unfoldable pub is_busy : WifiState → Bool
is_busy connecting = true
is_busy connected = true
is_busy _ = false

-- A request's declared length, and what `httpd_req_recv` delivers for the length that it is asked
-- for; `[]` is a result that is not positive.
pub record Request : Type 0 where
  pub content_len : ℕ
  pub recv : ℕ → List ℕ

-- The string in a buffer of so many bytes after `extract_field`; it starts out empty.
unfoldable pub field_string : Text → Text → ℕ → Text
field_string body field size = cstr (or_else (extract_field body field size) [])

abbrev pub recv_size : Request → ℕ
recv_size req = if ltb 383 req.content_len then 383 else req.content_len

-- `open_str[0] == '1'`
abbrev pub is_one : Text → Bool
is_one s = get_or s 0 0 == b'1'

module _ {S : Type 0} where
  unfoldable pub save_handler : Answer → Request → Device S → Run (Device S) EspErr
  unfolding is_busy field_string json_type
  save_handler a req d =
      let bytes = req.recv (recv_size req) in
      let body = cstr bytes in
      let ssid = field_string body (codes "s") 64 in
      let pass = field_string body (codes "p") 64 in
      let open_str = field_string body (codes "o") 4 in
      if is_busy d.wifi.state
      then returned ok (json_response (codes "{\"status\":\"busy\"}") d)
      else (if is_empty bytes
          then returned fail (emit (resp_err 400 (codes "Empty body")) d)
          else (if is_empty ssid
              then returned ok
                  (json_response (codes "{\"status\":\"error\",\"msg\":\"SSID required\"}") d)
              else elim (wifi_manager_connect a ssid pass (is_one open_str) d) [
                | aborted d' ↦ aborted d'
                | returned ret d' ↦ returned ok (
                    json_response
                      (if is_ok ret
                        then codes "{\"status\":\"connecting\"}"
                        else codes "{\"status\":\"error\"}")
                      d')
              ]))
