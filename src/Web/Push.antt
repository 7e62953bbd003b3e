-- ===== src/Web/Push.antt =====
-- src/web_server.c: sending a snapshot to every WebSocket client.
pub mod Delivery
use esp32_hydroponics_govern.Prelude.{
  ℕ, ◌-◌, Text, Bool, true, false, ◌&&◌, List, [], ◌∷◌, Option, none, some, length, take, leb,
  if◌then◌else◌,
}
use esp32_hydroponics_govern.Config.{ws_json_buf_size, max_ws_clients}
use esp32_hydroponics_govern.Platform.{ws_queue, ws_frame}
use esp32_hydroponics_govern.Device.{Web, Device, emit}

-- One client of `httpd_get_client_list`, with what `httpd_ws_get_fd_info`, `malloc` and
-- `httpd_queue_work` answer for it.
pub record Client : Type 0 where
  pub fd : ℕ
  pub websocket : Bool
  pub allocated : Bool
  pub queued : Bool

-- The members of `ws_send_arg_t` that differ between sends; `data` is `len` bytes long.
pub record WsSendArg : Type 0 where
  pub fd : ℕ
  pub payload : Text

-- The length that is copied.
unfoldable pub payload_len : Text → ℕ
payload_len json = if leb ws_json_buf_size (length json) then ws_json_buf_size - 1 else length json

module _ {S : Type 0} where
  unfoldable pub ws_send_cb : WsSendArg → Device S → Device S
  ws_send_cb a d = emit (ws_frame a.fd a.payload) d

  -- The loop over the clients. A send that could not be queued is freed and dropped.
  unfoldable pub push_to : Text → List Client → Device S → Device S
  push_to payload [] d = d
  push_to payload (c ∷ cs) d =
      push_to payload cs
        (if c.websocket && (c.allocated && c.queued) then emit (ws_queue c.fd payload) d else d)

  -- With whether the server is up.
  unfoldable pub push_if : Bool → Option (List Client) → Text → Device S → Device S
  unfolding push_to payload_len
  push_if false clients json d = d
  push_if true none json d = d
  push_if true (some cs) json d = push_to (take (payload_len json) json) (take max_ws_clients cs) d

  -- `none`: `httpd_get_client_list` fails.
  unfoldable pub web_server_push_sensor_update : Option (List Client) → Text → Device S → Device S
  unfolding push_if
  web_server_push_sensor_update clients json d = push_if d.web.server clients json d
