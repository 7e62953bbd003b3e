-- ===== src/Web/Push/Delivery.antt =====
-- src/web_server.c: who receives a snapshot, and how long it may be.
use esp32_hydroponics_govern.Prelude.{
  ◌<◌, ◌≡◌, refl, sym, ap, append_assoc, Text, Bool, true, false, ◌&&◌, List, [], ◌∷◌, ◌++◌, Option,
  none, some, length, take, length-take, Bool-cases, inl, inr, arith, if◌then◌else◌,
}
use esp32_hydroponics_govern.Config.{ws_json_buf_size, max_ws_clients}
use esp32_hydroponics_govern.Platform.{Call, ws_queue}
use esp32_hydroponics_govern.Device.{Device, emit}
use esp32_hydroponics_govern.Web.Push.{
  Client, payload_len, push_to, push_if, web_server_push_sensor_update,
}

-- The sends that are queued for the clients in the order of the list, newest first: one for every
-- client that speaks WebSocket and whose copy could be allocated and queued.
unfoldable pub sends : Text → List Client → List Call
sends payload [] = []
sends payload (c ∷ cs) =
    let rest = sends payload cs in
    if c.websocket && (c.allocated && c.queued) then rest ++ (ws_queue c.fd payload ∷ []) else rest

-- What is queued, with whether the server is up.
unfoldable pub queued_sends : Bool → Option (List Client) → Text → List Call
unfolding sends payload_len
queued_sends false clients json = []
queued_sends true none json = []
queued_sends true (some cs) json = sends (take (payload_len json) json) (take max_ws_clients cs)

module _ {S : Type 0} where
  push_to-sends :
      (payload : Text) (cs : List Client) (d : Device S)
      → push_to payload cs d ≡ record d { trace = sends payload cs ++ d.trace }
  unfolding push_to sends
  push_to-sends payload [] d = refl
  push_to-sends payload (c ∷ cs) d = elim (Bool-cases (c.websocket && (c.allocated && c.queued))) [
    | inl taken ↦ rw taken (
        rw (push_to-sends payload cs (emit (ws_queue c.fd payload) d)) (
          ap (λ t. record d { trace = t })
            (sym (append_assoc (sends payload cs) (ws_queue c.fd payload ∷ []) d.trace))))
    | inr left ↦ rw left (push_to-sends payload cs d)
  ]

  push_if-queued_sends :
      (up : Bool) (clients : Option (List Client)) (json : Text) (d : Device S)
      → push_if up clients json d ≡ record d { trace = queued_sends up clients json ++ d.trace }
  unfolding push_if queued_sends
  push_if-queued_sends false clients json d = refl
  push_if-queued_sends true none json d = refl
  push_if-queued_sends true (some cs) json d =
      push_to-sends (take (payload_len json) json) (take max_ws_clients cs) d

  -- Pushing a snapshot changes nothing but what is queued: nothing where the server is off or the
  -- list of clients fails, and otherwise one send of the snapshot, cut to the size of the buffer less
  -- one, for each of the first `MAX_WS_CLIENTS` clients that speaks WebSocket and could be served.
  pub push_sensor_update_lem :
      (clients : Option (List Client)) (json : Text) (d : Device S)
      → (web_server_push_sensor_update clients json d
          ≡ record d { trace = queued_sends d.web.server clients json ++ d.trace })
        × (length (take (payload_len json) json) < ws_json_buf_size)
  unfolding web_server_push_sensor_update payload_len
  push_sensor_update_lem clients json d = (
    push_if-queued_sends d.web.server clients json d,
    ground (arith, length-take (payload_len json) json),
  )
