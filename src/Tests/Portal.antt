-- ===== src/Tests/Portal.antt =====
-- Examples for src/web_server.c and the main loop of src/main.c.
use esp32_hydroponics_govern.Prelude.{
  ◌+◌, ◌≤◌, ◌<◌, ◌≡◌, ◌⊎◌, refl, codes, true, false, length, take, List, [], ◌∷◌, ◌++◌, Option,
  none, some, arith,
}
use esp32_hydroponics_govern.Config.{ws_json_buf_size}
use esp32_hydroponics_govern.Platform.{EspErr, ok, returned}
use esp32_hydroponics_govern.Device.{failed, ap_only, connected, Device, boot}
use esp32_hydroponics_govern.Wifi.Credentials.{is_empty, nvs_read}
use esp32_hydroponics_govern.Wifi.Connect.{Answer, wifi_manager_connect}
use esp32_hydroponics_govern.Web.Form.{extract_field}
use esp32_hydroponics_govern.Web.Form.Decode.{is_unreserved, AreBytes, nil, cons}
use esp32_hydroponics_govern.Web.Form.Field.{portal_body, extract_field-portal_body}
use esp32_hydroponics_govern.Web.Handlers.Portal.{shutdowns}
use esp32_hydroponics_govern.Web.Handlers.{
  root_handler, ap_shutdown_handler, reboot_handler, schedule_ap_shutdown, no_store,
}
use esp32_hydroponics_govern.Web.Requests.{HttpRequest, root, ap_shutdown, reboot, handle}
use esp32_hydroponics_govern.Web.Requests.Once.{serve_requests, scheduled_once}
use esp32_hydroponics_govern.Web.Save.{Request, is_one, is_busy, recv_size, save_handler}
use esp32_hydroponics_govern.Web.Save.Outcome.{posted, save_handler_lem}
use esp32_hydroponics_govern.Web.Ota.{OtaAnswer}
use esp32_hydroponics_govern.Web.Push.{Client, payload_len, web_server_push_sensor_update}
use esp32_hydroponics_govern.Web.Push.Delivery.{queued_sends, push_sensor_update_lem}
use esp32_hydroponics_govern.Main.{Ticks, main_round}
use esp32_hydroponics_govern.Main.Loop.{Round, main_rounds, main_rounds-nothing, main_round-spaced}
use esp32_hydroponics_govern.Tests.{Store, store_api, device, whole_floats, home, secret}

pub home-AreBytes : AreBytes home
home-AreBytes =
    cons (omega arith) (cons (omega arith) (cons (omega arith) (cons (omega arith) nil)))

pub secret-AreBytes : AreBytes secret
secret-AreBytes = cons (omega arith) (
    cons (omega arith) (
      cons (omega arith) (
        cons (omega arith)
          (cons (omega arith) (cons (omega arith) (cons (omega arith) (cons (omega arith) nil)))))))

extract_field-portal_body_example :
    let body = portal_body home secret (b'0' ∷ []) in
    (extract_field body (codes "s") 64 ≡ some home)
    × (extract_field body (codes "p") 64 ≡ some secret)
    × (extract_field body (codes "o") 4 ≡ some (b'0' ∷ []))
unfolding is_unreserved
extract_field-portal_body_example =
    extract_field-portal_body home secret b'0' home-AreBytes secret-AreBytes (omega arith)
      (omega arith) refl

abbrev save_request : Request
save_request = record { content_len = 40; recv = λ n. take n (portal_body home secret (b'0' ∷ [])) }

abbrev answer : Answer
answer = record { now_us = 7000000; curr_chan = 1; set_config = ok; connect = ok }

abbrev in_portal : Device Store
in_portal = record device { wifi = record (device.wifi) { state = ap_only; ap_active = true } }

save_handler_lem_example :
    let ssid = posted save_request (codes "s") 64 in
    let attempt =
      wifi_manager_connect answer ssid
        (posted save_request (codes "p") 64)
        (is_one (posted save_request (codes "o") 4))
        in_portal in
    (((is_busy in_portal.wifi.state ≡ true)
        ⊎ ((is_empty (save_request.recv (recv_size save_request)) ≡ true) ⊎ (is_empty ssid ≡ true)))
      × (d' : Device Store) × (ret : EspErr) × (save_handler answer save_request in_portal
          ≡ returned ret d')
      × (d'.wifi ≡ in_portal.wifi)
      × (d'.nvs ≡ in_portal.nvs))
    ⊎ ((is_busy in_portal.wifi.state ≡ false)
        × (is_empty ssid ≡ false)
        × ((d1 : Device Store) (ret : EspErr)
            → attempt ≡ returned ret d1
            → (d' : Device Store) × (save_handler answer save_request in_portal ≡ returned ok d')
              × (d'.wifi ≡ d1.wifi)
              × (d'.nvs ≡ d1.nvs)))
save_handler_lem_example = save_handler_lem answer save_request in_portal

abbrev scheduled : Device Store
scheduled = record in_portal {
  wifi = record (in_portal.wifi) { state = connected };
  web = record (in_portal.web) { ap_shutdown_scheduled = true };
}

abbrev requests : List HttpRequest
requests = root true ∷ ap_shutdown true ∷ reboot ∷ root false ∷ []

abbrev served : Device Store
served = or_device (serve_requests whole_floats requests scheduled)
  where
    or_device : Option (Device Store) → Device Store
    or_device none = device
    or_device (some d) = d

served_to_the_end : serve_requests whole_floats requests scheduled ≡ some served
unfolding serve_requests handle root_handler ap_shutdown_handler reboot_handler schedule_ap_shutdown
    no_store boot
served_to_the_end = refl

scheduled_once_example :
    (shutdowns served.trace ≡ shutdowns scheduled.trace) × (served.web.ap_shutdown_scheduled ≡ true)
scheduled_once_example =
    scheduled_once whole_floats requests scheduled served served_to_the_end refl

-- An image of three bytes that arrives one by one.
abbrev upload : OtaAnswer
upload = record {
  content_len = 3;
  has_partition = true;
  begin_ret = ok;
  recv = λ i n. take n (i ∷ []);
  write = λ i. ok;
  end_ret = ok;
}

abbrev clients : Option (List Client)
clients = some (
    record { fd = 54; websocket = true; allocated = true; queued = true }
    ∷ record { fd = 55; websocket = false; allocated = true; queued = true }
    ∷ [])

abbrev up : Device Store
up = record device { web = record (device.web) { server = true } }

push_sensor_update_lem_example :
    (web_server_push_sensor_update clients home up
      ≡ record up { trace = queued_sends up.web.server clients home ++ up.trace })
    × (length (take (payload_len home) home) < ws_json_buf_size)
push_sensor_update_lem_example = push_sensor_update_lem clients home up

abbrev lost : Device Store
lost = record device { wifi = record (device.wifi) { state = failed } }

abbrev round : Round
round = record { now = 31000000; health_us = 31000001; answer = answer }

abbrev start : Ticks
start = record { last_health_us = 0; last_reconnect_us = 0 }

main_rounds-nothing_example :
    let d1 = (main_rounds store_api (round ∷ round ∷ []) start lost).1 in
    (d1.wifi ≡ lost.wifi) × (d1.nvs ≡ lost.nvs)
unfolding nvs_read boot
main_rounds-nothing_example = main_rounds-nothing store_api (round ∷ round ∷ []) start lost refl

main_round-spaced_example :
    let next = main_round store_api round.now round.health_us round.answer start lost in
    (next.0.last_reconnect_us ≡ start.last_reconnect_us
      × next.1.wifi ≡ lost.wifi
      × next.1.nvs ≡ lost.nvs)
    ⊎ (start.last_reconnect_us + 30000000 ≤ round.now
        × next.0.last_reconnect_us ≡ round.now
        × lost.wifi.ap_active ≡ false
        × lost.wifi.state ≡ failed)
main_round-spaced_example = main_round-spaced store_api round start lost
