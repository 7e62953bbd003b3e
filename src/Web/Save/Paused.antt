-- ===== src/Web/Save/Paused.antt =====
-- src/web_server.c: `save_handler` in the pieces between the waits of the attempt that it starts. The
-- HTTP task serves no other request in the meantime.
use esp32_hydroponics_govern.Prelude.{Text, codes, cstr, Bool, List, Option, if◌then◌else◌}
use esp32_hydroponics_govern.Platform.{ok, fail, StaConfig, Run, returned, aborted, resp_err}
use esp32_hydroponics_govern.Device.{ApRecord, Device, emit}
use esp32_hydroponics_govern.Wifi.Credentials.{is_empty}
use esp32_hydroponics_govern.Wifi.Connect.{Answer, may_connect}
use esp32_hydroponics_govern.Wifi.Connect.Paused.{
  Slot, Piece, realigned, finished, reread, begin_attempt, finish_attempt, resume_attempt,
}
use esp32_hydroponics_govern.Web.Handlers.{json_response}
use esp32_hydroponics_govern.Web.Save.{Request, is_busy, field_string, recv_size, is_one}
use esp32_hydroponics_govern.Platform.{EspErr}

-- What the HTTP task does: it takes requests, or it is at one of the two waits of an attempt, with the
-- locals that are still read.
pub data Worker : Type 0 where
  serving : Worker
  settling : Option Slot → StaConfig → Worker
  realigning : StaConfig → Worker

-- What the worker's pointer reads once another task has written the scan cache.
abbrev pub overwritten : List ApRecord → Worker → Worker
overwritten records serving = serving
overwritten records (settling slot cfg) = settling (reread records slot) cfg
overwritten records (realigning cfg) = realigning cfg

-- A piece of the handler ends with the task at a wait, or with its answer.
pub data Served (S : Type 0) : Type 0 where
  waiting : Worker → Device S → Served S
  answered : Run (Device S) EspErr → Served S

module _ {S : Type 0} where
  -- The answer after the attempt.
  unfoldable pub answer_save : Run (Device S) (Unit {0}) → Run (Device S) EspErr
  answer_save (aborted d) = aborted d
  answer_save (returned _ d) = returned ok (json_response (codes "{\"status\":\"connecting\"}") d)

  -- `wifi_manager_connect` up to the first wait of `connect_sta`.
  unfoldable pub begin_connect : Text → Text → Bool → Device S → Served S
  unfolding may_connect begin_attempt
  begin_connect ssid pass is_open d =
      if may_connect d.wifi.state
      then (let (d', slot, cfg) = begin_attempt ssid pass is_open d in
          waiting (settling slot cfg) d')
      else answered (returned ok (json_response (codes "{\"status\":\"error\"}") d))

  -- The handler up to that wait.
  unfoldable pub begin_save : Request → Device S → Served S
  unfolding is_busy field_string begin_connect
  begin_save req d =
      let bytes = req.recv (recv_size req) in
      let body = cstr bytes in
      let ssid = field_string body (codes "s") 64 in
      let pass = field_string body (codes "p") 64 in
      let open_str = field_string body (codes "o") 4 in
      if is_busy d.wifi.state
      then answered (returned ok (json_response (codes "{\"status\":\"busy\"}") d))
      else (if is_empty bytes
          then answered (returned fail (emit (resp_err 400 (codes "Empty body")) d))
          else (if is_empty ssid
              then answered (
                  returned ok
                    (json_response (codes "{\"status\":\"error\",\"msg\":\"SSID required\"}") d))
              else begin_connect ssid pass (is_one open_str) d))

  unfoldable pub served_piece : Piece S → Served S
  unfolding answer_save
  served_piece (realigned cfg d) = waiting (realigning cfg) d
  served_piece (finished r) = answered (answer_save r)

  -- What the task does at the end of its wait.
  unfoldable pub resume_save : Answer → Worker → Device S → Served S
  unfolding resume_attempt finish_attempt served_piece
  resume_save a serving d = waiting serving d
  resume_save a (settling slot cfg) d = served_piece (resume_attempt a slot cfg d)
  resume_save a (realigning cfg) d = answered (answer_save (finish_attempt a cfg d))

  -- The rest of a handler that nobody disturbs: there are two waits at most.
  abbrev pub twice : Answer → Served S → Served S
  twice a (answered r) = answered r
  twice a (waiting w d) = elim (resume_save a w d) [
    | answered r ↦ answered r
    | waiting w' d' ↦ resume_save a w' d'
  ]
