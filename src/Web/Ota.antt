-- ===== src/Web/Ota.antt =====
-- src/web_server.c: `ota_handler`, the firmware upload.
pub mod Upload
use esp32_hydroponics_govern.Prelude.{
  ℕ, zero, suc, ◌+◌, ◌-◌, ◌%◌, ◌^◌, codes, Bool, true, false, List, [], ◌∷◌, Option, none, some,
  length, ltb, ◌==◌, if◌then◌else◌, String,
}
use esp32_hydroponics_govern.Config.{ota_buf_size}
use esp32_hydroponics_govern.Platform.{
  EspErr, ok, fail, is_ok, delay, restart, resp_err, ota_begin, ota_abort, ota_end, ota_set_boot,
  ota_write,
}
use esp32_hydroponics_govern.Device.{Device, emit}
use esp32_hydroponics_govern.Web.Handlers.{json_type, json_response}
use esp32_hydroponics_govern.Platform.{resp_type, resp_send}

-- What the HTTP server and the OTA library answer to an upload. `recv i n` is what the i-th
-- `httpd_req_recv` delivers when it is asked for `n` bytes, `[]` where its result is not positive;
-- `write i` is the result of the i-th `esp_ota_write`.
pub record OtaAnswer : Type 0 where
  pub content_len : ℕ
  pub has_partition : Bool
  pub begin_ret : EspErr
  pub recv : ℕ → ℕ → List ℕ
  pub write : ℕ → EspErr
  pub end_ret : EspErr

abbrev pub to_recv : ℕ → ℕ
to_recv remaining = if ltb remaining ota_buf_size then remaining else ota_buf_size

-- `int remaining = req->content_len`, as far as the loop tells: a size from 2 to the 31 on is a
-- negative number, which the loop takes as nothing to receive.
unfoldable pub remaining_of : ℕ → ℕ
remaining_of content_len = let n = content_len % 2 ^ 32 in if ltb n (2 ^ 31) then n else 0

module _ {S : Type 0} where
  abbrev pub give_up_with : String → Device S → Device S
  give_up_with msg d = emit (resp_err 500 (codes msg)) d

  -- The receive loop at its i-th round: whether the whole image was written. `none` where the fuel
  -- ran out.
  unfoldable pub ota_loop : OtaAnswer → ℕ → ℕ → ℕ → Device S → Option (Bool × Device S)
  ota_loop a zero i remaining d = if ltb 0 remaining then none else some (true, d)
  ota_loop a (suc fuel) i remaining d =
      let chunk = a.recv i (to_recv remaining) in
      let d1 = emit (ota_write chunk) d in
      let rest = ota_loop a fuel (i + 1) (remaining - length chunk) d1 in
      if ltb 0 remaining
      then (if length chunk == 0
          then some (false, give_up_with "Receive failed" (emit ota_abort d))
          else (if is_ok (a.write i)
              then rest
              else some (false, give_up_with "OTA write failed" (emit ota_abort d1))))
      else some (true, d)

  -- After the loop.
  unfoldable pub ota_finish : OtaAnswer → Device S → Device S × EspErr
  unfolding json_type
  ota_finish a d =
      let d1 = emit ota_end d in
      let d2 = emit ota_set_boot d1 in
      let d3 =
        json_response (codes "{\"status\":\"ok\",\"msg\":\"OTA complete. Rebooting...\"}") d2 in
      if is_ok a.end_ret
      then (emit restart (emit (delay 800) d3), ok)
      else (give_up_with "OTA validation failed" d1, fail)

  -- `none` where the loop ran out of fuel; a round takes at least one byte.
  unfoldable pub ota_handler : OtaAnswer → Device S → Option (Device S × EspErr)
  unfolding remaining_of ota_loop ota_finish
  ota_handler a d =
      let n = remaining_of a.content_len in
      if a.has_partition
      then (if is_ok a.begin_ret
          then elim (ota_loop a n 0 n (emit ota_begin d)) [
            | none ↦ none
            | some (written, d') ↦ if written then some (ota_finish a d') else some (d', fail)
          ]
          else some (give_up_with "OTA begin failed" (emit ota_begin d), fail))
      else some (give_up_with "No OTA partition" d, fail)
