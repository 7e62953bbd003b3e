-- ===== src/Web/Save/Undisturbed.antt =====
-- src/web_server.c: the pieces of `save_handler`, with nothing in between, are `save_handler`.
use esp32_hydroponics_govern.Prelude.{
  ◌≡◌, refl, ◌∙◌, ap, Text, codes, cstr, Bool, Bool-cases, inl, inr, if◌then◌else◌,
}
use esp32_hydroponics_govern.Platform.{ok, is_ok, returned, aborted}
use esp32_hydroponics_govern.Platform.Checks.{Run-cases}
use esp32_hydroponics_govern.Device.{Device}
use esp32_hydroponics_govern.Wifi.Credentials.{is_empty}
use esp32_hydroponics_govern.Wifi.Connect.{Answer, may_connect, connect_sta, wifi_manager_connect}
use esp32_hydroponics_govern.Wifi.Connect.Paused.{
  Piece, realigned, finished, begin_attempt, resume_attempt, undisturbed,
}
use esp32_hydroponics_govern.Wifi.Connect.Undisturbed.{pieces-connect_sta}
use esp32_hydroponics_govern.Web.Handlers.{json_response}
use esp32_hydroponics_govern.Web.Save.{
  Request, is_busy, field_string, recv_size, is_one, save_handler,
}
use esp32_hydroponics_govern.Web.Save.Paused.{
  Served, waiting, answered, answer_save, begin_connect, begin_save, served_piece, resume_save,
  twice,
}

module _ {S : Type 0} where
  piece-twice :
      (a : Answer) (p : Piece S) (o : Served S)
      → served_piece p ≡ o
      → (elim o [ answered r ↦ answered r | waiting w' d' ↦ resume_save a w' d' ])
        ≡ answered (answer_save (undisturbed a p))
  unfolding served_piece resume_save
  piece-twice a (realigned cfg d) o e = rw (← e) refl
  piece-twice a (finished r) o e = rw (← e) refl

  connect-twice :
      (a : Answer) (ssid pass : Text) (is_open : Bool) (d : Device S)
      → twice a (begin_connect ssid pass is_open d)
        ≡ answered (elim (wifi_manager_connect a ssid pass is_open d) [
          | aborted d' ↦ aborted d'
          | returned ret d' ↦ returned ok (
              json_response
                (if is_ok ret
                  then codes "{\"status\":\"connecting\"}"
                  else codes "{\"status\":\"error\"}")
                d')
        ])
  unfolding begin_connect wifi_manager_connect resume_save answer_save
  connect-twice a ssid pass is_open d = elim (Bool-cases (may_connect d.wifi.state)) [
    | inr barred ↦ rw barred refl
    | inl may ↦
        let (d1, slot, cfg) = begin_attempt ssid pass is_open d in
        let whole = pieces-connect_sta a ssid pass is_open d in
        elim (Run-cases (connect_sta a ssid pass is_open d)) [
          | inl (u, d', e) ↦ rw may (
              piece-twice a (resume_attempt a slot cfg d1) _ refl
              ∙ ap (λ r. answered (answer_save r)) (whole ∙ e)
              ∙ rw e refl)
          | inr (d', e) ↦ rw may (
              piece-twice a (resume_attempt a slot cfg d1) _ refl
              ∙ ap (λ r. answered (answer_save r)) (whole ∙ e)
              ∙ rw e refl)
        ]
  ]

  -- The pieces of `save_handler` put together are `save_handler`: if no other task runs in its waits,
  -- two resumptions at most bring the handler to its end, with the answer, the calls and the variables
  -- of the whole.
  pub pieces-save_handler :
      (a : Answer) (req : Request) (d : Device S)
      → twice a (begin_save req d) ≡ answered (save_handler a req d)
  unfolding begin_save save_handler
  pieces-save_handler a req d =
      let bytes = req.recv (recv_size req) in
      let body = cstr bytes in
      let ssid = field_string body (codes "s") 64 in
      let pass = field_string body (codes "p") 64 in
      let open_str = field_string body (codes "o") 4 in
      elim (Bool-cases (is_busy d.wifi.state)) [
        | inl busy ↦ rw busy refl
        | inr free ↦ rw free (elim (Bool-cases (is_empty bytes)) [
          | inl hollow ↦ rw hollow refl
          | inr whole ↦ rw whole (elim (Bool-cases (is_empty ssid)) [
            | inl unnamed ↦ rw unnamed refl
            | inr named ↦ rw named (connect-twice a ssid pass (is_one open_str) d)
          ])
        ])
      ]
