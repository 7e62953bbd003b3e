-- ===== src/Web/Save/Outcome.antt =====
-- src/web_server.c: what `save_handler` does to the connection.
use esp32_hydroponics_govern.Prelude.{
  ℕ, ◌≡◌, ◌⊎◌, inl, inr, refl, Text, codes, cstr, Bool-cases, true, false, if◌then◌else◌,
}
use esp32_hydroponics_govern.Platform.{resp_err, EspErr, ok, fail, is_ok, returned}
use esp32_hydroponics_govern.Device.{Device, emit}
use esp32_hydroponics_govern.Wifi.Credentials.{is_empty}
use esp32_hydroponics_govern.Wifi.Connect.{Answer, wifi_manager_connect}
use esp32_hydroponics_govern.Web.Handlers.{json_response}
use esp32_hydroponics_govern.Web.Save.{
  Request, field_string, recv_size, is_one, is_busy, save_handler,
}

-- The fields that the handler reads from a request.
unfoldable pub posted : Request → Text → ℕ → Text
unfolding field_string
posted req field size = field_string (cstr (req.recv (recv_size req))) field size

module _ {S : Type 0} where
  -- A request that finds the manager busy, that is empty or that names no network changes nothing of
  -- the connection or the store; every other one, if the driver takes the configuration, leaves both
  -- as `wifi_manager_connect` does with the posted name, password and flag.
  pub save_handler_lem :
      (a : Answer) (req : Request) (d : Device S)
      → let ssid = posted req (codes "s") 64 in
        let attempt =
          wifi_manager_connect a ssid
            (posted req (codes "p") 64)
            (is_one (posted req (codes "o") 4))
            d in
        (((is_busy d.wifi.state ≡ true)
            ⊎ ((is_empty (req.recv (recv_size req)) ≡ true) ⊎ (is_empty ssid ≡ true)))
          × (d' : Device S) × (ret : EspErr) × (save_handler a req d ≡ returned ret d')
          × (d'.wifi ≡ d.wifi)
          × (d'.nvs ≡ d.nvs))
        ⊎ ((is_busy d.wifi.state ≡ false)
            × (is_empty ssid ≡ false)
            × ((d1 : Device S) (ret : EspErr)
                → attempt ≡ returned ret d1
                → (d' : Device S) × (save_handler a req d ≡ returned ok d')
                  × (d'.wifi ≡ d1.wifi)
                  × (d'.nvs ≡ d1.nvs)))
  unfolding posted save_handler
  save_handler_lem a req d = elim (Bool-cases (is_busy d.wifi.state)) [
    | inl busy ↦ inl (
      inl busy,
      json_response (codes "{\"status\":\"busy\"}") d,
      ok,
      rw (busy, save_handler) refl,
      refl,
      refl,
    )
    | inr free ↦ elim (Bool-cases (is_empty (req.recv (recv_size req)))) [
      | inl hollow ↦ inl (
        inr (inl hollow),
        emit (resp_err 400 (codes "Empty body")) d,
        fail,
        rw (free, hollow, save_handler) refl,
        refl,
        refl,
      )
      | inr full ↦ elim (Bool-cases (is_empty (posted req (codes "s") 64))) [
        | inl unnamed ↦ inl (
          inr (inr unnamed),
          json_response (codes "{\"status\":\"error\",\"msg\":\"SSID required\"}") d,
          ok,
          rw (free, full, unnamed, save_handler) refl,
          refl,
          refl,
        )
        | inr named ↦ inr (
          free,
          named,
          (λ d1 ret made. (
            json_response
                (if is_ok ret
                  then codes "{\"status\":\"connecting\"}"
                  else codes "{\"status\":\"error\"}")
                d1,
            rw (free, full, named, made, save_handler) refl,
            refl,
            refl,
          )),
        )
      ]
    ]
  ]
