-- ===== src/System/Protocol/Boots.antt =====
-- The rest of a start: the direct path of src/wifi_manager.c, and `app_main` of src/main.c as a whole.
use esp32_hydroponics_govern.Prelude.{
  ◌≡◌, refl, subst, Text, Bool, true, false, List, [], ◌∷◌, Option, none, some, Option-cases, inl,
  inr, arith,
}
use esp32_hydroponics_govern.Platform.{EspErr, ok, Run, returned, aborted}
use esp32_hydroponics_govern.Platform.Checks.{Run-cases}
use esp32_hydroponics_govern.Device.{idle, connecting, Device}
use esp32_hydroponics_govern.Wifi.Credentials.{NvsApi, Credentials, nvs_read}
use esp32_hydroponics_govern.Wifi.Events.{EventAnswer, WifiEvent, wifi_event_handler}
use esp32_hydroponics_govern.Wifi.Startup.{
  StartAnswer, create_sta_netif, sta_mode, sta_config, sta_power, sta_started, start_driver,
  bit_set, first_bit, is_connected_bit, wait_for_bits, finish_wait, finish_start, start_ap,
  start_sta, wifi_manager_start,
}
use esp32_hydroponics_govern.Wifi.Protocol.{Link, link, left}
use esp32_hydroponics_govern.System.Protocol.{starting, giving_up, Moves, still, later}
use esp32_hydroponics_govern.System.Protocol.Turns.{arrive, event-Moves}
use esp32_hydroponics_govern.System.Protocol.Runs.{Moves-trans}
use esp32_hydroponics_govern.System.Protocol.Starts.{
  none-ne-some, left-check, same_run, start_ap-Moves,
}

-- No attempt has been made since the C start-up code.
abbrev pub IsFresh : {S : Type 0} → Device S → Type 0
IsFresh d = (d.wifi.state ≡ idle) × (d.wifi.retry_count ≡ 0)

module _ {S : Type 0} where
  mode-link :
      (c : Credentials) (d : Device S) → d.wifi.retry_count ≡ 0 → link (sta_mode c d) ≡ link d
  unfolding sta_mode create_sta_netif
  mode-link c d h = ground arith

  started-link :
      (a : StartAnswer) (c : Credentials) (d : Device S)
      → link (sta_started a c d) ≡ record (link d) { phase = connecting; tries = 0 }
  unfolding sta_started sta_power sta_config sta_mode create_sta_netif
  started-link a c d = ground arith

module _ {S : Type 0} (api : NvsApi S) (all : List Text) where
  driver-Moves :
      (a : StartAnswer) (c : Credentials) (d : Device S)
      → IsFresh d
      → Moves api all (link d) (link (left (start_driver a c d)))
  unfolding start_driver sta_started sta_power sta_config
  driver-Moves a c d fresh =
      let P : Device S → Type 0 = λ d'. Moves api all (link d) (link d') in
      let same = mode-link c d fresh.1 in
      let m : P (sta_mode c d) = arrive api all _ same still in
      let n : P (sta_started a c d) =
        arrive api all _ (started-link a c d) (later still (starting fresh.0)) in
      left-check P a.mode_ret _ _ m (
        left-check P a.config_ret _ _ m
          (left-check P a.power_save_ret _ _ n (left-check P a.start_ret _ _ n n)))

  wait-Moves :
      (bit : Option Bool) (es : List (EventAnswer × WifiEvent)) (d : Device S)
      (r : Run (Device S) Bool)
      → wait_for_bits api bit es d ≡ some r
      → Moves api all (link d) (link (left r))
  unfolding wait_for_bits
  wait-Moves bit [] d r h = same_run api all (returned (is_connected_bit bit) d) r h still
  wait-Moves bit ((a, e) ∷ es) d r h = elim (Option-cases (wifi_event_handler api a e d)) [
    | inl overrun ↦ absurd (none-ne-some (rw (overrun, wait_for_bits) at h))
    | inr (r1, handled) ↦
        let m = event-Moves api all a e d r1 handled in
        elim (Run-cases r1) [
          | inr (d1, halts) ↦
              same_run api all (aborted d1) r
                (rw (halts, wait_for_bits) at (rw (handled, wait_for_bits) at h))
                (subst (λ x. Moves api all (link d) (link (left x))) halts m)
          | inl (u, d1, goes) ↦
              Moves-trans api all (subst (λ x. Moves api all (link d) (link (left x))) goes m) (
                wait-Moves (first_bit bit (bit_set d.wifi e)) es d1 r
                  (rw (goes, wait_for_bits) at (rw (handled, wait_for_bits) at h)))
        ]
  ]

  finish-Moves :
      (d : Device S) (joined : Bool)
      → Moves api all (link d) (link (left (finish_start api d joined)))
  unfolding finish_start
  finish-Moves d true = still
  finish-Moves d false = later still giving_up

  finished_wait :
      (k : Link S) (o : Option (Run (Device S) Bool)) (r : Run (Device S) EspErr)
      → ((x : Run (Device S) Bool) → o ≡ some x → Moves api all k (link (left x)))
      → finish_wait api o ≡ some r
      → Moves api all k (link (left r))
  unfolding finish_wait
  finished_wait k none r m h = absurd (none-ne-some h)
  finished_wait k (some (aborted d)) r m h = same_run api all (aborted d) r h (m _ refl)
  finished_wait k (some (returned joined d)) r m h =
      same_run api all (finish_start api d joined) r h
        (Moves-trans api all (m _ refl) (finish-Moves d joined))

  sta-Moves :
      (a : StartAnswer) (c : Credentials) (d : Device S) (r : Run (Device S) EspErr)
      → IsFresh d
      → start_sta api a c d ≡ some r
      → Moves api all (link d) (link (left r))
  unfolding start_sta
  sta-Moves a c d r fresh h =
      let m = driver-Moves a c d fresh in
      elim (Run-cases (start_driver a c d)) [
        | inr (d1, halts) ↦
            same_run api all (aborted d1) r (rw (halts, start_sta) at h)
              (subst (λ x. Moves api all (link d) (link (left x))) halts m)
        | inl (u, d1, goes) ↦
            finished_wait (link d) (wait_for_bits api none a.events d1) r
              (λ x e.
                Moves-trans api all (subst (λ y. Moves api all (link d) (link (left y))) goes m)
                  (wait-Moves none a.events d1 x e))
              (rw (goes, start_sta) at h)
      ]

  pub start-Moves :
      (a : StartAnswer) (d : Device S) (r : Run (Device S) EspErr)
      → IsFresh d
      → wifi_manager_start api a d ≡ some r
      → Moves api all (link d) (link (left r))
  unfolding wifi_manager_start
  start-Moves a d r fresh h = elim (Option-cases (nvs_read api d.nvs)) [
    | inr (c, stored) ↦ sta-Moves a c d r fresh (rw (stored, wifi_manager_start) at h)
    | inl missing ↦ elim (Option-cases (start_ap a.ap d)) [
      | inl overrun ↦ absurd (
          none-ne-some
            (rw (overrun, wifi_manager_start) at (rw (missing, wifi_manager_start) at h)))
      | inr (x, made) ↦
          let m = start_ap-Moves api all a.ap d x fresh.0 made in
          let h1 = rw (made, wifi_manager_start) at (rw (missing, wifi_manager_start) at h) in
          elim (Run-cases x) [
            | inl (u, d', e) ↦
                same_run api all (returned ok d') r (rw e at h1)
                  (subst (λ y. Moves api all (link d) (link (left y))) e m)
            | inr (d', e) ↦
                same_run api all (aborted d') r (rw e at h1)
                  (subst (λ y. Moves api all (link d) (link (left y))) e m)
          ]
    ]
  ]
