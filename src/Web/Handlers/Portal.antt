-- ===== src/Web/Handlers/Portal.antt =====
-- src/web_server.c: scheduling the delayed shutdown of the access point.
use esp32_hydroponics_govern.Prelude.{ℕ, ◌+◌, ◌≡◌, refl, ◌∙◌, Bool, false, List, [], ◌∷◌, arith}
use esp32_hydroponics_govern.Platform.{Call, create_task, delayed_ap_shutdown}
use esp32_hydroponics_govern.Device.{Device}
use esp32_hydroponics_govern.Web.Handlers.{
  no_store, schedule_ap_shutdown, root_handler, ap_shutdown_handler,
}

-- How many delayed shutdowns a trace asks for.
unfoldable pub shutdowns : List Call → ℕ
shutdowns [] = 0
shutdowns (c ∷ cs) =
    let rest = shutdowns cs in
    elim c [ create_task t ↦ elim t [ delayed_ap_shutdown ↦ rest + 1 | _ ↦ rest ] | _ ↦ rest ]

-- A request of a client: the root page or POST /ap_shutdown, with whether `xTaskCreate` succeeds.
pub data Visit : Type 0 where
  get_root post_ap_shutdown : Bool → Visit

module _ {S : Type 0} where
  unfoldable pub serve : Visit → Device S → Device S
  unfolding root_handler ap_shutdown_handler
  serve (get_root created) d = (root_handler created d).0
  serve (post_ap_shutdown created) d = (ap_shutdown_handler created d).0

  unfoldable pub serve_all : List Visit → Device S → Device S
  unfolding serve
  serve_all [] d = d
  serve_all (r ∷ rs) d = serve_all rs (serve r d)

  serve_without_ap :
      (r : Visit) (d : Device S)
      → d.wifi.ap_active ≡ false
      → (shutdowns (serve r d).trace ≡ shutdowns d.trace) × ((serve r d).wifi.ap_active ≡ false)
  unfolding serve shutdowns root_handler ap_shutdown_handler schedule_ap_shutdown no_store
  serve_without_ap (get_root created) d h = ground arith
  serve_without_ap (post_ap_shutdown created) d h = ground arith

  -- When the delayed task has run, the access point is off and nothing schedules it again.
  pub not_scheduled_without_ap :
      (rs : List Visit) (d : Device S)
      → d.wifi.ap_active ≡ false
      → shutdowns (serve_all rs d).trace ≡ shutdowns d.trace
  unfolding serve_all
  not_scheduled_without_ap [] d h = refl
  not_scheduled_without_ap (r ∷ rs) d h =
      let (count, still) = serve_without_ap r d h in
      not_scheduled_without_ap rs (serve r d) still ∙ count
