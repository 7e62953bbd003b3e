-- ===== src/System/Services.antt =====
-- The services that `app_main` starts once the connection is decided: steps 4 to 7 of src/main.c.
use esp32_hydroponics_govern.Prelude.{
  ◌≡◌, refl, ◌∙◌, Bool, true, codes, List, [], ◌∷◌, Bool-cases, inl, inr, arith, if◌then◌else◌,
}
use esp32_hydroponics_govern.Platform.{
  Run, EspErr, ok, fail, no_mem, invalid_state, not_found, timeout, invalid_crc, nvs_no_free_pages,
  nvs_new_version_found, other, is_ok, check, create_task, led_task, register_uri, httpd_start,
}
use esp32_hydroponics_govern.Device.{Device, emit}
use esp32_hydroponics_govern.Dns.{dns_server_start}
use esp32_hydroponics_govern.Led.{led_manager_start}
use esp32_hydroponics_govern.Telnet.{accepting, telnet_server_start}
use esp32_hydroponics_govern.Web.Server.{Uri, register_all, uris, web_server_start}
use esp32_hydroponics_govern.Main.{MainAnswer, create_tasks, start_services}
use esp32_hydroponics_govern.System.Sound.{idle_telnet, telnet_of, IsSound}
use esp32_hydroponics_govern.Platform.Checks.{Returns}
use esp32_hydroponics_govern.System.Start.{SameVariables}

-- The program runs: what the tasks and the handlers use is there.
pub record Started {S : Type 0} (a : MainAnswer) (d : Device S) : Type 0 where
  pub sound : IsSound true (telnet_of accepting) d
  pub server : d.web.server ≡ true
  pub push_task_handle : d.sensors.push_task_handle ≡ a.push_created
  pub dns : d.dns_running ≡ d.wifi.ap_active

-- What follows a check that passes.
check-ok :
    {D A : Type 0} (P : D → Type 0) (e : EspErr) (d : D) (rest : Run D A)
    → (e ≡ ok → Returns P rest)
    → Returns P (check e d rest)
check-ok P ok d rest v = v refl
check-ok P fail d rest v = tt
check-ok P no_mem d rest v = tt
check-ok P invalid_state d rest v = tt
check-ok P not_found d rest v = tt
check-ok P timeout d rest v = tt
check-ok P invalid_crc d rest v = tt
check-ok P nvs_no_free_pages d rest v = tt
check-ok P nvs_new_version_found d rest v = tt
check-ok P (other n) d rest v = tt

module _ {S : Type 0} where
  register_all-frame :
      (us : List Uri) (d : Device S)
      → SameVariables (register_all us d) d
        × ((register_all us d).web ≡ d.web)
        × ((register_all us d).telnet ≡ d.telnet)
  unfolding register_all
  register_all-frame [] d = ground arith
  register_all-frame (u ∷ us) d = register_all-frame us (emit (register_uri (codes u.uri)) d)

  web_server_start-frame :
      (ret : EspErr) (d : Device S)
      → let (d', r) = web_server_start ret d in SameVariables d' d × (r ≡ ok → d'.web.server ≡ true)
  unfolding web_server_start
  web_server_start-frame ret d =
      let d1 = emit httpd_start d in
      let frame = register_all-frame uris (record d1 { web = record (d1.web) { server = true } }) in
      elim (Bool-cases (is_ok ret)) [
        | inl up ↦ rw up (ground (arith, frame))
        | inr down ↦ rw down (ground (arith, down))
      ]

  telnet_server_start-frame :
      (mutex_ok created : Bool) (d : Device S)
      → let (d', r) = telnet_server_start mutex_ok created d in
        (d'.sensors ≡ d.sensors)
        × (d'.wifi ≡ d.wifi)
        × (d'.dns_running ≡ d.dns_running)
        × (d'.web ≡ d.web)
        × (r ≡ ok → d'.telnet ≡ record (d.telnet) { mutex = true })
  unfolding telnet_server_start
  telnet_server_start-frame mutex_ok created d = ground (arith, mutex_ok, created)

  dns_started :
      (a : MainAnswer) (d : Device S)
      → IsSound true idle_telnet d
      → let d' =
          (if d.wifi.ap_active then dns_server_start a.dns_created d else (d, EspErr.ok)).0 in
        IsSound true idle_telnet d' × (d'.dns_running ≡ d'.wifi.ap_active)
  unfolding dns_server_start
  dns_started a d v = ground arith

  started :
      (a : MainAnswer) (d1 d : Device S)
      → IsSound true idle_telnet d1
      → d1.dns_running ≡ d1.wifi.ap_active
      → d.sensors ≡ d1.sensors
      → d.wifi ≡ d1.wifi
      → d.dns_running ≡ d1.dns_running
      → d.web.server ≡ true
      → d.telnet ≡ telnet_of accepting
      → Started a (create_tasks a.push_created (emit (create_task led_task) d))
  unfolding create_tasks
  started a d1 d v dns sensors wifi running server mutex = record {
    sound = record {
      registry = ground (arith, sensors, v.registry);
      fits = rw wifi v.fits;
      coupled = rw (wifi, running) v.coupled;
      callback = rw wifi v.callback;
      bound = rw wifi v.bound;
      telnet = mutex;
    };
    server = server;
    push_task_handle = refl;
    dns = rw (wifi, running) dns;
  }

  pub start_services-Started :
      (a : MainAnswer) (d : Device S)
      → IsSound true idle_telnet d
      → Returns (Started a) (start_services a d)
  unfolding start_services create_tasks led_manager_start
  start_services-Started a d v =
      let s1 : Device S × EspErr =
        (if d.wifi.ap_active then dns_server_start a.dns_created d else (d, ok)) in
      let d1 = s1.0 in
      let s2 = web_server_start a.httpd d1 in
      let s3 = telnet_server_start a.telnet_mutex a.telnet_created s2.0 in
      let d4 = emit (create_task led_task) s3.0 in
      let (v1, dns) = dns_started a d v in
      let (same2, served) = web_server_start-frame a.httpd d1 in
      let (sensors3, wifi3, dns3, web3, locked) =
        telnet_server_start-frame a.telnet_mutex a.telnet_created s2.0 in
      check-ok (Started a) s1.1 d1 _ (λ dns_up. check-ok (Started a) s2.1 s2.0 _ (λ web_up.
        check-ok (Started a) s3.1 s3.0 _ (λ telnet_up.
          check-ok (Started a) (if a.led_created then ok else fail) d4 _ (λ led_up.
            started a d1 s3.0 v1 dns (sensors3 ∙ same2.0) (wifi3 ∙ same2.1) (dns3 ∙ same2.2)
              (rw web3 (served web_up)) (locked telnet_up ∙ rw (same2.3 ∙ v1.telnet) refl)))))
