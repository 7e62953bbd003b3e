-- ===== src/Telnet/Session.antt =====
-- src/telnet_server.c: one client at a time, and where the log goes.
use esp32_hydroponics_govern.Prelude.{
  ℕ, ◌≡◌, refl, sym, ◌∙◌, true, false, List, [], ◌∷◌, Option, none, some, arith,
}
use esp32_hydroponics_govern.Platform.{Call, socket_send, socket_close, delay}
use esp32_hydroponics_govern.Device.{Device}
use esp32_hydroponics_govern.Telnet.{
  TelnetEvent, accepted, accept_failed, polled, send, Phase, accepting, polling, ends_session,
  telnet_step, telnet_loop,
}

-- The client that a phase serves.
abbrev pub client_of : Phase → Option ℕ
client_of accepting = none
client_of (polling fd) = some fd

-- What the task and the senders see of it agrees.
abbrev pub IsSynced : {S : Type 0} → Phase → Device S → Type 0
IsSynced ph d = (d.telnet.client_fd ≡ client_of ph) × (d.telnet.mutex ≡ true)

-- The calls that the server makes, newest first, for the events that it handles.
unfoldable pub served : Phase → List TelnetEvent → List Call → List Call
served ph [] calls = calls
served accepting (send msg ∷ es) calls = served accepting es calls
served (polling fd) (send msg ∷ es) calls =
    served (polling fd) es (socket_send fd (13 ∷ 10 ∷ []) ∷ socket_send fd msg ∷ calls)
served accepting (accepted client ∷ es) calls = served (polling client) es calls
served accepting (accept_failed ∷ es) calls = served accepting es (delay 100 ∷ calls)
served accepting (polled r ∷ es) calls = served accepting es calls
served (polling fd) (polled r ∷ es) calls = elim (ends_session r) [
  | true ↦ served accepting es (socket_close fd ∷ calls)
  | false ↦ served (polling fd) es (delay 100 ∷ calls)
]
served (polling fd) (accepted client ∷ es) calls = served (polling fd) es calls
served (polling fd) (accept_failed ∷ es) calls = served (polling fd) es calls

module _ {S : Type 0} where
  step-IsSynced :
      (ph : Phase) (e : TelnetEvent) (d : Device S)
      → IsSynced ph d
      → let (ph', d') = telnet_step ph e d in IsSynced ph' d'
  unfolding telnet_step
  step-IsSynced accepting (send msg) d h = ground arith
  step-IsSynced accepting (accepted c) d h = ground arith
  step-IsSynced accepting accept_failed d h = ground arith
  step-IsSynced accepting (polled r) d h = ground arith
  step-IsSynced (polling fd) e d h = ground arith

  -- From a state where the two agree, through any events, the descriptor that `telnet_server_send`
  -- reads is that of the client which the task polls, and none while it waits in `accept`.
  pub telnet_loop-IsSynced :
      (ph : Phase) (es : List TelnetEvent) (d : Device S)
      → IsSynced ph d
      → let (ph', d') = telnet_loop ph es d in IsSynced ph' d'
  unfolding telnet_loop
  telnet_loop-IsSynced ph [] d h = h
  telnet_loop-IsSynced ph (e ∷ es) d h =
      telnet_loop-IsSynced (telnet_step ph e d).0 es (telnet_step ph e d).1 (step-IsSynced ph e d h)

  served-step :
      (ph : Phase) (e : TelnetEvent) (es : List TelnetEvent) (d : Device S)
      → IsSynced ph d
      → served ph (e ∷ es) d.trace ≡ served (telnet_step ph e d).0 es (telnet_step ph e d).1.trace
  unfolding telnet_step served
  served-step accepting (send msg) es d h = ground arith
  served-step accepting (accepted c) es d h = ground arith
  served-step accepting accept_failed es d h = ground arith
  served-step accepting (polled r) es d h = ground arith
  served-step (polling fd) (send msg) es d h = ground arith
  served-step (polling fd) (accepted c) es d h = ground arith
  served-step (polling fd) accept_failed es d h = ground arith
  served-step (polling fd) (polled r) es d h = ground arith

  -- Every message is handed to `send`, with a line end, for the client that is connected when it is sent,
  -- and to nobody if there is none; what the non-blocking `send` takes of it is not looked at. A descriptor is
  -- closed exactly when its session ends. A connection is accepted only where no client is served: one that
  -- comes earlier does not evict it.
  pub trace-telnet_loop :
      (ph : Phase) (es : List TelnetEvent) (d : Device S)
      → IsSynced ph d
      → (telnet_loop ph es d).1.trace ≡ served ph es d.trace
  unfolding telnet_loop served
  trace-telnet_loop ph [] d h = refl
  trace-telnet_loop ph (e ∷ es) d h =
      let (ph', d') = telnet_step ph e d in
      trace-telnet_loop ph' es d' (step-IsSynced ph e d h) ∙ sym (served-step ph e es d h)
