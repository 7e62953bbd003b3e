-- ===== src/Telnet.antt =====
-- src/telnet_server.c: the log sink for one TCP client. File descriptors are numbers; the -1 of
-- `s_client_fd` is `none`.
pub mod Session
use esp32_hydroponics_govern.Prelude.{
  ℕ, Text, codes, Bool, true, false, List, [], ◌∷◌, Option, none, some, if◌then◌else◌,
}
use esp32_hydroponics_govern.Config.{telnet_port}
use esp32_hydroponics_govern.Platform.{
  EspErr, ok, fail, no_mem, delay, telnet_task, create_task, delete_task, socket_listen,
  socket_send, socket_close,
}
use esp32_hydroponics_govern.Device.{Telnet, Device, emit}

-- What `recv` on the client returns: bytes, an orderly close, a timeout (EAGAIN or EWOULDBLOCK), or
-- another error.
pub data Recv : Type 0 where
  received closed timed_out broken : Recv

-- What happens to the server: a round of its inner loop, a result of `accept`, or a call of
-- `telnet_server_send` by another task.
pub data TelnetEvent : Type 0 where
  accepted : ℕ → TelnetEvent
  accept_failed : TelnetEvent
  polled : Recv → TelnetEvent
  send : Text → TelnetEvent

-- Where `telnet_task` stands: in `accept`, or polling a client.
pub data Phase : Type 0 where
  accepting : Phase
  polling : ℕ → Phase

-- `n == 0`, or an error that is no timeout: leave the inner loop.
unfoldable pub ends_session : Recv → Bool
ends_session received = false
ends_session closed = true
ends_session timed_out = false
ends_session broken = true

module _ {S : Type 0} where
  unfoldable pub close_client : ℕ → Device S → Device S
  close_client fd d =
      emit (socket_close fd) (record d { telnet = record (d.telnet) { client_fd = none } })

  -- `accept` returned `client`: store it and begin to poll.
  unfoldable pub accept_client : ℕ → Device S → Device S
  accept_client client d = record d { telnet = record (d.telnet) { client_fd = some client } }

  unfoldable pub telnet_server_send : Text → Device S → Device S
  telnet_server_send msg d = elim d.telnet.mutex [
    | false ↦ d
    | true ↦ elim d.telnet.client_fd [
      | none ↦ d
      | some fd ↦ emit (socket_send fd (13 ∷ 10 ∷ [])) (emit (socket_send fd msg) d)
    ]
  ]

  -- One event of the two loops. An event that the phase does not wait for changes nothing.
  unfoldable pub telnet_step : Phase → TelnetEvent → Device S → Phase × Device S
  unfolding close_client accept_client telnet_server_send ends_session
  telnet_step ph (send msg) d = (ph, telnet_server_send msg d)
  telnet_step accepting (accepted client) d = (polling client, accept_client client d)
  telnet_step accepting accept_failed d = (accepting, emit (delay 100) d)
  telnet_step (polling fd) (polled r) d =
      if ends_session r then (accepting, close_client fd d) else (polling fd, emit (delay 100) d)
  telnet_step ph _ d = (ph, d)

  unfoldable pub telnet_loop : Phase → List TelnetEvent → Device S → Phase × Device S
  unfolding telnet_step
  telnet_loop ph [] d = (ph, d)
  telnet_loop ph (e ∷ es) d = let (ph', d') = telnet_step ph e d in telnet_loop ph' es d'

  -- `socket_ok` and `bind_ok`: whether `socket` and `bind` succeed; `none` where the task ended.
  unfoldable pub run_telnet_task :
      Bool → Bool → List TelnetEvent → Device S → Option Phase × Device S
  unfolding telnet_loop
  run_telnet_task false bind_ok es d = (none, emit delete_task d)
  run_telnet_task true false es d = (none, emit delete_task (emit (socket_close 0) d))
  run_telnet_task true true es d =
      let (ph, d') = telnet_loop accepting es (emit (socket_listen telnet_port) d) in (some ph, d')

  -- `mutex_ok`, `created`: whether the mutex and the task could be created.
  unfoldable pub telnet_server_start : Bool → Bool → Device S → Device S × EspErr
  telnet_server_start mutex_ok created d =
      let d' = record d { telnet = record (d.telnet) { mutex = mutex_ok } } in
      if mutex_ok
      then (emit (create_task telnet_task) d', if created then ok else fail)
      else (d', no_mem)
