-- ===== src/Tunnel.antt =====
-- test-server/web-tunnel.c: the callbacks that libwebsockets calls, and the main loop.
pub mod Loop
pub mod Quiet
pub mod Reconnect
use web_tunnel.Base.{
  ℕ, Bool, true, false, not, List, [], ◌∷◌, Option, none, some, Outcome, ok, fault, overrun, ◌>>=◌,
  ltb, update, if◌then◌else◌,
}
use web_tunnel.Base.Int.{ℤ}
use web_tunnel.State.{Mgmt, Events, Effect, emit}
use web_tunnel.PollTable.{mgmt_add_fd, mgmt_del_fd}
use web_tunnel.ToServer.{http_mgmt_isshake, http_mgmt_handshake, http_mgmt_writable}
use web_tunnel.Prepare.{http_mgmt_prepare}
use web_tunnel.Dispatch.{prepare_process}
use web_tunnel.Dispatch.Forwarding.{Answer}

-- The reasons that `callback_http` looks at.
pub data PollReason : Type 0 where
  add_poll_fd : ℕ → Events → PollReason
  del_poll_fd : ℕ → PollReason
  change_mode_poll_fd : ℕ → Events → PollReason
  other_reason : PollReason

abbrev pub added : Mgmt × Option ℕ → Mgmt × Bool
added (m, none) = (m, false)
added (m, some i) = (m, true)

-- The entry of the descriptor gets other events.
unfoldable pub change_events : ℕ → Events → Mgmt → Outcome Mgmt
change_events fd events m =
    let i = m.fd_lookup fd in
    if ltb fd m.max_fds
    then ok (record m { pollfds = update m.pollfds i (record (m.pollfds i) { events = events }) })
    else fault overrun

-- The Boolean is that 0 is returned.
unfoldable pub callback_http : PollReason → Mgmt → Outcome (Mgmt × Bool)
unfolding change_events
callback_http (add_poll_fd fd events) m = ok (added (mgmt_add_fd m fd events))
callback_http (del_poll_fd fd) m = mgmt_del_fd m fd >>= λ n. ok (n, true)
callback_http (change_mode_poll_fd fd events) m = change_events fd events m >>= λ n. ok (n, true)
callback_http other_reason m = ok (m, true)

-- The reasons that `callback_dumb_increment` looks at. A message comes with the time and the answers of
-- the system that its packet needs; `writeable` with the result of `websocket_write`.
pub data Reason : Type 0 where
  established connection_error closed : Reason
  receive : ℕ → Answer → List ℕ → Reason
  writeable : ℤ → Reason
  other : Reason

-- The websocket can be written to: before the server has answered, the handshake goes first.
unfoldable pub on_writeable : ℤ → Mgmt → Outcome (Mgmt × Bool)
on_writeable n m =
    (if http_mgmt_isshake m then ok m else http_mgmt_handshake m) >>= λ m1. http_mgmt_writable m1 n

unfoldable pub websocket_closed : Mgmt → Mgmt
websocket_closed m = record m { was_closed = true }

-- The Boolean is that 0 is returned.
unfoldable pub callback_dumb_increment : Reason → Mgmt → Outcome (Mgmt × Bool)
unfolding on_writeable websocket_closed
callback_dumb_increment established m = ok (emit Effect.write_again m, true)
callback_dumb_increment connection_error m = ok (websocket_closed m, true)
callback_dumb_increment closed m = ok (websocket_closed m, true)
callback_dumb_increment (receive now a bytes) m =
    http_mgmt_prepare (prepare_process now a) now bytes m >>= λ r. ok (r.0, true)
callback_dumb_increment (writeable n) m = on_writeable n m
callback_dumb_increment other m = ok (m, true)
