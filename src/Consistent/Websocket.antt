-- ===== src/Consistent/Websocket.antt =====
-- What libwebsockets calls: the queue is written, the handshake put before it, and messages received.
use web_tunnel.Base.{
  check-Ensures, Unfreed, deref-Ensures, Fault, ℕ, ◌+◌, ◌≡◌, refl, not, List, [], ◌∷◌, length,
  Option, none, some, true, false, Ensures, Ensures-ok, Ensures-fault, Ensures-bind, Ensures-if,
  Ensures-Option, ◌==◌, slice, ltb, update, arith,
}
use web_tunnel.Base.Int.{ℤ}
use web_tunnel.State.{Mgmt, Effect, emit}
use web_tunnel.Buffers.{alloc_buf, next_buf_info, write_buf, set_lengths}
use web_tunnel.PollTable.{mgmt_add_fd}
use web_tunnel.Header.{header_bytes, make_header, http_c_hand, http_c_header_len}
use web_tunnel.ToServer.{
  http_mgmt_writable, next_message, write_message, drop_message, took, http_mgmt_handshake,
  fill_shake, shake_text, http_mgmt_isshake,
}
use web_tunnel.Dispatch.{prepare_process}
use web_tunnel.Tunnel.{
  PollReason, added, change_events, callback_http, Reason, on_writeable, websocket_closed,
  callback_dumb_increment,
}
use web_tunnel.Consistent.{Core, core, At, IsConsistent, IsConsistent-At, At-IsConsistent}
use web_tunnel.Consistent.Frames.{alloc_buf-IsConsistent, mgmt_add_fd-At, mgmt_del_fd-At}
use web_tunnel.Consistent.Connections.{IsFresh}
use web_tunnel.Consistent.Packets.{state_of}
use web_tunnel.Consistent.Dispatched.{prepare_process-IsConsistent}
use web_tunnel.Consistent.Messages.{http_mgmt_prepare-IsConsistent}

fill_shake-Unfreed : (text : List ℕ) → Unfreed (fill_shake text)
unfolding fill_shake
fill_shake-Unfreed text =
    Ensures-if (ltb (length text) 512) (Ensures-ok {a = text} tt) (Ensures-fault Fault.overrun tt)

next_message-At :
    (k : Core) (xs : List ℕ) (o : Option ℕ) (m : Mgmt)
    → m.buf_toserver.list_todo ≡ xs
    → next_buf_info xs ≡ o
    → core m ≡ k
    → m.toserver ≡ true
    → At k (next_message m o)
unfolding next_message
next_message-At k [] o m e p c t = ground arith
next_message-At k (x ∷ xs) o m e p c t = ground arith

write_message-IsConsistent :
    (m : Mgmt) (n : ℤ) (b : ℕ)
    → IsConsistent m
    → m.toserver ≡ true
    → Ensures (λ r. IsConsistent (state_of r)) (write_message m n b)
unfolding write_message drop_message
write_message-IsConsistent m n b s t =
    let buf = m.bufs b in
    let m1 = drop_message b (emit (Effect.sent (slice 0 buf.len buf.mem)) m) in
    let todo = m1.buf_toserver.list_todo in
    let m2 = next_message m1 (next_buf_info todo) in
    Ensures-bind (check-Ensures (not (buf.len == 0))) λ u q. Ensures-ok {a = (m2, took n buf.len)} (
      At-IsConsistent (core m) m2 s.linked
        (next_message-At (core m) todo (next_buf_info todo) m1 refl refl refl t))

pub http_mgmt_writable-IsConsistent :
    (m : Mgmt) (n : ℤ)
    → IsConsistent m
    → Ensures (λ r. IsConsistent (state_of r)) (http_mgmt_writable m n)
unfolding http_mgmt_writable
http_mgmt_writable-IsConsistent m n s =
    let todo = m.buf_toserver.list_todo in
    let m2 = next_message m (next_buf_info todo) in
    Ensures-bind (check-Ensures m.toserver) λ u t.
      Ensures-Option m.buf_toserver.curr
        (Ensures-ok {a = (m2, false)} (
          At-IsConsistent (core m) m2 s.linked
            (next_message-At (core m) todo (next_buf_info todo) m refl refl refl t)))
        λ b. write_message-IsConsistent m n b s t

pub http_mgmt_handshake-IsConsistent :
    (m : Mgmt) → IsConsistent m → Ensures IsConsistent (http_mgmt_handshake m)
unfolding http_mgmt_handshake write_buf set_lengths
http_mgmt_handshake-IsConsistent m s = Ensures-bind (fill_shake-Unfreed (shake_text m)) λ shake z.
    let len = length shake + http_c_header_len in
    let r = alloc_buf m in
    Ensures-bind (deref-Ensures r.1) λ b e.
      let m1 = write_buf b 0 (header_bytes (make_header http_c_hand 0 len)) r.0 in
      let m2 = set_lengths b 0 len len (write_buf b http_c_header_len shake m1) in
      let n = record m2 {
        buf_toserver = record (m2.buf_toserver) {
          list_todo = b ∷ m2.buf_toserver.list_todo;
          curr = next_buf_info (b ∷ m2.buf_toserver.list_todo);
        };
        toserver = true;
      } in
      Ensures-ok {a = n} (record {
        linked = (alloc_buf-IsConsistent m s).linked;
        sends = record { runs = λ p. refl; busy = λ p q. cc; stopped = λ p. cc };
      })

on_writeable-IsConsistent :
    (n : ℤ) (m : Mgmt)
    → IsConsistent m
    → Ensures (λ r. IsConsistent (state_of r)) (on_writeable n m)
unfolding on_writeable
on_writeable-IsConsistent n m s =
    Ensures-bind
      (Ensures-if (http_mgmt_isshake m) (Ensures-ok {a = m} s)
        (http_mgmt_handshake-IsConsistent m s))
      λ m1 e. http_mgmt_writable-IsConsistent m1 n e

-- The sockets that the answers give are not 0.
abbrev pub IsFreshReason : Reason → Type 0
IsFreshReason Reason.established = Unit {0}
IsFreshReason Reason.connection_error = Unit {0}
IsFreshReason Reason.closed = Unit {0}
IsFreshReason (Reason.receive now a bytes) = IsFresh a.socket
IsFreshReason (Reason.writeable n) = Unit {0}
IsFreshReason Reason.other = Unit {0}

pub callback_dumb_increment-IsConsistent :
    (r : Reason) (m : Mgmt)
    → IsConsistent m
    → IsFreshReason r
    → Ensures (λ n. IsConsistent (state_of n)) (callback_dumb_increment r m)
unfolding callback_dumb_increment websocket_closed
callback_dumb_increment-IsConsistent Reason.established m s f =
    Ensures-ok {a = (emit Effect.write_again m, true)} s
callback_dumb_increment-IsConsistent Reason.connection_error m s f =
    Ensures-ok {a = (websocket_closed m, true)} s
callback_dumb_increment-IsConsistent Reason.closed m s f =
    Ensures-ok {a = (websocket_closed m, true)} s
callback_dumb_increment-IsConsistent (Reason.receive now a bytes) m s f =
    Ensures-bind
      (http_mgmt_prepare-IsConsistent (prepare_process now a)
        (λ n e. prepare_process-IsConsistent now a n e f) now bytes m s)
      λ r e. Ensures-ok {a = (r.0, true)} e
callback_dumb_increment-IsConsistent (Reason.writeable n) m s f = on_writeable-IsConsistent n m s
callback_dumb_increment-IsConsistent Reason.other m s f = Ensures-ok {a = (m, true)} s

added-IsConsistent : (r : Mgmt × Option ℕ) → IsConsistent r.0 → IsConsistent (state_of (added r))
added-IsConsistent (m, none) s = s
added-IsConsistent (m, some i) s = s

pub callback_http-IsConsistent :
    (r : PollReason) (m : Mgmt)
    → IsConsistent m
    → Ensures (λ n. IsConsistent (state_of n)) (callback_http r m)
unfolding callback_http change_events
callback_http-IsConsistent (PollReason.add_poll_fd fd events) m s =
    let r = mgmt_add_fd m fd events in
    Ensures-ok {a = added r} (
      added-IsConsistent r (
        At-IsConsistent (core m) r.0 s.linked
          (mgmt_add_fd-At (core m) m fd events (IsConsistent-At m s))))
callback_http-IsConsistent (PollReason.del_poll_fd fd) m s =
    Ensures-bind (mgmt_del_fd-At (core m) m fd (IsConsistent-At m s))
      λ n e. Ensures-ok {a = (n, true)} (At-IsConsistent (core m) n s.linked e)
callback_http-IsConsistent (PollReason.change_mode_poll_fd fd events) m s =
    let i = m.fd_lookup fd in
    let n = record m { pollfds = update m.pollfds i (record (m.pollfds i) { events = events }) } in
    Ensures-bind
      (Ensures-if (ltb fd m.max_fds) (Ensures-ok {a = n} s) (Ensures-fault Fault.overrun tt))
      λ n e. Ensures-ok {a = (n, true)} e
callback_http-IsConsistent PollReason.other_reason m s = Ensures-ok {a = (m, true)} s
