-- ===== src/Consistent/Rounds.antt =====
-- The rounds of the main loop, with the calls of libwebsockets.
use web_tunnel.Base.{
  Fault, fault, Ensures-again, ℕ, zero, suc, ◌+◌, ◌≡◌, List, [], ◌∷◌, Bool, true, false, Outcome,
  ok, Ensures, Ensures-ok, Ensures-bind, Ensures-if, Ensures-Option, ltb, update,
}
use web_tunnel.State.{Mgmt, no_events}
use web_tunnel.Cycle.{ServiceAnswers, is_quiet}
use web_tunnel.Tunnel.{PollReason, callback_http, Reason, callback_dumb_increment}
use web_tunnel.Tunnel.Loop.{Round, set_revents, serve, serve_each, round, session}
use web_tunnel.Consistent.{IsConsistent}
use web_tunnel.Consistent.Packets.{state_of}
use web_tunnel.Consistent.Scheduling.{http_mgmt_run_timeout-IsConsistent}
use web_tunnel.Consistent.Server.{IsFreshAccept}
use web_tunnel.Consistent.Cycle.{http_mgmt_service-IsConsistent, http_mgmt_run-IsConsistent}
use web_tunnel.Consistent.Websocket.{
  IsFreshReason, callback_dumb_increment-IsConsistent, callback_http-IsConsistent,
}

-- `pollfd->revents = 0`, for the entry `i`.
unfoldable pub clear_revents : ℕ → Mgmt → Mgmt
clear_revents i m = record m {
  pollfds = update m.pollfds i (record (m.pollfds i) { revents = no_events });
}

-- The callbacks that libwebsockets calls, one after the other, and the entries of its sockets that it
-- clears.
pub data Calls : Mgmt → Mgmt → Type 0 where
  no_call : (m : Mgmt) → Calls m m
  cleared : (i : ℕ) (m k : Mgmt) → Calls (clear_revents i m) k → Calls m k
  polling :
      (r : PollReason) (b : Bool) (m n k : Mgmt)
      → callback_http r m ≡ ok (n, b)
      → Calls n k
      → Calls m k
  websocket :
      (r : Reason) (b : Bool) (m n k : Mgmt)
      → IsFreshReason r
      → callback_dumb_increment r m ≡ ok (n, b)
      → Calls n k
      → Calls m k

cleared-IsConsistent : (i : ℕ) (m : Mgmt) → IsConsistent m → IsConsistent (clear_revents i m)
unfolding clear_revents
cleared-IsConsistent i m s = s

pub Calls-IsConsistent : (m n : Mgmt) → Calls m n → IsConsistent m → IsConsistent n
Calls-IsConsistent m n (Calls.no_call _) s = s
Calls-IsConsistent m n (Calls.cleared i _ _ c) s =
    Calls-IsConsistent (clear_revents i m) n c (cleared-IsConsistent i m s)
Calls-IsConsistent m n (Calls.polling r b _ k _ e c) s =
    Calls-IsConsistent k n c ((callback_http-IsConsistent r m s).at (k, b) e)
Calls-IsConsistent m n (Calls.websocket r b _ k _ f e c) s =
    Calls-IsConsistent k n c ((callback_dumb_increment-IsConsistent r m s f).at (k, b) e)

-- What a call of libwebsockets comes to: it returns after callbacks, or one of them fails.
pub data Serves : Mgmt → Outcome (Mgmt × Bool) → Type 0 where
  returned : (m n : Mgmt) (b : Bool) → Calls m n → Serves m (ok (n, b))
  polling_failed :
      (r : PollReason) (m n : Mgmt) (e : Fault)
      → Calls m n
      → callback_http r n ≡ fault e
      → Serves m (fault e)
  websocket_failed :
      (r : Reason) (m n : Mgmt) (e : Fault)
      → Calls m n
      → IsFreshReason r
      → callback_dumb_increment r n ≡ fault e
      → Serves m (fault e)

pub Serves-Ensures :
    (m : Mgmt) (o : Outcome (Mgmt × Bool))
    → Serves m o
    → IsConsistent m
    → Ensures (λ r. IsConsistent (state_of r)) o
Serves-Ensures m _ (Serves.returned _ n b c) s =
    Ensures-ok {a = (n, b)} (Calls-IsConsistent m n c s)
Serves-Ensures m _ (Serves.polling_failed r _ n e c h) s =
    Ensures-again (callback_http-IsConsistent r n (Calls-IsConsistent m n c s)) e h
Serves-Ensures m _ (Serves.websocket_failed r _ n e c f h) s =
    Ensures-again (callback_dumb_increment-IsConsistent r n (Calls-IsConsistent m n c s) f) e h

-- The sockets that a round's answers give are not 0.
abbrev pub IsFreshRound : Round → Type 0
IsFreshRound a = IsFreshAccept a.run.accepts × ((i : ℕ) → IsFreshAccept (a.services i).accepts)

abbrev pub AreFresh : List Round → Type 0
AreFresh [] = Unit {0}
AreFresh (a ∷ as') = IsFreshRound a × AreFresh as'

module _ (service_fd : ℕ → Mgmt → Outcome (Mgmt × Bool))
    (serves : (i : ℕ) (m : Mgmt) → Serves m (service_fd i m)) where
  serve-IsConsistent :
      (now : ℕ) (a : ServiceAnswers) (i : ℕ) (m : Mgmt)
      → IsConsistent m
      → IsFreshAccept a.accepts
      → Ensures (λ r. IsConsistent (state_of r)) (serve service_fd now a i m)
  unfolding serve
  serve-IsConsistent now a i m s f =
      let m1 = record m { last_alive_time = now } in
      let called = Serves-Ensures m1 (service_fd i m1) (serves i m1) s in
      Ensures-if (is_quiet (m.pollfds i).revents) (Ensures-ok {a = (m, true)} s) (
        Ensures-bind called λ r e.
          Ensures-if r.1
            (Ensures-bind (http_mgmt_service-IsConsistent a i r.0 e f)
              λ n h. Ensures-ok {a = (n.0, true)} h)
            (Ensures-ok {a = (r.0, false)} e))

  serve_each-IsConsistent :
      (now : ℕ) (answers : ℕ → ServiceAnswers) (left i : ℕ) (m : Mgmt)
      → IsConsistent m
      → ((j : ℕ) → IsFreshAccept (answers j).accepts)
      → Ensures (λ r. IsConsistent (state_of r)) (serve_each service_fd now answers left i m)
  unfolding serve_each
  serve_each-IsConsistent now answers zero i m s f = Ensures-ok {a = (m, true)} s
  serve_each-IsConsistent now answers (suc left) i m s f =
      Ensures-if (ltb i m.count_pollfds)
        (Ensures-bind (serve-IsConsistent now (answers i) i m s (f i)) λ r e.
          Ensures-if r.1 (serve_each-IsConsistent now answers left (i + 1) r.0 e f)
            (Ensures-ok {a = (r.0, false)} e))
        (Ensures-ok {a = (m, true)} s)

  round-IsConsistent :
      (a : Round) (m : Mgmt)
      → IsConsistent m
      → IsFreshRound a
      → Ensures (λ r. IsConsistent (state_of r)) (round service_fd a m)
  unfolding round set_revents
  round-IsConsistent a m s f = Ensures-bind (http_mgmt_run-IsConsistent a.run m s f.0) λ n e.
      Ensures-Option a.polled
        (Ensures-bind (http_mgmt_run_timeout-IsConsistent a.polled_at n e)
          λ k h. Ensures-ok {a = (k, false)} h)
        λ events.
          serve_each-IsConsistent a.polled_at a.services n.max_fds 0 (set_revents events n) e f.1

  pub session-IsConsistent :
      (rounds : List Round) (m : Mgmt)
      → IsConsistent m
      → AreFresh rounds
      → Ensures IsConsistent (session service_fd rounds m)
  unfolding session
  session-IsConsistent [] m s f = Ensures-ok {a = m} s
  session-IsConsistent (a ∷ as') m s f = Ensures-if m.was_closed (Ensures-ok {a = m} s) (
      Ensures-bind (round-IsConsistent a m s f.0)
        λ r e. Ensures-if r.1 (session-IsConsistent as' r.0 e f.1) (Ensures-ok {a = r.0} e))
