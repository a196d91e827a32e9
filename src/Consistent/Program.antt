-- ===== src/Consistent/Program.antt =====
-- The whole program: from `http_mgmt_init` through rounds of the main loop, calls of libwebsockets, and new
-- connections to the server.
use web_tunnel.Base.{
  ◌≢◌, ◌<◌, length, fault, use_after_free, ℕ, ◌≡◌, refl, List, [], Option, some, Bool, true, false,
  Outcome, ok, Ensures, Ensures-ok, Ensures-bind, Ensures-if, Ensures-Option,
}
use web_tunnel.State.{Mgmt, Pollfd, Ref, CallingStatus, listening}
use web_tunnel.PollTable.{mgmt_add_fd}
use web_tunnel.Prepare.{release_prepare}
use web_tunnel.Server.{on_server, tcp_server_init}
use web_tunnel.Cycle.Setup.{http_mgmt_param_init, empty_mgmt, http_mgmt_init, http_mgmt_release_all}
use web_tunnel.Tunnel.Loop.{Round, session, reset, reconnect}
use web_tunnel.Consistent.{core, IsConsistent, IsConsistent-At}
use web_tunnel.Consistent.Frames.{mgmt_add_fd-At}
use web_tunnel.Consistent.Contexts.{other_ref-IsConsistent}
use web_tunnel.Consistent.Packets.{state_of}
use web_tunnel.Consistent.Scheduling.{release_each-IsConsistent}
use web_tunnel.Tunnel.{PollReason, callback_http, Reason, callback_dumb_increment}
use web_tunnel.Consistent.Websocket.{
  IsFreshReason, callback_dumb_increment-IsConsistent, callback_http-IsConsistent,
}
use web_tunnel.Consistent.Rounds.{
  Serves, Serves-Ensures, Calls, Calls-IsConsistent, AreFresh, session-IsConsistent,
}

param_init-IsConsistent :
    (now : ℕ) (m : Mgmt) → IsConsistent m → IsConsistent (http_mgmt_param_init now m)
unfolding http_mgmt_param_init
param_init-IsConsistent now m s = record {
  linked = s.linked;
  sends = record { runs = λ e. cc; busy = λ e. cc; stopped = λ e. refl };
}

reset-IsConsistent : (now : ℕ) (m : Mgmt) → IsConsistent m → Ensures IsConsistent (reset now m)
unfolding reset http_mgmt_release_all release_prepare
reset-IsConsistent now m s =
    Ensures-bind (release_each-IsConsistent m.list_timeout (release_prepare m) s) λ n e.
      let k = record n { was_closed = false } in
      Ensures-ok {a = http_mgmt_param_init now k} (param_init-IsConsistent now k e)

-- What the program uses of libwebsockets: the calls of `libwebsocket_service_fd`, of
-- `libwebsocket_context_destroy`, and of `libwebsocket_create_context` with `libwebsocket_client_connect`.
pub record Library : Type 0 where
  pub service_fd : ℕ → Mgmt → Outcome (Mgmt × Bool)
  pub destroy : Mgmt → Outcome (Mgmt × Bool)
  pub connect : Mgmt → Outcome (Mgmt × Bool)

-- They change the program's state only by its callbacks, and by clearing `revents`, and fail only where a
-- callback does.
pub record AreServed (l : Library) : Type 0 where
  pub service_fd : (i : ℕ) (m : Mgmt) → Serves m (l.service_fd i m)
  pub destroy : (m : Mgmt) → Serves m (l.destroy m)
  pub connect : (m : Mgmt) → Serves m (l.connect m)

reconnect-IsConsistent :
    (l : Library)
    → AreServed l
    → (now : ℕ) (m : Mgmt) → IsConsistent m
    → Ensures (λ r. IsConsistent (state_of r)) (reconnect l.destroy l.connect now m)
unfolding reconnect
reconnect-IsConsistent l h now m s =
    Ensures-bind (Serves-Ensures m (l.destroy m) (h.destroy m) s) λ a e.
      Ensures-bind (reset-IsConsistent now a.0 e)
        λ n f. Serves-Ensures n (l.connect n) (h.connect n) f

-- The names and ports that `main` takes from the command line.
unfoldable pub named : List ℕ → List ℕ → List ℕ → ℕ → ℕ → Mgmt → Mgmt
named username local_host remote_host local_port remote_port m = record m {
  username = username;
  local_host = local_host;
  remote_host = remote_host;
  local_port = local_port;
  remote_port = remote_port;
}

named-IsConsistent :
    (u l r : List ℕ) (lp rp : ℕ) (m : Mgmt) → IsConsistent m → IsConsistent (named u l r lp rp m)
unfolding named
named-IsConsistent u l r lp rp m s = s

empty-IsConsistent :
    (max_fds : ℕ) (table : ℕ → Pollfd) (lookup : ℕ → ℕ) (closed : Bool)
    → IsConsistent (empty_mgmt max_fds table lookup closed)
unfolding empty_mgmt
empty-IsConsistent max_fds table lookup closed = record {
  sends = record { runs = λ e. cc; busy = λ e. cc; stopped = λ e. refl };
  linked = record {
    clients = record { counted = refl; listed = λ c. refl; fresh = λ c h. refl; fds = λ c v h. cc };
    forwards = record {
      counted = refl;
      listed = λ c. refl;
      fresh = λ c h. refl;
      fds = λ c v h. cc;
    };
    client_refs = λ fd c h. absurd (cc);
    forward_refs = λ fd c h. absurd (cc);
  };
}

init-IsConsistent :
    (max_fds : ℕ) (table : ℕ → Pollfd) (lookup : ℕ → ℕ) (closed : Bool) (socket : Option ℕ)
    (bound : Bool)
    → Ensures
        (λ r. IsConsistent (state_of r))
        (http_mgmt_init max_fds table lookup closed socket bound)
unfolding http_mgmt_init tcp_server_init
init-IsConsistent max_fds table lookup closed socket bound =
    let m1 =
      on_server (λ t. record t { list_client = []; status = CallingStatus.pending })
        (empty_mgmt max_fds table lookup closed) in
    let s = empty-IsConsistent max_fds table lookup closed in
    Ensures-Option socket (Ensures-ok {a = (m1, false)} s) λ fd.
      let m2 = on_server (λ t. record t { serv_fd = fd }) m1 in
      let r = mgmt_add_fd m2 fd listening in
      let m3 = on_server (λ t. record t { pfd = r.1 }) r.0 in
      let k = core m2 in
      Ensures-if bound
        (Ensures-bind
          (other_ref-IsConsistent k fd (some Ref.server) m3 s.linked
            (mgmt_add_fd-At k m2 fd listening (IsConsistent-At m2 s)) (λ c e. cc) λ f e. cc)
          λ n e. Ensures-ok {a = (n, true)} e)
        (Ensures-ok {a = (m1, false)} s)

module _ (lib : Library) where
  -- The states that the program reaches.
  pub data Reaches : Mgmt → Type 0 where
    starts :
        (max_fds : ℕ) (table : ℕ → Pollfd) (lookup : ℕ → ℕ) (closed : Bool) (socket : Option ℕ)
        (bound : Bool) (username local_host remote_host : List ℕ) (local_port remote_port : ℕ)
        (now : ℕ) (m : Mgmt)
        → length username < 128
        → length local_host < 128
        → length remote_host < 128
        → http_mgmt_init max_fds table lookup closed socket bound ≡ ok (m, true)
        → Reaches (
            http_mgmt_param_init now
              (named username local_host remote_host local_port remote_port m))
    calls : (m n : Mgmt) → Reaches m → Calls m n → Reaches n
    rounds :
        (as' : List Round) (m n : Mgmt)
        → Reaches m
        → AreFresh as'
        → session lib.service_fd as' m ≡ ok n
        → Reaches n
    reconnects :
        (now : ℕ) (m n : Mgmt) (b : Bool)
        → Reaches m
        → reconnect lib.destroy lib.connect now m ≡ ok (n, b)
        → Reaches n

  -- In every state that the program reaches, from its start through rounds of the main loop, callbacks of
  -- libwebsockets and ways to a new websocket, each client and each connection in use is on its list once,
  -- and nothing else is; the lists are counted; a descriptor that leads to a client or connection leads to
  -- one in use, whose socket it is, and which is not 0; while the writer to the server runs, `curr` is the
  -- first message, and there is one; while it does not, `curr` is NULL. This is if libwebsockets changes
  -- the state and fails only by the callbacks that it calls, and by clearing `revents`, the sockets that
  -- the operating system gives are not 0, and the names of the command line fit into their arrays. A run
  -- in which a buffer is put on a list while it stands on another, or a length becomes negative, is
  -- followed up to there only.
  pub Reaches-IsConsistent : AreServed lib → (m : Mgmt) → Reaches m → IsConsistent m
  Reaches-IsConsistent h m
        (Reaches.starts max_fds table lookup closed socket bound u l r lp rp now k _ _ _ e) =
      param_init-IsConsistent now (named u l r lp rp k) (
        named-IsConsistent u l r lp rp k
          ((init-IsConsistent max_fds table lookup closed socket bound).at (k, true) e))
  Reaches-IsConsistent h m (Reaches.calls k _ r c) =
      Calls-IsConsistent k m c (Reaches-IsConsistent h k r)
  Reaches-IsConsistent h m (Reaches.rounds as' k _ r f e) =
      (session-IsConsistent lib.service_fd h.service_fd as' k (Reaches-IsConsistent h k r) f).at m e
  Reaches-IsConsistent h m (Reaches.reconnects now k _ b r e) =
      (reconnect-IsConsistent lib h now k (Reaches-IsConsistent h k r)).at (m, b) e

  -- From every state that the program reaches, no pointer to a released client or connection is followed:
  -- not in rounds of the main loop, nor in a callback, nor on the way to a new websocket. This is if
  -- libwebsockets changes the state and fails only by the callbacks that it calls, and by clearing
  -- `revents`, the sockets that the operating system gives are not 0, and the names of the command line
  -- fit into their arrays. A run in which a buffer is put on a list while it stands on another, or a
  -- length becomes negative, is followed up to there only.
  pub Reaches-never_freed :
      AreServed lib
      → (m : Mgmt) → Reaches m
      → (as' : List Round) (r : Reason) (p : PollReason) (now : ℕ) → AreFresh as'
      → IsFreshReason r
      → (session lib.service_fd as' m ≢ fault use_after_free)
        × (callback_dumb_increment r m ≢ fault use_after_free)
        × (callback_http p m ≢ fault use_after_free)
        × (reconnect lib.destroy lib.connect now m ≢ fault use_after_free)
  Reaches-never_freed h m e as' r p now f g =
      let s = Reaches-IsConsistent h m e in
      (
        (session-IsConsistent lib.service_fd h.service_fd as' m s f).never_freed,
        (callback_dumb_increment-IsConsistent r m s g).never_freed,
        (callback_http-IsConsistent p m s).never_freed,
        (reconnect-IsConsistent lib h now m s).never_freed,
      )
