-- ===== src/Consistent/Cycle.antt =====
-- A polled descriptor is served, and the main cycle runs.
use web_tunnel.Base.{
  Ensures-cases, ◌≢◌, ◌≡◌, ℕ, none, some, Option, update, update_self, ◌&&◌, List, [], ◌∷◌, Bool,
  true, false, Ensures, Ensures-ok, Ensures-bind, Ensures-if, ltb, ◌*◌, ◌-◌, if◌then◌else◌,
}
use web_tunnel.State.{
  Mgmt, Events, Ref, CallingStatus, CallerStatus, ForwardFunc, TcpClient, TcpForward,
}
use web_tunnel.Runtime.{put_ctx, put_client, put_forward}
use web_tunnel.Scheduler.{Answers, leave_ready}
use web_tunnel.Server.{AcceptAnswer, ClientAnswers, on_server}
use web_tunnel.Cycle.{
  CycleAnswers, is_quiet, reading, service_server, context_hung_up, hung_up, service_http,
  after_client, service_client, run_forward, after_forward, service_forward, ServiceAnswers,
  dispatch, clear_revents, http_mgmt_service, execute_each, http_timeout_secs, give_up_packet,
  check_alive, http_mgmt_run,
}
use web_tunnel.Consistent.{
  Core, core, At, IsConsistent, IsConsistent-At, At-IsConsistent, IsLinked, fd_of_client,
  fd_of_forward,
}
use web_tunnel.Consistent.Frames.{in_use-Ensures}
use web_tunnel.Consistent.Connections.{put_forward-IsConsistent, tcp_forward_release-IsConsistent}
use web_tunnel.Consistent.Searches.{Holds-used}
use web_tunnel.Consistent.Clients.{put_client-IsConsistent, tcp_client_release-IsConsistent}
use web_tunnel.Consistent.Contexts.{http_context_release-IsConsistent}
use web_tunnel.Consistent.Packets.{state_of}
use web_tunnel.Consistent.Scheduling.{http_context_execute-IsConsistent, leave_ready-IsConsistent}
use web_tunnel.Consistent.Server.{
  IsFreshAccept, server_turn-IsConsistent, run_client-IsClientTurn, tcp_server_run-IsConsistent,
}
use web_tunnel.Consistent.Turns.{IsForwardTurn}
use web_tunnel.Consistent.Turns.Writing.{
  tcp_forward_connect-IsForwardTurn, tcp_forward_write-IsForwardTurn,
}
use web_tunnel.Consistent.Turns.Reading.{tcp_forward_read-IsForwardTurn}
use web_tunnel.Consistent.Turns.ContextReading.{http_context_finish-ContextAt}

service_server-IsConsistent :
    (a : AcceptAnswer) (memory : Bool) (m : Mgmt)
    → IsConsistent m
    → IsFreshAccept a
    → Ensures IsConsistent (service_server a memory m)
unfolding service_server
service_server-IsConsistent a memory m s f =
    server_turn-IsConsistent a memory (on_server (λ t. record t { status = CallingStatus.ready }) m)
      s f

context_hung_up-IsConsistent :
    (c : ℕ) (m : Mgmt) → IsConsistent m → Ensures IsConsistent (context_hung_up c m)
unfolding context_hung_up
context_hung_up-IsConsistent c m s =
    let m1 = leave_ready (m.ctxs c).status c m in
    let e = leave_ready-IsConsistent (m.ctxs c).status c m s in
    Ensures-bind
      (Ensures-if (reading (m1.ctxs c).state)
        (Ensures-bind
          (http_context_finish-ContextAt (core m1) (m1.ctxs c) m1 (IsConsistent-At m1 e))
          λ r h. Ensures-ok {a = put_ctx c r.0 r.1} (At-IsConsistent (core m1) r.1 e.linked h))
        (Ensures-ok {a = m1} e))
      λ n h. http_context_release-IsConsistent c n h

service_http-IsConsistent :
    (a : Answers) (revents : Events) (c : ℕ) (m : Mgmt)
    → IsConsistent m
    → Ensures IsConsistent (service_http a revents c m)
unfolding service_http
service_http-IsConsistent a revents c m s =
    Ensures-if (hung_up revents) (context_hung_up-IsConsistent c m s)
      (http_context_execute-IsConsistent a c m s)

put-used :
    {A : Type 0} (objects : ℕ → Option A) (c : ℕ) (w : A) → update objects c (some w) c ≢ none
put-used objects c w e = let p = update_self objects c (some w) in cc

after_client-IsConsistent :
    (k : Core) (c : ℕ) (v : TcpClient) (t : CallerStatus) (w : TcpClient) (m : Mgmt)
    → IsLinked k
    → At k m
    → k.clients c ≡ some v
    → w.client_fd ≡ v.client_fd
    → Ensures IsConsistent (after_client c (record { status = t; self = w; mgmt = m }))
after_client-IsConsistent k c v CallerStatus.continue w m l h e p =
    let u = record w { status = CallingStatus.ready } in
    Ensures-ok {a = put_client c (some u) m} (put_client-IsConsistent k c v u m l h e p)
after_client-IsConsistent k c v CallerStatus.finish w m l h e p =
    tcp_client_release-IsConsistent c (put_client c (some w) m)
      (put_client-IsConsistent k c v w m l h e p) (put-used m.clients c w)
after_client-IsConsistent k c v CallerStatus.pending w m l h e p =
    let u = record w { status = CallingStatus.pending } in
    Ensures-ok {a = put_client c (some u) m} (put_client-IsConsistent k c v u m l h e p)

service_client-IsConsistent :
    (a : ClientAnswers) (revents : Events) (c : ℕ) (m : Mgmt)
    → IsConsistent m
    → m.clients c ≢ none
    → Ensures IsConsistent (service_client a revents c m)
unfolding service_client
service_client-IsConsistent a revents c m s u =
    let k = core m in
    Ensures-if (hung_up revents) (tcp_client_release-IsConsistent c m s u) (
      Ensures-bind (in_use-Ensures (m.clients c) u) λ v e.
        Ensures-bind (run_client-IsClientTurn k v.func_run a v m (IsConsistent-At m s))
          λ t h. after_client-IsConsistent k c v t.status t.self t.mgmt s.linked h.0 e h.1)

run_forward-IsForwardTurn :
    (k : Core) (f : ForwardFunc) (a : Answers) (v : TcpForward) (m : Mgmt)
    → At k m
    → Ensures (IsForwardTurn k v.fwd_fd) (run_forward f a v m)
run_forward-IsForwardTurn k ForwardFunc.tcp_forward_connect a v m h =
    tcp_forward_connect-IsForwardTurn k a.connects v m h
run_forward-IsForwardTurn k ForwardFunc.tcp_forward_write a v m h =
    tcp_forward_write-IsForwardTurn k a.writes v m h
run_forward-IsForwardTurn k ForwardFunc.tcp_forward_read a v m h =
    tcp_forward_read-IsForwardTurn k a.reads v m h

after_forward-IsConsistent :
    (k : Core) (f : ℕ) (v : TcpForward) (t : CallerStatus) (w : TcpForward) (m : Mgmt)
    → IsLinked k
    → At k m
    → k.forwards f ≡ some v
    → w.fwd_fd ≡ v.fwd_fd
    → Ensures IsConsistent (after_forward f (record { status = t; self = w; mgmt = m }))
after_forward-IsConsistent k f v CallerStatus.continue w m l h e p =
    let u = record w { status = CallingStatus.ready } in
    Ensures-ok {a = put_forward f (some u) m} (put_forward-IsConsistent k f v u m l h e p)
after_forward-IsConsistent k f v CallerStatus.finish w m l h e p =
    tcp_forward_release-IsConsistent f (put_forward f (some w) m)
      (put_forward-IsConsistent k f v w m l h e p) (put-used m.forwards f w)
after_forward-IsConsistent k f v CallerStatus.pending w m l h e p =
    let u = record w { status = CallingStatus.pending } in
    Ensures-ok {a = put_forward f (some u) m} (put_forward-IsConsistent k f v u m l h e p)

service_forward-IsConsistent :
    (a : Answers) (f : ℕ) (m : Mgmt)
    → IsConsistent m
    → m.forwards f ≢ none
    → Ensures IsConsistent (service_forward a f m)
unfolding service_forward
service_forward-IsConsistent a f m s u =
    let k = core m in
    Ensures-bind (in_use-Ensures (m.forwards f) u) λ v e.
      Ensures-bind (run_forward-IsForwardTurn k v.func_run a v m (IsConsistent-At m s))
        λ t h. after_forward-IsConsistent k f v t.status t.self t.mgmt s.linked h.0 e h.1

dispatch-IsConsistent :
    (a : ServiceAnswers) (revents : Events) (r : Ref) (fd : ℕ) (m : Mgmt)
    → IsConsistent m
    → IsFreshAccept a.accepts
    → m.http_lookup fd ≡ some r
    → Ensures IsConsistent (dispatch a revents r m)
unfolding dispatch
dispatch-IsConsistent a revents Ref.server fd m s f e =
    service_server-IsConsistent a.accepts a.memory m s f
dispatch-IsConsistent a revents (Ref.http c) fd m s f e =
    service_http-IsConsistent a.context revents c m s
dispatch-IsConsistent a revents (Ref.client c) fd m s f e =
    service_client-IsConsistent a.client revents c m s
      (Holds-used fd_of_client m.clients c fd (s.linked.client_refs fd c e))
dispatch-IsConsistent a revents (Ref.forward g) fd m s f e =
    service_forward-IsConsistent a.context g m s
      (Holds-used fd_of_forward m.forwards g fd (s.linked.forward_refs fd g e))

pub http_mgmt_service-IsConsistent :
    (a : ServiceAnswers) (i : ℕ) (m : Mgmt)
    → IsConsistent m
    → IsFreshAccept a.accepts
    → Ensures (λ r. IsConsistent (state_of r)) (http_mgmt_service a i m)
unfolding http_mgmt_service
http_mgmt_service-IsConsistent a i m s f =
    let pfd = m.pollfds i in
    Ensures-if (is_quiet pfd.revents) (Ensures-ok {a = (m, false)} s) (
      Ensures-cases (m.http_lookup pfd.fd) (Ensures-ok {a = (m, true)} s) λ ref h.
        Ensures-bind (dispatch-IsConsistent a pfd.revents ref pfd.fd m s f h)
          λ n e. Ensures-ok {a = (clear_revents i n, true)} e)

execute_each-IsConsistent :
    (answers : ℕ → Answers) (cs : List ℕ) (m : Mgmt)
    → IsConsistent m
    → Ensures IsConsistent (execute_each answers cs m)
unfolding execute_each
execute_each-IsConsistent answers [] m s = Ensures-ok {a = m} s
execute_each-IsConsistent answers (c ∷ cs) m s =
    Ensures-bind (http_context_execute-IsConsistent (answers c) c m s)
      λ n e. execute_each-IsConsistent answers cs n e

give_up_packet-IsConsistent :
    (now : ℕ) (m : Mgmt) → IsConsistent m → IsConsistent (give_up_packet now m)
unfolding give_up_packet
give_up_packet-IsConsistent now m s =
    by_test (m.sync_prepare && ltb http_timeout_secs (now - m.sync_time))
  where
    by_test : (b : Bool) → IsConsistent (if b then record m { sync_prepare = false } else m)
    by_test true = s
    by_test false = s

check_alive-IsConsistent : (now : ℕ) (m : Mgmt) → IsConsistent m → IsConsistent (check_alive now m)
unfolding check_alive
check_alive-IsConsistent now m s = by_test (ltb (4 * http_timeout_secs) (now - m.last_alive_time))
  where
    by_test : (b : Bool) → IsConsistent (if b then record m { was_closed = true } else m)
    by_test true = s
    by_test false = s

pub http_mgmt_run-IsConsistent :
    (a : CycleAnswers) (m : Mgmt)
    → IsConsistent m
    → IsFreshAccept a.accepts
    → Ensures IsConsistent (http_mgmt_run a m)
unfolding http_mgmt_run
http_mgmt_run-IsConsistent a m s f =
    Ensures-bind
      (Ensures-bind
        (Ensures-bind
          (execute_each-IsConsistent a.contexts m.list_high
            (record m { list_high = []; list_low = [] }) s)
          λ n e. execute_each-IsConsistent a.contexts m.list_low n e)
        λ n e. tcp_server_run-IsConsistent a.clients a.accepts a.memory n e f)
      λ n e. Ensures-ok {a = check_alive a.now (give_up_packet a.now n)} (
        check_alive-IsConsistent a.now (give_up_packet a.now n)
          (give_up_packet-IsConsistent a.now n e))
