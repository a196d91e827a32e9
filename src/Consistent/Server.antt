-- ===== src/Consistent/Server.antt =====
-- The tunnel's server accepts clients, and they run.
use web_tunnel.Base.{
  ◌≤◌, ap, sym, count, arith, List, [], ◌∷◌, Fault, ℕ, ◌≡◌, ◌≢◌, refl, subst, Option, none, some,
  Bool, true, false, ok, ◌>>=◌, Ensures, Ensures-ok, Ensures-fault, Ensures-bind, Ensures-if,
}
use web_tunnel.State.{Mgmt, Effect, CallerStatus, CcrLine, ClientFunc, TcpClient, emit}
use web_tunnel.Runtime.{put_client}
use web_tunnel.Server.{
  AcceptAnswer, ServerTurn, ClientAnswers, on_server, make_client, accept_client, resume_server,
  tcp_server_callback, after_server, run_client, status_of, is_ready, run_ready_client, run_clients,
  tcp_server_run,
}
use web_tunnel.Consistent.{Core, core, At, IsConsistent, IsConsistent-At}
use web_tunnel.Consistent.Frames.{in_use-Ensures}
use web_tunnel.Consistent.Connections.{IsFresh}
use web_tunnel.Consistent.Searches.{listed_client}
use web_tunnel.Consistent.Packets.{IsKept}
use web_tunnel.Consistent.Clients.{add_client-IsConsistent, put_client-IsConsistent}
use web_tunnel.Consistent.Turns.{IsClientTurn}
use web_tunnel.Consistent.Turns.ClientReading.{tcp_client_read-IsClientTurn}
use web_tunnel.Consistent.Turns.ClientWriting.{tcp_client_write-IsClientTurn}

-- The accepted descriptor, if there is one, is not 0.
abbrev pub IsFreshAccept : AcceptAnswer → Type 0
IsFreshAccept (AcceptAnswer.accepted fd) = fd ≢ 0
IsFreshAccept AcceptAnswer.blocked = Unit {0}
IsFreshAccept AcceptAnswer.refused = Unit {0}

abbrev ServerAt : ServerTurn → Type 0
ServerAt r = IsConsistent r.1

make_client-ServerAt :
    (memory : Bool) (o : Option ℕ) (m : Mgmt)
    → IsConsistent m
    → IsFresh o
    → Ensures ServerAt (make_client memory o m)
unfolding make_client
make_client-ServerAt false none m s f =
    Ensures-ok
      {a = (CallerStatus.pending, on_server (λ t. record t { ccr_line = CcrLine.no_buf }) m)} s
make_client-ServerAt false (some fd) m s f =
    Ensures-ok
      {a = (
        CallerStatus.pending,
        on_server (λ t. record t { ccr_line = CcrLine.no_buf }) (emit (Effect.closed fd) m),
      )}
      s
make_client-ServerAt true none m s f = (Ensures-fault Fault.overrun tt)
make_client-ServerAt true (some fd) m s f =
    Ensures-bind (add_client-IsConsistent fd m s (f fd refl)) λ n e.
      Ensures-ok
        {a = (CallerStatus.pending, on_server (λ t. record t { ccr_line = CcrLine.partial }) n)} e

none-IsFresh : IsFresh none
none-IsFresh fd e = cc

accept_client-ServerAt :
    (a : AcceptAnswer) (memory : Bool) (m : Mgmt)
    → IsConsistent m
    → IsFreshAccept a
    → Ensures ServerAt (accept_client a memory m)
unfolding accept_client
accept_client-ServerAt (AcceptAnswer.accepted fd) memory m s f =
    make_client-ServerAt memory (some fd) m s λ x e. let p : fd ≡ x = cc in subst (λ y. y ≢ 0) p f
accept_client-ServerAt AcceptAnswer.blocked memory m s f =
    Ensures-ok
      {a = (CallerStatus.continue, on_server (λ t. record t { ccr_line = CcrLine.again }) m)} s
accept_client-ServerAt AcceptAnswer.refused memory m s f =
    make_client-ServerAt memory none m s none-IsFresh

resume_server-ServerAt :
    (line : CcrLine) (a : AcceptAnswer) (memory : Bool) (m : Mgmt)
    → IsConsistent m
    → IsFreshAccept a
    → Ensures ServerAt (resume_server line a memory m)
resume_server-ServerAt CcrLine.start a memory m s f = accept_client-ServerAt a memory m s f
resume_server-ServerAt CcrLine.partial a memory m s f = accept_client-ServerAt a memory m s f
resume_server-ServerAt CcrLine.again a memory m s f =
    make_client-ServerAt memory none m s none-IsFresh
resume_server-ServerAt CcrLine.no_buf a memory m s f = (Ensures-fault Fault.null_deref tt)
resume_server-ServerAt CcrLine.failed a memory m s f = accept_client-ServerAt a memory m s f

after_server-IsConsistent : (r : ServerTurn) → ServerAt r → IsConsistent (after_server r)
after_server-IsConsistent (CallerStatus.continue, m) s = s
after_server-IsConsistent (CallerStatus.pending, m) s = s
after_server-IsConsistent (CallerStatus.finish, m) s = s

-- A call of the server's coroutine, with what follows it.
pub server_turn-IsConsistent :
    (a : AcceptAnswer) (memory : Bool) (m : Mgmt)
    → IsConsistent m
    → IsFreshAccept a
    → Ensures IsConsistent (tcp_server_callback a memory m >>= λ r. ok (after_server r))
unfolding tcp_server_callback
server_turn-IsConsistent a memory m s f =
    Ensures-bind (resume_server-ServerAt m.tcp_server.ccr_line a memory m s f)
      λ r e. Ensures-ok {a = after_server r} (after_server-IsConsistent r e)

pub run_client-IsClientTurn :
    (k : Core) (f : ClientFunc) (a : ClientAnswers) (v : TcpClient) (m : Mgmt)
    → At k m
    → Ensures (IsClientTurn k v.client_fd) (run_client f a v m)
run_client-IsClientTurn k ClientFunc.tcp_client_read a v m h =
    tcp_client_read-IsClientTurn k a.now a.reads v m h
run_client-IsClientTurn k ClientFunc.tcp_client_write a v m h =
    tcp_client_write-IsClientTurn k a.writes v m h

run_ready_client-IsConsistent :
    (a : ClientAnswers) (c : ℕ) (m : Mgmt)
    → IsConsistent m
    → m.clients c ≢ none
    → Ensures (IsKept m) (run_ready_client a c m)
unfolding run_ready_client
run_ready_client-IsConsistent a c m s u =
    let k = core m in
    Ensures-bind (in_use-Ensures (m.clients c) u) λ v e.
      Ensures-if (is_ready v.status)
        (Ensures-bind (run_client-IsClientTurn k v.func_run a v m (IsConsistent-At m s)) λ t h.
          let w = record (t.self) { status = status_of t.status } in
          Ensures-ok {a = put_client c (some w) t.mgmt} (
            put_client-IsConsistent k c v w t.mgmt s.linked h.0 e h.1,
            ap (λ x. x.list_client) h.0.inner,
          ))
        (Ensures-ok {a = m} (s, refl))

run_clients-IsConsistent :
    (answers : ℕ → ClientAnswers) (cs : List ℕ) (m : Mgmt)
    → IsConsistent m
    → ((c : ℕ) → 1 ≤ count c cs → 1 ≤ count c m.tcp_server.list_client)
    → Ensures IsConsistent (run_clients answers cs m)
unfolding run_clients
run_clients-IsConsistent answers [] m s l = Ensures-ok {a = m} s
run_clients-IsConsistent answers (c ∷ cs) m s l =
    Ensures-bind
      (run_ready_client-IsConsistent (answers c) c m s (listed_client m c s (l c (ground arith))))
      λ n h.
        run_clients-IsConsistent answers cs n h.0
          λ x y. subst (λ t. 1 ≤ count x t) (sym h.1) (l x (ground arith))

pub tcp_server_run-IsConsistent :
    (answers : ℕ → ClientAnswers) (a : AcceptAnswer) (memory : Bool) (m : Mgmt)
    → IsConsistent m
    → IsFreshAccept a
    → Ensures IsConsistent (tcp_server_run answers a memory m)
unfolding tcp_server_run
tcp_server_run-IsConsistent answers a memory m s f =
    Ensures-bind (run_clients-IsConsistent answers m.tcp_server.list_client m s λ c h. h) λ n e.
      Ensures-if (is_ready n.tcp_server.status) (server_turn-IsConsistent a memory n e f)
        (Ensures-ok {a = n} e)
