-- ===== src/Server.antt =====
-- The local server of the tunnel in test-server/http_client.c: `tcp_server_callback`, `tcp_server_init` and
-- `tcp_server_run`.
use web_tunnel.Base.{
  ℕ, ◌+◌, Bool, true, false, List, [], ◌∷◌, Option, none, some, Outcome, ok, fault, null_deref,
  overrun, ◌>>=◌, if◌then◌else◌,
}
use web_tunnel.State.{
  Mgmt, Ref, Effect, CallingStatus, CallerStatus, CcrLine, ClientFunc, TcpClient, TcpServer,
  zero_client, emit, listening,
}
use web_tunnel.PollTable.{mgmt_add_fd}
use web_tunnel.Runtime.{WriteAnswer, ReadAnswer, Turn, set_lookup, in_use, put_client}
use web_tunnel.Client.Reading.{tcp_client_read}
use web_tunnel.Client.Writing.{tcp_client_write}

-- `accept`: a descriptor, -1 with EINTR or EAGAIN, or -1 with another error.
pub data AcceptAnswer : Type 0 where
  accepted : ℕ → AcceptAnswer
  blocked refused : AcceptAnswer

-- The rest of the state is that of the server in it, so a turn has no context of its own.
abbrev pub ServerTurn : Type 0
ServerTurn = CallerStatus × Mgmt

abbrev pub on_server : (TcpServer → TcpServer) → Mgmt → Mgmt
on_server f m = record m { tcp_server = f m.tcp_server }

abbrev returned : CallerStatus → CcrLine → Mgmt → Outcome ServerTurn
returned s line m = ok (s, on_server (λ t. record t { ccr_line = line }) m)

-- The client's object, with the socket `fd`.
unfoldable pub add_client : ℕ → Mgmt → Outcome Mgmt
add_client fd m =
    let c = m.next_client in
    let m1 =
      on_server (λ t. record t { list_client = c ∷ t.list_client; client_len = t.client_len + 1 })
        (record m { next_client = c + 1 }) in
    let r = mgmt_add_fd m1 fd listening in
    set_lookup fd (some (Ref.client c)) (
      put_client c
        (some (record zero_client {
          client_fd = fd;
          func_run = ClientFunc.tcp_client_read;
          status = CallingStatus.pending;
          idle = true;
          pfd = r.1;
        }))
        r.0)

-- The client is made where `calloc` gives memory. For -1 the table is written before its start.
unfoldable pub make_client : Bool → Option ℕ → Mgmt → Outcome ServerTurn
unfolding add_client
make_client false none m = returned CallerStatus.pending CcrLine.no_buf m
make_client false (some fd) m =
    returned CallerStatus.pending CcrLine.no_buf (emit (Effect.closed fd) m)
make_client true none m = fault overrun
make_client true (some fd) m =
    add_client fd m >>= λ n. returned CallerStatus.pending CcrLine.partial n

-- The head of the loop. An error other than EINTR and EAGAIN is passed over.
unfoldable pub accept_client : AcceptAnswer → Bool → Mgmt → Outcome ServerTurn
unfolding make_client
accept_client (AcceptAnswer.accepted fd) memory m = make_client memory (some fd) m
accept_client AcceptAnswer.blocked memory m = returned CallerStatus.continue CcrLine.again m
accept_client AcceptAnswer.refused memory m = make_client memory none m

-- Behind the `ccrReturn` of EAGAIN the coroutine goes on with `clientfd` being -1 again, and behind that
-- of a failed `calloc` with `tcp_client` being NULL.
abbrev pub resume_server : CcrLine → AcceptAnswer → Bool → Mgmt → Outcome ServerTurn
resume_server CcrLine.start a memory m = accept_client a memory m
resume_server CcrLine.partial a memory m = accept_client a memory m
resume_server CcrLine.again a memory m = make_client memory none m
resume_server CcrLine.no_buf a memory m = fault null_deref
resume_server CcrLine.failed a memory m = accept_client a memory m

unfoldable pub tcp_server_callback : AcceptAnswer → Bool → Mgmt → Outcome ServerTurn
unfolding accept_client make_client
tcp_server_callback a memory m = resume_server m.tcp_server.ccr_line a memory m

-- What follows the server's turn.
abbrev pub after_server : ServerTurn → Mgmt
after_server (CallerStatus.continue, m) =
    on_server (λ t. record t { status = CallingStatus.ready }) m
after_server (CallerStatus.pending, m) =
    on_server (λ t. record t { status = CallingStatus.pending }) m
after_server (CallerStatus.finish, m) =
    on_server (λ t. record t { status = CallingStatus.pending }) m

-- `tcp_server_init`: `socket` is the descriptor, if there is one, and `bound` is whether `bind` succeeds.
-- The Boolean is that 0 is returned.
unfoldable pub tcp_server_init : Option ℕ → Bool → Mgmt → Outcome (Mgmt × Bool)
tcp_server_init socket bound m =
    let m1 = on_server (λ t. record t { list_client = []; status = CallingStatus.pending }) m in
    let open_at = λ (fd : ℕ).
      (let r = mgmt_add_fd (on_server (λ t. record t { serv_fd = fd }) m1) fd listening in
        set_lookup fd (some Ref.server) (on_server (λ t. record t { pfd = r.1 }) r.0) >>= λ n.
        ok (n, true)) in
    elim socket as (λ _. Outcome (Mgmt × Bool)) [
      | none ↦ ok (m1, false)
      | some fd ↦ if bound then open_at fd else ok (m1, false)
    ]

-- The answers of the operating system in a client's turn.
pub record ClientAnswers : Type 0 where
  pub now : ℕ
  pub reads : ReadAnswer
  pub writes : List (ℕ × WriteAnswer)

abbrev pub run_client : ClientFunc → ClientAnswers → TcpClient → Mgmt → Outcome (Turn TcpClient)
run_client ClientFunc.tcp_client_read a v m = tcp_client_read a.now a.reads v m
run_client ClientFunc.tcp_client_write a v m = tcp_client_write a.writes v m

-- The status after a turn; a client that has finished is not released here.
abbrev pub status_of : CallerStatus → CallingStatus
status_of CallerStatus.continue = CallingStatus.ready
status_of CallerStatus.pending = CallingStatus.pending
status_of CallerStatus.finish = CallingStatus.pending

abbrev pub is_ready : CallingStatus → Bool
is_ready CallingStatus.ready = true
is_ready CallingStatus.pending = false
is_ready CallingStatus.finish = false

unfoldable pub run_ready_client : ClientAnswers → ℕ → Mgmt → Outcome Mgmt
run_ready_client a c m = in_use (m.clients c) >>= λ v.
    let run = run_client v.func_run a v m >>= λ t.
    ok (put_client c (some (record (t.self) { status = status_of t.status })) t.mgmt) in
    if is_ready v.status then run else ok m

-- The loop over the list of clients, which no turn changes.
unfoldable pub run_clients : (ℕ → ClientAnswers) → List ℕ → Mgmt → Outcome Mgmt
unfolding run_ready_client
run_clients answers [] m = ok m
run_clients answers (c ∷ cs) m = run_ready_client (answers c) c m >>= run_clients answers cs

unfoldable pub tcp_server_run : (ℕ → ClientAnswers) → AcceptAnswer → Bool → Mgmt → Outcome Mgmt
unfolding run_clients tcp_server_callback
tcp_server_run answers a memory m = run_clients answers m.tcp_server.list_client m >>= λ n.
    let run = tcp_server_callback a memory n >>= λ r. ok (after_server r) in
    if is_ready n.tcp_server.status then run else ok n
