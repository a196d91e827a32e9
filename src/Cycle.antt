-- ===== src/Cycle.antt =====
-- The main cycle's functions in test-server/http_client.c: `http_mgmt_service`, `http_mgmt_run`,
-- `http_mgmt_param_init`, `http_mgmt_init` and `http_mgmt_release_all`.
pub mod Setup
use web_tunnel.Base.{
  ℕ, ◌-◌, ◌*◌, Bool, true, false, not, ◌&&◌, ◌||◌, List, [], ◌∷◌, Option, none, some, Outcome, ok,
  ◌>>=◌, update, ltb, if◌then◌else◌,
}
use web_tunnel.State.{
  Mgmt, Events, Pollfd, Ref, HttpContext, CallingStatus, CallerStatus, CallerState, ForwardFunc,
  TcpForward, TcpClient, no_events,
}
use web_tunnel.Runtime.{
  ConnectAnswer, WriteAnswer, ReadAnswer, Turn, turn, in_use, put_ctx, put_client, put_forward,
}
use web_tunnel.HttpContext.Finish.{http_context_finish, http_context_release}
use web_tunnel.Scheduler.{Answers, http_context_execute, leave_ready}
use web_tunnel.Forward.Coroutines.{tcp_forward_connect, tcp_forward_write, tcp_forward_read}
use web_tunnel.Forward.Lifetime.{tcp_forward_release}
use web_tunnel.Client.Lifetime.{tcp_client_release}
use web_tunnel.Server.{
  AcceptAnswer, ClientAnswers, run_client, tcp_server_callback, after_server, on_server,
  tcp_server_run,
}

-- The answers of the operating system in one cycle, for the contexts and clients by their numbers.
pub record CycleAnswers : Type 0 where
  pub now : ℕ
  pub contexts : ℕ → Answers
  pub clients : ℕ → ClientAnswers
  pub accepts : AcceptAnswer
  pub memory : Bool

-- No event at all.
abbrev pub is_quiet : Events → Bool
is_quiet e = not e.poll_in && not e.poll_out && not e.poll_err && not e.poll_hup && not e.poll_other

abbrev pub reading : CallerState → Bool
reading CallerState.connect = false
reading CallerState.write = false
reading CallerState.read = true

unfoldable pub service_server : AcceptAnswer → Bool → Mgmt → Outcome Mgmt
service_server a memory m =
    tcp_server_callback a memory (on_server (λ t. record t { status = CallingStatus.ready }) m)
    >>= λ r. ok (after_server r)

-- The response that is there is sent, if the context was reading, and the context is released.
unfoldable pub context_hung_up : ℕ → Mgmt → Outcome Mgmt
context_hung_up c m =
    let m1 = leave_ready (m.ctxs c).status c m in
    let finished = http_context_finish (m1.ctxs c) m1 >>= λ r. ok (put_ctx c r.0 r.1) in
    (if reading (m1.ctxs c).state then finished else ok m1) >>= http_context_release c

abbrev pub hung_up : Events → Bool
hung_up e = e.poll_err || e.poll_hup

unfoldable pub service_http : Answers → Events → ℕ → Mgmt → Outcome Mgmt
unfolding context_hung_up
service_http a revents c m =
    let hung = context_hung_up c m in
    let run = http_context_execute a c m in if hung_up revents then hung else run

abbrev pub after_client : ℕ → Turn TcpClient → Outcome Mgmt
after_client c t = elim t.status [
  | CallerStatus.continue ↦
      ok (put_client c (some (record (t.self) { status = CallingStatus.ready })) t.mgmt)
  | CallerStatus.finish ↦ tcp_client_release c (put_client c (some t.self) t.mgmt)
  | CallerStatus.pending ↦
      ok (put_client c (some (record (t.self) { status = CallingStatus.pending })) t.mgmt)
]

unfoldable pub service_client : ClientAnswers → Events → ℕ → Mgmt → Outcome Mgmt
service_client a revents c m =
    let gone = tcp_client_release c m in
    let run = in_use (m.clients c) >>= λ v. run_client v.func_run a v m >>= after_client c in
    if hung_up revents then gone else run

abbrev pub run_forward : ForwardFunc → Answers → TcpForward → Mgmt → Outcome (Turn TcpForward)
run_forward ForwardFunc.tcp_forward_connect a v m = tcp_forward_connect a.connects v m
run_forward ForwardFunc.tcp_forward_write a v m = tcp_forward_write a.writes v m
run_forward ForwardFunc.tcp_forward_read a v m = tcp_forward_read a.reads v m

abbrev pub after_forward : ℕ → Turn TcpForward → Outcome Mgmt
after_forward f t = elim t.status [
  | CallerStatus.continue ↦
      ok (put_forward f (some (record (t.self) { status = CallingStatus.ready })) t.mgmt)
  | CallerStatus.finish ↦ tcp_forward_release f (put_forward f (some t.self) t.mgmt)
  | CallerStatus.pending ↦
      ok (put_forward f (some (record (t.self) { status = CallingStatus.pending })) t.mgmt)
]

unfoldable pub service_forward : Answers → ℕ → Mgmt → Outcome Mgmt
service_forward a f m =
    in_use (m.forwards f) >>= λ v. run_forward v.func_run a v m >>= after_forward f

-- The answers in one call: those of a context or connection, of a client, and of the server.
pub record ServiceAnswers : Type 0 where
  pub context : Answers
  pub client : ClientAnswers
  pub accepts : AcceptAnswer
  pub memory : Bool

-- The `switch` on the type of the context.
unfoldable pub dispatch : ServiceAnswers → Events → Ref → Mgmt → Outcome Mgmt
unfolding service_server service_http service_client service_forward
dispatch a revents Ref.server m = service_server a.accepts a.memory m
dispatch a revents (Ref.http c) m = service_http a.context revents c m
dispatch a revents (Ref.client c) m = service_client a.client revents c m
dispatch a revents (Ref.forward f) m = service_forward a.context f m

-- `pfd->revents = 0`, for the entry that the pointer still points to.
abbrev pub clear_revents : ℕ → Mgmt → Mgmt
clear_revents i m = record m {
  pollfds = update m.pollfds i (record (m.pollfds i) { revents = no_events });
}

-- `http_mgmt_service` for a pointer to the entry `i`. The Boolean is that 0 is returned.
unfoldable pub http_mgmt_service : ServiceAnswers → ℕ → Mgmt → Outcome (Mgmt × Bool)
unfolding dispatch
http_mgmt_service a i m =
    let pfd = m.pollfds i in
    let served = elim (m.http_lookup pfd.fd) as (λ _. Outcome (Mgmt × Bool)) [
      | none ↦ ok (m, true)
      | some ref ↦ dispatch a pfd.revents ref m >>= λ n. ok (clear_revents i n, true)
    ] in
    if is_quiet pfd.revents then ok (m, false) else served

-- The contexts that were ready when the cycle began, each once.
unfoldable pub execute_each : (ℕ → Answers) → List ℕ → Mgmt → Outcome Mgmt
execute_each answers [] m = ok m
execute_each answers (c ∷ cs) m = http_context_execute (answers c) c m >>= execute_each answers cs

-- `HTTP_TIMEOUT_SECS`.
abbrev pub http_timeout_secs : ℕ
http_timeout_secs = 8

-- A packet that is not complete after this time is given up.
unfoldable pub give_up_packet : ℕ → Mgmt → Mgmt
give_up_packet now m =
    if m.sync_prepare && ltb http_timeout_secs (now - m.sync_time)
    then record m { sync_prepare = false }
    else m

-- `websocket_closed` is called where nothing has come for long.
unfoldable pub check_alive : ℕ → Mgmt → Mgmt
check_alive now m =
    if ltb (4 * http_timeout_secs) (now - m.last_alive_time)
    then record m { was_closed = true }
    else m

unfoldable pub http_mgmt_run : CycleAnswers → Mgmt → Outcome Mgmt
unfolding execute_each give_up_packet check_alive
http_mgmt_run a m =
    execute_each a.contexts m.list_high (record m { list_high = []; list_low = [] })
    >>= execute_each a.contexts m.list_low
    >>= tcp_server_run a.clients a.accepts a.memory
    >>= λ n. ok (check_alive a.now (give_up_packet a.now n))
