-- ===== src/Cycle/Setup.antt =====
-- `http_mgmt_param_init`, `http_mgmt_init` and `http_mgmt_release_all`.
pub mod Sound
use web_tunnel.Base.{ℕ, zero, suc, Bool, false, List, [], ◌∷◌, Option, none, Outcome}
use web_tunnel.State.{
  Mgmt, Pollfd, TcpServer, CallingStatus, CcrLine, empty_buf, empty_http_buf, zero_context,
}
use web_tunnel.Prepare.{release_prepare}
use web_tunnel.Scheduler.{release_each}
use web_tunnel.Server.{tcp_server_init}

-- At the time `now`. The lists of `buf_prepare` and `buf_toserver` are left as they are.
unfoldable pub http_mgmt_param_init : ℕ → Mgmt → Mgmt
http_mgmt_param_init now m = record m {
  buf_prepare = record (m.buf_prepare) { curr = none; len = 0; total_len = 0 };
  buf_toserver = record (m.buf_toserver) { curr = none; len = 0; total_len = 0 };
  sync_prepare = false;
  toserver = false;
  shakehand = false;
  total_process = 0;
  client_id = 0;
  last_alive_time = now;
}

-- `list_add` of the objects 0 to `n - 1`, one after the other.
unfoldable pub caches : ℕ → List ℕ
caches zero = []
caches (suc n) = n ∷ caches n

abbrev pub caller_caches : ℕ
caller_caches = 256

abbrev pub httpbuf_caches : ℕ
httpbuf_caches = 256

abbrev pub zero_server : TcpServer
zero_server = record {
  ccr_line = CcrLine.start;
  list_client = [];
  client_len = 0;
  status = CallingStatus.ready;
  pfd = none;
  serv_fd = 0;
  seq = 0;
}

-- The state after `memset` and the allocations: `max_fds` is `getdtablesize`, and `table` and `lookup`
-- what `malloc` gives. `closed` is the flag of web-tunnel.c.
unfoldable pub empty_mgmt : ℕ → (ℕ → Pollfd) → (ℕ → ℕ) → Bool → Mgmt
unfolding caches
empty_mgmt max_fds table lookup closed = record {
  bufs = λ _. empty_buf;
  ctxs = λ _. zero_context;
  clients = λ _. none;
  forwards = λ _. none;
  next_client = 0;
  next_forward = 0;
  list_high = [];
  list_low = [];
  ready_len = 0;
  list_timeout = [];
  total_add = 0;
  total_process = 0;
  max_fds = max_fds;
  pollfds = table;
  fd_lookup = lookup;
  count_pollfds = 0;
  http_lookup = λ _. none;
  buf_prepare = empty_http_buf;
  sync_prepare = false;
  sync_time = 0;
  last_alive_time = 0;
  buf_toserver = empty_http_buf;
  toserver = false;
  shakehand = false;
  client_id = 0;
  username = [];
  remote_host = [];
  remote_port = 0;
  local_host = [];
  local_port = 0;
  tcp_server = zero_server;
  list_forward = [];
  len_forward = 0;
  ctx_caches = caches caller_caches;
  http_buf_caches = caches httpbuf_caches;
  was_closed = closed;
  trace = [];
}

-- `http_mgmt_init` where the allocations succeed: `socket` and `bound` are the answers for the server.
unfoldable pub http_mgmt_init :
    ℕ → (ℕ → Pollfd) → (ℕ → ℕ) → Bool → Option ℕ → Bool → Outcome (Mgmt × Bool)
unfolding empty_mgmt
http_mgmt_init max_fds table lookup closed socket bound =
    tcp_server_init socket bound (empty_mgmt max_fds table lookup closed)

-- The connections, the clients and the messages to the server stay.
unfoldable pub http_mgmt_release_all : Mgmt → Outcome Mgmt
http_mgmt_release_all m = release_each m.list_timeout (release_prepare m)
