-- ===== src/Examples/Fixtures.antt =====
-- A state of the program for the examples: four free buffers, two sockets of HTTP contexts and the
-- websocket's in the table.
use web_tunnel.Base.{ℕ, zero, suc, true, false, [], ◌∷◌, none, some, ◌==◌, if◌then◌else◌}
use web_tunnel.State.{
  Mgmt, Pollfd, Ref, HttpContext, TcpServer, CallingStatus, CcrLine, empty_buf, empty_http_buf,
  no_events, listening, zero_context,
}

abbrev no_server : TcpServer
no_server = record {
  ccr_line = CcrLine.start;
  list_client = [];
  client_len = 0;
  status = CallingStatus.ready;
  pfd = none;
  serv_fd = 0;
  seq = 0;
}

-- The contexts 0 and 1 time out at 10 and 20; 0 has the socket 5.
abbrev contexts : ℕ → HttpContext
contexts zero = record zero_context {
  timeout = 10;
  sockfd = some 5;
  status = CallingStatus.pending;
}
contexts (suc n) = record zero_context { timeout = 20; status = CallingStatus.pending }

-- The entries 0 and 1 are those of the descriptors 3 and 5.
abbrev entries : ℕ → Pollfd
entries zero = record { fd = 3; events = listening; revents = no_events }
entries (suc n) = record { fd = 5; events = listening; revents = no_events }

abbrev pub idle_state : Mgmt
idle_state = record {
  bufs = λ _. empty_buf;
  ctxs = contexts;
  clients = λ _. none;
  forwards = λ _. none;
  next_client = 0;
  next_forward = 0;
  list_high = [];
  list_low = [];
  ready_len = 0;
  list_timeout = 0 ∷ 1 ∷ [];
  total_add = 2;
  total_process = 0;
  max_fds = 16;
  pollfds = entries;
  fd_lookup = λ fd. if fd == 5 then 1 else 0;
  count_pollfds = 2;
  http_lookup = λ fd. if fd == 5 then some (Ref.http 0) else none;
  buf_prepare = empty_http_buf;
  sync_prepare = false;
  sync_time = 0;
  last_alive_time = 0;
  buf_toserver = empty_http_buf;
  toserver = false;
  shakehand = true;
  client_id = 0;
  username = [];
  remote_host = [];
  remote_port = 0;
  local_host = [];
  local_port = 0;
  tcp_server = no_server;
  list_forward = [];
  len_forward = 0;
  ctx_caches = 2 ∷ 3 ∷ [];
  http_buf_caches = 0 ∷ 1 ∷ 2 ∷ 3 ∷ [];
  was_closed = false;
  trace = [];
}

-- The same while the message `1 2 3` of the buffer 7 goes to the server.
abbrev pub sending_state : Mgmt
sending_state = record idle_state {
  bufs = λ _. record empty_buf { mem = suc; len = 3 };
  buf_toserver = record empty_http_buf { list_todo = 7 ∷ []; curr = some 7 };
  toserver = true;
}
