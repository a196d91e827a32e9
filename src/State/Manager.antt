-- ===== src/State/Manager.antt =====
-- `http_mgmt`, with the stores that its pointers point into and the effects that have left it.
use web_tunnel.Base.{ℕ, Bool, List, [], ◌∷◌, ◌++◌, Option, update}
use web_tunnel.State.Poll.{Pollfd}
use web_tunnel.State.Buffer.{Buf, HttpBuf}
use web_tunnel.State.Context.{Ref, HttpContext, TcpClient, TcpServer, TcpForward}

-- What the program does to the outside, in order.
pub data Effect : Type 0 where
  -- bytes given to `write` on a socket
  wrote : ℕ → List ℕ → Effect
  closed : ℕ → Effect
  -- a message given to `websocket_write`
  sent : List ℕ → Effect
  go_writable : Effect
  write_again : Effect

pub record Mgmt : Type 0 where
  -- the stores: the two arrays of http_mgmt_init, and what `calloc` gave out and `free` has not taken
  pub bufs : ℕ → Buf
  pub ctxs : ℕ → HttpContext
  pub clients : ℕ → Option TcpClient
  pub forwards : ℕ → Option TcpForward
  pub next_client : ℕ
  pub next_forward : ℕ
  -- the fields of `http_mgmt`
  pub list_high : List ℕ
  pub list_low : List ℕ
  pub ready_len : ℕ
  pub list_timeout : List ℕ
  pub total_add : ℕ
  pub total_process : ℕ
  pub max_fds : ℕ
  pub pollfds : ℕ → Pollfd
  pub fd_lookup : ℕ → ℕ
  pub count_pollfds : ℕ
  pub http_lookup : ℕ → Option Ref
  pub buf_prepare : HttpBuf
  pub sync_prepare : Bool
  pub sync_time : ℕ
  pub last_alive_time : ℕ
  pub buf_toserver : HttpBuf
  pub toserver : Bool
  pub shakehand : Bool
  pub client_id : ℕ
  pub username : List ℕ
  pub remote_host : List ℕ
  pub remote_port : ℕ
  pub local_host : List ℕ
  pub local_port : ℕ
  pub tcp_server : TcpServer
  pub list_forward : List ℕ
  pub len_forward : ℕ
  pub ctx_caches : List ℕ
  pub http_buf_caches : List ℕ
  -- the flag of web-tunnel.c, and the effects
  pub was_closed : Bool
  pub trace : List Effect

abbrev pub emit : Effect → Mgmt → Mgmt
emit e m = record m { trace = m.trace ++ e ∷ [] }

abbrev pub buf_at : Mgmt → ℕ → Buf
buf_at m b = m.bufs b

abbrev pub put_buf : ℕ → Buf → Mgmt → Mgmt
put_buf b v m = record m { bufs = update m.bufs b v }
