-- ===== src/State/Context.antt =====
-- The contexts that run as coroutines, and the enumerations of their states.
use web_tunnel.Base.{ℕ, Bool, false, List, [], Option, none, some}
use web_tunnel.Base.Int.{ℤ, pos}
use web_tunnel.State.Buffer.{HttpBuf, empty_http_buf}

pub data CallingStatus : Type 0 where
  ready pending finish : CallingStatus

pub data CallerStatus : Type 0 where
  finish pending continue : CallerStatus

pub data CallerState : Type 0 where
  connect write read : CallerState

-- `ccrLine`: where a coroutine goes on. Each constructor is a `ccrReturn` of a write coroutine, after
-- EAGAIN, after a part was written, and after the returns of CALLER_FINISH; `start` is line 0. The
-- other coroutines go on at the head of their loop wherever they returned, so theirs stays `start`.
pub data CcrLine : Type 0 where
  start again partial no_buf failed : CcrLine

-- The functions that `func_run` points to.
pub data AsyncFunc : Type 0 where
  http_context_connect http_context_write http_context_read : AsyncFunc

pub data ClientFunc : Type 0 where
  tcp_client_read tcp_client_write : ClientFunc

pub data ForwardFunc : Type 0 where
  tcp_forward_connect tcp_forward_read tcp_forward_write : ForwardFunc

-- A `common_context *`, with its `context_type`.
pub data Ref : Type 0 where
  server : Ref
  http client forward : ℕ → Ref

-- `sockfd` is `none` for -1.
pub record HttpContext : Type 0 where
  pub ccr_line : CcrLine
  pub status : CallingStatus
  pub state : CallerState
  pub func_run : AsyncFunc
  pub prio : ℤ
  pub timeout : ℕ
  pub errcode : ℕ
  pub is_chunk : Bool
  pub pfd : Option ℕ
  pub sockfd : Option ℕ
  pub hostname : List ℕ
  pub port : ℕ
  pub seq : ℕ
  pub buf_read : HttpBuf
  pub buf_write : HttpBuf

pub record TcpClient : Type 0 where
  pub ccr_line : CcrLine
  pub status : CallingStatus
  pub func_run : ClientFunc
  pub pfd : Option ℕ
  pub client_fd : ℕ
  pub buf_read : HttpBuf
  pub buf_write : HttpBuf
  pub req_seq : ℕ
  pub idle : Bool
  pub header_parsed : Bool

pub record TcpServer : Type 0 where
  pub ccr_line : CcrLine
  pub list_client : List ℕ
  pub client_len : ℕ
  pub status : CallingStatus
  pub pfd : Option ℕ
  pub serv_fd : ℕ
  pub seq : ℕ

pub record TcpForward : Type 0 where
  pub ccr_line : CcrLine
  pub status : CallingStatus
  pub func_run : ForwardFunc
  pub buf_write : HttpBuf
  pub idle : Bool
  pub errcode : ℕ
  pub kind : ℕ
  pub pfd : Option ℕ
  pub fwd_fd : ℕ
  pub host : ℕ
  pub port : ℕ
  pub seq : ℕ

-- `memset(ctx, 0, sizeof(http_context))`; a NULL `func_run` is set before it is called.
abbrev pub zero_context : HttpContext
zero_context = record {
  ccr_line = CcrLine.start;
  status = CallingStatus.ready;
  state = CallerState.connect;
  func_run = http_context_connect;
  prio = pos 0;
  timeout = 0;
  errcode = 0;
  is_chunk = false;
  pfd = none;
  sockfd = some 0;
  hostname = [];
  port = 0;
  seq = 0;
  buf_read = empty_http_buf;
  buf_write = empty_http_buf;
}

-- What `calloc` gives.
abbrev pub zero_client : TcpClient
zero_client = record {
  ccr_line = CcrLine.start;
  status = CallingStatus.ready;
  func_run = tcp_client_read;
  pfd = none;
  client_fd = 0;
  buf_read = empty_http_buf;
  buf_write = empty_http_buf;
  req_seq = 0;
  idle = false;
  header_parsed = false;
}

abbrev pub zero_forward : TcpForward
zero_forward = record {
  ccr_line = CcrLine.start;
  status = CallingStatus.ready;
  func_run = tcp_forward_connect;
  buf_write = empty_http_buf;
  idle = false;
  errcode = 0;
  kind = 0;
  pfd = none;
  fwd_fd = 0;
  host = 0;
  port = 0;
  seq = 0;
}
