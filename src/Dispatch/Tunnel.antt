-- ===== src/Dispatch/Tunnel.antt =====
-- `process_tunnel_req` and `process_tunnel_resp`.
use web_tunnel.Base.{
  ℕ, ◌+◌, ◌-◌, ◌%◌, Bool, true, false, List, [], ◌∷◌, ◌++◌, Option, none, some, Outcome, ok, ◌>>=◌,
  deref, slice, ltb, ◌==◌, if◌then◌else◌,
}
use web_tunnel.State.{Mgmt, CallingStatus, ClientFunc, CcrLine, TcpClient, wait_out}
use web_tunnel.Buffers.{alloc_buf, next_buf_info, write_buf, set_lengths}
use web_tunnel.Header.{
  header_bytes, make_header, http_c_req, http_c_resp, http_c_header_len, http_buf_size,
}
use web_tunnel.Prepare.{release_prepare}
use web_tunnel.Runtime.{set_events, in_use, put_client}

-- An idle client goes on with `tcp_client_write`.
unfoldable pub wake_client : ℕ → TcpClient → Mgmt → Outcome Mgmt
wake_client c v m =
    let woken = set_events v.pfd wait_out m >>= λ n. ok (
      put_client c
        (some (record v {
          func_run = ClientFunc.tcp_client_write;
          ccr_line = CcrLine.start;
          status = CallingStatus.ready;
          idle = false;
        }))
        n) in
    if v.idle then woken else ok m

-- A copy of the packet's first buffer `b`, behind a header, goes before the client's buffers.
unfoldable pub copy_to_client : Option ℕ → ℕ → Mgmt → Outcome Mgmt
unfolding wake_client
copy_to_client first c m = do
  v ← in_use (m.clients c)
  let r = alloc_buf m
  n ← deref r.1
  b ← deref first
  let buf = r.0.bufs b
  let h = make_header http_c_req (v.req_seq % 256) (m.buf_prepare.len + http_c_header_len)
  let m1 =
      write_buf n http_c_header_len (slice 0 buf.len buf.mem) (write_buf n 0 (header_bytes h) r.0)
  let len = buf.len + http_c_header_len
  let w = record v { buf_write = record (v.buf_write) { list_todo = n ∷ v.buf_write.list_todo } }
  wake_client c w (put_client c (some w) (set_lengths n 0 len len m1))

unfoldable pub copy_to_clients : Option ℕ → List ℕ → Mgmt → Outcome Mgmt
unfolding copy_to_client
copy_to_clients first [] m = ok m
copy_to_clients first (c ∷ cs) m = copy_to_client first c m >>= copy_to_clients first cs

-- The Boolean is that 0 is returned.
unfoldable pub process_tunnel_req : Mgmt → Outcome (Mgmt × Bool)
unfolding copy_to_clients
process_tunnel_req m =
    let sent =
      copy_to_clients (next_buf_info m.buf_prepare.list_todo) m.tcp_server.list_client m >>= λ n.
      ok (release_prepare n, true) in
    if ltb (http_buf_size - http_c_header_len) m.buf_prepare.len then ok (m, false) else sent

-- The first client of the list that waits for the answer.
unfoldable pub find_client : ℕ → List ℕ → Mgmt → Outcome (Option ℕ)
find_client seq [] m = ok none
find_client seq (c ∷ cs) m =
    let rest = find_client seq cs m in
    in_use (m.clients c) >>= λ v. if seq == v.req_seq then ok (some c) else rest

-- The packet goes behind the client's buffers, with a header in a buffer of its own.
unfoldable pub answer_client : ℕ → Mgmt → Outcome Mgmt
unfolding wake_client
answer_client c m = do
  v ← in_use (m.clients c)
  let r = alloc_buf m
  n ← deref r.1
  let h = make_header http_c_resp (v.req_seq % 256) (m.buf_prepare.len + http_c_header_len)
  let m1 = set_lengths n 0 http_c_header_len http_c_header_len (write_buf n 0 (header_bytes h) r.0)
  let w = record v {
    buf_write = record (v.buf_write) {
      list_todo = v.buf_write.list_todo ++ n ∷ m.buf_prepare.list_todo;
    };
  }
  wake_client c w (
      put_client c (some w)
        (record m1 { buf_prepare = record (m1.buf_prepare) { list_todo = [] } }))

unfoldable pub process_tunnel_resp : Mgmt → Outcome (Mgmt × Bool)
unfolding find_client answer_client
process_tunnel_resp m = find_client m.buf_prepare.seq m.tcp_server.list_client m >>= λ o.
    elim o as (λ _. Outcome (Mgmt × Bool)) [
      | none ↦ ok (m, false)
      | some c ↦ answer_client c m >>= λ n. ok (n, true)
    ]
