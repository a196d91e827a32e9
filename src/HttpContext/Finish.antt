-- ===== src/HttpContext/Finish.antt =====
-- `http_context_finish`, `context_save_read` and `http_context_release`.
use web_tunnel.Base.{
  ℕ, zero, suc, ◌+◌, [], ◌∷◌, ◌++◌, Option, none, some, Outcome, ok, ◌>>=◌, ◌>>◌, deref, update,
  if◌then◌else◌,
}
use web_tunnel.State.{Mgmt, Effect, CallingStatus, HttpContext, emit}
use web_tunnel.Buffers.{
  check_unlisted, alloc_buf, free_buf, free_context, list_add_tail, list_del, write_buf,
  set_lengths,
}
use web_tunnel.Header.{header_bytes, make_header, http_c_resp, http_c_header_len}
use web_tunnel.PollTable.{mgmt_del_fd}
use web_tunnel.ToServer.{http_mgmt_toserver}
use web_tunnel.Chunk.Parse.{http_parse}
use web_tunnel.Runtime.{set_lookup, put_ctx}

-- The buffer `b` joins those that are read.
unfoldable pub context_save_read : ℕ → HttpContext → Mgmt → HttpContext × Mgmt
context_save_read b ctx m =
    let buf = m.bufs b in
    (
      record ctx {
        buf_read = record (ctx.buf_read) {
          len = ctx.buf_read.len + buf.start;
          list_todo = list_add_tail b ctx.buf_read.list_todo;
          curr = none;
        };
      },
      record m {
        bufs = update m.bufs b (record buf { len = buf.start; total_len = buf.start; start = 0 });
      },
    )

-- The response of `ctx`, behind the header in `b`, goes to the server.
unfoldable pub send_response : ℕ → HttpContext → Mgmt → Outcome (HttpContext × Mgmt)
send_response b ctx m =
    let len = ctx.buf_read.len + http_c_header_len in
    let m1 =
      set_lengths b 0 http_c_header_len http_c_header_len
        (write_buf b 0 (header_bytes (make_header http_c_resp ctx.seq len)) m) in
    let m2 = record m1 {
      buf_toserver = record (m1.buf_toserver) {
        list_todo = m1.buf_toserver.list_todo ++ (b ∷ ctx.buf_read.list_todo);
      };
    } in
    http_mgmt_toserver m2 >>= λ m3.
    ok (record ctx { buf_read = record (ctx.buf_read) { list_todo = []; len = 0 } }, m3)

-- The Boolean of `http_parse` says whether there is a response to send; what the function returns is
-- read nowhere.
unfoldable pub http_context_finish : HttpContext → Mgmt → Outcome (HttpContext × Mgmt)
unfolding send_response
http_context_finish ctx m = http_parse ctx m >>= λ r.
    if r.2
    then (let a = alloc_buf r.1 in deref a.1 >>= λ b. send_response b r.0 a.0)
    else ok (r.0, r.1)

-- The socket is closed and leaves the table, unless it is -1 or 0.
unfoldable pub close_socket : Option ℕ → Mgmt → Outcome (Option ℕ × Mgmt)
close_socket none m = ok (none, m)
close_socket (some zero) m = ok (some 0, m)
close_socket (some (suc fd)) m = mgmt_del_fd (emit (Effect.closed (suc fd)) m) (suc fd) >>= λ m1.
    set_lookup (suc fd) none m1 >>= λ m2. ok (none, m2)

-- What `http_context_release` does with the buffers; both of its tests clear `buf_read.curr`. A current
-- buffer that still stands on its list would break that list and the free ones; the model ends there.
unfoldable pub release_bufs : HttpContext → Mgmt → Outcome (HttpContext × Mgmt)
unfolding check_unlisted
release_bufs ctx m =
    check_unlisted ctx.buf_read
    >> check_unlisted ctx.buf_write
    >> (let m1 = free_buf ctx.buf_write.curr (free_buf ctx.buf_read.curr m) in
        ok (
          record ctx {
            buf_read = record (ctx.buf_read) { list_todo = []; curr = none };
            buf_write = record (ctx.buf_write) { list_todo = [] };
          },
          record m1 {
            http_buf_caches =
                ctx.buf_read.list_todo ++ (ctx.buf_write.list_todo ++ m1.http_buf_caches);
          },
        ))

-- The context at `c` is free again; it has left the ready list before.
unfoldable pub http_context_release : ℕ → Mgmt → Outcome Mgmt
unfolding close_socket release_bufs free_context
http_context_release c m =
    let ctx = record (m.ctxs c) { status = CallingStatus.finish } in
    close_socket ctx.sockfd m >>= λ s. release_bufs (record ctx { sockfd = s.0 }) s.1 >>= λ r.
    let m1 = put_ctx c r.0 r.1 in
    let m2 = free_context c (record m1 { list_timeout = list_del c m1.list_timeout }) in
    ok (record m2 { total_process = m2.total_process + 1 })
