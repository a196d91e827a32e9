-- ===== src/HttpContext/Lifetime.antt =====
-- `http_context_init` and `http_context_create`.
pub mod Lost
pub mod Created
pub mod Readied
pub mod Init
use web_tunnel.Base.{
  ℕ, ◌+◌, Bool, true, false, [], Option, none, some, Outcome, ok, ◌>>=◌, if◌then◌else◌,
}
use web_tunnel.State.{
  Mgmt, CallingStatus, CallerState, CcrLine, AsyncFunc, Ref, HttpContext, empty_http_buf,
  zero_context, listening,
}
use web_tunnel.Buffers.{alloc_context}
use web_tunnel.PollTable.{mgmt_add_fd}
use web_tunnel.Runtime.{set_lookup, put_ctx}
use web_tunnel.HttpContext.Host.{host_init}
use web_tunnel.HttpContext.Lists.{insert_timeout, insert_ready_prio}

-- The context at `c`, with the socket `fd`, is ready, has a timeout, and is polled.
unfoldable pub http_context_init : ℕ → ℕ → Mgmt → Outcome Mgmt
http_context_init c fd m =
    let ctx = record (m.ctxs c) {
      errcode = 0;
      state = CallerState.connect;
      func_run = AsyncFunc.http_context_connect;
      status = CallingStatus.ready;
      ccr_line = CcrLine.start;
    } in
    let m1 = insert_timeout c (insert_ready_prio c (put_ctx c ctx m)) in
    let r = mgmt_add_fd (record m1 { total_add = m1.total_add + 1 }) fd listening in
    set_lookup fd (some (Ref.http c)) (put_ctx c (record (r.0.ctxs c) { pfd = r.1 }) r.0)

-- The request that `buf_prepare` holds moves to the new context.
unfoldable pub take_request : ℕ → ℕ → ℕ → HttpContext → Mgmt → Mgmt
take_request c fd deadline ctx m =
    put_ctx c
      (record ctx {
        sockfd = some fd;
        timeout = deadline;
        seq = m.buf_prepare.seq;
        buf_write = record empty_http_buf { list_todo = m.buf_prepare.list_todo };
      })
      (record m { buf_prepare = record (m.buf_prepare) { list_todo = [] } })

-- `http_context_create` at the time `now`, where `param->pbuf` is `buf_prepare` and `socket` gives the
-- descriptor, if there is one. The Boolean is that 0 is returned: also when no context is free. A context
-- whose host or socket fails is not given back.
unfoldable pub http_context_create : ℕ → ℕ → Option ℕ → Mgmt → Outcome (Mgmt × Bool)
unfolding http_context_init take_request
http_context_create now timeout socket m =
    let r = alloc_context m in
    elim r.1 [
      | none ↦ ok (m, true)
      | some c ↦ host_init m.buf_prepare zero_context r.0 >>= λ h.
          if h.1
          then elim socket [
            | none ↦ ok (put_ctx c h.0 r.0, false)
            | some fd ↦ http_context_init c fd (take_request c fd (now + timeout) h.0 r.0) >>= λ n.
                ok (n, true)
          ]
          else ok (put_ctx c h.0 r.0, false)
    ]
