-- ===== src/Consistent/Turns/ContextWriting.antt =====
-- `http_context_connect` and `http_context_write`.
use web_tunnel.Base.{
  Fault, ℕ, List, [], ◌∷◌, ◌++◌, Ensures, Ensures-ok, Ensures-fault, Ensures-bind, Ensures-if,
  Ensures-Option, slice, arith,
}
use web_tunnel.State.{
  Mgmt, Effect, CallerStatus, CallerState, CcrLine, AsyncFunc, HttpContext, emit, wait_in, wait_out,
}
use web_tunnel.Buffers.{next_buf_info}
use web_tunnel.Runtime.{ConnectAnswer, WriteAnswer, turn, is_poll_out}
use web_tunnel.HttpContext.Coroutines.{
  context_connected, context_try, http_context_connect, request_written, context_advance,
  context_write_loop, context_resume_again, context_first_write, resume_context_write,
  http_context_write, fd_of,
}
use web_tunnel.Consistent.{Core, At}
use web_tunnel.Consistent.Frames.{pollfd_at-Ensures, set_events-At}
use web_tunnel.Consistent.Turns.{IsContextTurn}

module _ (k : Core) where
  context_try-IsContextTurn :
      (a : ConnectAnswer) (ctx : HttpContext) (m : Mgmt)
      → At k m
      → Ensures (IsContextTurn k) (context_try a ctx m)
  unfolding context_try
  context_try-IsContextTurn ConnectAnswer.connected ctx m h =
      Ensures-ok {a = context_connected ctx m} h
  context_try-IsContextTurn ConnectAnswer.in_progress ctx m h =
      Ensures-bind (set_events-At k ctx.pfd wait_out m h)
        λ m1 e. Ensures-ok {a = turn CallerStatus.continue ctx m1} e
  context_try-IsContextTurn ConnectAnswer.refused ctx m h =
      Ensures-ok {a = turn CallerStatus.finish (record ctx { errcode = 3 }) m} h

  pub http_context_connect-IsContextTurn :
      (a : ConnectAnswer) (ctx : HttpContext) (m : Mgmt)
      → At k m
      → Ensures (IsContextTurn k) (http_context_connect a ctx m)
  unfolding http_context_connect
  http_context_connect-IsContextTurn a ctx m h = Ensures-bind (pollfd_at-Ensures m ctx.pfd) λ pfd z.
      Ensures-if (is_poll_out pfd.revents) (Ensures-ok {a = context_connected ctx m} h)
        (context_try-IsContextTurn a ctx m h)

  request_written-IsContextTurn :
      (ctx : HttpContext) (m : Mgmt) → At k m → Ensures (IsContextTurn k) (request_written ctx m)
  unfolding request_written
  request_written-IsContextTurn ctx m h =
      let w = record ctx {
        state = CallerState.read;
        ccr_line = CcrLine.start;
        func_run = AsyncFunc.http_context_read;
        buf_write = record (ctx.buf_write) { list_todo = [] };
      } in
      Ensures-bind (set_events-At k ctx.pfd wait_in m h) λ m1 e.
        Ensures-ok
          {a = turn CallerStatus.pending w
            (record m1 { http_buf_caches = ctx.buf_write.list_todo ++ m1.http_buf_caches })}
          e

  context_advance-At :
      (b n : ℕ) (ctx : HttpContext) (m : Mgmt) → At k m → At k (context_advance b n ctx m).2
  unfolding context_advance
  context_advance-At b n ctx m h = ground arith

  write_loop-IsContextTurn :
      (fd : ℕ) (answers : List WriteAnswer) (ctx : HttpContext) (m : Mgmt)
      → At k m
      → Ensures (IsContextTurn k) (context_write_loop fd answers ctx m)
  unfolding context_write_loop
  write_loop-IsContextTurn fd [] ctx m h =
      Ensures-Option ctx.buf_write.curr (request_written-IsContextTurn ctx m h) λ b.
        Ensures-ok {a = turn CallerStatus.pending (record ctx { ccr_line = CcrLine.again }) m} h
  write_loop-IsContextTurn fd (a ∷ as') ctx m h =
      Ensures-Option ctx.buf_write.curr (request_written-IsContextTurn ctx m h) λ b.
        Ensures-Option (a.taken (m.bufs b).len)
          (Ensures-if a.again
            (Ensures-ok {a = turn CallerStatus.pending (record ctx { ccr_line = CcrLine.again }) m}
              h)
            (Ensures-ok {a = turn CallerStatus.finish (record ctx { ccr_line = CcrLine.failed }) m}
              h))
          λ n.
            let w = emit (Effect.wrote fd (slice (m.bufs b).start n (m.bufs b).mem)) m in
            let r = context_advance b n ctx w in
            let e = context_advance-At b n ctx w h in
            Ensures-if r.0 (write_loop-IsContextTurn fd as' r.1 r.2 e)
              (Ensures-ok {a = turn CallerStatus.pending r.1 r.2} e)

  resume_again-IsContextTurn :
      (fd : ℕ) (answers : List WriteAnswer) (ctx : HttpContext) (m : Mgmt)
      → At k m
      → Ensures (IsContextTurn k) (context_resume_again fd answers ctx m)
  unfolding context_resume_again
  resume_again-IsContextTurn fd answers ctx m h =
      Ensures-Option ctx.buf_write.curr (Ensures-fault Fault.null_deref tt) λ b.
        let r = context_advance b 0 ctx m in
        let e = context_advance-At b 0 ctx m h in
        Ensures-if r.0 (write_loop-IsContextTurn fd answers r.1 r.2 e)
          (Ensures-ok {a = turn CallerStatus.pending r.1 r.2} e)

  first_write-IsContextTurn :
      (fd : ℕ) (answers : List WriteAnswer) (ctx : HttpContext) (m : Mgmt)
      → At k m
      → Ensures (IsContextTurn k) (context_first_write fd answers ctx m)
  unfolding context_first_write
  first_write-IsContextTurn fd answers ctx m h =
      let c = record ctx {
        buf_write = record (ctx.buf_write) { curr = next_buf_info ctx.buf_write.list_todo };
      } in
      Ensures-Option c.buf_write.curr
        (Ensures-ok
          {a = turn CallerStatus.finish (record c { errcode = 4; ccr_line = CcrLine.no_buf }) m} h)
        λ b. write_loop-IsContextTurn fd answers c m h

  resume_write-IsContextTurn :
      (line : CcrLine) (fd : ℕ) (answers : List WriteAnswer) (ctx : HttpContext) (m : Mgmt)
      → At k m
      → Ensures (IsContextTurn k) (resume_context_write line fd answers ctx m)
  resume_write-IsContextTurn CcrLine.start fd answers ctx m h =
      first_write-IsContextTurn fd answers ctx m h
  resume_write-IsContextTurn CcrLine.partial fd answers ctx m h =
      write_loop-IsContextTurn fd answers ctx m h
  resume_write-IsContextTurn CcrLine.again fd answers ctx m h =
      resume_again-IsContextTurn fd answers ctx m h
  resume_write-IsContextTurn CcrLine.failed fd answers ctx m h =
      resume_again-IsContextTurn fd answers ctx m h
  resume_write-IsContextTurn CcrLine.no_buf fd answers ctx m h =
      write_loop-IsContextTurn fd answers ctx m h

  pub http_context_write-IsContextTurn :
      (answers : List WriteAnswer) (ctx : HttpContext) (m : Mgmt)
      → At k m
      → Ensures (IsContextTurn k) (http_context_write answers ctx m)
  unfolding http_context_write
  http_context_write-IsContextTurn answers ctx m h =
      resume_write-IsContextTurn ctx.ccr_line (fd_of ctx.sockfd) answers ctx m h
