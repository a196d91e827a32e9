-- ===== src/HttpContext/Coroutines.antt =====
-- `http_context_connect`, `http_context_write` and `http_context_read`.
use web_tunnel.Base.{
  ℕ, ◌+◌, ◌-◌, Bool, true, false, List, [], ◌∷◌, ◌++◌, length, Option, none, some, Outcome, ok,
  fault, null_deref, ◌>>=◌, ◌>>◌, check, deref, update, copy, slice, ltb, leb, ◌==◌, if◌then◌else◌,
}
use web_tunnel.State.{
  Mgmt, Effect, CallerStatus, CallerState, CcrLine, AsyncFunc, HttpContext, emit, wait_in, wait_out,
}
use web_tunnel.Buffers.{alloc_buf, free_buf, next_buf_info, list_del}
use web_tunnel.Header.{http_buf_size}
use web_tunnel.Runtime.{
  ConnectAnswer, WriteAnswer, ReadAnswer, Turn, turn, is_poll_out, pollfd_at, set_events,
}
use web_tunnel.HttpContext.Finish.{context_save_read, http_context_finish}

abbrev pub context_connected : HttpContext → Mgmt → Turn HttpContext
context_connected ctx m =
    turn CallerStatus.continue
      (record ctx {
        state = CallerState.write;
        func_run = AsyncFunc.http_context_write;
        ccr_line = CcrLine.start;
      })
      m

-- One `connect` at most is made in a turn.
unfoldable pub context_try : ConnectAnswer → HttpContext → Mgmt → Outcome (Turn HttpContext)
context_try ConnectAnswer.connected ctx m = ok (context_connected ctx m)
context_try ConnectAnswer.in_progress ctx m =
    set_events ctx.pfd wait_out m >>= λ m1. ok (turn CallerStatus.continue ctx m1)
context_try ConnectAnswer.refused ctx m =
    ok (turn CallerStatus.finish (record ctx { errcode = 3 }) m)

unfoldable pub http_context_connect :
    ConnectAnswer → HttpContext → Mgmt → Outcome (Turn HttpContext)
unfolding context_try
http_context_connect a ctx m = pollfd_at m ctx.pfd >>= λ pfd.
    if is_poll_out pfd.revents then ok (context_connected ctx m) else context_try a ctx m

-- All is written: the context waits for the response.
unfoldable pub request_written : HttpContext → Mgmt → Outcome (Turn HttpContext)
request_written ctx m = set_events ctx.pfd wait_in m >>= λ m1. ok (
    turn CallerStatus.pending
      (record ctx {
        state = CallerState.read;
        ccr_line = CcrLine.start;
        func_run = AsyncFunc.http_context_read;
        buf_write = record (ctx.buf_write) { list_todo = [] };
      })
      (record m1 { http_buf_caches = ctx.buf_write.list_todo ++ m1.http_buf_caches }))

-- `n` bytes of the buffer `b` are written; the Boolean says that none of it is left, and then it is free
-- and `curr` is the next one.
unfoldable pub context_advance : ℕ → ℕ → HttpContext → Mgmt → Bool × HttpContext × Mgmt
context_advance b n ctx m =
    let buf = m.bufs b in
    let rest = list_del b ctx.buf_write.list_todo in
    if ltb n buf.len
    then (
      false,
      record ctx { ccr_line = CcrLine.partial },
      record m { bufs = update m.bufs b (record buf { len = buf.len - n; start = buf.start + n }) },
    )
    else (
      true,
      record ctx {
        buf_write = record (ctx.buf_write) { list_todo = rest; curr = next_buf_info rest };
      },
      free_buf (some b) (record m { bufs = update m.bufs b (record buf { len = buf.len - n }) }),
    )

-- `while(buf_info != NULL)`, with the answers of the calls of `write`; without an answer the socket would
-- block. The text's descriptor is `fd`.
unfoldable pub context_write_loop :
    ℕ → List WriteAnswer → HttpContext → Mgmt → Outcome (Turn HttpContext)
unfolding request_written context_advance
context_write_loop fd [] ctx m = elim ctx.buf_write.curr [
  | none ↦ request_written ctx m
  | some b ↦ ok (turn CallerStatus.pending (record ctx { ccr_line = CcrLine.again }) m)
]
context_write_loop fd (a ∷ as') ctx m =
    let go = λ (w : HttpContext) (k : Mgmt). context_write_loop fd as' w k in
    elim ctx.buf_write.curr [
      | none ↦ request_written ctx m
      | some b ↦ elim (a.taken (m.bufs b).len) [
        | none ↦
            if a.again
            then ok (turn CallerStatus.pending (record ctx { ccr_line = CcrLine.again }) m)
            else ok (turn CallerStatus.finish (record ctx { ccr_line = CcrLine.failed }) m)
        | some n ↦
            (let k = emit (Effect.wrote fd (slice (m.bufs b).start n (m.bufs b).mem)) m in
              let r = context_advance b n ctx k in
              if r.0 then go r.1 r.2 else ok (turn CallerStatus.pending r.1 r.2))
      ]
    ]

-- After a return with EAGAIN the coroutine goes on behind the call of `write`, with `n` being 0.
unfoldable pub context_resume_again :
    ℕ → List WriteAnswer → HttpContext → Mgmt → Outcome (Turn HttpContext)
unfolding context_advance context_write_loop
context_resume_again fd answers ctx m = elim ctx.buf_write.curr [
  | none ↦ fault null_deref
  | some b ↦
      (let r = context_advance b 0 ctx m in
        if r.0
        then context_write_loop fd answers r.1 r.2
        else ok (turn CallerStatus.pending r.1 r.2))
]

-- The first turn: without a buffer there is nothing to write.
unfoldable pub context_first_write :
    ℕ → List WriteAnswer → HttpContext → Mgmt → Outcome (Turn HttpContext)
unfolding context_write_loop
context_first_write fd answers ctx m =
    let c = record ctx {
      buf_write = record (ctx.buf_write) { curr = next_buf_info ctx.buf_write.list_todo };
    } in
    elim c.buf_write.curr [
      | none ↦ ok (turn CallerStatus.finish (record c { errcode = 4; ccr_line = CcrLine.no_buf }) m)
      | some b ↦ context_write_loop fd answers c m
    ]

abbrev pub resume_context_write :
    CcrLine → ℕ → List WriteAnswer → HttpContext → Mgmt → Outcome (Turn HttpContext)
resume_context_write CcrLine.start fd answers ctx m = context_first_write fd answers ctx m
resume_context_write CcrLine.partial fd answers ctx m = context_write_loop fd answers ctx m
resume_context_write CcrLine.again fd answers ctx m = context_resume_again fd answers ctx m
resume_context_write CcrLine.failed fd answers ctx m = context_resume_again fd answers ctx m
resume_context_write CcrLine.no_buf fd answers ctx m = context_write_loop fd answers ctx m

abbrev pub fd_of : Option ℕ → ℕ
fd_of none = 0
fd_of (some fd) = fd

unfoldable pub http_context_write :
    List WriteAnswer → HttpContext → Mgmt → Outcome (Turn HttpContext)
unfolding context_first_write context_write_loop context_resume_again
http_context_write answers ctx m =
    resume_context_write ctx.ccr_line (fd_of ctx.sockfd) answers ctx m

-- Bytes are put behind those in `b`; a full buffer is saved.
unfoldable pub context_got : ℕ → List ℕ → HttpContext → Mgmt → Turn HttpContext
context_got b bytes ctx m =
    let v = m.bufs b in
    let buf = record v { mem = copy v.start bytes v.mem; start = v.start + length bytes } in
    let m1 = record m { bufs = update m.bufs b buf } in
    let r = context_save_read b ctx m1 in
    if leb http_buf_size buf.start
    then turn CallerStatus.pending r.0 r.1
    else turn CallerStatus.pending ctx m1

-- The end of the response: the buffer is saved, or freed if it is empty.
unfoldable pub context_ended : ℕ → HttpContext → Mgmt → Outcome (Turn HttpContext)
context_ended b ctx m =
    let r =
      if (m.bufs b).start == 0
      then (record ctx { buf_read = record (ctx.buf_read) { curr = none } }, free_buf (some b) m)
      else context_save_read b ctx m in
    http_context_finish r.0 r.1 >>= λ s. ok (turn CallerStatus.finish s.0 s.1)

abbrev pub context_read_cases : ReadAnswer → ℕ → HttpContext → Mgmt → Outcome (Turn HttpContext)
context_read_cases a b ctx m = elim a.bytes [
  | none ↦
      (let ended = context_ended b ctx m in
        if a.again then ok (turn CallerStatus.pending ctx m) else ended)
  | some [] ↦ context_ended b ctx m
  | some (x ∷ xs) ↦ ok (context_got b (x ∷ xs) ctx m)
]

-- The current buffer, or a free one that becomes it.
unfoldable pub context_current : HttpContext → Mgmt → Outcome (ℕ × HttpContext × Mgmt)
context_current ctx m =
    let r = alloc_buf m in
    elim ctx.buf_read.curr [
      | some b ↦ ok (b, ctx, m)
      | none ↦ deref r.1 >>= λ b.
          ok (b, record ctx { buf_read = record (ctx.buf_read) { curr = some b } }, r.0)
    ]

-- One `read` is made in a turn.
unfoldable pub http_context_read : ReadAnswer → HttpContext → Mgmt → Outcome (Turn HttpContext)
unfolding context_current context_ended context_got
http_context_read a ctx m = context_current ctx m >>= λ r.
    check (ltb (r.2.bufs r.0).start http_buf_size) >> context_read_cases a r.0 r.1 r.2
