-- ===== src/Consistent/Turns/ContextReading.antt =====
-- `http_context_read` and `http_context_finish`.
use web_tunnel.Base.{
  deref-Ensures, check-Ensures, ℕ, ◌+◌, List, [], ◌∷◌, Option, none, some, Bool, true, false, ok,
  Ensures, Ensures-ok, Ensures-bind, Ensures-if, Ensures-Option, ◌==◌, ltb, arith, if◌then◌else◌,
}
use web_tunnel.State.{Mgmt, CallerStatus, HttpContext}
use web_tunnel.Buffers.{alloc_buf, free_buf, write_buf, set_lengths}
use web_tunnel.Header.{header_bytes, make_header, http_c_resp, http_c_header_len, http_buf_size}
use web_tunnel.Runtime.{ReadAnswer, turn}
use web_tunnel.HttpContext.Finish.{context_save_read, send_response, http_context_finish}
use web_tunnel.HttpContext.Coroutines.{
  context_got, context_ended, context_read_cases, context_current, http_context_read,
}
use web_tunnel.Consistent.{Core, At}
use web_tunnel.Consistent.Frames.{alloc_buf-At, queued-At}
use web_tunnel.Consistent.Parsing.{http_parse-ParsedAt}
use web_tunnel.Consistent.Turns.{IsContextTurn}

module _ (k : Core) where
  -- The response goes to the server.
  abbrev ContextAt : HttpContext × Mgmt → Type 0
  ContextAt r = At k r.1

  send_response-ContextAt :
      (b : ℕ) (ctx : HttpContext) (m : Mgmt) → At k m → Ensures ContextAt (send_response b ctx m)
  unfolding send_response write_buf set_lengths
  send_response-ContextAt b ctx m h =
      let len = ctx.buf_read.len + http_c_header_len in
      let m1 =
        set_lengths b 0 http_c_header_len http_c_header_len
          (write_buf b 0 (header_bytes (make_header http_c_resp ctx.seq len)) m) in
      let w = record ctx { buf_read = record (ctx.buf_read) { list_todo = []; len = 0 } } in
      Ensures-bind (queued-At k (b ∷ ctx.buf_read.list_todo) m1 h)
        λ m3 e. Ensures-ok {a = (w, m3)} e

  pub http_context_finish-ContextAt :
      (ctx : HttpContext) (m : Mgmt) → At k m → Ensures ContextAt (http_context_finish ctx m)
  unfolding http_context_finish
  http_context_finish-ContextAt ctx m h = Ensures-bind (http_parse-ParsedAt k ctx m h) λ r e.
      let a = alloc_buf r.1 in
      Ensures-if r.2
        (Ensures-bind (deref-Ensures a.1)
          λ b p. send_response-ContextAt b r.0 a.0 (alloc_buf-At k r.1 e))
        (Ensures-ok {a = (r.0, r.1)} e)

  context_got-At :
      (b : ℕ) (bytes : List ℕ) (ctx : HttpContext) (m : Mgmt)
      → At k m
      → IsContextTurn k (context_got b bytes ctx m)
  unfolding context_got context_save_read
  context_got-At b bytes ctx m h = ground arith

  saved_read-At :
      (b : ℕ) (ctx : HttpContext) (m : Mgmt) → At k m → ContextAt (context_save_read b ctx m)
  unfolding context_save_read
  saved_read-At b ctx m h = h

  context_ended-IsContextTurn :
      (b : ℕ) (ctx : HttpContext) (m : Mgmt)
      → At k m
      → Ensures (IsContextTurn k) (context_ended b ctx m)
  unfolding context_ended
  context_ended-IsContextTurn b ctx m h =
      let r =
        if (m.bufs b).start == 0
        then (record ctx { buf_read = record (ctx.buf_read) { curr = none } }, free_buf (some b) m)
        else context_save_read b ctx m in
      Ensures-bind
        (http_context_finish-ContextAt r.0 r.1 (saved-At b ctx m h ((m.bufs b).start == 0)))
        λ s e. Ensures-ok {a = turn CallerStatus.finish s.0 s.1} e
    where
      saved-At :
          (b : ℕ) (ctx : HttpContext) (m : Mgmt)
          → At k m
          → (c : Bool)
          → ContextAt (
              if c
              then (
                record ctx { buf_read = record (ctx.buf_read) { curr = none } },
                free_buf (some b) m,
              )
              else context_save_read b ctx m)
      saved-At b ctx m h true = h
      saved-At b ctx m h false = saved_read-At b ctx m h

  read_cases-IsContextTurn :
      (a : ReadAnswer) (b : ℕ) (ctx : HttpContext) (m : Mgmt)
      → At k m
      → Ensures (IsContextTurn k) (context_read_cases a b ctx m)
  read_cases-IsContextTurn a b ctx m h = got a.bytes a.again
    where
      got :
          (o : Option (List ℕ)) (again : Bool)
          → Ensures (IsContextTurn k) (elim o [
            | none ↦ (if again then ok (turn CallerStatus.pending ctx m) else context_ended b ctx m)
            | some [] ↦ context_ended b ctx m
            | some (x ∷ xs) ↦ ok (context_got b (x ∷ xs) ctx m)
          ])
      got none true = Ensures-ok {a = turn CallerStatus.pending ctx m} h
      got none false = context_ended-IsContextTurn b ctx m h
      got (some []) again = context_ended-IsContextTurn b ctx m h
      got (some (x ∷ xs)) again =
          Ensures-ok {a = context_got b (x ∷ xs) ctx m} (context_got-At b (x ∷ xs) ctx m h)

  context_current-At :
      (ctx : HttpContext) (m : Mgmt)
      → At k m
      → Ensures (λ (r : ℕ × HttpContext × Mgmt). At k r.2) (context_current ctx m)
  unfolding context_current
  context_current-At ctx m h =
      let r = alloc_buf m in
      Ensures-Option ctx.buf_read.curr
        (Ensures-bind (deref-Ensures r.1) λ b e.
          Ensures-ok
            {a = (b, record ctx { buf_read = record (ctx.buf_read) { curr = some b } }, r.0)}
            (alloc_buf-At k m h))
        λ b. Ensures-ok {a = (b, ctx, m)} h

  pub http_context_read-IsContextTurn :
      (a : ReadAnswer) (ctx : HttpContext) (m : Mgmt)
      → At k m
      → Ensures (IsContextTurn k) (http_context_read a ctx m)
  unfolding http_context_read
  http_context_read-IsContextTurn a ctx m h = Ensures-bind (context_current-At ctx m h) λ r e.
      Ensures-bind (check-Ensures (ltb (r.2.bufs r.0).start http_buf_size))
        λ u q. read_cases-IsContextTurn a r.0 r.1 r.2 e
