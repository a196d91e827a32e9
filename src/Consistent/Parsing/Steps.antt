-- ===== src/Consistent/Parsing/Steps.antt =====
-- The state machine of `http_parse` leaves the clients, the connections and the queue alone.
use web_tunnel.Base.{
  Option, Unfreed, deref-Ensures, check-Ensures, Fault, ltb, ◌++◌, ℕ, zero, suc, ◌+◌, ◌-◌, not, [],
  ◌∷◌, Bool, true, false, none, some, Outcome, ok, fault, uninitialised, null_deref, Ensures,
  Ensures-ok, Ensures-fault, Ensures-bind, Ensures-if, Ensures-Option, update, leb, ◌==◌, arith,
  if◌then◌else◌,
}
use web_tunnel.State.{Mgmt}
use web_tunnel.Base.Int.{ℤ, pos, negsuc}
use web_tunnel.Buffers.{free_buf, alloc_buf, write_buf, list_add_tail}
use web_tunnel.Header.{http_buf_size}
use web_tunnel.Chunk.Text.{c_string, scan_hex}
use web_tunnel.Chunk.Machine.{
  todo, Parser, Verdict, ChunkState, http_chunk_max, chunk_begin, chunk_lrln, chunk_get_size, going,
  parsed, failed, step_begin, scan_size, take_next, finish_parse, step_size, step_newline,
  step_lrln, next_last, copy_byte, copy_chunk, step_get_size, chunk_step, chunk_loop, free_other,
  below_size, at_size,
}
use web_tunnel.Consistent.{Core, At}
use web_tunnel.Consistent.Frames.{alloc_buf-At}

module _ (k : Core) where
  abbrev pub ParserAt : Parser → Type 0
  ParserAt p = At k p.mgmt

  abbrev pub StepAt : Parser × Verdict → Type 0
  StepAt r = At k r.0.mgmt

  take_next-At : (p : Parser) → ParserAt p → ParserAt (take_next p)
  unfolding take_next
  take_next-At p h = ground arith

  free_other-At : (p : Parser) → ParserAt p → ParserAt (free_other p)
  free_other-At p h = ground arith

  -- The next buffer, or the end of them.
  next-StepAt :
      (p : Parser) (f : Outcome (Parser × Verdict))
      → ParserAt p
      → Ensures StepAt f
      → Ensures StepAt (elim p.buf_info as (λ _. Outcome (Parser × Verdict)) [
        | none ↦ f
        | some c ↦ ok (p, going)
      ])
  next-StepAt p f h e = Ensures-Option p.buf_info e λ c. Ensures-ok {a = (p, going)} h

  step_begin-StepAt : (b : ℕ) (p : Parser) → ParserAt p → Ensures StepAt (step_begin b p)
  unfolding step_begin
  step_begin-StepAt b p h =
      let buf = p.mgmt.bufs b in
      let r = scan_size (buf.len - p.offset) p.offset buf.mem p.j p.chunk_str in
      let q = record p { j = r.1; chunk_str = r.2 } in
      let t = take_next q in
      let e = take_next-At q h in
      Ensures-if (r.1 == http_chunk_max)
        (Ensures-ok {a = (record q { ctx = record (q.ctx) { errcode = 12 } }, failed)} h)
        (Ensures-if (r.0 == buf.len)
          (next-StepAt t (ok (t, failed)) e (Ensures-ok {a = (t, failed)} e))
          (Ensures-ok
            {a = (
              record q {
                chunk_str = update r.2 r.1 0;
                offset = r.0 + 1;
                state = chunk_lrln;
                j = 0;
              },
              going,
            )}
            h))

  if-At : (c : Bool) (m n : Mgmt) → At k m → At k n → At k (if c then m else n)
  if-At true m n h e = h
  if-At false m n h e = e

  finish_parse-StepAt : (p : Parser) → ParserAt p → Ensures StepAt (finish_parse p)
  unfolding finish_parse
  finish_parse-StepAt p h =
      let q = free_other p in
      let e = free_other-At p h in
      Ensures-bind (deref-Ensures q.last_buf) λ b d.
        let buf = q.mgmt.bufs b in
        let kept = ltb 0 q.last_i in
        let m0 = record (q.mgmt) {
          bufs = update q.mgmt.bufs b (record buf { len = q.last_i; total_len = q.last_i });
        } in
        let m1 = if kept then m0 else free_buf (some b) q.mgmt in
        let list = if kept then list_add_tail b q.plist else q.plist in
        let m2 = record m1 { http_buf_caches = todo q ++ m1.http_buf_caches } in
        let buf_read = record (q.ctx.buf_read) { list_todo = list; len = q.new_total } in
        let r = record q {
          mgmt = m2;
          ctx = record (q.ctx) { buf_read = buf_read };
          plist = [];
          last_buf = none;
          buf_info = none;
        } in
        Ensures-ok {a = (r, parsed)} (if-At kept m0 (free_buf (some b) q.mgmt) e e)

  sized-StepAt :
      (z : ℤ) (q : Parser)
      → ParserAt q
      → Ensures StepAt (elim z as (λ _. Outcome (Parser × Verdict)) [
        | pos n ↦ if n == 0 then finish_parse q else ok (q, going)
        | negsuc n ↦ ok (q, going)
      ])
  sized-StepAt (pos n) q h =
      Ensures-if (n == 0) (finish_parse-StepAt q h) (Ensures-ok {a = (q, going)} h)
  sized-StepAt (negsuc n) q h = Ensures-ok {a = (q, going)} h

  size-Unfreed :
      (o old : Option ℤ)
      → Unfreed (elim o as (λ _. Outcome ℤ) [
        | none ↦ (elim old as (λ _. Outcome ℤ) [ none ↦ fault uninitialised | some z ↦ ok z ])
        | some z ↦ ok z
      ])
  size-Unfreed none none = Ensures-fault Fault.uninitialised tt
  size-Unfreed none (some z) = Ensures-ok tt
  size-Unfreed (some z) old = Ensures-ok tt

  step_size-StepAt : (p : Parser) → ParserAt p → Ensures StepAt (step_size p)
  unfolding step_size
  step_size-StepAt p h =
      Ensures-bind
        (size-Unfreed (scan_hex (c_string (http_chunk_max + 1) 0 p.chunk_str)) p.chunk_size)
        λ z u. sized-StepAt z (record p { state = chunk_get_size; chunk_size = some z }) h

  step_newline-StepAt : (b : ℕ) (p : Parser) → ParserAt p → Ensures StepAt (step_newline b p)
  unfolding step_newline
  step_newline-StepAt b p h =
      let q = record p { offset = p.offset + 1; j = 0 } in
      Ensures-if (not ((p.mgmt.bufs b).mem p.offset == 10)) (Ensures-ok {a = (p, failed)} h) (
        Ensures-if (q.chunk_str 0 == 0)
          (Ensures-ok {a = (record q { state = chunk_begin }, going)} h) (step_size-StepAt q h))

  step_lrln-StepAt : (b : ℕ) (p : Parser) → ParserAt p → Ensures StepAt (step_lrln b p)
  unfolding step_lrln
  step_lrln-StepAt b p h =
      let t = take_next p in
      let e = take_next-At p h in
      Ensures-if (p.offset == (p.mgmt.bufs b).len)
        (Ensures-Option t.buf_info (Ensures-ok {a = (t, failed)} e) λ c. step_newline-StepAt c t e)
        (step_newline-StepAt b p h)

  next_last-ParserAt : (b : ℕ) (p : Parser) → ParserAt p → Ensures ParserAt (next_last b p)
  unfolding next_last
  next_last-ParserAt b p h =
      let buf = record (p.mgmt.bufs b) { len = p.last_i; start = 0; total_len = 0 } in
      let m1 = record (p.mgmt) { bufs = update p.mgmt.bufs b buf } in
      let r = alloc_buf m1 in
      let q = record p {
        mgmt = r.0;
        plist = list_add_tail b p.plist;
        last_buf = r.1;
        last_i = 0;
      } in
      Ensures-bind (check-Ensures (elim r.1 as (λ _. Bool) [ none ↦ false | some c ↦ true ]))
        λ u z. Ensures-ok {a = q} (alloc_buf-At k m1 h)

  copy_byte-ParserAt : (b : ℕ) (p : Parser) → ParserAt p → Ensures ParserAt (copy_byte b p)
  unfolding copy_byte write_buf
  copy_byte-ParserAt b p h = Ensures-bind (deref-Ensures p.last_buf) λ l e.
      let byte = (p.mgmt.bufs b).mem p.offset in
      let q = record p {
        mgmt = write_buf l p.last_i (byte ∷ []) p.mgmt;
        last_i = p.last_i + 1;
        new_total = p.new_total + 1;
        offset = p.offset + 1;
        j = p.j + 1;
      } in
      Ensures-if (leb http_buf_size q.last_i) (next_last-ParserAt l q h) (Ensures-ok {a = q} h)

  copy_chunk-ParserAt : (n b : ℕ) (p : Parser) → ParserAt p → Ensures ParserAt (copy_chunk n b p)
  unfolding copy_chunk
  copy_chunk-ParserAt zero b p h = Ensures-ok {a = p} h
  copy_chunk-ParserAt (suc n) b p h =
      Ensures-if (below_size p.j p.chunk_size)
        (Ensures-bind (copy_byte-ParserAt b p h) λ q e. copy_chunk-ParserAt n b q e)
        (Ensures-ok {a = p} h)

  step_get_size-StepAt : (b : ℕ) (p : Parser) → ParserAt p → Ensures StepAt (step_get_size b p)
  unfolding step_get_size
  step_get_size-StepAt b p h =
      Ensures-bind (copy_chunk-ParserAt ((p.mgmt.bufs b).len - p.offset) b p h) λ q e.
        let t = take_next q in
        Ensures-if (q.offset == (q.mgmt.bufs b).len)
          (next-StepAt t (fault null_deref) (take_next-At q e) (Ensures-fault Fault.null_deref tt))
          (Ensures-if (at_size q.j q.chunk_size)
            (Ensures-ok {a = (record q { state = chunk_begin; j = 0 }, going)} e)
            (Ensures-ok {a = (record q { offset = p.offset }, going)} e))

  step_in-StepAt :
      (s : ChunkState) (b : ℕ) (p : Parser)
      → ParserAt p
      → Ensures StepAt (elim s [
        | chunk_begin ↦ step_begin b p
        | chunk_lrln ↦ step_lrln b p
        | chunk_get_size ↦ step_get_size b p
      ])
  step_in-StepAt chunk_begin b p h = step_begin-StepAt b p h
  step_in-StepAt chunk_lrln b p h = step_lrln-StepAt b p h
  step_in-StepAt chunk_get_size b p h = step_get_size-StepAt b p h

  chunk_step-StepAt : (p : Parser) → ParserAt p → Ensures StepAt (chunk_step p)
  unfolding chunk_step
  chunk_step-StepAt p h =
      Ensures-bind (deref-Ensures p.buf_info) λ b e. step_in-StepAt p.state b p h

  after_step-StepAt :
      (w : Verdict) (q : Parser) (next : Outcome (Parser × Verdict))
      → ParserAt q
      → Ensures StepAt next
      → Ensures StepAt (elim w [ going ↦ next | parsed ↦ ok (q, parsed) | failed ↦ ok (q, failed) ])
  after_step-StepAt going q next e h = h
  after_step-StepAt parsed q next e h = Ensures-ok {a = (q, parsed)} e
  after_step-StepAt failed q next e h = Ensures-ok {a = (q, failed)} e

  pub chunk_loop-StepAt : (n : ℕ) (p : Parser) → ParserAt p → Ensures StepAt (chunk_loop n p)
  unfolding chunk_loop
  chunk_loop-StepAt zero p h = (Ensures-fault Fault.no_rounds tt)
  chunk_loop-StepAt (suc n) p h =
      Ensures-bind (chunk_step-StepAt p h)
        λ r e. after_step-StepAt r.1 r.0 (chunk_loop n r.0) e (chunk_loop-StepAt n r.0 e)
