-- ===== src/Consistent/Parsing.antt =====
-- `http_parse` leaves the clients, the connections and the queue alone.
pub mod Steps
use web_tunnel.Base.{
  ℕ, zero, suc, ◌+◌, ◌-◌, ◌≡◌, refl, not, List, [], ◌∷◌, ◌++◌, Bool, true, false, Option, none,
  some, Outcome, ok, fault, check, deref, uninitialised, null_deref, ◌>>=◌, Ensures, Ensures-ok,
  Ensures-fault, Ensures-bind, Ensures-if, Ensures-mono, Ensures-Option, take, update, ltb, leb,
  ◌==◌, arith, if◌then◌else◌,
}
use web_tunnel.Base.Int.{ℤ, pos, negsuc}
use web_tunnel.State.{Mgmt, HttpContext}
use web_tunnel.Buffers.{alloc_buf, write_buf, free_buf, list_add_tail, list_del, next_buf_info}
use web_tunnel.Header.{http_buf_size}
use web_tunnel.Chunk.Check.{Checked, names_chunked, http_chunk_check, check_header}
use web_tunnel.Chunk.Text.{c_string, scan_hex, strstr}
use web_tunnel.Chunk.Machine.{
  Parser, Verdict, ChunkState, http_chunk_max, todo, chunk_begin, chunk_lrln, chunk_get_size, going,
  parsed, failed, step_begin, scan_size, take_next, finish_parse, step_size, step_newline,
  step_lrln, next_last, copy_byte, copy_chunk, step_get_size, chunk_step, chunk_loop, free_other,
  below_size, at_size,
}
use web_tunnel.Chunk.Parse.{free_all, parse_chunks, parse_end, chunk_rounds, http_parse}
use web_tunnel.Consistent.{Core, At}
use web_tunnel.Consistent.Frames.{alloc_buf-At}
use web_tunnel.Consistent.Parsing.Steps.{StepAt, ParserAt, chunk_loop-StepAt}

module _ (k : Core) where
  abbrev pub ParsedAt : HttpContext × Mgmt × Bool → Type 0
  ParsedAt r = At k r.1

  parse_end-ParsedAt : (r : Parser × Verdict) → StepAt k r → ParsedAt (parse_end r)
  unfolding free_all
  parse_end-ParsedAt (p, going) h = h
  parse_end-ParsedAt (p, parsed) h = h
  parse_end-ParsedAt (p, failed) h = ground arith

  parse_chunks-ParsedAt :
      (ctx : HttpContext) (b offset : ℕ) (m : Mgmt)
      → At k m
      → Ensures ParsedAt (parse_chunks ctx b offset m)
  unfolding parse_chunks
  parse_chunks-ParsedAt ctx b offset m h =
      let p : Parser = record {
        ctx = record ctx {
          buf_read = record (ctx.buf_read) { list_todo = list_del b ctx.buf_read.list_todo };
        };
        mgmt = m;
        buf_info = some b;
        last_buf = some b;
        plist = [];
        state = chunk_begin;
        offset = offset;
        last_i = offset;
        new_total = offset;
        j = 0;
        chunk_str = λ _. 0;
        chunk_size = none;
      } in
      Ensures-if (offset == 0) (Ensures-ok {a = (p.ctx, m, true)} h) (
        Ensures-bind (chunk_loop-StepAt k (chunk_rounds m ctx.buf_read.list_todo) p h)
          λ r e. Ensures-ok {a = parse_end r} (parse_end-ParsedAt r e))

  checked-At :
      (o : Option ℕ) (c : Checked) (f : ℕ → Checked)
      → At k c.1
      → ((i : ℕ) → At k (f i).1)
      → At k (elim o as (λ _. Checked) [ none ↦ c | some i ↦ f i ]).1
  checked-At none c f h e = h
  checked-At (some i) c f h e = e i

  check_header-At :
      (ctx : HttpContext) (offset : ℕ) (header : List ℕ) (m : Mgmt)
      → At k m
      → At k (check_header ctx offset header m).1
  unfolding check_header write_buf
  check_header-At ctx offset header m h =
      let r = alloc_buf m in
      let e = alloc_buf-At k m h in
      let named = if names_chunked header then record ctx { is_chunk = true } else ctx in
      checked-At r.1 (record ctx { errcode = 11 }, m, none)
        (λ t. (named, free_buf (some t) (write_buf t 0 (header ++ 0 ∷ []) r.0), some offset)) h
        λ t. e

  http_chunk_check-At :
      (ctx : HttpContext) (b : ℕ) (m : Mgmt) → At k m → At k (http_chunk_check ctx b m).1
  unfolding http_chunk_check write_buf
  http_chunk_check-At ctx b m h =
      let m1 = write_buf b (m.bufs b).len (0 ∷ []) m in
      let text = c_string ((m.bufs b).len + 1) 0 (m1.bufs b).mem in
      checked-At (strstr (13 ∷ 10 ∷ 13 ∷ 10 ∷ []) text) (ctx, m1, some 0)
        (λ i. check_header ctx (i + 4) (take (i + 4) text) m1) h
        λ i. check_header-At ctx (i + 4) (take (i + 4) text) m1 h

  pub http_parse-ParsedAt :
      (ctx : HttpContext) (m : Mgmt) → At k m → Ensures ParsedAt (http_parse ctx m)
  unfolding http_parse
  http_parse-ParsedAt ctx m h =
      Ensures-Option (next_buf_info ctx.buf_read.list_todo)
        (Ensures-ok {a = (record ctx { errcode = 15 }, m, false)} h)
        λ b.
          let r = http_chunk_check ctx b m in
          let e = http_chunk_check-At ctx b m h in
          Ensures-Option r.2 (Ensures-ok {a = (r.0, r.1, false)} e) λ offset.
            Ensures-if r.0.is_chunk (parse_chunks-ParsedAt r.0 b offset r.1 e)
              (Ensures-ok {a = (r.0, r.1, true)} e)
