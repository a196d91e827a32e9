-- ===== src/Chunk/Parse.antt =====
-- `http_parse`.
pub mod Hang
pub mod Scan
pub mod Steps
pub mod Copying
pub mod Decoding
pub mod Decoded
pub mod Finishing
pub mod Pieces
use web_tunnel.Base.{
  ℕ, zero, suc, ◌+◌, ◌-◌, ◌*◌, Bool, true, false, not, ◌&&◌, List, [], ◌∷◌, ◌++◌, length, take,
  drop, Option, none, some, Outcome, ok, fault, null_deref, no_rounds, uninitialised, ◌>>=◌, ◌>>◌,
  check, deref, update, ltb, leb, ◌==◌, if◌then◌else◌,
}
use web_tunnel.Base.Int.{ℤ, pos, negsuc}
use web_tunnel.State.{Mgmt, Buf, HttpContext}
use web_tunnel.Buffers.{alloc_buf, free_buf, next_buf_info, list_add_tail, list_del, write_buf}
use web_tunnel.Header.{http_buf_size}
use web_tunnel.ToServer.{codes}
use web_tunnel.Chunk.Text.{c_string, strstr, strcasestr, scan_hex}
use web_tunnel.Chunk.Check.{http_chunk_check}
use web_tunnel.Chunk.Machine.{
  ChunkState, http_chunk_max, Parser, Verdict, same_ptr, todo, set_todo, free_other, take_next,
  scan_size, step_begin, finish_parse, step_size, step_newline, step_lrln, next_last, copy_byte,
  copy_chunk, step_get_size, chunk_step, chunk_loop, chunk_begin, chunk_lrln, chunk_get_size, going,
  parsed, failed,
}

-- `if(rc < 0)` at the end.
unfoldable pub free_all : Parser → HttpContext × Mgmt
free_all p =
    let m1 = free_buf p.last_buf p.mgmt in
    let m2 = if same_ptr p.buf_info p.last_buf then m1 else free_buf p.buf_info m1 in
    (p.ctx, record m2 { http_buf_caches = p.plist ++ m2.http_buf_caches })

abbrev pub bytes_of : (ℕ → Buf) → List ℕ → ℕ
bytes_of bufs [] = 0
bytes_of bufs (b ∷ bs) = (bufs b).len + bytes_of bufs bs

-- A round takes a byte or a buffer, or ends a chunk, unless the size of the chunk is negative.
unfoldable pub chunk_rounds : Mgmt → List ℕ → ℕ
chunk_rounds m bs = 2 * (bytes_of m.bufs bs + length bs) + 4

abbrev pub parse_end : Parser × Verdict → HttpContext × Mgmt × Bool
parse_end (p, going) = (p.ctx, p.mgmt, true)
parse_end (p, parsed) = (p.ctx, p.mgmt, true)
parse_end (p, failed) = let r = free_all p in (r.0, r.1, false)

-- The response in chunks, whose header ends at `offset` in its first buffer `b`.
unfoldable pub parse_chunks : HttpContext → ℕ → ℕ → Mgmt → Outcome (HttpContext × Mgmt × Bool)
unfolding chunk_loop chunk_rounds free_all
parse_chunks ctx b offset m =
    let p : Parser = record {
      ctx = record ctx {
        buf_read = record (ctx.buf_read) { list_todo = list_del b ctx.buf_read.list_todo };
      };
      mgmt = m;
      buf_info = some b;
      last_buf = some b;
      plist = [];
      state = chunk_begin;
      offset = offset;
      last_i = offset;
      new_total = offset;
      j = 0;
      chunk_str = λ _. 0;
      chunk_size = none;
    } in
    let run = chunk_loop (chunk_rounds m ctx.buf_read.list_todo) p >>= λ r. ok (parse_end r) in
    if offset == 0 then ok (p.ctx, m, true) else run

-- `http_parse`; the Boolean is that 0 is returned.
unfoldable pub http_parse : HttpContext → Mgmt → Outcome (HttpContext × Mgmt × Bool)
unfolding http_chunk_check parse_chunks
http_parse ctx m = elim (next_buf_info ctx.buf_read.list_todo) [
  | none ↦ ok (record ctx { errcode = 15 }, m, false)
  | some b ↦
      (let r = http_chunk_check ctx b m in
        elim r.2 [
          | none ↦ ok (r.0, r.1, false)
          | some offset ↦
              if r.0.is_chunk then parse_chunks r.0 b offset r.1 else ok (r.0, r.1, true)
        ])
]
