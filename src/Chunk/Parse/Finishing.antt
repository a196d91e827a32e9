-- ===== src/Chunk/Parse/Finishing.antt =====
-- The end of the loop of `http_parse`: the last chunk.
use mathlib.Core.Path.{ap₂}
use web_tunnel.Base.{
  ℕ, suc, ◌+◌, ◌<◌, ◌≡◌, ◌≢◌, refl, ap, ◌∙◌, subst, sym, Bool, true, List, [], ◌∷◌, ◌++◌, length,
  none, some, Outcome, ok, deref, Returns, Returns->>=, ◌>>=◌, arith, slice, update, update_self,
  ltb, ==_refl, if◌then◌else◌,
}
use web_tunnel.Base.Int.{pos}
use web_tunnel.State.{HttpContext, Buf}
use web_tunnel.Buffers.{free_buf, list_add_tail}
use web_tunnel.Chunk.Text.{scan_hex}
use web_tunnel.Chunk.Machine.{
  Parser, Verdict, going, parsed, failed, chunk_lrln, chunk_get_size, chunk_step, chunk_loop,
  finish_parse, todo, same_ptr, free_other,
}
use web_tunnel.Chunk.Parse.Steps.{sized, step_lrln-finish}
use web_tunnel.Chunk.Parse.Copying.{IsDecoding, moved-IsDecoding}
use web_tunnel.Chunk.Parse.Decoding.{IsBehindLine, step_in, chunk_step-eq-step_in}

module _ (b : ℕ) (ctx : HttpContext) (caches : List ℕ) where
  -- The response is decoded: it stands in the buffer `b`, and the other buffers are free.
  pub record IsDecoded (got : List ℕ) (r : Parser × Verdict) : Type 0 where
    pub succeeded : r.1 ≡ parsed
    pub list : r.0.ctx.buf_read.list_todo ≡ b ∷ []
    pub total : r.0.ctx.buf_read.len ≡ length got
    pub whole : (r.0.mgmt.bufs b).len ≡ length got
    pub bytes : slice 0 (length got) (r.0.mgmt.bufs b).mem ≡ got
    pub free : r.0.mgmt.http_buf_caches ≡ ctx.buf_read.list_todo ++ caches

  -- What `finish_parse` leaves; the Boolean is whether the last buffer is kept.
  finished : Bool → ℕ → Parser → Parser × Verdict
  finished kept c q =
      let buf = q.mgmt.bufs c in
      let m1 =
        if kept
        then record (q.mgmt) {
          bufs = update q.mgmt.bufs c (record buf { len = q.last_i; total_len = q.last_i });
        }
        else free_buf (some c) q.mgmt in
      let list = if kept then list_add_tail c q.plist else q.plist in
      let m2 = record m1 { http_buf_caches = todo q ++ m1.http_buf_caches } in
      let buf_read = record (q.ctx.buf_read) { list_todo = list; len = q.new_total } in
      (
        record q {
          mgmt = m2;
          ctx = record (q.ctx) { buf_read = buf_read };
          plist = [];
          last_buf = none;
          buf_info = none;
        },
        parsed,
      )

  free_other-same : (p : Parser) → p.buf_info ≡ some b → p.last_buf ≡ some b → free_other p ≡ p
  free_other-same p e f =
      ap (λ (c : Bool). if c then p else record p { mgmt = free_buf p.buf_info p.mgmt })
        (ap₂ same_ptr e f ∙ ==_refl b)

  finish_parse-eq-finished :
      (got rest : List ℕ) (p : Parser)
      → IsDecoding b ctx caches got rest p
      → 0 < length got
      → finish_parse p ≡ ok (finished true b p)
  unfolding finish_parse finished
  finish_parse-eq-finished got rest p d h =
      let kept : ltb 0 p.last_i ≡ true = ground (arith, d.last_i) in
      ap (λ q. deref q.last_buf >>= λ c. ok (finished (ltb 0 q.last_i) c q))
        (free_other-same p d.here d.last)
      ∙ ap (λ o. deref o >>= λ c. ok (finished (ltb 0 p.last_i) c p)) d.last
      ∙ ap (λ k. ok (finished k b p)) kept

  finish_parse-IsDecoded :
      (got rest : List ℕ) (p : Parser)
      → IsDecoding b ctx caches got rest p
      → 0 < length got
      → Returns (IsDecoded got) (finish_parse p)
  unfolding finished
  finish_parse-IsDecoded got rest p d h =
      subst (Returns (IsDecoded got)) (sym (finish_parse-eq-finished got rest p d h)) (record {
        succeeded = refl;
        list = ap (list_add_tail b) d.plist;
        total = d.total;
        whole = ap (λ (u : Buf). u.len) (update_self p.mgmt.bufs b _) ∙ d.last_i;
        bytes =
            ap (λ (u : Buf). slice 0 (length got) u.mem) (update_self p.mgmt.bufs b _) ∙ d.decoded;
        free = ap₂ (λ (c : HttpContext) l. c.buf_read.list_todo ++ l) d.context d.free;
      })

  -- The last chunk.
  pub last-IsDecoded :
      (line got rest : List ℕ) (n : ℕ) (p : Parser)
      → IsBehindLine b ctx caches line got rest p
      → line ≢ []
      → scan_hex line ≡ some (pos 0)
      → 0 < length got
      → Returns (IsDecoded got) (chunk_loop (suc n) p)
  unfolding chunk_loop step_in
  last-IsDecoded line got rest n p i shown e h =
      Returns->>= (IsDecoded got) _ (chunk_step p) _
        (subst (Returns (IsDecoded got))
          (sym (
            chunk_step-eq-step_in b chunk_lrln p i.decoding.here i.waits
            ∙ step_lrln-finish b p line (omega (arith, i.decoding.inside)) i.decoding.left.0
                (i.something shown) i.text e))
          (finish_parse-IsDecoded got rest (sized 0 p)
            (moved-IsDecoding b ctx caches got _ p rest (p.offset + 1) chunk_get_size 0 p.chunk_str
              (some (pos 0)) i.decoding (omega arith) i.decoding.left.1
              (omega (arith, i.decoding.inside)))
            h))
        λ r d.
          subst (λ v. Returns (IsDecoded got) (go r.0 v)) (sym d.succeeded)
            (record {
              succeeded = refl;
              list = d.list;
              total = d.total;
              whole = d.whole;
              bytes = d.bytes;
              free = d.free;
            })
    where
      go : Parser → Verdict → Outcome (Parser × Verdict)
      go q v = elim v [ going ↦ chunk_loop n q | parsed ↦ ok (q, parsed) | failed ↦ ok (q, failed) ]
