-- ===== src/Chunk/Parse/Decoding.antt =====
-- The loop of `http_parse` over the lines of a response that is in one buffer.
use web_tunnel.Base.{
  ℕ, suc, ◌+◌, ◌≤◌, ◌<◌, ◌≡◌, ◌≢◌, refl, ap, ◌∙◌, subst, sym, List, [], ◌∷◌, ◌++◌, length,
  length-append, some, Outcome, ok, deref, Returns, Returns->>=, ◌>>=◌, arith,
}
use web_tunnel.Base.Int.{pos}
use web_tunnel.State.{HttpContext}
use web_tunnel.Chunk.Text.{scan_hex, c_string}
use web_tunnel.Chunk.Machine.{
  Parser, Verdict, ChunkState, going, parsed, failed, chunk_begin, chunk_lrln, chunk_get_size,
  chunk_step, chunk_loop, step_begin, step_lrln, step_get_size,
}
use web_tunnel.Chunk.Parse.Scan.{
  StandsAt, StandsAt-append, append-StandsAt, IsLine, terminated, c_string-terminated,
  terminated_head,
}
use web_tunnel.Chunk.Parse.Steps.{step_begin-line, step_lrln_empty, step_lrln-sized}
use web_tunnel.Chunk.Parse.Copying.{
  IsDecoding, IsBeginning, moved-IsDecoding, step_get_size-IsBeginning,
}

-- A step after which the loop goes on.
pub step-Returns :
    (P : Parser → Type 0) (Q : Parser × Verdict → Type 0) (n : ℕ) (p : Parser)
    → Returns (λ r. (r.1 ≡ going) × P r.0) (chunk_step p)
    → ((q : Parser) → P q → Returns Q (chunk_loop n q))
    → Returns Q (chunk_loop (suc n) p)
unfolding chunk_loop
step-Returns P Q n p h k =
    Returns->>= (λ r. (r.1 ≡ going) × P r.0) Q (chunk_step p) _ h
      λ r e. subst (λ v. Returns Q (go r.0 v)) (sym e.0) (k r.0 e.1)
  where
    go : Parser → Verdict → Outcome (Parser × Verdict)
    go q v = elim v [ going ↦ chunk_loop n q | parsed ↦ ok (q, parsed) | failed ↦ ok (q, failed) ]

-- The step of a state.
unfoldable pub step_in : ℕ → ChunkState → Parser → Outcome (Parser × Verdict)
step_in b s p = elim s [
  | chunk_begin ↦ step_begin b p
  | chunk_lrln ↦ step_lrln b p
  | chunk_get_size ↦ step_get_size b p
]

pub chunk_step-eq-step_in :
    (b : ℕ) (s : ChunkState) (p : Parser)
    → p.buf_info ≡ some b
    → p.state ≡ s
    → chunk_step p ≡ step_in b s p
unfolding chunk_step step_in
chunk_step-eq-step_in b s p e f =
    ap (λ o. deref o >>= λ c. step_in c p.state p) e ∙ ap (λ t. step_in b t p) f

module _ (b : ℕ) (ctx : HttpContext) (caches : List ℕ) where
  -- Behind a line, before its newline.
  pub record IsBehindLine (line got rest : List ℕ) (q : Parser) : Type 0 where
    pub decoding : IsDecoding b ctx caches got (10 ∷ rest) q
    pub strictly : length got < q.offset
    pub waits : q.state ≡ chunk_lrln
    pub text : c_string 33 0 q.chunk_str ≡ line
    pub nothing : line ≡ [] → q.chunk_str 0 ≡ 0
    pub something : line ≢ [] → q.chunk_str 0 ≢ 0

  terminated-nothing : (line : List ℕ) (str : ℕ → ℕ) → line ≡ [] → terminated line str 0 ≡ 0
  terminated-nothing line str e = subst (λ l. terminated l str 0 ≡ 0) (sym e) (ground arith)

  terminated-something :
      (line : List ℕ) (str : ℕ → ℕ) → IsLine line → line ≢ [] → terminated line str 0 ≢ 0
  terminated-something [] str l h = absurd (h refl)
  terminated-something (x ∷ xs) str l h = λ e. l.0 (sym (terminated_head x xs str) ∙ e)

  pub begin-IsBehindLine :
      (line got rest : List ℕ) (p : Parser)
      → IsBeginning b ctx caches got (line ++ 13 ∷ 10 ∷ rest) p
      → IsLine line
      → length line < 32
      → Returns (λ r. (r.1 ≡ going) × IsBehindLine line got rest r.0) (chunk_step p)
  unfolding step_in
  begin-IsBehindLine line got rest p i l h =
      subst (Returns _)
        (sym (
          chunk_step-eq-step_in b chunk_begin p i.decoding.here i.begins
          ∙ step_begin-line b p line i.at_zero at_line l h room))
        (
          refl,
          record {
            decoding =
                moved-IsDecoding b ctx caches got _ p (10 ∷ rest) (p.offset + length line + 1)
                  chunk_lrln 0 (terminated line p.chunk_str) p.chunk_size i.decoding (omega arith)
                  stands.1.1 ends;
            strictly = omega (arith, i.decoding.behind);
            waits = refl;
            text = c_string-terminated line p.chunk_str l h;
            nothing = terminated-nothing line p.chunk_str;
            something = terminated-something line p.chunk_str l;
          },
        )
    where
      room : p.offset + length line < (p.mgmt.bufs b).len
      room = omega (arith, i.decoding.inside, length-append line (13 ∷ 10 ∷ rest))

      stands :
          StandsAt (p.mgmt.bufs b).mem p.offset line
          × StandsAt (p.mgmt.bufs b).mem (p.offset + length line) (13 ∷ 10 ∷ rest)
      stands = StandsAt-append (p.mgmt.bufs b).mem p.offset line (13 ∷ 10 ∷ rest) i.decoding.left

      at_line : StandsAt (p.mgmt.bufs b).mem p.offset (line ++ 13 ∷ [])
      at_line =
          append-StandsAt (p.mgmt.bufs b).mem p.offset line (13 ∷ []) stands.0 (stands.1.0, tt)

      ends : p.offset + length line + 1 + length (10 ∷ rest) ≤ (p.mgmt.bufs b).len
      ends = omega (arith, i.decoding.inside, length-append line (13 ∷ 10 ∷ rest))

  -- The empty line behind a chunk's bytes.
  pub empty-IsBeginning :
      (got rest : List ℕ) (p : Parser)
      → IsBehindLine [] got rest p
      → Returns (λ r. (r.1 ≡ going) × IsBeginning b ctx caches got rest r.0) (chunk_step p)
  unfolding step_in
  empty-IsBeginning got rest p i =
      subst (Returns _)
        (sym (
          chunk_step-eq-step_in b chunk_lrln p i.decoding.here i.waits
          ∙ step_lrln_empty b p (omega (arith, i.decoding.inside)) i.decoding.left.0
              (i.nothing refl)))
        (
          refl,
          record {
            decoding =
                moved-IsDecoding b ctx caches got _ p rest (p.offset + 1) chunk_begin 0 p.chunk_str
                  p.chunk_size i.decoding (omega arith) i.decoding.left.1
                  (omega (arith, i.decoding.inside));
            begins = refl;
            at_zero = refl;
          },
        )

  -- The size of a chunk was read.
  pub record IsSized (n : ℕ) (got rest : List ℕ) (q : Parser) : Type 0 where
    pub decoding : IsDecoding b ctx caches got rest q
    pub strictly : length got < q.offset
    pub waits : q.state ≡ chunk_get_size
    pub size : q.chunk_size ≡ some (pos n)
    pub at_zero : q.j ≡ 0

  pub line-IsSized :
      (line got rest : List ℕ) (n : ℕ) (p : Parser)
      → IsBehindLine line got rest p
      → line ≢ []
      → scan_hex line ≡ some (pos n)
      → n ≢ 0
      → Returns (λ r. (r.1 ≡ going) × IsSized n got rest r.0) (chunk_step p)
  unfolding step_in
  line-IsSized line got rest n p i shown e ne =
      subst (Returns _)
        (sym (
          chunk_step-eq-step_in b chunk_lrln p i.decoding.here i.waits
          ∙ step_lrln-sized b p line (omega (arith, i.decoding.inside)) i.decoding.left.0
              (i.something shown) i.text n e ne))
        (
          refl,
          record {
            decoding =
                moved-IsDecoding b ctx caches got _ p rest (p.offset + 1) chunk_get_size 0
                  p.chunk_str (some (pos n)) i.decoding (omega arith) i.decoding.left.1
                  (omega (arith, i.decoding.inside));
            strictly = omega (arith, i.strictly);
            waits = refl;
            size = refl;
            at_zero = refl;
          },
        )

  pub copied-IsBeginning :
      (xs rest got : List ℕ) (p : Parser)
      → IsSized (length xs) got (xs ++ rest) p
      → 1 ≤ length rest
      → Returns (λ r. (r.1 ≡ going) × IsBeginning b ctx caches (got ++ xs) rest r.0) (chunk_step p)
  unfolding step_in
  copied-IsBeginning xs rest got p i h =
      subst (Returns _) (sym (chunk_step-eq-step_in b chunk_get_size p i.decoding.here i.waits)) (
        step_get_size-IsBeginning b ctx caches xs rest got p i.decoding i.strictly h i.size
          i.at_zero)
