-- ===== src/Chunk/Parse/Decoded.antt =====
-- A response whose chunks are in one buffer is decoded.
use web_tunnel.Base.{
  ℕ, ◌+◌, ◌*◌, ◌-◌, ◌≤◌, ◌<◌, ◌≡◌, ◌≢◌, refl, ap, ◌∙◌, subst, sym, Bool, true, false, List, [], ◌∷◌,
  ◌++◌, length, Option, none, some, Outcome, ok, Returns, Returns->>=, ◌>>=◌, arith, slice,
  length-slice, if◌then◌else◌, ◌==◌, ==_refl,
}
use web_tunnel.State.{Mgmt, HttpContext}
use web_tunnel.Buffers.{list_del, next_buf_info}
use web_tunnel.Header.{http_buf_size}
use web_tunnel.Chunk.Check.{http_chunk_check}
use web_tunnel.Chunk.Parse.{chunk_rounds, parse_chunks, parse_end, http_parse}
use web_tunnel.Chunk.Machine.{Parser, Verdict, chunk_begin, chunk_loop}
use web_tunnel.Chunk.Parse.Scan.{StandsAt}
use web_tunnel.Chunk.Parse.Copying.{IsBeginning}
use web_tunnel.Chunk.Parse.Finishing.{IsDecoded}
use web_tunnel.Chunk.Parse.Pieces.{
  Piece, ArePieces, encoded, carried, encoded-length, enough-add, chunk_loop-IsDecoded,
}

module _ (b : ℕ) (ctx : HttpContext) (caches : List ℕ) where
  -- What `http_parse` gives.
  pub record IsParsed (got : List ℕ) (r : HttpContext × Mgmt × Bool) : Type 0 where
    pub succeeded : r.2 ≡ true
    pub list : r.0.buf_read.list_todo ≡ b ∷ []
    pub total : r.0.buf_read.len ≡ length got
    pub whole : (r.1.bufs b).len ≡ length got
    pub bytes : slice 0 (length got) (r.1.bufs b).mem ≡ got
    pub free : r.1.http_buf_caches ≡ ctx.buf_read.list_todo ++ caches

  ended-IsParsed :
      (got : List ℕ) (r : Parser × Verdict)
      → IsDecoded b ctx caches got r
      → IsParsed got (parse_end r)
  ended-IsParsed got r d =
      subst (λ v. IsParsed got (parse_end (r.0, v))) (sym d.succeeded)
        (record {
          succeeded = refl;
          list = d.list;
          total = d.total;
          whole = d.whole;
          bytes = d.bytes;
          free = d.free;
        })

  chunk_loop-IsParsed :
      (cs : List Piece) (got : List ℕ) (n : ℕ) (p : Parser)
      → IsBeginning b ctx caches got (encoded cs) p
      → ArePieces cs
      → 0 < length got
      → 5 * length cs + 2 ≤ n
      → Returns (IsParsed (got ++ carried cs)) (chunk_loop n p >>= λ r. ok (parse_end r))
  chunk_loop-IsParsed cs got n p i a h k =
      Returns->>= (IsDecoded b ctx caches (got ++ carried cs)) _ (chunk_loop n p) _
        (subst (λ n. Returns (IsDecoded b ctx caches (got ++ carried cs)) (chunk_loop n p))
          (omega (arith, enough-add cs (n - (5 * length cs + 2))))
          (chunk_loop-IsDecoded b ctx caches cs got (n - (5 * length cs + 2)) p i a h))
        λ r d. ended-IsParsed (got ++ carried cs) r d

module _ (b : ℕ) (bs : List ℕ) (cs : List Piece) (offset : ℕ) (a : ArePieces cs)
    (found : offset ≢ 0) where
  header : Mgmt → List ℕ
  header m = slice 0 offset (m.bufs b).mem

  -- The variables at the start of the loop.
  start : HttpContext → Mgmt → List ℕ → Parser
  start ctx m l = record {
    ctx = record ctx { buf_read = record (ctx.buf_read) { list_todo = l } };
    mgmt = m;
    buf_info = some b;
    last_buf = some b;
    plist = [];
    state = chunk_begin;
    offset = offset;
    last_i = offset;
    new_total = offset;
    j = 0;
    chunk_str = λ _. 0;
    chunk_size = none;
  }

  parse_chunks-eq-loop :
      (ctx : HttpContext) (m : Mgmt)
      → ctx.buf_read.list_todo ≡ b ∷ bs
      → parse_chunks ctx b offset m
        ≡ (chunk_loop (chunk_rounds m (b ∷ bs)) (start ctx m bs) >>= λ r. ok (parse_end r))
  unfolding parse_chunks start
  parse_chunks-eq-loop ctx m e =
      let nonzero : (offset == 0) ≡ false = ground (arith, found) in
      ap (λ l. with_list (list_del b l) (chunk_rounds m l) (offset == 0)) e
      ∙ ap (λ l. with_list l (chunk_rounds m (b ∷ bs)) (offset == 0)) taken_off
      ∙ ap (with_list bs (chunk_rounds m (b ∷ bs))) nonzero
    where
      with_list : List ℕ → ℕ → Bool → Outcome (HttpContext × Mgmt × Bool)
      with_list l n c =
          let run = chunk_loop n (start ctx m l) >>= λ r. ok (parse_end r) in
          if c then ok ((start ctx m l).ctx, m, true) else run

      taken_off : list_del b (b ∷ bs) ≡ bs
      taken_off = ap (λ (c : Bool). if c then bs else b ∷ list_del b bs) (==_refl b)

  start-IsBeginning :
      (ctx : HttpContext) (m : Mgmt)
      → StandsAt (m.bufs b).mem offset (encoded cs)
      → offset + length (encoded cs) ≤ (m.bufs b).len
      → (m.bufs b).len ≤ http_buf_size
      → IsBeginning b
          (record ctx { buf_read = record (ctx.buf_read) { list_todo = bs } })
          m.http_buf_caches
          (header m)
          (encoded cs)
          (start ctx m bs)
  unfolding start header
  start-IsBeginning ctx m s i f =
      let l = length-slice 0 offset (m.bufs b).mem in
      record {
        decoding = record {
          context = refl;
          free = refl;
          here = refl;
          last = refl;
          plist = refl;
          last_i = omega (arith, l);
          total = omega (arith, l);
          behind = omega (arith, l);
          decoded = ap (λ k. slice 0 k (m.bufs b).mem) l;
          left = s;
          inside = i;
          fits = f;
        };
        begins = refl;
        at_zero = refl;
      }

  parse_chunks-IsParsed :
      (ctx : HttpContext) (m : Mgmt)
      → ctx.buf_read.list_todo ≡ b ∷ bs
      → StandsAt (m.bufs b).mem offset (encoded cs)
      → offset + length (encoded cs) ≤ (m.bufs b).len
      → (m.bufs b).len ≤ http_buf_size
      → Returns
          (IsParsed b
            (record ctx { buf_read = record (ctx.buf_read) { list_todo = bs } })
            m.http_buf_caches
            (header m ++ carried cs))
          (parse_chunks ctx b offset m)
  unfolding chunk_rounds header
  parse_chunks-IsParsed ctx m e s i f = subst (Returns _) (sym (parse_chunks-eq-loop ctx m e)) (
      chunk_loop-IsParsed b _ m.http_buf_caches cs (header m) (chunk_rounds m (b ∷ bs))
        (start ctx m bs) (start-IsBeginning ctx m s i f) a
        (omega (arith, length-slice 0 offset (m.bufs b).mem, found))
        (omega (arith, encoded-length cs a)))

  -- A response in chunks is decoded. Let `http_chunk_check` find, in the first buffer of the list of what
  -- was read, a header that ends at `offset` and names the transfer encoding "chunked", and let the chunks
  -- stand behind it in the same buffer: each a line with the number of its bytes in hexadecimal digits,
  -- the bytes, of which there is one at least, and a line's end, and then the chunk "0". Then
  -- `http_parse` succeeds within the rounds that it has; the buffer holds the header and the bytes of
  -- the chunks in order, and nothing else, it alone is on the list, the length of what was read is
  -- theirs, and the other buffers of the list are free.
  pub http_parse-IsParsed :
      (ctx : HttpContext) (m : Mgmt) (checked : HttpContext) (n : Mgmt)
      → next_buf_info ctx.buf_read.list_todo ≡ some b
      → http_chunk_check ctx b m ≡ (checked, n, some offset)
      → checked.is_chunk ≡ true
      → checked.buf_read.list_todo ≡ b ∷ bs
      → StandsAt (n.bufs b).mem offset (encoded cs)
      → offset + length (encoded cs) ≤ (n.bufs b).len
      → (n.bufs b).len ≤ http_buf_size
      → Returns
          (IsParsed b
            (record checked { buf_read = record (checked.buf_read) { list_todo = bs } })
            n.http_buf_caches
            (slice 0 offset (n.bufs b).mem ++ carried cs))
          (http_parse ctx m)
  unfolding http_parse header
  http_parse-IsParsed ctx m checked n first c chunk e s i f =
      subst (Returns _)
        (sym (
          ap (λ o. with_first o) first
          ∙ ap with_check c
          ∙ ap (λ (k : Bool). if k then parse_chunks checked b offset n else ok (checked, n, true))
              chunk))
        (parse_chunks-IsParsed checked n e s i f)
    where
      with_check_of : ℕ → HttpContext × Mgmt × Option ℕ → Outcome (HttpContext × Mgmt × Bool)
      with_check_of d r = elim r.2 [
        | none ↦ ok (r.0, r.1, false)
        | some offset' ↦
            if r.0.is_chunk then parse_chunks r.0 d offset' r.1 else ok (r.0, r.1, true)
      ]

      with_check : HttpContext × Mgmt × Option ℕ → Outcome (HttpContext × Mgmt × Bool)
      with_check = with_check_of b

      with_first : Option ℕ → Outcome (HttpContext × Mgmt × Bool)
      with_first o = elim o [
        | none ↦ ok (record ctx { errcode = 15 }, m, false)
        | some d ↦ with_check_of d (http_chunk_check ctx d m)
      ]
