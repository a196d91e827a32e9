-- ===== src/Chunk/Parse/Copying.antt =====
-- Putting the bytes of a chunk behind those that were decoded before, within one buffer.
use mathlib.Core.Path.{ap₂}
use web_tunnel.Base.{
  ℕ, zero, suc, ◌+◌, ◌-◌, ◌≤◌, ◌<◌, ◌≡◌, refl, ap, ◌∙◌, subst, sym, Bool, true, false, List, [],
  ◌∷◌, ◌++◌, length, length-append, append_assoc, append-nil, Option, none, some, Outcome, ok,
  fault, null_deref, Returns, Returns->>=, ◌>>=◌, deref, arith, update_self, copy, slice,
  slice-append, slice-copy, slice-copy_below, copy_above, leb, ◌==◌, ==_refl, if◌then◌else◌,
}
use web_tunnel.Base.Int.{ℤ, pos}
use web_tunnel.State.{HttpContext, Buf}
use web_tunnel.Buffers.{write_buf}
use web_tunnel.Header.{http_buf_size}
use web_tunnel.Chunk.Machine.{
  Parser, Verdict, going, chunk_begin, copy_byte, copy_chunk, step_get_size, next_last, below_size,
  at_size, take_next, ChunkState,
}
use web_tunnel.Chunk.Parse.Scan.{StandsAt, StandsAt-kept}

-- Of the response, `got` was decoded into the head of the buffer `b`, which is the only one, and `rest`
-- is still to be decoded.
pub record IsDecoding (b : ℕ) (ctx : HttpContext) (caches : List ℕ) (got rest : List ℕ) (p : Parser)
    : Type 0 where
  pub context : p.ctx ≡ ctx
  pub free : p.mgmt.http_buf_caches ≡ caches
  pub here : p.buf_info ≡ some b
  pub last : p.last_buf ≡ some b
  pub plist : p.plist ≡ []
  pub last_i : p.last_i ≡ length got
  pub total : p.new_total ≡ length got
  pub behind : length got ≤ p.offset
  pub decoded : slice 0 (length got) (p.mgmt.bufs b).mem ≡ got
  pub left : StandsAt (p.mgmt.bufs b).mem p.offset rest
  pub inside : p.offset + length rest ≤ (p.mgmt.bufs b).len
  pub fits : (p.mgmt.bufs b).len ≤ http_buf_size

-- A byte is put behind the decoded ones.
abbrev copied : ℕ → Parser → Parser
copied b p = record p {
  mgmt = write_buf b p.last_i ((p.mgmt.bufs b).mem p.offset ∷ []) p.mgmt;
  last_i = p.last_i + 1;
  new_total = p.new_total + 1;
  offset = p.offset + 1;
  j = p.j + 1;
}

copy_byte-eq-copied :
    (b : ℕ) (p : Parser)
    → p.last_buf ≡ some b
    → p.last_i + 1 < http_buf_size
    → copy_byte b p ≡ ok (copied b p)
unfolding copy_byte
copy_byte-eq-copied b p e h =
    let room : leb http_buf_size (p.last_i + 1) ≡ false = ground arith in
    ap (λ o. deref o >>= with_last) e
    ∙ ap (λ (c : Bool). if c then next_last b (copied b p) else ok (copied b p)) room
  where
    with_last : ℕ → Outcome Parser
    with_last l =
        let q = record p {
          mgmt = write_buf l p.last_i ((p.mgmt.bufs b).mem p.offset ∷ []) p.mgmt;
          last_i = p.last_i + 1;
          new_total = p.new_total + 1;
          offset = p.offset + 1;
          j = p.j + 1;
        } in
        if leb http_buf_size q.last_i then next_last l q else ok q

module _ (b : ℕ) (ctx : HttpContext) (caches : List ℕ) where
  module _ (got : List ℕ) (x : ℕ) (rest : List ℕ) (p : Parser)
      (d : IsDecoding b ctx caches got (x ∷ rest) p) (behind : length got < p.offset) where
    copied_mem : ((copied b p).mgmt.bufs b).mem ≡ copy (length got) (x ∷ []) (p.mgmt.bufs b).mem
    unfolding write_buf
    copied_mem =
        ap (λ (u : Buf). u.mem) (update_self p.mgmt.bufs b _)
        ∙ ap₂ (λ k y. copy k (y ∷ []) (p.mgmt.bufs b).mem) d.last_i d.left.0

    copied_len : ((copied b p).mgmt.bufs b).len ≡ (p.mgmt.bufs b).len
    unfolding write_buf
    copied_len = ap (λ (u : Buf). u.len) (update_self p.mgmt.bufs b _)

    longer : length (got ++ x ∷ []) ≡ length got + 1
    longer = length-append got (x ∷ [])

    copied_head :
        slice 0 (length got + 1) (copy (length got) (x ∷ []) (p.mgmt.bufs b).mem) ≡ got ++ x ∷ []
    copied_head =
        slice-append 0 (length got) 1 _
        ∙ ap₂ ◌++◌
            (slice-copy_below 0 (length got) (length got) (x ∷ []) _ (omega arith) ∙ d.decoded)
            (ap (λ k. slice k 1 (copy (length got) (x ∷ []) (p.mgmt.bufs b).mem)) (omega arith)
              ∙ slice-copy (length got) (x ∷ []) (p.mgmt.bufs b).mem)

    copied-IsDecoding : IsDecoding b ctx caches (got ++ x ∷ []) rest (copied b p)
    unfolding write_buf
    copied-IsDecoding = record {
      context = d.context;
      free = d.free;
      here = d.here;
      last = d.last;
      plist = d.plist;
      last_i = omega (arith, longer, d.last_i);
      total = omega (arith, longer, d.total);
      behind = omega (arith, longer, d.behind);
      decoded = ap₂ (λ k mem. slice 0 k mem) longer copied_mem ∙ copied_head;
      left =
          StandsAt-kept (p.mgmt.bufs b).mem _ (p.offset + 1) rest
            (λ k h.
              ap (λ f. f k) copied_mem
              ∙ copy_above (length got) (x ∷ []) (p.mgmt.bufs b).mem k (omega arith))
            d.left.1;
      inside = omega (arith, copied_len, d.inside);
      fits = omega (arith, copied_len, d.fits);
    }

  -- After the bytes of a chunk of `n` bytes.
  pub record HasCopied (n : ℕ) (got rest : List ℕ) (q : Parser) : Type 0 where
    pub decoding : IsDecoding b ctx caches got rest q
    pub strictly : length got < q.offset
    pub counted : q.j ≡ n
    pub size : q.chunk_size ≡ some (pos n)

  copy_chunk-HasCopied :
      (xs rest got : List ℕ) (k n : ℕ) (p : Parser)
      → IsDecoding b ctx caches got (xs ++ rest) p
      → length got < p.offset
      → 1 ≤ length rest
      → p.chunk_size ≡ some (pos n)
      → p.j + length xs ≡ n
      → length xs ≤ k
      → Returns (HasCopied n (got ++ xs) rest) (copy_chunk k b p)
  unfolding copy_chunk
  copy_chunk-HasCopied [] rest got zero n p d h r e c l =
      subst (λ g. HasCopied n g rest p) (sym (append-nil got))
        (record { decoding = d; strictly = h; counted = omega arith; size = e })
  copy_chunk-HasCopied [] rest got (suc k) n p d h r e c l =
      subst (Returns (HasCopied n (got ++ []) rest)) (sym stops) (
        subst (λ g. HasCopied n g rest p) (sym (append-nil got))
          (record { decoding = d; strictly = h; counted = omega arith; size = e }))
    where
      stops : copy_chunk (suc k) b p ≡ ok p
      stops =
          let full : below_size p.j (some (pos n)) ≡ false = ground arith in
          ap (λ (s : Option ℤ). if below_size p.j s then copy_byte b p >>= copy_chunk k b else ok p)
            e
          ∙ ap (λ (c : Bool). if c then copy_byte b p >>= copy_chunk k b else ok p) full
  copy_chunk-HasCopied (x ∷ xs) rest got zero n p d h r e c l = absurd (omega arith)
  copy_chunk-HasCopied (x ∷ xs) rest got (suc k) n p d h r e c l =
      subst (Returns (HasCopied n (got ++ x ∷ xs) rest)) (sym goes) (
        subst (λ g. Returns (HasCopied n g rest) (copy_chunk k b (copied b p)))
          (append_assoc got (x ∷ []) xs)
          (copy_chunk-HasCopied xs rest (got ++ x ∷ []) k n (copied b p)
            (copied-IsDecoding got x (xs ++ rest) p d h) (omega (arith, length-append got (x ∷ [])))
            r e (omega arith) (omega arith)))
    where
      room : p.last_i + 1 < http_buf_size
      room = omega (arith, d.last_i, d.inside, d.fits, length-append xs rest)

      goes : copy_chunk (suc k) b p ≡ copy_chunk k b (copied b p)
      goes =
          let more : below_size p.j (some (pos n)) ≡ true = ground arith in
          ap (λ (s : Option ℤ). if below_size p.j s then copy_byte b p >>= copy_chunk k b else ok p)
            e
          ∙ ap (λ (c : Bool). if c then copy_byte b p >>= copy_chunk k b else ok p) more
          ∙ ap (λ o. o >>= copy_chunk k b) (copy_byte-eq-copied b p d.last room)

  -- The position and the variables of the state machine are changed only.
  pub moved-IsDecoding :
      (got rest : List ℕ) (q : Parser) (rest' : List ℕ) (o : ℕ) (s : ChunkState) (j : ℕ)
      (str : ℕ → ℕ) (size : Option ℤ)
      → IsDecoding b ctx caches got rest q
      → q.offset ≤ o
      → StandsAt (q.mgmt.bufs b).mem o rest'
      → o + length rest' ≤ (q.mgmt.bufs b).len
      → IsDecoding b ctx caches got rest'
          (record q { offset = o; state = s; j = j; chunk_str = str; chunk_size = size })
  moved-IsDecoding got rest q rest' o s j str size d h k l = record {
    context = d.context;
    free = d.free;
    here = d.here;
    last = d.last;
    plist = d.plist;
    last_i = d.last_i;
    total = d.total;
    behind = omega (arith, d.behind);
    decoded = d.decoded;
    left = k;
    inside = l;
    fits = d.fits;
  }

  -- At the beginning of a line.
  pub record IsBeginning (got rest : List ℕ) (q : Parser) : Type 0 where
    pub decoding : IsDecoding b ctx caches got rest q
    pub begins : q.state ≡ chunk_begin
    pub at_zero : q.j ≡ 0

  -- The step that copies a chunk which ends before the buffer does.
  pub step_get_size-IsBeginning :
      (xs rest got : List ℕ) (p : Parser)
      → IsDecoding b ctx caches got (xs ++ rest) p
      → length got < p.offset
      → 1 ≤ length rest
      → p.chunk_size ≡ some (pos (length xs))
      → p.j ≡ 0
      → Returns (λ r. (r.1 ≡ going) × IsBeginning (got ++ xs) rest r.0) (step_get_size b p)
  unfolding step_get_size
  step_get_size-IsBeginning xs rest got p d h r e z =
      Returns->>= (HasCopied (length xs) (got ++ xs) rest) _
        (copy_chunk ((p.mgmt.bufs b).len - p.offset) b p) _
        (copy_chunk-HasCopied xs rest got ((p.mgmt.bufs b).len - p.offset) (length xs) p d h r e
          (omega arith) (omega (arith, d.inside, length-append xs rest)))
        λ q k.
          subst (Returns (λ r. (r.1 ≡ going) × IsBeginning (got ++ xs) rest r.0)) (sym (ended q k))
            (
              refl,
              record {
                decoding =
                    moved-IsDecoding (got ++ xs) rest q rest q.offset chunk_begin 0 q.chunk_str
                      q.chunk_size k.decoding (omega arith) k.decoding.left k.decoding.inside;
                begins = refl;
                at_zero = refl;
              },
            )
    where
      after : Parser → Outcome (Parser × Verdict)
      after q =
          let t = take_next q in
          if q.offset == (q.mgmt.bufs b).len
          then elim t.buf_info as (λ _. Outcome (Parser × Verdict)) [
            | none ↦ fault null_deref
            | some c ↦ ok (t, going)
          ]
          else if at_size q.j q.chunk_size
          then ok (record q { state = chunk_begin; j = 0 }, going)
          else ok (record q { offset = p.offset }, going)

      ended :
          (q : Parser)
          → HasCopied (length xs) (got ++ xs) rest q
          → after q ≡ ok (record q { state = chunk_begin; j = 0 }, going)
      ended q k =
          let inside : (q.offset == (q.mgmt.bufs b).len) ≡ false =
            ground (arith, k.decoding.inside) in
          let full : at_size q.j q.chunk_size ≡ true =
            ap₂ at_size k.counted k.size ∙ ==_refl (length xs) in
          rw (inside, full) refl
