-- ===== src/Chunk/Parse/Steps.antt =====
-- The steps of the loop of `http_parse` on a line with a chunk's size.
use web_tunnel.Base.{
  ℕ, ◌+◌, ◌-◌, ◌<◌, ◌≡◌, ◌≢◌, refl, ap, ◌∙◌, Bool, false, List, [], ◌∷◌, ◌++◌, length, Option, none,
  some, Outcome, ok, fault, uninitialised, ◌>>=◌, arith, update, copy, ◌==◌, if◌then◌else◌,
}
use web_tunnel.Base.Int.{ℤ, pos, negsuc}
use web_tunnel.Chunk.Text.{c_string, scan_hex}
use web_tunnel.Chunk.Machine.{
  Parser, Verdict, going, failed, http_chunk_max, chunk_begin, chunk_lrln, chunk_get_size,
  scan_size, step_begin, step_lrln, step_newline, step_size, finish_parse, take_next,
}
use web_tunnel.Chunk.Parse.Scan.{StandsAt, IsLine, scan_size-line, terminated}

-- The line's text is in `chunk_str`, and its newline is next.
abbrev pub read_line : List ℕ → Parser → Parser
read_line line p = record p {
  j = 0;
  chunk_str = terminated line p.chunk_str;
  offset = p.offset + length line + 1;
  state = chunk_lrln;
}

-- What follows the loop of CHUNK_BEGIN.
scanned : ℕ → Parser → ℕ × ℕ × (ℕ → ℕ) → Outcome (Parser × Verdict)
scanned b p r =
    let q = record p { j = r.1; chunk_str = r.2 } in
    let t = take_next q in
    if r.1 == http_chunk_max
    then ok (record q { ctx = record (q.ctx) { errcode = 12 } }, failed)
    else if r.0 == (p.mgmt.bufs b).len
    then elim t.buf_info as (λ _. Outcome (Parser × Verdict)) [
      | none ↦ ok (t, failed)
      | some c ↦ ok (t, going)
    ]
    else ok (
      record q { chunk_str = update r.2 r.1 0; offset = r.0 + 1; state = chunk_lrln; j = 0 },
      going,
    )

scanned-line :
    (b : ℕ) (p : Parser) (line : List ℕ)
    → length line < 32
    → p.offset + length line < (p.mgmt.bufs b).len
    → scanned b p (p.offset + length line, 0 + length line, copy 0 line p.chunk_str)
      ≡ ok (read_line line p, going)
unfolding scanned
scanned-line b p line h k =
    let zero_length : 0 + length line ≡ length line = omega arith in
    let short : (length line == 32) ≡ false = ground arith in
    let inside : (p.offset + length line == (p.mgmt.bufs b).len) ≡ false = ground arith in
    rw (zero_length, short, inside) refl

pub step_begin-line :
    (b : ℕ) (p : Parser) (line : List ℕ)
    → p.j ≡ 0
    → StandsAt (p.mgmt.bufs b).mem p.offset (line ++ 13 ∷ [])
    → IsLine line
    → length line < 32
    → p.offset + length line < (p.mgmt.bufs b).len
    → step_begin b p ≡ ok (read_line line p, going)
unfolding step_begin scanned
step_begin-line b p line z s l h k =
    ap (scanned b p) (
      ap
        (λ j. scan_size ((p.mgmt.bufs b).len - p.offset) p.offset (p.mgmt.bufs b).mem j p.chunk_str)
        z
      ∙ scan_size-line line ((p.mgmt.bufs b).len - p.offset) p.offset (p.mgmt.bufs b).mem 0
          p.chunk_str s l (omega arith) (omega arith))
    ∙ scanned-line b p line h k

-- The line was empty.
pub step_lrln_empty :
    (b : ℕ) (p : Parser)
    → p.offset < (p.mgmt.bufs b).len
    → (p.mgmt.bufs b).mem p.offset ≡ 10
    → p.chunk_str 0 ≡ 0
    → step_lrln b p ≡ ok (record p { offset = p.offset + 1; j = 0; state = chunk_begin }, going)
unfolding step_lrln step_newline
step_lrln_empty b p h n e =
    let inside : (p.offset == (p.mgmt.bufs b).len) ≡ false = ground arith in rw (inside, n, e) refl

-- The size `n` was read.
abbrev pub sized : ℕ → Parser → Parser
sized n p = record p {
  offset = p.offset + 1;
  j = 0;
  state = chunk_get_size;
  chunk_size = some (pos n);
}

-- What follows `sscanf`.
with_size : Parser → Option ℤ → Outcome (Parser × Verdict)
with_size p scanned' =
    let old = elim p.chunk_size as (λ _. Outcome ℤ) [
      | none ↦ fault uninitialised
      | some z ↦ ok z
    ] in
    let size = elim scanned' as (λ _. Outcome ℤ) [ none ↦ old | some z ↦ ok z ] in
    size >>= λ z.
    let q = record p { state = chunk_get_size; chunk_size = some z } in
    elim z as (λ _. Outcome (Parser × Verdict)) [
      | pos n ↦ if n == 0 then finish_parse q else ok (q, going)
      | negsuc n ↦ ok (q, going)
    ]

step_lrln-with_size :
    (b : ℕ) (p : Parser)
    → p.offset < (p.mgmt.bufs b).len
    → (p.mgmt.bufs b).mem p.offset ≡ 10
    → p.chunk_str 0 ≢ 0
    → step_lrln b p
      ≡ with_size (record p { offset = p.offset + 1; j = 0 }) (scan_hex (c_string 33 0 p.chunk_str))
unfolding step_lrln step_newline step_size with_size
step_lrln-with_size b p h n e =
    let inside : (p.offset == (p.mgmt.bufs b).len) ≡ false = ground arith in
    let some_text : (p.chunk_str 0 == 0) ≡ false = ground arith in rw (inside, n, some_text) refl

module _ (b : ℕ) (p : Parser) (line : List ℕ) (inside : p.offset < (p.mgmt.bufs b).len)
    (newline : (p.mgmt.bufs b).mem p.offset ≡ 10) (text : p.chunk_str 0 ≢ 0)
    (read : c_string 33 0 p.chunk_str ≡ line) where
  pub step_lrln-sized :
      (n : ℕ) → scan_hex line ≡ some (pos n) → n ≢ 0 → step_lrln b p ≡ ok (sized n p, going)
  unfolding with_size
  step_lrln-sized n e ne =
      let not_last : (n == 0) ≡ false = ground arith in
      step_lrln-with_size b p inside newline text
      ∙ ap (with_size (record p { offset = p.offset + 1; j = 0 })) (ap scan_hex read ∙ e)
      ∙ ap (λ (c : Bool). if c then finish_parse (sized n p) else ok (sized n p, going)) not_last

  pub step_lrln-finish : scan_hex line ≡ some (pos 0) → step_lrln b p ≡ finish_parse (sized 0 p)
  unfolding with_size
  step_lrln-finish e =
      step_lrln-with_size b p inside newline text
      ∙ ap (with_size (record p { offset = p.offset + 1; j = 0 })) (ap scan_hex read ∙ e)
