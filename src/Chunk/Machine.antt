-- ===== src/Chunk/Machine.antt =====
-- The state machine of `http_parse`.
use web_tunnel.Base.{
  ℕ, zero, suc, ◌+◌, ◌-◌, Bool, true, false, not, ◌&&◌, List, [], ◌∷◌, ◌++◌, Option, none, some,
  Outcome, ok, fault, null_deref, no_rounds, uninitialised, ◌>>=◌, ◌>>◌, check, deref, update, ltb,
  leb, ◌==◌, if◌then◌else◌,
}
use web_tunnel.Base.Int.{ℤ, pos, negsuc}
use web_tunnel.State.{Mgmt, HttpContext}
use web_tunnel.Buffers.{alloc_buf, free_buf, list_add_tail, write_buf}
use web_tunnel.Header.{http_buf_size}
use web_tunnel.Chunk.Text.{c_string, scan_hex}

pub data ChunkState : Type 0 where
  chunk_begin chunk_lrln chunk_get_size : ChunkState

abbrev pub http_chunk_max : ℕ
http_chunk_max = 32

-- The variables of `http_parse`. `chunk_size` is `none` until it is first set.
pub record Parser : Type 0 where
  pub ctx : HttpContext
  pub mgmt : Mgmt
  pub buf_info : Option ℕ
  pub last_buf : Option ℕ
  pub plist : List ℕ
  pub state : ChunkState
  pub offset : ℕ
  pub last_i : ℕ
  pub new_total : ℕ
  pub j : ℕ
  pub chunk_str : ℕ → ℕ
  pub chunk_size : Option ℤ

-- The sign of `rc`: above 0 the loop goes on.
pub data Verdict : Type 0 where
  going parsed failed : Verdict

abbrev pub same_ptr : Option ℕ → Option ℕ → Bool
same_ptr none none = true
same_ptr none (some b) = false
same_ptr (some a) none = false
same_ptr (some a) (some b) = a == b

abbrev pub todo : Parser → List ℕ
todo p = p.ctx.buf_read.list_todo

abbrev pub set_todo : List ℕ → Parser → Parser
set_todo bs p = record p {
  ctx = record (p.ctx) { buf_read = record (p.ctx.buf_read) { list_todo = bs } };
}

-- `if(buf_info != last_buf) free_buf(mgmt, buf_info)`.
abbrev pub free_other : Parser → Parser
free_other p =
    if same_ptr p.buf_info p.last_buf then p else record p { mgmt = free_buf p.buf_info p.mgmt }

-- The next buffer is taken off the list, or there is none.
unfoldable pub take_next : Parser → Parser
take_next p =
    let q = free_other p in
    elim (todo q) [
      | [] ↦ record q { buf_info = none }
      | b ∷ bs ↦ set_todo bs (record q { buf_info = some b; offset = 0 })
    ]

-- The first loop of CHUNK_BEGIN: `n` indices from `i` on are left.
unfoldable pub scan_size : ℕ → ℕ → (ℕ → ℕ) → ℕ → (ℕ → ℕ) → ℕ × ℕ × (ℕ → ℕ)
scan_size zero i mem j str = (i, j, str)
scan_size (suc n) i mem j str =
    let rest = scan_size n (i + 1) mem (j + 1) (update str j (mem i)) in
    if ltb j http_chunk_max && not (mem i == 13) then rest else (i, j, str)

-- CHUNK_BEGIN, in the buffer `b`.
unfoldable pub step_begin : ℕ → Parser → Outcome (Parser × Verdict)
unfolding scan_size take_next
step_begin b p =
    let buf = p.mgmt.bufs b in
    let r = scan_size (buf.len - p.offset) p.offset buf.mem p.j p.chunk_str in
    let q = record p { j = r.1; chunk_str = r.2 } in
    let t = take_next q in
    if r.1 == http_chunk_max
    then ok (record q { ctx = record (q.ctx) { errcode = 12 } }, failed)
    else if r.0 == buf.len
    then elim t.buf_info as (λ _. Outcome (Parser × Verdict)) [
      | none ↦ ok (t, failed)
      | some c ↦ ok (t, going)
    ]
    else ok (
      record q { chunk_str = update r.2 r.1 0; offset = r.0 + 1; state = chunk_lrln; j = 0 },
      going,
    )

-- The last chunk: what was put together replaces the list, and the other buffers are free.
unfoldable pub finish_parse : Parser → Outcome (Parser × Verdict)
finish_parse p = do
  let q = free_other p
  b ← deref q.last_buf
  let buf = q.mgmt.bufs b
  let kept = ltb 0 q.last_i
  let m1 =
      if kept
      then record (q.mgmt) {
        bufs = update q.mgmt.bufs b (record buf { len = q.last_i; total_len = q.last_i });
      }
      else free_buf (some b) q.mgmt
  let list = if kept then list_add_tail b q.plist else q.plist
  let m2 = record m1 { http_buf_caches = todo q ++ m1.http_buf_caches }
  let buf_read = record (q.ctx.buf_read) { list_todo = list; len = q.new_total }
  ok (
    record q {
      mgmt = m2;
      ctx = record (q.ctx) { buf_read = buf_read };
      plist = [];
      last_buf = none;
      buf_info = none;
    },
    parsed,
  )

-- The size is read; without digits the variable keeps its value, and has none at first.
unfoldable pub step_size : Parser → Outcome (Parser × Verdict)
unfolding finish_parse
step_size p =
    let old = elim p.chunk_size as (λ _. Outcome ℤ) [
      | none ↦ fault uninitialised
      | some z ↦ ok z
    ] in
    let size = elim (scan_hex (c_string (http_chunk_max + 1) 0 p.chunk_str)) as (λ _. Outcome ℤ) [
      | none ↦ old
      | some z ↦ ok z
    ] in
    size >>= λ z.
    let q = record p { state = chunk_get_size; chunk_size = some z } in
    elim z as (λ _. Outcome (Parser × Verdict)) [
      | pos n ↦ if n == 0 then finish_parse q else ok (q, going)
      | negsuc n ↦ ok (q, going)
    ]

-- CHUNK_LRLN, once `offset` is an index of the buffer `b`.
unfoldable pub step_newline : ℕ → Parser → Outcome (Parser × Verdict)
unfolding step_size
step_newline b p =
    let q = record p { offset = p.offset + 1; j = 0 } in
    if not ((p.mgmt.bufs b).mem p.offset == 10)
    then ok (p, failed)
    else if q.chunk_str 0 == 0
    then ok (record q { state = chunk_begin }, going)
    else step_size q

unfoldable pub step_lrln : ℕ → Parser → Outcome (Parser × Verdict)
unfolding step_newline take_next
step_lrln b p =
    let t = take_next p in
    if p.offset == (p.mgmt.bufs b).len
    then elim t.buf_info [ none ↦ ok (t, failed) | some c ↦ step_newline c t ]
    else step_newline b p

abbrev pub below_size : ℕ → Option ℤ → Bool
below_size j none = false
below_size j (some (pos n)) = ltb j n
below_size j (some (negsuc n)) = false

abbrev pub at_size : ℕ → Option ℤ → Bool
at_size j none = false
at_size j (some (pos n)) = j == n
at_size j (some (negsuc n)) = false

-- A full `last_buf` goes on the list, and a free buffer takes its place.
unfoldable pub next_last : ℕ → Parser → Outcome Parser
next_last b p = do
  let buf = record (p.mgmt.bufs b) { len = p.last_i; start = 0; total_len = 0 }
  let m1 = record (p.mgmt) { bufs = update p.mgmt.bufs b buf }
  let r = alloc_buf m1
  check (elim r.1 as (λ _. Bool) [ none ↦ false | some c ↦ true ])
  ok (record p { mgmt = r.0; plist = list_add_tail b p.plist; last_buf = r.1; last_i = 0 })

-- The byte at `offset` of the buffer `b` is put behind those of `last_buf`.
unfoldable pub copy_byte : ℕ → Parser → Outcome Parser
unfolding next_last
copy_byte b p = deref p.last_buf >>= λ l.
    let byte = (p.mgmt.bufs b).mem p.offset in
    let q = record p {
      mgmt = write_buf l p.last_i (byte ∷ []) p.mgmt;
      last_i = p.last_i + 1;
      new_total = p.new_total + 1;
      offset = p.offset + 1;
      j = p.j + 1;
    } in
    if leb http_buf_size q.last_i then next_last l q else ok q

-- The loop of CHUNK_GET_SIZE, with `n` indices left; `i` is kept in `offset`.
unfoldable pub copy_chunk : ℕ → ℕ → Parser → Outcome Parser
unfolding copy_byte
copy_chunk zero b p = ok p
copy_chunk (suc n) b p =
    let rest = copy_byte b p >>= copy_chunk n b in
    if below_size p.j p.chunk_size then rest else ok p

unfoldable pub step_get_size : ℕ → Parser → Outcome (Parser × Verdict)
unfolding copy_chunk take_next
step_get_size b p = copy_chunk ((p.mgmt.bufs b).len - p.offset) b p >>= λ q.
    let t = take_next q in
    if q.offset == (q.mgmt.bufs b).len
    then elim t.buf_info as (λ _. Outcome (Parser × Verdict)) [
      | none ↦ fault null_deref
      | some c ↦ ok (t, going)
    ]
    else if at_size q.j q.chunk_size
    then ok (record q { state = chunk_begin; j = 0 }, going)
    else ok (record q { offset = p.offset }, going)

unfoldable pub chunk_step : Parser → Outcome (Parser × Verdict)
unfolding step_begin step_lrln step_get_size
chunk_step p = deref p.buf_info >>= λ b. elim p.state [
  | chunk_begin ↦ step_begin b p
  | chunk_lrln ↦ step_lrln b p
  | chunk_get_size ↦ step_get_size b p
]

-- `while(rc > 0)`, with the rounds left.
unfoldable pub chunk_loop : ℕ → Parser → Outcome (Parser × Verdict)
unfolding chunk_step
chunk_loop zero p = fault no_rounds
chunk_loop (suc n) p = chunk_step p >>= λ r. elim r.1 [
  | going ↦ chunk_loop n r.0
  | parsed ↦ ok (r.0, parsed)
  | failed ↦ ok (r.0, failed)
]
