-- ===== src/ToServer.antt =====
-- What goes to the websocket server: `http_mgmt_toserver`, `http_mgmt_writable`, `http_mgmt_handshake`,
-- `http_mgmt_isshake` and `generate_error` of test-server/http_client.c. A message is a buffer on
-- `buf_toserver.list_todo`; `curr` is its head while a write is asked for.
pub mod Queue
pub mod ErrorReply
pub mod Kept
pub mod Outbox
pub mod Handshake
use Prim.Native.String.{String}
use Prim.Native.Char.{code}
use web_tunnel.Base.{
  ℕ, zero, suc, ◌+◌, ◌*◌, ◌/◌, ◌%◌, ◌^◌, ◌<◌, Bool, true, false, not, List, [], ◌∷◌, ◌++◌, length,
  Option, none, some, Outcome, ok, fault, null_deref, overrun, ◌>>=◌, ◌>>◌, check, deref, slice,
  ltb, ◌==◌, ◌||◌, if◌then◌else◌,
}
use web_tunnel.Base.Int.{ℤ, pos, negsuc}
use web_tunnel.State.{Mgmt, Effect, HttpContext, emit}
use web_tunnel.Buffers.{
  alloc_buf, free_buf, next_buf_info, list_del, write_buf, set_lengths, push_toserver,
}
use web_tunnel.Header.{
  Header, header_bytes, make_header, htons, http_c_hand, http_c_resp, http_c_header_len,
}

-- The bytes of an ASCII text.
abbrev pub codes : String → List ℕ
codes String.[] = []
codes (String.◌∷◌ c s) = code c ∷ codes s

abbrev pub is_none : Option ℕ → Bool
is_none none = true
is_none (some b) = false

-- The writer is started if it is not running and there is a message.
unfoldable pub start_writer : Mgmt → Option ℕ → Mgmt
start_writer m none = record m { buf_toserver = record (m.buf_toserver) { curr = none } }
start_writer m (some b) =
    emit Effect.go_writable
      (record m { buf_toserver = record (m.buf_toserver) { curr = some b }; toserver = true })

unfoldable pub http_mgmt_toserver : Mgmt → Outcome Mgmt
unfolding start_writer
http_mgmt_toserver m = if m.toserver then ok m else do
  check (is_none m.buf_toserver.curr)
  ok (start_writer m (next_buf_info m.buf_toserver.list_todo))

-- After the message at `curr`: the next one, or the writer is stopped.
unfoldable pub next_message : Mgmt → Option ℕ → Mgmt
next_message m none = record m {
  buf_toserver = record (m.buf_toserver) { curr = none };
  toserver = false;
}
next_message m (some b) =
    emit Effect.write_again (record m { buf_toserver = record (m.buf_toserver) { curr = some b } })

-- The buffer leaves the queue and is free again.
unfoldable pub drop_message : ℕ → Mgmt → Mgmt
drop_message b m = free_buf (some b) (record m {
  buf_toserver = record (m.buf_toserver) { list_todo = list_del b m.buf_toserver.list_todo };
})

-- Whether `websocket_write` took the whole message: `n` is its result.
abbrev pub took : ℤ → ℕ → Bool
took (pos n) len = not (ltb n len)
took (negsuc n) len = false

unfoldable pub write_message : Mgmt → ℤ → ℕ → Outcome (Mgmt × Bool)
unfolding drop_message
write_message m n b = do
  let buf = m.bufs b
  check (not (buf.len == 0))
  let m1 = drop_message b (emit (Effect.sent (slice 0 buf.len buf.mem)) m)
  ok (next_message m1 (next_buf_info m1.buf_toserver.list_todo), took n buf.len)

-- `http_mgmt_writable`, where `websocket_write` returns `n`. The Boolean is that 0 is returned.
unfoldable pub http_mgmt_writable : Mgmt → ℤ → Outcome (Mgmt × Bool)
unfolding write_message
http_mgmt_writable m n = do
  check m.toserver
  elim m.buf_toserver.curr [
    | none ↦ ok (next_message m (next_buf_info m.buf_toserver.list_todo), false)
    | some b ↦ write_message m n b
  ]

unfoldable pub http_mgmt_isshake : Mgmt → Bool
http_mgmt_isshake m = m.shakehand

-- `%d` of a number that is not negative, with rounds enough for its digits.
unfoldable pub decimal_digits : ℕ → ℕ → List ℕ → List ℕ
decimal_digits zero n acc = acc
decimal_digits (suc f) n acc =
    let acc' = (48 + n % 10) ∷ acc in
    let rest = decimal_digits f (n / 10) acc' in if ltb n 10 then acc' else rest

unfoldable pub decimal : ℕ → List ℕ
unfolding decimal_digits
decimal n = decimal_digits (suc n) n []

-- The text that `sprintf` puts into `shake`.
unfoldable pub shake_text : Mgmt → List ℕ
unfolding decimal
shake_text m =
    codes "{\"username\":\""
    ++ m.username
    ++ codes "\",\"host\":\""
    ++ m.local_host
    ++ codes "\",\"port\":"
    ++ decimal m.local_port
    ++ codes "}"

-- The array `shake[512]`, with the 0 behind the text.
unfoldable pub fill_shake : List ℕ → Outcome (List ℕ)
fill_shake text = if ltb (length text) 512 then ok text else fault overrun

unfoldable pub http_mgmt_handshake : Mgmt → Outcome Mgmt
unfolding fill_shake
http_mgmt_handshake m = do
  shake ← fill_shake (shake_text m)
  let len = length shake + http_c_header_len
  let r = alloc_buf m
  b ← deref r.1
  let m1 = write_buf b 0 (header_bytes (make_header http_c_hand 0 len)) r.0
  let m2 = set_lengths b 0 len len (write_buf b http_c_header_len shake m1)
  ok (record m2 {
    buf_toserver = record (m2.buf_toserver) {
      list_todo = b ∷ m2.buf_toserver.list_todo;
      curr = next_buf_info (b ∷ m2.buf_toserver.list_todo);
    };
    toserver = true;
  })

-- The text of `generate_error`; a line ends in CR LF.
pub error_text : List ℕ
error_text =
    codes "HTTP/1.1 404 Not Found"
    ++ 0x0d ∷ 0x0a ∷ codes "Content-Length: 1635"
    ++ 0x0d ∷ 0x0a ∷ codes "Content-Type: text/html"
    ++ 0x0d ∷ 0x0a ∷ codes "Connection: Close"
    ++ 0x0d ∷ 0x0a ∷ []

-- The header of `generate_error`, whose length is turned round by `htons`.
pub error_header : ℕ → ℕ → Header
error_header seq len = record (make_header http_c_resp seq 0) { length = htons len }

-- The reply is written into the buffer `b`.
unfoldable pub write_error : HttpContext → ℕ → Mgmt → Mgmt
unfolding error_text error_header
write_error ctx b m =
    let tmp_len = (length error_text + http_c_header_len) % 2 ^ 16 in
    let m1 = write_buf b http_c_header_len (error_text ++ 0 ∷ []) m in
    set_lengths b 0 tmp_len tmp_len (write_buf b 0 (header_bytes (error_header ctx.seq tmp_len)) m1)

unfoldable pub generate_error : Mgmt → HttpContext → Outcome Mgmt
unfolding write_error
generate_error m ctx =
    let r = alloc_buf m in
    elim r.1 [ none ↦ ok m | some b ↦ http_mgmt_toserver (push_toserver b (write_error ctx b r.0)) ]
