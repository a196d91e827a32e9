-- ===== src/Client/Reading.antt =====
-- `tcp_client_read`, `tcp_client_save_read` and `tcp_client_parse_req`.
use web_tunnel.Base.{
  ℕ, ◌+◌, ◌-◌, ◌*◌, ◌/◌, ◌%◌, ◌^◌, bit_or, true, false, not, ◌&&◌, List, [], ◌∷◌, ◌++◌, length,
  none, some, Outcome, ok, fault, null_deref, overrun, negative_length, ◌>>=◌, ◌>>◌, check, deref,
  update, ltb, leb, ◌==◌, if◌then◌else◌,
}
use web_tunnel.State.{Mgmt, CallerStatus, CcrLine, TcpClient}
use web_tunnel.Buffers.{alloc_buf, free_buf, list_add_tail, write_buf}
use web_tunnel.Header.{
  Header, header_bytes, read_header, htons, htonl, http_c_tunnelreq, http_c_header_len,
  http_buf_size,
}
use web_tunnel.Cipher.{decry2}
use web_tunnel.ToServer.{http_mgmt_toserver}
use web_tunnel.Runtime.{ReadAnswer, Turn, turn}
use web_tunnel.Client.Words.{on_words}

-- The buffer `b` goes behind those of the packet.
unfoldable pub tcp_client_save_read : ℕ → TcpClient → Mgmt → TcpClient × Mgmt
tcp_client_save_read b v m =
    let buf = m.bufs b in
    (
      record v {
        buf_read = record (v.buf_read) {
          len = v.buf_read.len + buf.start;
          list_todo = list_add_tail b v.buf_read.list_todo;
          curr = none;
        };
      },
      record m {
        bufs = update m.bufs b (record buf { len = buf.start; total_len = buf.start; start = 0 });
      },
    )

-- The buffers of the packet go to the server.
unfoldable pub tcp_client_parse_req : TcpClient → Mgmt → Outcome (TcpClient × Mgmt)
tcp_client_parse_req v m =
    http_mgmt_toserver (record m {
      buf_toserver = record (m.buf_toserver) {
        list_todo = m.buf_toserver.list_todo ++ v.buf_read.list_todo;
      };
    })
    >>= λ n.
        ok (
          record v { buf_read = record (v.buf_read) { list_todo = []; len = 0; total_len = 0 } },
          n,
        )

-- The sequence number of a request: the client's in the low byte, the server's count above it.
unfoldable pub request_seq : ℕ → ℕ → ℕ
request_seq client count = bit_or client (count * 2 ^ 8)

-- The header as the websocket server gets it.
unfoldable pub tunnel_header : ℕ → Header → Header
tunnel_header seq h = record h { seq = htons seq; kind = http_c_tunnelreq }

-- The header in the buffer `b` is deciphered and changed. A length that is no `int` ends the model.
unfoldable pub parse_header : ℕ → ℕ → TcpClient → Mgmt → Outcome (TcpClient × Mgmt)
unfolding request_seq tunnel_header
parse_header now b v m = do
  m1 ← on_words (decry2 now) b 0 (http_c_header_len / 4) m
  let h = read_header (m1.bufs b).mem
  let count = (m1.tcp_server.seq + 1) % 256
  let seq = request_seq (htons h.seq) count
  let m2 = record m1 { tcp_server = record (m1.tcp_server) { seq = count } }
  let m3 = write_buf b 0 (header_bytes (tunnel_header seq h)) m2
  let total = htonl h.length
  let w = record v {
    req_seq = seq;
    header_parsed = true;
    buf_read = record (v.buf_read) { total_len = total };
  }
  if leb (2 ^ 31) total then fault negative_length else ok (w, m3)

-- The body is deciphered in place: `(total_len - 16) / 4` words of the buffer `b`. With a `total_len`
-- below 16 the number of words is negative, and none is touched; more than the buffer holds is an overrun.
unfoldable pub decipher_body : ℕ → ℕ → ℕ → Mgmt → Outcome Mgmt
decipher_body now b total m =
    let body = on_words (decry2 now) b http_c_header_len ((total - http_c_header_len) / 4) m in
    if ltb total http_c_header_len
    then ok m
    else if ltb http_buf_size total
    then fault overrun
    else body

-- The packet is complete with the buffer `b`.
unfoldable pub send_packet : ℕ → ℕ → TcpClient → Mgmt → Outcome (TcpClient × Mgmt)
unfolding decipher_body tcp_client_save_read tcp_client_parse_req
send_packet now b v m = do
  m1 ← decipher_body now b v.buf_read.total_len m
  let s = tcp_client_save_read b v m1
  r ← tcp_client_parse_req s.0 s.1
  ok (record (r.0) { header_parsed = false; idle = true }, r.1)

-- What follows the header's block.
unfoldable pub after_header : ℕ → ℕ → TcpClient × Mgmt → Outcome (TcpClient × Mgmt)
unfolding send_packet
after_header now b (v, m) =
    let done = send_packet now b v m in
    check (v.buf_read.total_len % 8 == 0)
    >> (if leb v.buf_read.total_len (v.buf_read.len + (m.bufs b).start) then done else ok (v, m))

-- The bytes that `read` put into `b`. A buffer that is full is saved, and NULL is dereferenced.
unfoldable pub client_got : ℕ → ℕ → List ℕ → TcpClient → Mgmt → Outcome (TcpClient × Mgmt)
unfolding parse_header after_header
client_got now b bytes v m =
    let buf = m.bufs b in
    let start = buf.start + length bytes in
    let m1 = write_buf b buf.start bytes m in
    let m2 = record m1 { bufs = update m1.bufs b (record (m1.bufs b) { start = start }) } in
    let parsed = parse_header now b v m2 >>= after_header now b in
    let unparsed = after_header now b (v, m2) in
    if leb http_buf_size start
    then fault null_deref
    else if not v.header_parsed && leb http_c_header_len start
    then parsed
    else unparsed

-- The end of the stream.
unfoldable pub client_ended : ℕ → TcpClient → Mgmt → TcpClient × Mgmt
unfolding tcp_client_save_read
client_ended b v m =
    if (m.bufs b).start == 0
    then (record v { buf_read = record (v.buf_read) { curr = none } }, free_buf (some b) m)
    else tcp_client_save_read b v m

abbrev pub pending_turn : TcpClient × Mgmt → Turn TcpClient
pending_turn (v, m) = turn CallerStatus.pending (record v { ccr_line = CcrLine.again }) m

abbrev pub finish_turn : TcpClient × Mgmt → Turn TcpClient
finish_turn (v, m) = turn CallerStatus.finish (record v { ccr_line = CcrLine.failed }) m

abbrev pub client_read_cases : ℕ → ReadAnswer → ℕ → TcpClient → Mgmt → Outcome (Turn TcpClient)
client_read_cases now a b v m =
    let ended = finish_turn (client_ended b v m) in
    elim a.bytes [
      | none ↦ ok (if a.again then pending_turn (v, m) else ended)
      | some [] ↦ ok ended
      | some (x ∷ xs) ↦ client_got now b (x ∷ xs) v m >>= λ r. ok (pending_turn r)
    ]

-- The current buffer, or a free one that becomes it.
unfoldable pub client_current : TcpClient → Mgmt → Outcome (ℕ × TcpClient × Mgmt)
client_current v m =
    let r = alloc_buf m in
    elim v.buf_read.curr [
      | some b ↦ ok (b, v, m)
      | none ↦ deref r.1 >>= λ b.
          ok (b, record v { buf_read = record (v.buf_read) { curr = some b } }, r.0)
    ]

unfoldable pub client_read_once : ℕ → ReadAnswer → TcpClient → Mgmt → Outcome (Turn TcpClient)
unfolding client_current client_got client_ended
client_read_once now a v m = client_current v m >>= λ r.
    check (ltb (r.2.bufs r.0).start http_buf_size) >> client_read_cases now a r.0 r.1 r.2

-- A coroutine that has returned CALLER_FINISH goes on with a return of CALLER_PENDING.
abbrev pub client_read_from : CcrLine → ℕ → ReadAnswer → TcpClient → Mgmt → Outcome (Turn TcpClient)
client_read_from CcrLine.failed now a v m = ok (pending_turn (v, m))
client_read_from CcrLine.start now a v m = client_read_once now a v m
client_read_from CcrLine.again now a v m = client_read_once now a v m
client_read_from CcrLine.partial now a v m = client_read_once now a v m
client_read_from CcrLine.no_buf now a v m = client_read_once now a v m

-- One `read` is made in a turn; `now` is what `time` gives.
unfoldable pub tcp_client_read : ℕ → ReadAnswer → TcpClient → Mgmt → Outcome (Turn TcpClient)
unfolding client_read_once
tcp_client_read now a v m = client_read_from v.ccr_line now a (record v { idle = false }) m
