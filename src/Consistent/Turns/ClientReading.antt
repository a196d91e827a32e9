-- ===== src/Consistent/Turns/ClientReading.antt =====
-- `tcp_client_read`.
use web_tunnel.Base.{
  Unfreed, check-Ensures, deref-Ensures, Fault, ℕ, ◌+◌, ◌-◌, ◌*◌, ◌/◌, ◌%◌, ◌^◌, ◌&&◌, ◌≡◌, refl,
  ◌∙◌, not, List, [], ◌∷◌, length, slice, Option, none, some, Bool, true, false, Outcome, ok, ◌>>=◌,
  Ensures, Ensures-ok, Ensures-fault, Ensures-bind, Ensures-if, Ensures-mono, Ensures-Option, ◌==◌,
  ltb, leb, update, arith, if◌then◌else◌,
}
use web_tunnel.State.{Mgmt, CcrLine, TcpClient}
use web_tunnel.Buffers.{alloc_buf, write_buf}
use web_tunnel.Header.{header_bytes, read_header, htons, htonl, http_c_header_len, http_buf_size}
use web_tunnel.Cipher.{each_pair, decry, generate_key, shared_key, decry2}
use web_tunnel.Runtime.{ReadAnswer}
use web_tunnel.Client.Words.{on_words, words_of, bytes_of_words}
use web_tunnel.Client.Reading.{
  tcp_client_save_read, tcp_client_parse_req, request_seq, tunnel_header, parse_header,
  decipher_body, send_packet, after_header, client_got, client_ended, pending_turn, finish_turn,
  client_read_cases, client_current, client_read_once, client_read_from, tcp_client_read,
}
use web_tunnel.Consistent.{Core, At}
use web_tunnel.Consistent.Frames.{alloc_buf-At, queued-At}
use web_tunnel.Consistent.Turns.{IsClientTurn}

-- The client with the rest of the state, as most of the functions return it.
abbrev pub IsClientAt : Core → ℕ → TcpClient × Mgmt → Type 0
IsClientAt k fd r = At k r.1 × (r.0.client_fd ≡ fd)

decry2-Unfreed : (now : ℕ) (ws : List ℕ) (n : ℕ) → Unfreed (decry2 now ws n)
unfolding decry2
decry2-Unfreed now ws n =
    Ensures-bind (check-Ensures (n % 2 == 0))
      λ u q. Ensures-ok {a = each_pair (decry (generate_key now shared_key)) (n / 2) ws} tt

module _ (k : Core) where
  pub on_words-At :
      (cipher : List ℕ → ℕ → Outcome (List ℕ))
      → ((ws : List ℕ) (n : ℕ) → Unfreed (cipher ws n))
      → (b off len : ℕ) (m : Mgmt) → At k m
      → Ensures (At k) (on_words cipher b off len m)
  unfolding on_words write_buf
  on_words-At cipher c b off len m h =
      Ensures-bind (c (words_of (slice off (4 * len) (m.bufs b).mem)) len)
        λ ws u. Ensures-ok {a = write_buf b off (bytes_of_words ws) m} h

  tcp_client_parse_req-IsClientAt :
      (v : TcpClient) (m : Mgmt)
      → At k m
      → Ensures (IsClientAt k v.client_fd) (tcp_client_parse_req v m)
  unfolding tcp_client_parse_req
  tcp_client_parse_req-IsClientAt v m h =
      let w = record v {
        buf_read = record (v.buf_read) { list_todo = []; len = 0; total_len = 0 };
      } in
      Ensures-bind (queued-At k v.buf_read.list_todo m h) λ n e. Ensures-ok {a = (w, n)} (e, refl)

  parse_header-IsClientAt :
      (now b : ℕ) (v : TcpClient) (m : Mgmt)
      → At k m
      → Ensures (IsClientAt k v.client_fd) (parse_header now b v m)
  unfolding parse_header write_buf
  parse_header-IsClientAt now b v m h =
      Ensures-bind (on_words-At (decry2 now) (decry2-Unfreed now) b 0 (http_c_header_len / 4) m h)
        λ m1 e.
          let hd = read_header (m1.bufs b).mem in
          let count = (m1.tcp_server.seq + 1) % 256 in
          let seq = request_seq (htons hd.seq) count in
          let m2 = record m1 { tcp_server = record (m1.tcp_server) { seq = count } } in
          let m3 = write_buf b 0 (header_bytes (tunnel_header seq hd)) m2 in
          let total = htonl hd.length in
          let w = record v {
            req_seq = seq;
            header_parsed = true;
            buf_read = record (v.buf_read) { total_len = total };
          } in
          Ensures-if (leb (2 ^ 31) total) (Ensures-fault Fault.negative_length tt)
            (Ensures-ok {a = (w, m3)} (e, refl))

  decipher_body-At :
      (now b total : ℕ) (m : Mgmt) → At k m → Ensures (At k) (decipher_body now b total m)
  unfolding decipher_body
  decipher_body-At now b total m h =
      Ensures-if (ltb total http_c_header_len) (Ensures-ok {a = m} h) (
        Ensures-if (ltb http_buf_size total) (Ensures-fault Fault.overrun tt) (
          on_words-At (decry2 now) (decry2-Unfreed now) b http_c_header_len
            ((total - http_c_header_len) / 4) m h))

  send_packet-IsClientAt :
      (now b : ℕ) (v : TcpClient) (m : Mgmt)
      → At k m
      → Ensures (IsClientAt k v.client_fd) (send_packet now b v m)
  unfolding send_packet tcp_client_save_read
  send_packet-IsClientAt now b v m h =
      Ensures-bind (decipher_body-At now b v.buf_read.total_len m h) λ m1 e.
        let s = tcp_client_save_read b v m1 in
        Ensures-bind (tcp_client_parse_req-IsClientAt s.0 s.1 e)
          λ r q. Ensures-ok {a = (record (r.0) { header_parsed = false; idle = true }, r.1)} q

  after_header-IsClientAt :
      (fd now b : ℕ) (r : TcpClient × Mgmt)
      → IsClientAt k fd r
      → Ensures (IsClientAt k fd) (after_header now b r)
  unfolding after_header
  after_header-IsClientAt fd now b (v, m) (h, p) =
      Ensures-bind (check-Ensures (v.buf_read.total_len % 8 == 0)) λ u q.
        Ensures-if (leb v.buf_read.total_len (v.buf_read.len + (m.bufs b).start))
          (Ensures-mono (send_packet-IsClientAt now b v m h) λ q e. (e.0, e.1 ∙ p))
          (Ensures-ok {a = (v, m)} (h, p))

  client_got-IsClientAt :
      (now b : ℕ) (bytes : List ℕ) (v : TcpClient) (m : Mgmt)
      → At k m
      → Ensures (IsClientAt k v.client_fd) (client_got now b bytes v m)
  unfolding client_got write_buf
  client_got-IsClientAt now b bytes v m h =
      let buf = m.bufs b in
      let start = buf.start + length bytes in
      let m1 = write_buf b buf.start bytes m in
      let m2 = record m1 { bufs = update m1.bufs b (record (m1.bufs b) { start = start }) } in
      Ensures-if (leb http_buf_size start) (Ensures-fault Fault.null_deref tt) (
        Ensures-if (not v.header_parsed && leb http_c_header_len start)
          (Ensures-bind (parse_header-IsClientAt now b v m2 h)
            λ r e. after_header-IsClientAt v.client_fd now b r e)
          (after_header-IsClientAt v.client_fd now b (v, m2) (h, refl)))

  client_ended-IsClientAt :
      (b : ℕ) (v : TcpClient) (m : Mgmt) → At k m → IsClientAt k v.client_fd (client_ended b v m)
  unfolding client_ended tcp_client_save_read
  client_ended-IsClientAt b v m h = ground arith

  client_read_cases-IsClientTurn :
      (now : ℕ) (a : ReadAnswer) (b : ℕ) (v : TcpClient) (m : Mgmt)
      → At k m
      → Ensures (IsClientTurn k v.client_fd) (client_read_cases now a b v m)
  client_read_cases-IsClientTurn now a b v m h = got a.bytes a.again
    where
      ended : TcpClient × Mgmt
      ended = client_ended b v m

      got :
          (o : Option (List ℕ)) (again : Bool)
          → Ensures (IsClientTurn k v.client_fd) (elim o [
            | none ↦ ok (if again then pending_turn (v, m) else finish_turn ended)
            | some [] ↦ ok (finish_turn ended)
            | some (x ∷ xs) ↦ client_got now b (x ∷ xs) v m >>= λ r. ok (pending_turn r)
          ])
      got none true = Ensures-ok {a = pending_turn (v, m)} (h, refl)
      got none false = Ensures-ok {a = finish_turn ended} (client_ended-IsClientAt b v m h)
      got (some []) again = Ensures-ok {a = finish_turn ended} (client_ended-IsClientAt b v m h)
      got (some (x ∷ xs)) again =
          Ensures-bind (client_got-IsClientAt now b (x ∷ xs) v m h)
            λ r e. Ensures-ok {a = pending_turn r} e

  client_current-At :
      (v : TcpClient) (m : Mgmt)
      → At k m
      → Ensures
          (λ (r : ℕ × TcpClient × Mgmt). At k r.2 × (r.1.client_fd ≡ v.client_fd))
          (client_current v m)
  unfolding client_current
  client_current-At v m h =
      let r = alloc_buf m in
      Ensures-Option v.buf_read.curr
        (Ensures-bind (deref-Ensures r.1) λ b e.
          Ensures-ok {a = (b, record v { buf_read = record (v.buf_read) { curr = some b } }, r.0)}
            (alloc_buf-At k m h, refl))
        λ b. Ensures-ok {a = (b, v, m)} (h, refl)

  client_read_once-IsClientTurn :
      (now : ℕ) (a : ReadAnswer) (v : TcpClient) (m : Mgmt)
      → At k m
      → Ensures (IsClientTurn k v.client_fd) (client_read_once now a v m)
  unfolding client_read_once
  client_read_once-IsClientTurn now a v m h = Ensures-bind (client_current-At v m h) λ r e.
      Ensures-bind (check-Ensures (ltb (r.2.bufs r.0).start http_buf_size)) λ u q.
        Ensures-mono (client_read_cases-IsClientTurn now a r.0 r.1 r.2 e.0) λ t q. (q.0, q.1 ∙ e.1)

  read_from-IsClientTurn :
      (line : CcrLine) (now : ℕ) (a : ReadAnswer) (v : TcpClient) (m : Mgmt)
      → At k m
      → Ensures (IsClientTurn k v.client_fd) (client_read_from line now a v m)
  read_from-IsClientTurn CcrLine.failed now a v m h = Ensures-ok {a = pending_turn (v, m)} (h, refl)
  read_from-IsClientTurn CcrLine.start now a v m h = client_read_once-IsClientTurn now a v m h
  read_from-IsClientTurn CcrLine.again now a v m h = client_read_once-IsClientTurn now a v m h
  read_from-IsClientTurn CcrLine.partial now a v m h = client_read_once-IsClientTurn now a v m h
  read_from-IsClientTurn CcrLine.no_buf now a v m h = client_read_once-IsClientTurn now a v m h

  pub tcp_client_read-IsClientTurn :
      (now : ℕ) (a : ReadAnswer) (v : TcpClient) (m : Mgmt)
      → At k m
      → Ensures (IsClientTurn k v.client_fd) (tcp_client_read now a v m)
  unfolding tcp_client_read
  tcp_client_read-IsClientTurn now a v m h =
      read_from-IsClientTurn v.ccr_line now a (record v { idle = false }) m h
