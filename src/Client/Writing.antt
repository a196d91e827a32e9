-- ===== src/Client/Writing.antt =====
-- `tcp_client_write`.
pub mod Stream
use web_tunnel.Base.{
  ℕ, ◌+◌, ◌*◌, ◌/◌, Bool, true, false, ◌&&◌, List, [], ◌∷◌, Option, none, some, Outcome, ok, fault,
  assertion, ◌>>=◌, ◌>>◌, check, update, slice, ◌==◌,
}
use web_tunnel.State.{Mgmt, Effect, CallerStatus, CcrLine, ClientFunc, TcpClient, emit, wait_in}
use web_tunnel.Buffers.{free_buf, next_buf_info, list_del}
use web_tunnel.Cipher.{encry2}
use web_tunnel.Runtime.{WriteAnswer, Turn, turn, set_events}
use web_tunnel.Client.Words.{on_words}

-- `((len + 7) / 8) * 8`.
abbrev pub rounded : ℕ → ℕ
rounded len = (len + 7) / 8 * 8

-- All is written: the client is idle and waits for data.
unfoldable pub client_complete : TcpClient → Mgmt → Outcome (Turn TcpClient)
client_complete v m = do
  m1 ← set_events v.pfd wait_in m
  ok (
      turn CallerStatus.pending
        (record v { func_run = ClientFunc.tcp_client_read; ccr_line = CcrLine.start; idle = true })
        m1)

-- The buffer `b` is free, and the next one is current.
unfoldable pub client_advance : ℕ → TcpClient → Mgmt → TcpClient × Mgmt
client_advance b v m =
    let rest = list_del b v.buf_write.list_todo in
    (
      record v { buf_write = record (v.buf_write) { list_todo = rest; curr = next_buf_info rest } },
      free_buf (some b) (record m { bufs = update m.bufs b (record (m.bufs b) { len = 0 }) }),
    )

-- The buffer `b` is enciphered from its start, with its length rounded up, and written at once; the
-- program asserts that `write` takes all of it, so an answer of -1 ends the run too.
unfoldable pub write_client_buf :
    ℕ → WriteAnswer → ℕ → TcpClient → Mgmt → Outcome (TcpClient × Mgmt)
unfolding client_advance
write_client_buf now a b v m = do
  let len = rounded (m.bufs b).len
  let m1 = record m { bufs = update m.bufs b (record (m.bufs b) { len = len }) }
  m2 ← on_words (encry2 now) b 0 (len / 4) m1
  let buf = m2.bufs b
  let m3 = emit (Effect.wrote v.client_fd (slice buf.start len buf.mem)) m2
  elim (a.taken len) [
    | none ↦ fault assertion
    | some n ↦ check (n == len && buf.start == 0) >> ok (client_advance b v m3)
  ]

-- `while(buf_info != NULL)`, with the time and the answer of each call of `write`.
unfoldable pub client_write_loop :
    List (ℕ × WriteAnswer) → TcpClient → Mgmt → Outcome (Turn TcpClient)
unfolding client_complete write_client_buf
client_write_loop [] v m = elim v.buf_write.curr [
  | none ↦ client_complete v m
  | some b ↦ fault assertion
]
client_write_loop (a ∷ as') v m =
    let go = λ (w : TcpClient) (k : Mgmt). client_write_loop as' w k in
    elim v.buf_write.curr [
      | none ↦ client_complete v m
      | some b ↦ write_client_buf a.0 a.1 b v m >>= λ r. go r.0 r.1
    ]

abbrev pub is_null : Option ℕ → Bool
is_null none = true
is_null (some b) = false

-- No `ccrReturn` of this function is reached but the last, so it starts at its head whenever it runs.
unfoldable pub tcp_client_write :
    List (ℕ × WriteAnswer) → TcpClient → Mgmt → Outcome (Turn TcpClient)
unfolding client_write_loop
tcp_client_write answers v m = do
  check (is_null v.buf_write.curr)
  client_write_loop answers
      (record v {
        idle = false;
        buf_write = record (v.buf_write) { curr = next_buf_info v.buf_write.list_todo };
      })
      m
