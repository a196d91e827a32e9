-- ===== src/Consistent/Turns/ClientWriting.antt =====
-- `tcp_client_write`.
use web_tunnel.Base.{
  Unfreed, check-Ensures, ◌%◌, Fault, ℕ, ◌/◌, ◌&&◌, refl, ◌∙◌, List, [], ◌∷◌, slice, true, false,
  Ensures, Ensures-ok, Ensures-fault, Ensures-bind, Ensures-mono, Ensures-Option, ◌==◌, update,
}
use web_tunnel.State.{Mgmt, Effect, CallerStatus, CcrLine, ClientFunc, TcpClient, emit, wait_in}
use web_tunnel.Buffers.{next_buf_info}
use web_tunnel.Cipher.{each_pair, encry, generate_key, shared_key, encry2}
use web_tunnel.Runtime.{WriteAnswer, turn}
use web_tunnel.Client.Writing.{
  rounded, client_complete, client_advance, write_client_buf, client_write_loop, is_null,
  tcp_client_write,
}
use web_tunnel.Consistent.{Core, At}
use web_tunnel.Consistent.Frames.{set_events-At}
use web_tunnel.Consistent.Turns.{IsClientTurn}
use web_tunnel.Consistent.Turns.ClientReading.{IsClientAt, on_words-At}

encry2-Unfreed : (now : ℕ) (ws : List ℕ) (n : ℕ) → Unfreed (encry2 now ws n)
unfolding encry2
encry2-Unfreed now ws n =
    Ensures-bind (check-Ensures (n % 2 == 0))
      λ u q. Ensures-ok {a = each_pair (encry (generate_key now shared_key)) (n / 2) ws} tt

module _ (k : Core) where
  client_advance-IsClientAt :
      (b : ℕ) (v : TcpClient) (m : Mgmt) → At k m → IsClientAt k v.client_fd (client_advance b v m)
  unfolding client_advance
  client_advance-IsClientAt b v m h = (h, refl)

  write_client_buf-IsClientAt :
      (now : ℕ) (a : WriteAnswer) (b : ℕ) (v : TcpClient) (m : Mgmt)
      → At k m
      → Ensures (IsClientAt k v.client_fd) (write_client_buf now a b v m)
  unfolding write_client_buf
  write_client_buf-IsClientAt now a b v m h =
      let len = rounded (m.bufs b).len in
      let m1 = record m { bufs = update m.bufs b (record (m.bufs b) { len = len }) } in
      Ensures-bind (on_words-At k (encry2 now) (encry2-Unfreed now) b 0 (len / 4) m1 h) λ m2 e.
        let buf = m2.bufs b in
        let m3 = emit (Effect.wrote v.client_fd (slice buf.start len buf.mem)) m2 in
        Ensures-Option (a.taken len) (Ensures-fault Fault.assertion tt) λ n.
          Ensures-bind (check-Ensures (n == len && buf.start == 0))
            λ u q. Ensures-ok {a = client_advance b v m3} (client_advance-IsClientAt b v m3 e)

  client_complete-IsClientTurn :
      (v : TcpClient) (m : Mgmt)
      → At k m
      → Ensures (IsClientTurn k v.client_fd) (client_complete v m)
  unfolding client_complete
  client_complete-IsClientTurn v m h =
      let w = record v {
        func_run = ClientFunc.tcp_client_read;
        ccr_line = CcrLine.start;
        idle = true;
      } in
      Ensures-bind (set_events-At k v.pfd wait_in m h)
        λ m1 e. Ensures-ok {a = turn CallerStatus.pending w m1} (e, refl)

  write_loop-IsClientTurn :
      (answers : List (ℕ × WriteAnswer)) (v : TcpClient) (m : Mgmt)
      → At k m
      → Ensures (IsClientTurn k v.client_fd) (client_write_loop answers v m)
  unfolding client_write_loop
  write_loop-IsClientTurn [] v m h =
      Ensures-Option v.buf_write.curr (client_complete-IsClientTurn v m h)
        λ b. (Ensures-fault Fault.assertion tt)
  write_loop-IsClientTurn (a ∷ as') v m h =
      Ensures-Option v.buf_write.curr (client_complete-IsClientTurn v m h) λ b.
        Ensures-bind (write_client_buf-IsClientAt a.0 a.1 b v m h)
          λ r e. Ensures-mono (write_loop-IsClientTurn as' r.0 r.1 e.0) λ t q. (q.0, q.1 ∙ e.1)

  pub tcp_client_write-IsClientTurn :
      (answers : List (ℕ × WriteAnswer)) (v : TcpClient) (m : Mgmt)
      → At k m
      → Ensures (IsClientTurn k v.client_fd) (tcp_client_write answers v m)
  unfolding tcp_client_write
  tcp_client_write-IsClientTurn answers v m h =
      let w = record v {
        idle = false;
        buf_write = record (v.buf_write) { curr = next_buf_info v.buf_write.list_todo };
      } in
      Ensures-bind (check-Ensures (is_null v.buf_write.curr))
        λ u q. write_loop-IsClientTurn answers w m h
