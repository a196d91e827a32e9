-- ===== src/Consistent/Turns/Writing.antt =====
-- `tcp_forward_connect` and `tcp_forward_write`.
use web_tunnel.Base.{
  check-Ensures, Fault, ℕ, ◌≡◌, refl, ◌∙◌, ◌&&◌, not, List, [], ◌∷◌, true, false, Ensures,
  Ensures-ok, Ensures-fault, Ensures-bind, Ensures-if, Ensures-Option, ◌==◌, slice, arith,
}
use web_tunnel.State.{
  Mgmt, Effect, CallerStatus, CcrLine, ForwardFunc, TcpForward, emit, wait_in, wait_out,
}
use web_tunnel.Buffers.{next_buf_info}
use web_tunnel.Runtime.{ConnectAnswer, WriteAnswer, turn, is_poll_out}
use web_tunnel.Forward.Coroutines.{
  forward_connected, forward_try, tcp_forward_connect, write_complete, advance, write_loop, is_null,
  resume_again, resume_write, tcp_forward_write,
}
use web_tunnel.Consistent.{Core, At}
use web_tunnel.Consistent.Frames.{pollfd_at-Ensures, set_events-At}
use web_tunnel.Consistent.Turns.{IsForwardTurn}

module _ (k : Core) where
  forward_connected-IsForwardTurn :
      (v : TcpForward) (m : Mgmt)
      → At k m
      → Ensures (IsForwardTurn k v.fwd_fd) (forward_connected v m)
  unfolding forward_connected
  forward_connected-IsForwardTurn v m h =
      let w = record v {
        func_run = ForwardFunc.tcp_forward_read;
        ccr_line = CcrLine.start;
        idle = true;
      } in
      Ensures-bind (set_events-At k v.pfd wait_in m h)
        λ m1 e. Ensures-ok {a = turn CallerStatus.pending w m1} (e, refl)

  forward_try-IsForwardTurn :
      (a : ConnectAnswer) (v : TcpForward) (m : Mgmt)
      → At k m
      → Ensures (IsForwardTurn k v.fwd_fd) (forward_try a v m)
  unfolding forward_try
  forward_try-IsForwardTurn ConnectAnswer.connected v m h = forward_connected-IsForwardTurn v m h
  forward_try-IsForwardTurn ConnectAnswer.in_progress v m h =
      Ensures-bind (set_events-At k v.pfd wait_out m h)
        λ m1 e. Ensures-ok {a = turn CallerStatus.continue v m1} (e, refl)
  forward_try-IsForwardTurn ConnectAnswer.refused v m h =
      Ensures-ok {a = turn CallerStatus.finish (record v { errcode = 3 }) m} (h, refl)

  pub tcp_forward_connect-IsForwardTurn :
      (a : ConnectAnswer) (v : TcpForward) (m : Mgmt)
      → At k m
      → Ensures (IsForwardTurn k v.fwd_fd) (tcp_forward_connect a v m)
  unfolding tcp_forward_connect
  tcp_forward_connect-IsForwardTurn a v m h = Ensures-bind (pollfd_at-Ensures m v.pfd) λ pfd z.
      Ensures-if (is_poll_out pfd.revents) (forward_connected-IsForwardTurn v m h)
        (forward_try-IsForwardTurn a v m h)

  advance-At :
      (b n : ℕ) (v : TcpForward) (m : Mgmt)
      → At k m
      → At k (advance b n v m).2 × ((advance b n v m).1.fwd_fd ≡ v.fwd_fd)
  unfolding advance
  advance-At b n v m h = ground arith

  -- From here on the socket is a number of its own.
  module _ (fd : ℕ) where
    write_complete-IsForwardTurn :
        (v : TcpForward) (m : Mgmt)
        → At k m
        → v.fwd_fd ≡ fd
        → Ensures (IsForwardTurn k fd) (write_complete v m)
    unfolding write_complete
    write_complete-IsForwardTurn v m h p =
        let w = record v {
          func_run = ForwardFunc.tcp_forward_read;
          ccr_line = CcrLine.start;
          idle = true;
        } in
        Ensures-bind (set_events-At k v.pfd wait_in m h)
          λ m1 e. Ensures-ok {a = turn CallerStatus.pending w m1} (e, p)

    write_loop-IsForwardTurn :
        (answers : List WriteAnswer) (v : TcpForward) (m : Mgmt)
        → At k m
        → v.fwd_fd ≡ fd
        → Ensures (IsForwardTurn k fd) (write_loop answers v m)
    unfolding write_loop
    write_loop-IsForwardTurn [] v m h p =
        Ensures-Option v.buf_write.curr (write_complete-IsForwardTurn v m h p) λ b.
          Ensures-ok {a = turn CallerStatus.pending (record v { ccr_line = CcrLine.again }) m}
            (h, p)
    write_loop-IsForwardTurn (a ∷ as') v m h p =
        let failed = turn CallerStatus.finish (record v { ccr_line = CcrLine.failed }) m in
        Ensures-Option v.buf_write.curr (write_complete-IsForwardTurn v m h p) λ b.
          Ensures-Option (a.taken (m.bufs b).len)
            (Ensures-if a.again
              (Ensures-ok {a = turn CallerStatus.pending (record v { ccr_line = CcrLine.again }) m}
                (h, p))
              (Ensures-ok {a = failed} (h, p)))
            λ n.
              let w = emit (Effect.wrote v.fwd_fd (slice (m.bufs b).start n (m.bufs b).mem)) m in
              let r = advance b n v w in
              let q = advance-At b n v w h in
              Ensures-if (n == 0 && not a.again) (Ensures-ok {a = failed} (h, p)) (
                Ensures-if r.0 (write_loop-IsForwardTurn as' r.1 r.2 q.0 (q.1 ∙ p))
                  (Ensures-ok {a = turn CallerStatus.pending r.1 r.2} (q.0, q.1 ∙ p)))

    resume_again-IsForwardTurn :
        (answers : List WriteAnswer) (v : TcpForward) (m : Mgmt)
        → At k m
        → v.fwd_fd ≡ fd
        → Ensures (IsForwardTurn k fd) (resume_again answers v m)
    unfolding resume_again
    resume_again-IsForwardTurn answers v m h p =
        Ensures-Option v.buf_write.curr (Ensures-fault Fault.null_deref tt) λ b.
          let r = advance b 0 v m in
          let q = advance-At b 0 v m h in
          Ensures-if r.0 (write_loop-IsForwardTurn answers r.1 r.2 q.0 (q.1 ∙ p))
            (Ensures-ok {a = turn CallerStatus.pending r.1 r.2} (q.0, q.1 ∙ p))

    resume_write-IsForwardTurn :
        (line : CcrLine) (answers : List WriteAnswer) (v : TcpForward) (m : Mgmt)
        → At k m
        → v.fwd_fd ≡ fd
        → Ensures (IsForwardTurn k fd) (resume_write line answers v m)
    unfolding resume_write
    resume_write-IsForwardTurn CcrLine.start answers v m h p =
        let w = record v {
          buf_write = record (v.buf_write) { curr = next_buf_info v.buf_write.list_todo };
        } in
        Ensures-bind (check-Ensures (is_null v.buf_write.curr))
          λ u q. write_loop-IsForwardTurn answers w m h p
    resume_write-IsForwardTurn CcrLine.partial answers v m h p =
        write_loop-IsForwardTurn answers v m h p
    resume_write-IsForwardTurn CcrLine.again answers v m h p =
        resume_again-IsForwardTurn answers v m h p
    resume_write-IsForwardTurn CcrLine.failed answers v m h p =
        resume_again-IsForwardTurn answers v m h p
    resume_write-IsForwardTurn CcrLine.no_buf answers v m h p =
        write_loop-IsForwardTurn answers v m h p

  pub tcp_forward_write-IsForwardTurn :
      (answers : List WriteAnswer) (v : TcpForward) (m : Mgmt)
      → At k m
      → Ensures (IsForwardTurn k v.fwd_fd) (tcp_forward_write answers v m)
  unfolding tcp_forward_write
  tcp_forward_write-IsForwardTurn answers v m h =
      resume_write-IsForwardTurn v.fwd_fd v.ccr_line answers (record v { idle = false }) m h refl
