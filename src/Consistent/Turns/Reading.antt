-- ===== src/Consistent/Turns/Reading.antt =====
-- `tcp_forward_read`.
use web_tunnel.Base.{
  ℕ, ◌≡◌, refl, List, [], ◌∷◌, Option, none, some, Bool, true, false, ok, ◌>>=◌, Ensures,
  Ensures-ok, Ensures-bind, Ensures-Option, if◌then◌else◌,
}
use web_tunnel.State.{Mgmt, CallerStatus, CcrLine, ForwardFunc, TcpForward, wait_out}
use web_tunnel.Buffers.{alloc_buf, free_buf, write_buf, set_lengths}
use web_tunnel.Runtime.{ReadAnswer, Turn, set_events}
use web_tunnel.Forward.Coroutines.{
  pack_forward, idle_turn, forward_bytes, forward_got, tcp_forward_read,
}
use web_tunnel.Consistent.{Core, At}
use web_tunnel.Consistent.Frames.{set_events-At, alloc_buf-At, toserver-At}
use web_tunnel.Consistent.Turns.{IsForwardTurn}

module _ (k : Core) where
  pack_forward-At :
      (b seq : ℕ) (bytes : List ℕ) (m : Mgmt) → At k m → At k (pack_forward b seq bytes m)
  unfolding pack_forward write_buf set_lengths
  pack_forward-At b seq bytes m h = h

  switch_on-At :
      (todo : List ℕ) (v : TcpForward) (m : Mgmt)
      → At k m
      → Ensures
          (λ (r : TcpForward × Mgmt). At k r.1 × (r.0.fwd_fd ≡ v.fwd_fd))
          (elim todo [
            | [] ↦ ok (v, m)
            | b ∷ bs ↦ set_events v.pfd wait_out m >>= λ n.
                ok (
                  record v { func_run = ForwardFunc.tcp_forward_write; ccr_line = CcrLine.start },
                  n,
                )
          ])
  switch_on-At [] v m h = Ensures-ok {a = (v, m)} (h, refl)
  switch_on-At (b ∷ bs) v m h =
      let w = record v { func_run = ForwardFunc.tcp_forward_write; ccr_line = CcrLine.start } in
      Ensures-bind (set_events-At k v.pfd wait_out m h) λ n e. Ensures-ok {a = (w, n)} (e, refl)

  forward_bytes-IsForwardTurn :
      (b : ℕ) (bytes : List ℕ) (v : TcpForward) (m : Mgmt)
      → At k m
      → Ensures (IsForwardTurn k v.fwd_fd) (forward_bytes b bytes v m)
  unfolding forward_bytes
  forward_bytes-IsForwardTurn b bytes v m h =
      Ensures-bind
        (toserver-At k b (pack_forward b v.seq bytes m) (pack_forward-At b v.seq bytes m h))
        λ m1 e.
          Ensures-bind (switch_on-At v.buf_write.list_todo v m1 e)
            λ r q. Ensures-ok {a = idle_turn CallerStatus.pending r.0 r.1} q

  forward_got-IsForwardTurn :
      (a : ReadAnswer) (b : ℕ) (v : TcpForward) (m : Mgmt)
      → At k m
      → Ensures (IsForwardTurn k v.fwd_fd) (forward_got a b v m)
  unfolding forward_got
  forward_got-IsForwardTurn a b v m h = got a.bytes a.again
    where
      stopped : Turn TcpForward
      stopped = idle_turn CallerStatus.finish v (free_buf (some b) m)

      got :
          (o : Option (List ℕ)) (again : Bool)
          → Ensures (IsForwardTurn k v.fwd_fd) (elim o [
            | none ↦
                ok (
                  if again then idle_turn CallerStatus.pending v (free_buf (some b) m) else stopped)
            | some [] ↦ ok stopped
            | some (x ∷ xs) ↦ forward_bytes b (x ∷ xs) v m
          ])
      got none true =
          Ensures-ok {a = idle_turn CallerStatus.pending v (free_buf (some b) m)} (h, refl)
      got none false = Ensures-ok {a = stopped} (h, refl)
      got (some []) again = Ensures-ok {a = stopped} (h, refl)
      got (some (x ∷ xs)) again = forward_bytes-IsForwardTurn b (x ∷ xs) v m h

  pub tcp_forward_read-IsForwardTurn :
      (a : ReadAnswer) (v : TcpForward) (m : Mgmt)
      → At k m
      → Ensures (IsForwardTurn k v.fwd_fd) (tcp_forward_read a v m)
  unfolding tcp_forward_read
  tcp_forward_read-IsForwardTurn a v m h =
      let r = alloc_buf m in
      let e = alloc_buf-At k m h in
      Ensures-Option r.1 (Ensures-ok {a = idle_turn CallerStatus.pending v r.0} (e, refl))
        λ b. forward_got-IsForwardTurn a b v r.0 e
