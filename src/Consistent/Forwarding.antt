-- ===== src/Consistent/Forwarding.antt =====
-- A packet for a connection.
use web_tunnel.Base.{
  Ensures-cases, Returns-Ensures, deref-Ensures, check-Ensures, Fault, ℕ, ◌+◌, ◌-◌, ◌≡◌, refl, [],
  some, true, false, Ensures, Ensures-ok, Ensures-fault, Ensures-bind, Ensures-if, update_self, ltb,
  ◌==◌,
}
use web_tunnel.State.{Mgmt, TcpForward, ForwardFunc, CcrLine, wait_out}
use web_tunnel.Buffers.{next_buf_info}
use web_tunnel.Header.{word16, word32, htons, htonl}
use web_tunnel.Chunk.Text.{c_string}
use web_tunnel.Prepare.{release_prepare}
use web_tunnel.Runtime.{put_forward}
use web_tunnel.Dispatch.Forwarding.{
  Answer, find_forward, wake_forward, take_packet, is_null, queue_packet, process_tcp_forwardresp,
  close_forward, open_forward, process_tcp_forward,
}
use web_tunnel.Consistent.{core, IsConsistent, IsConsistent-At}
use web_tunnel.Consistent.Searches.{find_forward-IsFound, Holds-used, seq_of}
use web_tunnel.Consistent.Frames.{in_use-Ensures, set_events-At}
use web_tunnel.Consistent.Connections.{
  put_forward-IsConsistent, tcp_forward_release-IsConsistent, tcp_forward_create-IsConsistent,
  IsFresh,
}
use web_tunnel.Consistent.Packets.{state_of}

wake_forward-IsConsistent :
    (f : ℕ) (v w : TcpForward) (m : Mgmt)
    → IsConsistent m
    → m.forwards f ≡ some v
    → w.fwd_fd ≡ v.fwd_fd
    → Ensures IsConsistent (wake_forward f w m)
unfolding wake_forward
wake_forward-IsConsistent f v w m s e p =
    let u = record w { func_run = ForwardFunc.tcp_forward_write; ccr_line = CcrLine.start } in
    Ensures-if w.idle
      (Ensures-bind (set_events-At (core m) w.pfd wait_out m (IsConsistent-At m s)) λ n h.
        Ensures-ok {a = put_forward f (some u) n}
          (put_forward-IsConsistent (core m) f v u n s.linked h e p))
      (Ensures-ok {a = m} s)

queue_packet-IsConsistent :
    (f : ℕ) (v : TcpForward) (m : Mgmt)
    → IsConsistent m
    → m.forwards f ≡ some v
    → Ensures IsConsistent (queue_packet f v m)
unfolding queue_packet take_packet release_prepare
queue_packet-IsConsistent f v m s e =
    let w = take_packet v m in
    let m0 = record m { buf_prepare = record (m.buf_prepare) { list_todo = [] } } in
    let m1 = put_forward f (some w) m0 in
    Ensures-bind (check-Ensures (is_null m.buf_prepare.curr)) λ u q.
      wake_forward-IsConsistent f w w (release_prepare m1)
        (put_forward-IsConsistent (core m) f v w m0 s.linked (IsConsistent-At m s) e refl)
        (update_self m.forwards f (some w)) refl

pub process_tcp_forwardresp-IsConsistent :
    (m : Mgmt)
    → IsConsistent m
    → Ensures (λ r. IsConsistent (state_of r)) (process_tcp_forwardresp m)
unfolding process_tcp_forwardresp
process_tcp_forwardresp-IsConsistent m s =
    Ensures-bind
      (Returns-Ensures (find_forward m.buf_prepare.seq m.list_forward m)
        (find_forward-IsFound m m.buf_prepare.seq s))
      λ o r. Ensures-cases o (Ensures-ok {a = (m, false)} s) λ f g.
        Ensures-bind
          (in_use-Ensures (m.forwards f)
            (Holds-used seq_of m.forwards f m.buf_prepare.seq (r.found f g)))
          λ v e.
            Ensures-bind (queue_packet-IsConsistent f v m s e) λ n h. Ensures-ok {a = (n, true)} h

close_forward-IsConsistent :
    (m : Mgmt) → IsConsistent m → Ensures (λ r. IsConsistent (state_of r)) (close_forward m)
unfolding close_forward release_prepare
close_forward-IsConsistent m s =
    Ensures-bind
      (Returns-Ensures (find_forward m.buf_prepare.seq m.list_forward m)
        (find_forward-IsFound m m.buf_prepare.seq s))
      λ o r. Ensures-cases o (Ensures-ok {a = (m, false)} s) λ f g.
        Ensures-bind
          (tcp_forward_release-IsConsistent f m s
            (Holds-used seq_of m.forwards f m.buf_prepare.seq (r.found f g)))
          λ n h. Ensures-ok {a = (release_prepare n, true)} h

open_forward-IsConsistent :
    (a : Answer) (b : ℕ) (m : Mgmt)
    → IsConsistent m
    → IsFresh a.socket
    → Ensures (λ r. IsConsistent (state_of r)) (open_forward a b m)
unfolding open_forward release_prepare
open_forward-IsConsistent a b m s n =
    let buf = m.bufs b in
    let seq = htons (word16 (buf.mem 0) (buf.mem 1)) in
    let port = htons (word16 (buf.mem 2) (buf.mem 3)) in
    let kind = htonl (word32 (buf.mem 4) (buf.mem 5) (buf.mem 6) (buf.mem 7)) in
    let host = c_string (buf.len - 8) 8 buf.mem in
    Ensures-if (ltb buf.len 8) (Ensures-fault Fault.negative_length tt) (
      Ensures-if (ltb 128 (buf.len - 8 + 2)) (Ensures-fault Fault.overrun tt) (
        Ensures-bind
          (tcp_forward_create-IsConsistent a.resolve seq host port kind m a.memory a.socket s n)
          λ r h. Ensures-ok {a = (release_prepare r.0, true)} h))

pub process_tcp_forward-IsConsistent :
    (a : Answer) (m : Mgmt)
    → IsConsistent m
    → IsFresh a.socket
    → Ensures (λ r. IsConsistent (state_of r)) (process_tcp_forward a m)
unfolding process_tcp_forward
process_tcp_forward-IsConsistent a m s n =
    Ensures-if (ltb m.buf_prepare.len 8) (Ensures-ok {a = (m, false)} s) (
      Ensures-bind (deref-Ensures (next_buf_info m.buf_prepare.list_todo)) λ b e.
        let mem = (m.bufs b).mem in
        Ensures-if (htonl (word32 (mem 4) (mem 5) (mem 6) (mem 7)) == 1)
          (close_forward-IsConsistent m s) (open_forward-IsConsistent a b m s n))
