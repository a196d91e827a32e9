-- ===== src/Forward/Coroutines/Writing.antt =====
-- What `tcp_forward_write` writes to a forwarded connection.
pub mod Spec
pub mod Advance
pub mod Loop
use mathlib.Core.Path.{ap₂}
use web_tunnel.Base.{
  list-cases, ℕ, suc, ◌+◌, ◌-◌, ◌≤◌, ◌<◌, ◌≡◌, ◌≢◌, refl, sym, ap, ◌∙◌, Bool, true, false, not,
  ◌&&◌, List, [], ◌∷◌, ◌++◌, append-nil, append_assoc, count, Option, none, some, Outcome, ok,
  check, ◌>>◌, Returns, ◌>>=◌, arith, ltb, ◌==◌, if◌then◌else◌, ==_refl, subst, slice, slice-append,
  update, update_self, Bool-cases, inl, inr, ◌⊎◌, Returns-mono,
}
use web_tunnel.State.{Mgmt, Buf, HttpBuf, Effect, CallerStatus, CcrLine, TcpForward, emit}
use web_tunnel.Buffers.{next_buf_info, list_del}
use web_tunnel.Runtime.{WriteAnswer, Turn, turn, AreHonest}
use web_tunnel.Forward.Coroutines.{
  is_null, write_complete, advance, write_loop, resume_again, resume_write, tcp_forward_write,
}
use web_tunnel.Forward.Coroutines.Writing.Spec.{
  pending, wrote_in, IsHead, AtLine, IsOnce, IsWritten, wrote_in-append, pending-update,
}
use web_tunnel.Forward.Coroutines.Writing.Advance.{IsLive, IsPushed, pushed, pushed-IsPushed}
use web_tunnel.Forward.Coroutines.Writing.Loop.{continued-IsWritten, write_loop-IsWritten}

-- Nothing is written where the coroutine goes on after EAGAIN, with `n` being 0.
advance-emit :
    (b : ℕ) (v : TcpForward) (m : Mgmt) (x : Effect)
    → advance b 0 v (emit x m)
      ≡ ((advance b 0 v m).0, (advance b 0 v m).1, emit x (advance b 0 v m).2)
unfolding advance
advance-emit b v m x = elim (Bool-cases (ltb 0 (m.bufs b).len)) [ inl h ↦ rw h | inr h ↦ rw h ]

unemit-IsPushed :
    (v : TcpForward) (m : Mgmt) (r : Bool × TcpForward × Mgmt)
    → IsPushed v m (r.0, r.1, emit (Effect.wrote v.fwd_fd []) r.2)
    → IsPushed v m r
unemit-IsPushed v m r p = record {
  stream =
      sym (
        ap (λ l. l ++ pending r.2.bufs r.1.buf_write.list_todo)
          (wrote_in-append v.fwd_fd r.2.trace [] ∙ append-nil (wrote_in v.fwd_fd r.2.trace)))
      ∙ p.stream;
  fd = p.fd;
  live = p.live;
  same_pfd = p.same_pfd;
  part = p.part;
}

resume_again-eq :
    (answers : List WriteAnswer) (v : TcpForward) (m : Mgmt) (b : ℕ)
    → v.buf_write.curr ≡ some b
    → resume_again answers v m ≡ (
        let r = advance b 0 v m in
        if r.0 then write_loop answers r.1 r.2 else ok (turn CallerStatus.pending r.1 r.2))
unfolding resume_again
resume_again-eq answers v m b c = rw c

resume_again-IsWritten :
    (answers : List WriteAnswer) (v : TcpForward) (m : Mgmt)
    → AreHonest answers
    → IsLive v
    → v.buf_write.list_todo ≢ []
    → Returns (IsWritten v m) (resume_again answers v m)
unfolding pushed slice
resume_again-IsWritten answers v m h l full = elim (list-cases v.buf_write.list_todo) [
  | inl e ↦ absurd (full e)
  | inr (b, bs, e) ↦ rw (resume_again-eq answers v m b (l.head ∙ ap next_buf_info e)) (
      let p = unemit-IsPushed v m (advance b 0 v m) (
        subst (IsPushed v m) (advance-emit b v m (Effect.wrote v.fwd_fd []))
          (pushed-IsPushed v m b 0 bs l e (omega arith))) in
      continued-IsWritten b bs v m l e answers (advance b 0 v m) p
        (write_loop-IsWritten answers (advance b 0 v m).1 (advance b 0 v m).2 h p.live))
]

live-of :
    (v : TcpForward) (slot : ℕ)
    → v.pfd ≡ some slot
    → IsOnce v.buf_write.list_todo
    → v.idle ≡ false
    → IsHead v.buf_write
    → IsLive v
live-of v slot f o i h = record { slot = slot; has_pfd = f; head = h; live_once = o; busy = i }

-- The first buffer of the list becomes the current one.
first_current : TcpForward → TcpForward
first_current v = record v {
  buf_write = record (v.buf_write) { curr = next_buf_info v.buf_write.list_todo };
}

resume_write-eq-start :
    (answers : List WriteAnswer) (v : TcpForward) (m : Mgmt)
    → v.buf_write.curr ≡ none
    → resume_write CcrLine.start answers v m ≡ write_loop answers (first_current v) m
unfolding resume_write first_current
resume_write-eq-start answers v m c =
    ap (λ o. check (is_null o) >> write_loop answers (first_current v) m) c

IsWritten-first_current :
    (v : TcpForward) (m : Mgmt) (t : Turn TcpForward)
    → IsWritten (first_current v) m t
    → IsWritten v m t
unfolding first_current
IsWritten-first_current v m t w = record {
  stream = w.stream;
  fd = w.fd;
  pfd = w.pfd;
  once = w.once;
  line = w.line;
  complete = w.complete;
}

start-IsLive :
    (v : TcpForward) (slot : ℕ)
    → v.pfd ≡ some slot
    → IsOnce v.buf_write.list_todo
    → v.idle ≡ false
    → IsLive (first_current v)
unfolding first_current
start-IsLive v slot f o i = record {
  slot = slot;
  has_pfd = f;
  head = refl;
  live_once = o;
  busy = i;
}

resume_write-IsWritten :
    (line : CcrLine) (answers : List WriteAnswer) (v : TcpForward) (m : Mgmt) (slot : ℕ)
    → AreHonest answers
    → v.pfd ≡ some slot
    → IsOnce v.buf_write.list_todo
    → v.idle ≡ false
    → AtLine line v.buf_write
    → Returns (IsWritten v m) (resume_write line answers v m)
unfolding resume_write
resume_write-IsWritten CcrLine.start answers v m slot h f o i at =
    rw (resume_write-eq-start answers v m at) (
      Returns-mono (IsWritten (first_current v) m) (IsWritten v m)
        (write_loop answers (first_current v) m)
        (write_loop-IsWritten answers (first_current v) m h (start-IsLive v slot f o i))
        (IsWritten-first_current v m))
resume_write-IsWritten CcrLine.again answers v m slot h f o i at =
    resume_again-IsWritten answers v m h (live-of v slot f o i at.0) at.1
resume_write-IsWritten CcrLine.failed answers v m slot h f o i at =
    resume_again-IsWritten answers v m h (live-of v slot f o i at.0) at.1
resume_write-IsWritten CcrLine.partial answers v m slot h f o i at =
    write_loop-IsWritten answers v m h (live-of v slot f o i at)
resume_write-IsWritten CcrLine.no_buf answers v m slot h f o i at =
    write_loop-IsWritten answers v m h (live-of v slot f o i at)

-- A turn of `tcp_forward_write` does not fail, whatever `write` answers, if it takes no more than it is
-- offered: if the connection has an entry in the table, no buffer is on its list twice, and `curr` is as
-- the line of the coroutine requires, then the bytes that are written and those that are left on the list
-- are, in this order, those that were left before; list and `curr` are again as required, and the
-- connection is idle only if nothing is left.
pub tcp_forward_write-IsWritten :
    (answers : List WriteAnswer) (v : TcpForward) (m : Mgmt) (slot : ℕ)
    → AreHonest answers
    → v.pfd ≡ some slot
    → IsOnce v.buf_write.list_todo
    → AtLine v.ccr_line v.buf_write
    → Returns (IsWritten v m) (tcp_forward_write answers v m)
unfolding tcp_forward_write
tcp_forward_write-IsWritten answers v m slot h f o at =
    Returns-mono (IsWritten w m) (IsWritten v m) (resume_write v.ccr_line answers w m)
      (resume_write-IsWritten v.ccr_line answers w m slot h f o refl at)
      λ t x. record {
        stream = x.stream;
        fd = x.fd;
        pfd = x.pfd;
        once = x.once;
        line = x.line;
        complete = x.complete;
      }
  where
    w : TcpForward
    w = record v { idle = false }
