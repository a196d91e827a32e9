-- ===== src/Forward/Coroutines/Writing/Loop.antt =====
-- The loop of `tcp_forward_write`.
use web_tunnel.Base.{
  list-cases, ℕ, ◌≡◌, refl, sym, ap, ◌∙◌, Bool, true, false, not, ◌&&◌, List, [], ◌∷◌, ◌++◌, Option,
  none, some, Outcome, ok, Returns, arith, ◌==◌, if◌then◌else◌, subst, slice, inl, inr, ◌⊎◌,
  Returns-mono,
}
use web_tunnel.State.{Mgmt, Effect, CallerStatus, CcrLine, TcpForward, emit}
use web_tunnel.Buffers.{next_buf_info}
use web_tunnel.Runtime.{WriteAnswer, Turn, turn, AreHonest}
use web_tunnel.Forward.Coroutines.{write_complete, advance, write_loop}
use web_tunnel.Forward.Coroutines.Writing.Spec.{pending, wrote_in, AtLine, IsWritten}
use web_tunnel.Forward.Coroutines.Writing.Advance.{IsLive, IsPushed, pushed, pushed-IsPushed}

write_loop-eq-write_complete :
    (answers : List WriteAnswer) (v : TcpForward) (m : Mgmt)
    → v.buf_write.curr ≡ none
    → write_loop answers v m ≡ write_complete v m
unfolding write_loop
write_loop-eq-write_complete [] v m c = rw c
write_loop-eq-write_complete (a ∷ as') v m c = rw c

write_loop-eq-stuck :
    (v : TcpForward) (m : Mgmt) (b : ℕ)
    → v.buf_write.curr ≡ some b
    → write_loop [] v m ≡ ok (turn CallerStatus.pending (record v { ccr_line = CcrLine.again }) m)
unfolding write_loop
write_loop-eq-stuck v m b c = rw c

module _ (a : WriteAnswer) (as' : List WriteAnswer) (v : TcpForward) (m : Mgmt) (b : ℕ)
    (c : v.buf_write.curr ≡ some b) where
  write_loop-eq-refused :
      a.taken (m.bufs b).len ≡ none
      → write_loop (a ∷ as') v m ≡ (
          if a.again
          then ok (turn CallerStatus.pending (record v { ccr_line = CcrLine.again }) m)
          else ok (turn CallerStatus.finish (record v { ccr_line = CcrLine.failed }) m))
  unfolding write_loop
  write_loop-eq-refused h = rw c (rw h)

  write_loop-eq-took :
      (n : ℕ)
      → a.taken (m.bufs b).len ≡ some n
      → write_loop (a ∷ as') v m ≡ (
          if n == 0 && not a.again
          then ok (turn CallerStatus.finish (record v { ccr_line = CcrLine.failed }) m)
          else (let k = emit (Effect.wrote v.fwd_fd (slice (m.bufs b).start n (m.bufs b).mem)) m in
              let r = advance b n v k in
              if r.0 then write_loop as' r.1 r.2 else ok (turn CallerStatus.pending r.1 r.2)))
  unfolding write_loop
  write_loop-eq-took n h = rw c (rw h)

Option-view : (o : Option ℕ) → (o ≡ none) ⊎ ((n : ℕ) × (o ≡ some n))
Option-view none = inl refl
Option-view (some n) = inr (n, refl)

-- A turn that ends before anything is written, on the first buffer.
stopped-IsWritten :
    (v : TcpForward) (m : Mgmt) (s : CallerStatus) (line : CcrLine)
    → IsLive v
    → AtLine line v.buf_write
    → IsWritten v m (turn s (record v { ccr_line = line }) m)
stopped-IsWritten v m s line l at = record {
  stream = refl;
  fd = refl;
  pfd = refl;
  once = l.live_once;
  line = at;
  complete = λ i. ground (arith, l.busy, i);
}

complete-IsWritten :
    (v : TcpForward) (m : Mgmt)
    → IsLive v
    → v.buf_write.list_todo ≡ []
    → Returns (IsWritten v m) (write_complete v m)
unfolding write_complete
complete-IsWritten v m l e = rw l.has_pfd (record {
  stream = refl;
  fd = refl;
  pfd = refl;
  once = l.live_once;
  line = l.head ∙ ap next_buf_info e;
  complete = λ i. e;
})

-- What follows after some bytes were written.
IsWritten-from :
    (v : TcpForward) (m : Mgmt) (r : Bool × TcpForward × Mgmt) (t : Turn TcpForward)
    → IsPushed v m r
    → IsWritten r.1 r.2 t
    → IsWritten v m t
IsWritten-from v m r t p w = record {
  stream =
      subst
        (λ fd.
          wrote_in fd t.mgmt.trace ++ pending t.mgmt.bufs t.self.buf_write.list_todo
          ≡ wrote_in fd r.2.trace ++ pending r.2.bufs r.1.buf_write.list_todo)
        p.fd w.stream
      ∙ p.stream;
  fd = w.fd ∙ p.fd;
  pfd = w.pfd ∙ p.same_pfd;
  once = w.once;
  line = w.line;
  complete = w.complete;
}

module _ (b : ℕ) (bs : List ℕ) (v : TcpForward) (m : Mgmt) (l : IsLive v)
    (e : v.buf_write.list_todo ≡ b ∷ bs) where
  here : AtLine CcrLine.again v.buf_write
  here = (l.head, λ h. cc)

  -- The rest of the loop's body, and the loop after it.
  pub continued-IsWritten :
      (as' : List WriteAnswer) (r : Bool × TcpForward × Mgmt)
      → IsPushed v m r
      → Returns (IsWritten r.1 r.2) (write_loop as' r.1 r.2)
      → Returns
          (IsWritten v m)
          (if r.0 then write_loop as' r.1 r.2 else ok (turn CallerStatus.pending r.1 r.2))
  continued-IsWritten as' (true, w, k) p h =
      Returns-mono (IsWritten w k) (IsWritten v m) (write_loop as' w k) h
        (λ t x. IsWritten-from v m (true, w, k) t p x)
  continued-IsWritten as' (false, w, k) p h = record {
    stream = p.stream;
    fd = p.fd;
    pfd = p.same_pfd;
    once = p.live.live_once;
    line = subst (λ c. AtLine c w.buf_write) (sym (p.part refl)) p.live.head;
    complete = λ i. ground (arith, p.live.busy, i);
  }

if-Returns :
    {A : Type 0} (P : A → Type 0) (c : Bool) (x y : Outcome A)
    → Returns P x
    → Returns P y
    → Returns P (if c then x else y)
if-Returns P true x y h k = h
if-Returns P false x y h k = k

-- One call of `write` for the first buffer `b`, with what holds of the rest of the loop.
step-IsWritten :
    (a : WriteAnswer) (as' : List WriteAnswer) (v : TcpForward) (m : Mgmt) (b : ℕ) (bs : List ℕ)
    → AreHonest (a ∷ as')
    → IsLive v
    → v.buf_write.list_todo ≡ b ∷ bs
    → ((w : TcpForward) (k : Mgmt) → IsLive w → Returns (IsWritten w k) (write_loop as' w k))
    → Returns (IsWritten v m) (write_loop (a ∷ as') v m)
unfolding pushed
step-IsWritten a as' v m b bs h l e rest = elim (Option-view (a.taken (m.bufs b).len)) [
  | inl t ↦ rw (write_loop-eq-refused a as' v m b (l.head ∙ ap next_buf_info e) t) (
      if-Returns (IsWritten v m) a.again _ _
        (stopped-IsWritten v m CallerStatus.pending CcrLine.again l (here b bs v m l e))
        (stopped-IsWritten v m CallerStatus.finish CcrLine.failed l (here b bs v m l e)))
  | inr (n, t) ↦ rw (write_loop-eq-took a as' v m b (l.head ∙ ap next_buf_info e) n t) (
      if-Returns (IsWritten v m) (n == 0 && not a.again) _ _
        (stopped-IsWritten v m CallerStatus.finish CcrLine.failed l (here b bs v m l e))
        (let p = pushed-IsPushed v m b n bs l e (h.0 (m.bufs b).len n t) in
          continued-IsWritten b bs v m l e as' (pushed b n v m) p
            (rest (pushed b n v m).1 (pushed b n v m).2 p.live)))
]

pub write_loop-IsWritten :
    (answers : List WriteAnswer) (v : TcpForward) (m : Mgmt)
    → AreHonest answers
    → IsLive v
    → Returns (IsWritten v m) (write_loop answers v m)
write_loop-IsWritten [] v m h l = elim (list-cases v.buf_write.list_todo) [
  | inl e ↦
      rw (write_loop-eq-write_complete [] v m (l.head ∙ ap next_buf_info e))
        (complete-IsWritten v m l e)
  | inr (b, bs, e) ↦
      rw (write_loop-eq-stuck v m b (l.head ∙ ap next_buf_info e))
        (stopped-IsWritten v m CallerStatus.pending CcrLine.again l (here b bs v m l e))
]
write_loop-IsWritten (a ∷ as') v m h l = elim (list-cases v.buf_write.list_todo) [
  | inl e ↦
      rw (write_loop-eq-write_complete (a ∷ as') v m (l.head ∙ ap next_buf_info e))
        (complete-IsWritten v m l e)
  | inr (b, bs, e) ↦
      step-IsWritten a as' v m b bs h l e (λ w k i. write_loop-IsWritten as' w k h.1 i)
]
