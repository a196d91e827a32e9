-- ===== src/Forward/Coroutines/Writing/Advance.antt =====
-- One buffer of `tcp_forward_write`.
use mathlib.Core.Path.{ap₂}
use web_tunnel.Base.{
  ℕ, ◌+◌, ◌-◌, ◌≤◌, ◌≡◌, refl, sym, ap, ◌∙◌, Bool, true, false, List, [], ◌∷◌, ◌++◌, append_assoc,
  count, some, arith, ltb, ==_refl, subst, slice, slice-append, update, update_self, Bool-cases,
  inl, inr,
}
use web_tunnel.State.{Mgmt, Buf, Effect, CcrLine, TcpForward, emit}
use web_tunnel.Buffers.{next_buf_info}
use web_tunnel.Forward.Coroutines.{advance}
use web_tunnel.Forward.Coroutines.Writing.Spec.{
  pending, wrote_in, IsHead, IsOnce, wrote_in-append, pending-update,
}

-- In the loop: `curr` is the first buffer of the list, if there is one.
pub record IsLive (v : TcpForward) : Type 0 where
  pub slot : ℕ
  pub has_pfd : v.pfd ≡ some slot
  pub head : IsHead v.buf_write
  pub live_once : IsOnce v.buf_write.list_todo
  pub busy : v.idle ≡ false

-- `n` bytes of the first buffer are written and counted.
unfoldable pub pushed : ℕ → ℕ → TcpForward → Mgmt → Bool × TcpForward × Mgmt
unfolding advance
pushed b n v m =
    advance b n v (emit (Effect.wrote v.fwd_fd (slice (m.bufs b).start n (m.bufs b).mem)) m)

-- What `pushed` leaves.
pub record IsPushed (v : TcpForward) (m : Mgmt) (r : Bool × TcpForward × Mgmt) : Type 0 where
  pub stream :
      wrote_in v.fwd_fd r.2.trace ++ pending r.2.bufs r.1.buf_write.list_todo
      ≡ wrote_in v.fwd_fd m.trace ++ pending m.bufs v.buf_write.list_todo
  pub fd : r.1.fwd_fd ≡ v.fwd_fd
  pub live : IsLive r.1
  pub same_pfd : r.1.pfd ≡ v.pfd
  pub part : r.0 ≡ false → r.1.ccr_line ≡ CcrLine.partial

module _ (v : TcpForward) (m : Mgmt) (b n : ℕ) (bs : List ℕ) (l : IsLive v)
    (e : v.buf_write.list_todo ≡ b ∷ bs) (le : n ≤ (m.bufs b).len) where
  off : count b bs ≡ 0
  off = ground (arith, l.live_once b, e, ==_refl b)

  -- The buffer's bytes are cut at `n`.
  cut :
      slice (m.bufs b).start (m.bufs b).len (m.bufs b).mem
      ≡ slice (m.bufs b).start n (m.bufs b).mem
        ++ slice ((m.bufs b).start + n) ((m.bufs b).len - n) (m.bufs b).mem
  cut =
      let q : n + ((m.bufs b).len - n) ≡ (m.bufs b).len = omega arith in
      ap (λ k. slice (m.bufs b).start k (m.bufs b).mem) (sym q)
      ∙ (slice-append (m.bufs b).start n ((m.bufs b).len - n) (m.bufs b).mem)

  fd_trace : List Effect
  fd_trace = m.trace ++ Effect.wrote v.fwd_fd (slice (m.bufs b).start n (m.bufs b).mem) ∷ []

  -- The bytes written are those at the head of what was left.
  stream-eq :
      (left : List ℕ)
      → slice (m.bufs b).start n (m.bufs b).mem ++ left ≡ pending m.bufs (b ∷ bs)
      → wrote_in v.fwd_fd fd_trace ++ left
        ≡ wrote_in v.fwd_fd m.trace ++ pending m.bufs v.buf_write.list_todo
  unfolding fd_trace
  stream-eq left h =
      ap (λ l. l ++ left)
        (wrote_in-append v.fwd_fd m.trace (slice (m.bufs b).start n (m.bufs b).mem))
      ∙ append_assoc (wrote_in v.fwd_fd m.trace) _ left
      ∙ ap (λ l. wrote_in v.fwd_fd m.trace ++ l) (h ∙ ap (pending m.bufs) (sym e))

  part_left : Mgmt
  part_left = record m {
    bufs =
        update m.bufs b
          (record (m.bufs b) { len = (m.bufs b).len - n; start = (m.bufs b).start + n });
    trace = fd_trace;
  }

  part-eq :
      ltb n (m.bufs b).len ≡ true
      → pushed b n v m ≡ (false, record v { ccr_line = CcrLine.partial }, part_left)
  unfolding pushed advance fd_trace part_left
  part-eq h = rw h

  pending-part :
      slice (m.bufs b).start n (m.bufs b).mem ++ pending part_left.bufs (b ∷ bs)
      ≡ pending m.bufs (b ∷ bs)
  unfolding pending part_left
  pending-part =
      ap (λ l. slice (m.bufs b).start n (m.bufs b).mem ++ l)
        (ap₂ ◌++◌ (ap (λ (u : Buf). slice u.start u.len u.mem) (update_self m.bufs b _))
          (pending-update m.bufs b _ bs off))
      ∙ sym (append_assoc _ _ (pending m.bufs bs))
      ∙ ap (λ l. l ++ pending m.bufs bs) (sym cut)

  pushed-part : ltb n (m.bufs b).len ≡ true → IsPushed v m (pushed b n v m)
  unfolding part_left fd_trace
  pushed-part h = subst (IsPushed v m) (sym (part-eq h)) (record {
    stream = stream-eq (pending part_left.bufs v.buf_write.list_todo) (
        ap (λ l. slice (m.bufs b).start n (m.bufs b).mem ++ pending part_left.bufs l) e
        ∙ pending-part);
    fd = refl;
    live = record {
      slot = l.slot;
      has_pfd = l.has_pfd;
      head = l.head;
      live_once = l.live_once;
      busy = l.busy;
    };
    same_pfd = refl;
    part = λ p. refl;
  })

  whole_left : Mgmt
  whole_left = record m {
    bufs = update m.bufs b (record (m.bufs b) { len = (m.bufs b).len - n });
    trace = fd_trace;
    http_buf_caches = b ∷ m.http_buf_caches;
  }

  next_v : TcpForward
  next_v = record v { buf_write = record (v.buf_write) { list_todo = bs; curr = next_buf_info bs } }

  whole-eq : ltb n (m.bufs b).len ≡ false → pushed b n v m ≡ (true, next_v, whole_left)
  unfolding pushed advance fd_trace whole_left next_v
  whole-eq h = rw h (rw e (rw (==_refl b)))

  pending-whole :
      ltb n (m.bufs b).len ≡ false
      → slice (m.bufs b).start n (m.bufs b).mem ++ pending whole_left.bufs bs
        ≡ pending m.bufs (b ∷ bs)
  unfolding pending whole_left
  pending-whole h =
      ap₂ ◌++◌ (ap (λ k. slice (m.bufs b).start k (m.bufs b).mem) (ground arith))
        (pending-update m.bufs b _ bs off)

  pushed-whole : ltb n (m.bufs b).len ≡ false → IsPushed v m (pushed b n v m)
  unfolding next_v whole_left fd_trace
  pushed-whole h = subst (IsPushed v m) (sym (whole-eq h)) (record {
    stream = stream-eq (pending whole_left.bufs bs) (pending-whole h);
    fd = refl;
    live = record {
      slot = l.slot;
      has_pfd = l.has_pfd;
      head = refl;
      live_once = λ a. ground (arith, l.live_once a, e);
      busy = l.busy;
    };
    same_pfd = refl;
    part = λ p. cc;
  })

  pub pushed-IsPushed : IsPushed v m (pushed b n v m)
  pushed-IsPushed = elim (Bool-cases (ltb n (m.bufs b).len)) [
    | inl h ↦ pushed-part h
    | inr h ↦ pushed-whole h
  ]
