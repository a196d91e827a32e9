-- ===== src/Consistent/Connections.antt =====
-- Connections are opened and released.
use web_tunnel.Base.{
  ℕ, ◌+◌, ◌-◌, ◌∷◌, ◌≡◌, ◌≢◌, List, Option, none, some, Bool, true, false, Ensures, Ensures-ok,
  Ensures-bind, Ensures-Option, arith, update, refl,
}
use web_tunnel.State.{Mgmt, TcpForward, Ref, ForwardFunc, CallingStatus, zero_forward, listening}
use web_tunnel.Buffers.{list_del}
use web_tunnel.PollTable.{mgmt_add_fd}
use web_tunnel.Forward.Lifetime.{
  tcp_forward_closing, tcp_forward_release, tcp_forward_create, write_closed,
}
use web_tunnel.Runtime.{put_forward}
use web_tunnel.Consistent.{
  Core, core, At, At-IsConsistent, IsConsistent-At, moved-At, IsConsistent, IsLinked,
}
use web_tunnel.Consistent.Linking.{
  put-IsPool, new-IsPool, drop-IsPool, put-Leads, other-Leads, new-Leads, drop-Leads,
}
use web_tunnel.Consistent.Frames.{
  give_back-At, in_use-Ensures, alloc_buf-At, write_buf-At, set_lengths-At, toserver-At,
  forget_fd-At, set_lookup-At, mgmt_add_fd-At,
}

module _ (k : Core) where
  write_closed-At : (b seq : ℕ) (m : Mgmt) → At k m → At k (write_closed b seq m)
  unfolding write_closed
  write_closed-At b seq m h = search (write_buf-At, set_lengths-At) depth 8

  pub tcp_forward_closing-At :
      (v : TcpForward) (m : Mgmt) → At k m → Ensures (At k) (tcp_forward_closing v m)
  unfolding tcp_forward_closing
  tcp_forward_closing-At v m h =
      Ensures-Option _ (Ensures-ok (alloc_buf-At k m h))
        λ b. toserver-At k b _ (write_closed-At b v.seq _ (alloc_buf-At k m h))

  abbrev pub without_forward : ℕ → TcpForward → Core
  without_forward f v = record k {
    forwards = update k.forwards f none;
    list_forward = list_del f k.list_forward;
    len_forward = k.len_forward - 1;
    http_lookup = update k.http_lookup v.fwd_fd none;
  }

  pub without_forward-IsLinked :
      (f : ℕ) (v : TcpForward) → IsLinked k → k.forwards f ≡ some v → IsLinked (without_forward f v)
  without_forward-IsLinked f v l e = record {
    clients = l.clients;
    forwards = drop-IsPool _ _ _ _ _ f v l.forwards e;
    client_refs = other-Leads _ _ _ _ v.fwd_fd none l.client_refs λ c p. cc;
    forward_refs = drop-Leads _ _ _ _ f v l.forward_refs e;
  }

module _ (k : Core) where
  abbrev pub with_forward : TcpForward → Core
  with_forward v = record k {
    forwards = update k.forwards k.next_forward (some v);
    next_forward = k.next_forward + 1;
    list_forward = k.next_forward ∷ k.list_forward;
    len_forward = k.len_forward + 1;
    http_lookup = update k.http_lookup v.fwd_fd (some (Ref.forward k.next_forward));
  }

  pub with_forward-IsLinked :
      (v : TcpForward) → IsLinked k → v.fwd_fd ≢ 0 → IsLinked (with_forward v)
  with_forward-IsLinked v l n = record {
    clients = l.clients;
    forwards = new-IsPool _ _ _ _ _ v l.forwards n;
    client_refs = other-Leads _ _ _ _ v.fwd_fd _ l.client_refs λ c p. cc;
    forward_refs =
        new-Leads _ _ _ _ k.next_forward v (λ a b p. cc) l.forward_refs
          (l.forwards.fresh k.next_forward (omega arith));
  }

pub tcp_forward_release-IsConsistent :
    (f : ℕ) (m : Mgmt)
    → IsConsistent m
    → m.forwards f ≢ none
    → Ensures IsConsistent (tcp_forward_release f m)
unfolding tcp_forward_release
tcp_forward_release-IsConsistent f m s u =
    let k = core m in
    let unlist = λ (c : Core). record c { list_forward = list_del f c.list_forward } in
    let drop = λ (c : Core). record c {
      forwards = update c.forwards f none;
      len_forward = c.len_forward - 1;
    } in
    let out = λ (n : Mgmt). record n { list_forward = list_del f n.list_forward } in
    let gone = λ (n : Mgmt). put_forward f none (record n { len_forward = n.len_forward - 1 }) in
    Ensures-bind (in_use-Ensures (m.forwards f) u) λ v p.
      Ensures-bind (tcp_forward_closing-At k v m (IsConsistent-At m s)) λ m1 h1.
        Ensures-bind
          (forget_fd-At (unlist k) v.fwd_fd (out m1)
            (moved-At unlist k m1 (out m1) h1 refl refl refl) (s.linked.forwards.fds f v p))
          λ m2 h2. Ensures-bind (give_back-At _ v.buf_write m2 h2) λ m3 h3.
            let n = gone m3 in
            Ensures-ok {a = n} (
              At-IsConsistent (without_forward k f v) n (without_forward-IsLinked k f v s.linked p)
                (moved-At drop
                  (record (unlist k) { http_lookup = update k.http_lookup v.fwd_fd none }) m3 n h3
                  refl refl refl))

-- The descriptor, if there is one, is not 0.
abbrev pub IsFresh : Option ℕ → Type 0
IsFresh o = (fd : ℕ) → o ≡ some fd → fd ≢ 0

module _ (resolve : List ℕ → ℕ) (seq : ℕ) (host : List ℕ) (port kind : ℕ) (m : Mgmt) where
  pub tcp_forward_create-IsConsistent :
      (memory : Bool) (socket : Option ℕ)
      → IsConsistent m
      → IsFresh socket
      → Ensures
          (λ (r : Mgmt × Bool). IsConsistent r.0)
          (tcp_forward_create resolve memory socket seq host port kind m)
  unfolding tcp_forward_create
  tcp_forward_create-IsConsistent false socket s n = Ensures-ok s
  tcp_forward_create-IsConsistent true none s n = Ensures-ok s
  tcp_forward_create-IsConsistent true (some fd) s n =
      let k = core m in
      let f = m.next_forward in
      let r = mgmt_add_fd m fd listening in
      let v = record zero_forward {
        seq = seq;
        host = resolve host;
        port = port;
        kind = kind;
        fwd_fd = fd;
        idle = true;
        pfd = r.1;
        func_run = ForwardFunc.tcp_forward_connect;
        status = CallingStatus.ready;
      } in
      let create = λ (c : Core). record c {
        forwards = update c.forwards f (some v);
        next_forward = f + 1;
        list_forward = f ∷ c.list_forward;
        len_forward = c.len_forward + 1;
      } in
      let made = λ (n : Mgmt). put_forward f (some v) (record n {
        next_forward = f + 1;
        list_forward = f ∷ n.list_forward;
        len_forward = n.len_forward + 1;
      }) in
      Ensures-bind
        (set_lookup-At k fd (some (Ref.forward f)) r.0
          (mgmt_add_fd-At k m fd listening (IsConsistent-At m s)))
        λ m1 h1. Ensures-ok (
          At-IsConsistent (with_forward k v) (made m1)
            (with_forward-IsLinked k v s.linked (n fd refl))
            (moved-At create
              (record k { http_lookup = update k.http_lookup fd (some (Ref.forward f)) }) m1
              (made m1) h1 refl refl refl))

-- A connection in use is changed, and keeps its socket.
pub put_forward-IsConsistent :
    (k : Core) (f : ℕ) (v w : TcpForward) (m : Mgmt)
    → IsLinked k
    → At k m
    → k.forwards f ≡ some v
    → w.fwd_fd ≡ v.fwd_fd
    → IsConsistent (put_forward f (some w) m)
put_forward-IsConsistent k f v w m l h e p =
    let put = λ (c : Core). record c { forwards = update c.forwards f (some w) } in
    let kept : IsLinked (put k) = record {
      clients = l.clients;
      forwards = put-IsPool _ _ _ _ _ f v w l.forwards e p;
      client_refs = l.client_refs;
      forward_refs = put-Leads _ _ _ _ f v w l.forward_refs e p;
    } in
    At-IsConsistent (put k) (put_forward f (some w) m) kept
      (moved-At put k m (put_forward f (some w) m) h refl refl refl)
