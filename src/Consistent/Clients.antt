-- ===== src/Consistent/Clients.antt =====
-- Clients of the tunnel are accepted and released.
use web_tunnel.Base.{
  ℕ, ◌+◌, ◌-◌, ◌∷◌, ◌≡◌, ◌≢◌, none, some, true, Ensures, Ensures-ok, Ensures-bind, Ensures-mono,
  arith, update, refl,
}
use web_tunnel.State.{Mgmt, TcpClient, Ref, ClientFunc, CallingStatus, zero_client, listening}
use web_tunnel.Buffers.{list_del}
use web_tunnel.PollTable.{mgmt_add_fd}
use web_tunnel.Client.Lifetime.{leave_server, tcp_client_release}
use web_tunnel.Server.{on_server, add_client}
use web_tunnel.Runtime.{put_client}
use web_tunnel.Consistent.{
  Core, core, At, At-IsConsistent, IsConsistent-At, moved-At, IsConsistent, IsLinked,
}
use web_tunnel.Consistent.Linking.{
  put-IsPool, new-IsPool, drop-IsPool, put-Leads, other-Leads, new-Leads, drop-Leads,
}
use web_tunnel.Consistent.Frames.{
  give_back-At, in_use-Ensures, forget_fd-At, set_lookup-At, mgmt_add_fd-At,
}

module _ (k : Core) where
  abbrev pub without_client : ℕ → TcpClient → Core
  without_client c v = record k {
    clients = update k.clients c none;
    list_client = list_del c k.list_client;
    client_len = k.client_len - 1;
    http_lookup = update k.http_lookup v.client_fd none;
  }

  pub without_client-IsLinked :
      (c : ℕ) (v : TcpClient) → IsLinked k → k.clients c ≡ some v → IsLinked (without_client c v)
  without_client-IsLinked c v l e = record {
    clients = drop-IsPool _ _ _ _ _ c v l.clients e;
    forwards = l.forwards;
    client_refs = drop-Leads _ _ _ _ c v l.client_refs e;
    forward_refs = other-Leads _ _ _ _ v.client_fd none l.forward_refs λ c p. cc;
  }

  abbrev pub with_client : TcpClient → Core
  with_client v = record k {
    clients = update k.clients k.next_client (some v);
    next_client = k.next_client + 1;
    list_client = k.next_client ∷ k.list_client;
    client_len = k.client_len + 1;
    http_lookup = update k.http_lookup v.client_fd (some (Ref.client k.next_client));
  }

  pub with_client-IsLinked :
      (v : TcpClient) → IsLinked k → v.client_fd ≢ 0 → IsLinked (with_client v)
  with_client-IsLinked v l n = record {
    clients = new-IsPool _ _ _ _ _ v l.clients n;
    forwards = l.forwards;
    client_refs =
        new-Leads _ _ _ _ k.next_client v (λ a b p. cc) l.client_refs
          (l.clients.fresh k.next_client (omega arith));
    forward_refs = other-Leads _ _ _ _ v.client_fd _ l.forward_refs λ c p. cc;
  }

pub tcp_client_release-IsConsistent :
    (c : ℕ) (m : Mgmt)
    → IsConsistent m
    → m.clients c ≢ none
    → Ensures IsConsistent (tcp_client_release c m)
unfolding tcp_client_release leave_server
tcp_client_release-IsConsistent c m s u =
    let k = core m in
    let unlist = λ (x : Core). record x { list_client = list_del c x.list_client } in
    let drop =
      λ (x : Core). record x { clients = update x.clients c none; client_len = x.client_len - 1 } in
    let gone = λ (n : Mgmt). put_client c none (record n {
      tcp_server = record (n.tcp_server) { client_len = n.tcp_server.client_len - 1 };
    }) in
    Ensures-bind (in_use-Ensures (m.clients c) u) λ v p.
      Ensures-bind
        (forget_fd-At (unlist k) v.client_fd (leave_server c m)
          (moved-At unlist k m (leave_server c m) (IsConsistent-At m s) refl refl refl)
          (s.linked.clients.fds c v p))
        λ m1 h1. Ensures-bind (give_back-At _ v.buf_read m1 h1) λ m2 h2.
          Ensures-bind (give_back-At _ v.buf_write m2 h2) λ m3 h3.
            let n = gone m3 in
            Ensures-ok {a = n} (
              At-IsConsistent (without_client k c v) n (without_client-IsLinked k c v s.linked p) (
                moved-At drop
                  (record (unlist k) { http_lookup = update k.http_lookup v.client_fd none }) m3 n
                  h3 refl refl refl))

pub add_client-IsConsistent :
    (fd : ℕ) (m : Mgmt) → IsConsistent m → fd ≢ 0 → Ensures IsConsistent (add_client fd m)
unfolding add_client
add_client-IsConsistent fd m s e =
    let k = core m in
    let c = m.next_client in
    let m1 =
      on_server (λ t. record t { list_client = c ∷ t.list_client; client_len = t.client_len + 1 })
        (record m { next_client = c + 1 }) in
    let r = mgmt_add_fd m1 fd listening in
    let v = record zero_client {
      client_fd = fd;
      func_run = ClientFunc.tcp_client_read;
      status = CallingStatus.pending;
      idle = true;
      pfd = r.1;
    } in
    let create = λ (x : Core). record x {
      next_client = c + 1;
      list_client = c ∷ x.list_client;
      client_len = x.client_len + 1;
    } in
    let put = λ (x : Core). record x { clients = update x.clients c (some v) } in
    let linked = with_client-IsLinked k v s.linked e in
    let before =
      mgmt_add_fd-At (create k) m1 fd listening
        (moved-At create k m m1 (IsConsistent-At m s) refl refl refl) in
    Ensures-mono
      (set_lookup-At (put (create k)) fd (some (Ref.client c)) (put_client c (some v) r.0)
        (moved-At put (create k) r.0 (put_client c (some v) r.0) before refl refl refl))
      λ n h. At-IsConsistent (with_client k v) n linked h

-- A client in use is changed, and keeps its socket.
pub put_client-IsConsistent :
    (k : Core) (c : ℕ) (v w : TcpClient) (m : Mgmt)
    → IsLinked k
    → At k m
    → k.clients c ≡ some v
    → w.client_fd ≡ v.client_fd
    → IsConsistent (put_client c (some w) m)
put_client-IsConsistent k c v w m l h e p =
    let put = λ (x : Core). record x { clients = update x.clients c (some w) } in
    let kept : IsLinked (put k) = record {
      clients = put-IsPool _ _ _ _ _ c v w l.clients e p;
      forwards = l.forwards;
      client_refs = put-Leads _ _ _ _ c v w l.client_refs e p;
      forward_refs = l.forward_refs;
    } in
    At-IsConsistent (put k) (put_client c (some w) m) kept
      (moved-At put k m (put_client c (some w) m) h refl refl refl)
