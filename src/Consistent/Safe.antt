-- ===== src/Consistent/Safe.antt =====
-- What a consistent state protects from: no pointer to a released client or connection is followed, and the
-- assertion of `http_mgmt_toserver` holds.
use web_tunnel.Base.{ℕ, ◌≡◌, sym, subst, Option, some, true, Returns, Returns-mono}
use web_tunnel.State.{Mgmt, Ref}
use web_tunnel.Buffers.{push_toserver}
use web_tunnel.Runtime.{in_use}
use web_tunnel.ToServer.{http_mgmt_toserver}
use web_tunnel.ToServer.Queue.{http_mgmt_toserver_lem}
use web_tunnel.Dispatch.Forwarding.{find_forward}
use web_tunnel.Dispatch.Tunnel.{find_client}
use web_tunnel.Consistent.{fd_of_forward, fd_of_client, Sends-IsSending}
use web_tunnel.Consistent.Searches.{
  IsFound, seq_of, req_seq_of, find_forward-IsFound, find_client-IsFound,
}
use web_tunnel.Consistent.Program.{Library, AreServed, Reaches, Reaches-IsConsistent}

-- What the functions rely on where they follow a pointer or assert something.
pub record IsSafe (m : Mgmt) : Type 0 where
  pub forward_found :
      (seq : ℕ) → Returns (IsFound seq_of m.forwards seq) (find_forward seq m.list_forward m)
  pub client_found :
      (seq : ℕ)
      → Returns (IsFound req_seq_of m.clients seq) (find_client seq m.tcp_server.list_client m)
  pub forward_at :
      (fd f : ℕ)
      → m.http_lookup fd ≡ some (Ref.forward f)
      → Returns (λ v. v.fwd_fd ≡ fd) (in_use (m.forwards f))
  pub client_at :
      (fd c : ℕ)
      → m.http_lookup fd ≡ some (Ref.client c)
      → Returns (λ v. v.client_fd ≡ fd) (in_use (m.clients c))
  pub asserted : (b : ℕ) → Returns (λ n. n.toserver ≡ true) (http_mgmt_toserver (push_toserver b m))

held-in_use :
    {A : Type 0} (fd_of : A → ℕ) (fd : ℕ) (o : Option A)
    → (v : A) × (o ≡ some v) × (fd_of v ≡ fd)
    → Returns (λ v. fd_of v ≡ fd) (in_use o)
held-in_use fd_of fd o (v, e, p) = subst (λ x. Returns (λ v. fd_of v ≡ fd) (in_use x)) (sym e) p

-- In every state that the program reaches, the searches for a connection and for a client by the number of
-- a packet return, and give an object in use with the number, or nothing if none in use has it; the
-- descriptors of clients and connections lead to objects in use; and the assertion of `http_mgmt_toserver`
-- holds once a message is queued. This is if libwebsockets changes the state and fails only by the
-- callbacks that it calls, and by clearing `revents`, the sockets that the operating system gives are not
-- 0, and the names of the command line fit into their arrays. A run in which a buffer is put on a list
-- while it stands on another, or a length becomes negative, is followed up to there only.
pub Reaches-IsSafe : (lib : Library) → AreServed lib → (m : Mgmt) → Reaches lib m → IsSafe m
Reaches-IsSafe lib h m r =
    let s = Reaches-IsConsistent lib h m r in
    record {
      forward_found = λ seq. find_forward-IsFound m seq s;
      client_found = λ seq. find_client-IsFound m seq s;
      forward_at =
          λ fd f e. held-in_use fd_of_forward fd (m.forwards f) (s.linked.forward_refs fd f e);
      client_at = λ fd c e. held-in_use fd_of_client fd (m.clients c) (s.linked.client_refs fd c e);
      asserted = λ b.
          Returns-mono _ (λ n. n.toserver ≡ true) (http_mgmt_toserver (push_toserver b m))
            (http_mgmt_toserver_lem m b (Sends-IsSending m s.sends)) λ n q. q.1;
    }
