-- ===== src/Forward/Coroutines/Reading.antt =====
-- A turn of `tcp_forward_read` that gets bytes.
use web_tunnel.Base.{
  ℕ, ◌+◌, ◌^◌, ◌≤◌, ◌<◌, ◌≡◌, refl, sym, ap, ◌∙◌, subst, true, List, [], ◌∷◌, ◌++◌, length, Option,
  none, some, Outcome, ok, Returns, Returns->>=,
}
use web_tunnel.State.{Mgmt, Pollfd, HttpBuf, CallerStatus, TcpForward}
use web_tunnel.Buffers.{alloc_buf-some, taken, push_toserver, write_buf, set_lengths}
use web_tunnel.Header.{http_buf_size}
use web_tunnel.ToServer.{http_mgmt_toserver}
use web_tunnel.ToServer.Queue.{IsSending, http_mgmt_toserver_lem}
use web_tunnel.Runtime.{ReadAnswer, Turn}
use web_tunnel.Forward.Coroutines.{
  forward_header_len, pack_forward, forward_bytes, forward_got, switch_to_write, idle_turn,
  tcp_forward_read,
}
use web_tunnel.Forward.Coroutines.Packing.{IsPacked, pack_forward-IsPacked}

-- The message is the last of the queue to the server, which is running.
pub record IsForwarded (b : ℕ) (bs bytes : List ℕ) (v : TcpForward) (m : Mgmt) (t : Turn TcpForward)
    : Type 0 where
  pub status : t.status ≡ CallerStatus.pending
  pub packed : IsPacked v.seq bytes (t.mgmt.bufs b)
  pub sending : IsSending t.mgmt
  pub running : t.mgmt.toserver ≡ true
  pub queue : t.mgmt.buf_toserver.list_todo ≡ m.buf_toserver.list_todo ++ b ∷ []
  pub free : t.mgmt.http_buf_caches ≡ bs
  pub idle : t.self.idle ≡ true
  pub left : t.self.buf_write ≡ v.buf_write

-- A connection that has bytes to write waits for POLLOUT then; the queue is not touched.
record IsSwitched (v : TcpForward) (m : Mgmt) (r : TcpForward × Mgmt) : Type 0 where
  rest : r.1 ≡ record m { pollfds = r.1.pollfds }
  left : r.0.buf_write ≡ v.buf_write

switch-IsSwitched :
    (v : TcpForward) (m : Mgmt) (slot : ℕ)
    → v.pfd ≡ some slot
    → (bs : List ℕ) → v.buf_write.list_todo ≡ bs
    → Returns (IsSwitched v m) (switch_to_write v m)
switch-IsSwitched v m slot p [] e = rw e (record { rest = refl; left = refl })
switch-IsSwitched v m slot p (b ∷ bs) e = rw (e, p) (record { rest = refl; left = refl })

IsSending-pollfds : (m : Mgmt) (p : ℕ → Pollfd) → IsSending m → IsSending (record m { pollfds = p })
IsSending-pollfds m p s = record { running = s.running; busy = s.busy; stopped = s.stopped }

-- A buffer is free and `read` gives bytes.
tcp_forward_read-eq-bytes :
    (a : ReadAnswer) (v : TcpForward) (m : Mgmt) (b : ℕ) (bs : List ℕ) (x : ℕ) (xs : List ℕ)
    → m.http_buf_caches ≡ b ∷ bs
    → a.bytes ≡ some (x ∷ xs)
    → tcp_forward_read a v m ≡ forward_bytes b (x ∷ xs) v (taken m b bs)
unfolding tcp_forward_read forward_got
tcp_forward_read-eq-bytes a v m b bs x xs e h =
    ap
      (λ (r : Mgmt × Option ℕ). elim r.1 as (λ _. Outcome (Turn TcpForward)) [
        | none ↦ ok (idle_turn CallerStatus.pending v r.0)
        | some c ↦ forward_got a c v r.0
      ])
      (alloc_buf-some m b bs e)
    ∙ rw h

packed-IsSending :
    (m : Mgmt) (b seq : ℕ) (bs bytes : List ℕ)
    → IsSending m
    → IsSending (pack_forward b seq bytes (taken m b bs))
unfolding pack_forward write_buf set_lengths taken
packed-IsSending m b seq bs bytes s = record {
  running = s.running;
  busy = s.busy;
  stopped = s.stopped;
}

packed_rest :
    (m : Mgmt) (b seq : ℕ) (bs bytes : List ℕ)
    → let n = pack_forward b seq bytes (taken m b bs) in
      (n.buf_toserver ≡ m.buf_toserver) × (n.http_buf_caches ≡ bs)
unfolding pack_forward write_buf set_lengths taken
packed_rest m b seq bs bytes = (refl, refl)

-- A turn of `tcp_forward_read` with a free buffer and a well-formed queue, in which `read` gives bytes, as
-- many at most as it is asked for. It does not fail: the free buffer holds the bytes as they are, behind a
-- header whose length is the message's, and their number; the message has 40 bytes at least, zeros filling
-- it up, and 2048 at most; it is the last of the queue, the writer runs, and the connection is idle.
pub tcp_forward_read-IsForwarded :
    (a : ReadAnswer) (v : TcpForward) (m : Mgmt) (b : ℕ) (bs : List ℕ) (x : ℕ) (xs : List ℕ)
    (slot : ℕ)
    → IsSending m
    → m.http_buf_caches ≡ b ∷ bs
    → a.bytes ≡ some (x ∷ xs)
    → length (x ∷ xs) + forward_header_len ≤ http_buf_size
    → v.seq < 2 ^ 16
    → v.pfd ≡ some slot
    → Returns (IsForwarded b bs (x ∷ xs) v m) (tcp_forward_read a v m)
unfolding forward_bytes
tcp_forward_read-IsForwarded a v m b bs x xs slot s e h fits short p =
    subst (Returns (IsForwarded b bs (x ∷ xs) v m))
      (sym (tcp_forward_read-eq-bytes a v m b bs x xs e h))
      (Returns->>= _ _ (http_mgmt_toserver (push_toserver b n)) _
        (http_mgmt_toserver_lem n b (packed-IsSending m b v.seq bs (x ∷ xs) s))
        λ k q.
          Returns->>= (IsSwitched v k) _ (switch_to_write v k) _
            (switch-IsSwitched v k slot p v.buf_write.list_todo refl)
            λ r w. record {
              status = refl;
              packed =
                  subst (IsPacked v.seq (x ∷ xs))
                    (sym (ap (λ (y : Mgmt). y.bufs b) w.rest ∙ ap (λ f. f b) q.3))
                    (pack_forward-IsPacked b v.seq (x ∷ xs) (taken m b bs) fits short);
              sending = subst IsSending (sym w.rest) (IsSending-pollfds k r.1.pollfds q.0);
              running = ap (λ (y : Mgmt). y.toserver) w.rest ∙ q.1;
              queue =
                  ap (λ (y : Mgmt). y.buf_toserver.list_todo) w.rest
                  ∙ q.2
                  ∙ ap (λ (y : HttpBuf). y.list_todo ++ b ∷ [])
                      (packed_rest m b v.seq bs (x ∷ xs)).0;
              free =
                  ap (λ (y : Mgmt). y.http_buf_caches) w.rest
                  ∙ q.4
                  ∙ (packed_rest m b v.seq bs (x ∷ xs)).1;
              idle = refl;
              left = w.left;
            })
  where
    n : Mgmt
    n = pack_forward b v.seq (x ∷ xs) (taken m b bs)
