-- ===== src/Tunnel/Reconnect.antt =====
-- What is left when the websocket is opened again.
use web_tunnel.Base.{
  ℕ, ◌+◌, ◌≤◌, ◌<◌, ◌≡◌, refl, ap, false, List, [], ◌∷◌, length, count, none, Returns, Returns->>=,
  Returns-mono, arith, ==_refl,
}
use web_tunnel.State.{Mgmt}
use web_tunnel.Prepare.{release_prepare}
use web_tunnel.HttpContext.Coroutines.{fd_of}
use web_tunnel.Scheduler.{release_each}
use web_tunnel.Scheduler.Timeout.{IsUnlisted, IsClosable, IsReleased, force_release-IsReleased}
use web_tunnel.ToServer.Queue.{IsSending}
use web_tunnel.Cycle.Setup.{http_mgmt_release_all, http_mgmt_param_init}
use web_tunnel.Tunnel.Loop.{reset}

-- The contexts `cs`, which had a timeout, are free.
record AreReleased (cs : List ℕ) (m n : Mgmt) : Type 0 where
  none_waits : n.list_timeout ≡ []
  counted : n.total_process ≡ m.total_process + length cs
  freed : (a : ℕ) → count a n.ctx_caches ≡ count a m.ctx_caches + count a cs

release_each-AreReleased :
    (cs : List ℕ) (m : Mgmt)
    → m.list_timeout ≡ cs
    → length cs ≤ m.count_pollfds
    → ((x : ℕ) → fd_of (m.ctxs x).sockfd < m.max_fds)
    → ((x : ℕ) → IsUnlisted (m.ctxs x))
    → Returns (AreReleased cs m) (release_each cs m)
unfolding release_each
release_each-AreReleased [] m e h r u = record {
  none_waits = e;
  counted = omega arith;
  freed = λ a. omega arith;
}
release_each-AreReleased (c ∷ cs) m e h r u =
    Returns->>= (IsReleased c m) (AreReleased (c ∷ cs) m) _ _
      (force_release-IsReleased c m (omega arith) r u)
      λ k d.
        Returns-mono (AreReleased cs k) _ (release_each cs k)
          (release_each-AreReleased cs k (ground (arith, d.list_timeout, e, ==_refl c))
            (omega (arith, d.entries)) d.in_range d.unlisted)
          λ n f. record {
            none_waits = f.none_waits;
            counted = omega (arith, f.counted, d.total_process);
            freed = λ a. omega (arith, f.freed a, ap (count a) d.ctx_caches);
          }

-- The program is as ready for a server's packets as at its start.
pub record IsFresh (now : ℕ) (m n : Mgmt) : Type 0 where
  pub none_waits : n.list_timeout ≡ []
  pub freed : (a : ℕ) → count a n.ctx_caches ≡ count a m.ctx_caches + count a m.list_timeout
  pub sending : IsSending n
  pub stopped : n.toserver ≡ false
  pub unshaken : n.shakehand ≡ false
  pub unsynced : n.sync_prepare ≡ false
  pub no_current : n.buf_prepare.curr ≡ none
  pub not_closed : n.was_closed ≡ false
  pub alive : n.last_alive_time ≡ now

released-IsFresh :
    (now : ℕ) (m k : Mgmt)
    → AreReleased m.list_timeout (release_prepare m) k
    → IsFresh now m (http_mgmt_param_init now (record k { was_closed = false }))
unfolding http_mgmt_param_init release_prepare
released-IsFresh now m k r = record {
  none_waits = r.none_waits;
  freed = r.freed;
  sending = record { running = λ e. cc; busy = λ e. cc; stopped = λ e. refl };
  stopped = refl;
  unshaken = refl;
  unsynced = refl;
  no_current = refl;
  not_closed = refl;
  alive = refl;
}

-- Where the table can take out the sockets of the contexts that wait, and no context's current buffer
-- stands on its list, the program's own part of the way from a closed websocket to a new one does not
-- fail: each context is put among the free ones as often as it waited, and none waits any more; no packet
-- is being received, the queue to the server is well formed and its writer stopped, the handshake is to be
-- sent again, and the websocket counts as open and alive.
pub reset-IsFresh : (now : ℕ) (m : Mgmt) → IsClosable m → Returns (IsFresh now m) (reset now m)
unfolding reset http_mgmt_release_all release_prepare
reset-IsFresh now m t =
    Returns->>= (AreReleased m.list_timeout (release_prepare m)) (IsFresh now m)
      (release_each m.list_timeout (release_prepare m)) _
      (release_each-AreReleased m.list_timeout (release_prepare m) refl t.entries t.in_range
        t.unlisted)
      (released-IsFresh now m)
