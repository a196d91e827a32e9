-- ===== src/Scheduler/Timeout.antt =====
-- Which contexts `http_mgmt_run_timeout` releases.
use web_tunnel.Base.{
  ℕ, zero, suc, ◌+◌, ◌≤◌, ◌<◌, ◌≡◌, refl, sym, ap, ◌∙◌, subst, false, List, [], ◌∷◌, length, count,
  Option, none, some, ok, Returns, Returns->>=, Returns-mono, ◌>>=◌, arith, ltb, Bool-cases, inl,
  inr, if◌then◌else◌, ==_refl, ◌==◌, update,
}
use web_tunnel.State.{Mgmt, CallingStatus, Effect, HttpContext, emit}
use web_tunnel.Buffers.{is_listed, check_unlisted, list_del, free_context}
use web_tunnel.PollTable.{mgmt_del_fd-ok, IsTableOnly}
use web_tunnel.Runtime.{set_lookup, put_ctx}
use web_tunnel.HttpContext.Coroutines.{fd_of}
use web_tunnel.HttpContext.Finish.{http_context_release, close_socket, release_bufs}
use web_tunnel.HttpContext.Lists.{timeouts}
use web_tunnel.HttpContext.Lists.Sorted.{IsRising}
use web_tunnel.Scheduler.{force_release, leave_ready, unready, release_until, http_mgmt_run_timeout}

-- The current buffers of the context do not stand on its lists.
abbrev pub IsUnlisted : HttpContext → Type 0
IsUnlisted ctx =
    (is_listed ctx.buf_read.curr ctx.buf_read.list_todo ≡ false)
    × (is_listed ctx.buf_write.curr ctx.buf_write.list_todo ≡ false)

-- What is left of the context `ctx`, and of the state, once the buffers are free.
record AreFreed (ctx : HttpContext) (m : Mgmt) (r : HttpContext × Mgmt) : Type 0 where
  socket : r.0.sockfd ≡ ctx.sockfd
  timeout : r.0.timeout ≡ ctx.timeout
  unlisted : IsUnlisted r.0
  ctxs : r.1.ctxs ≡ m.ctxs
  list_timeout : r.1.list_timeout ≡ m.list_timeout
  ctx_caches : r.1.ctx_caches ≡ m.ctx_caches
  total_process : r.1.total_process ≡ m.total_process
  entries : r.1.count_pollfds ≡ m.count_pollfds
  max_fds : r.1.max_fds ≡ m.max_fds

is_listed-nothing : (o : Option ℕ) → is_listed o [] ≡ false
is_listed-nothing none = refl
is_listed-nothing (some b) = refl

release_bufs-AreFreed :
    (ctx : HttpContext) (m : Mgmt) → IsUnlisted ctx → Returns (AreFreed ctx m) (release_bufs ctx m)
unfolding release_bufs check_unlisted
release_bufs-AreFreed ctx m u =
    rw (u.0, u.1)
      (record {
        socket = refl;
        timeout = refl;
        unlisted = (refl, is_listed-nothing ctx.buf_write.curr);
        ctxs = refl;
        list_timeout = refl;
        ctx_caches = refl;
        total_process = refl;
        entries = refl;
        max_fds = refl;
      })

-- The table can take out the sockets of all contexts, and their buffers can be freed.
pub record IsClosable (m : Mgmt) : Type 0 where
  pub entries : length m.list_timeout ≤ m.count_pollfds
  pub in_range : (c : ℕ) → fd_of (m.ctxs c).sockfd < m.max_fds
  pub unlisted : (c : ℕ) → IsUnlisted (m.ctxs c)

-- What closing the socket `s` leaves as it was.
pub record IsClosed (m : Mgmt) (r : Option ℕ × Mgmt) : Type 0 where
  pub socket : fd_of r.0 ≡ 0
  pub entries : m.count_pollfds ≤ r.1.count_pollfds + 1
  pub max_fds : r.1.max_fds ≡ m.max_fds
  pub ctxs : r.1.ctxs ≡ m.ctxs
  pub list_timeout : r.1.list_timeout ≡ m.list_timeout
  pub ctx_caches : r.1.ctx_caches ≡ m.ctx_caches
  pub total_process : r.1.total_process ≡ m.total_process

lookup-IsClosed :
    (fd : ℕ) (e : Effect) (m k : Mgmt)
    → IsTableOnly (emit e m) k
    → fd < m.max_fds
    → Returns (IsClosed m) (set_lookup fd none k >>= λ m2. ok (none, m2))
lookup-IsClosed fd e m k t h = ground (
  arith,
  t.counted,
  ap (λ (x : Mgmt). x.max_fds) t.rest,
  ap (λ (x : Mgmt). x.ctxs) t.rest,
  ap (λ (x : Mgmt). x.list_timeout) t.rest,
  ap (λ (x : Mgmt). x.ctx_caches) t.rest,
  ap (λ (x : Mgmt). x.total_process) t.rest,
)

close_socket-IsClosed :
    (s : Option ℕ) (m : Mgmt)
    → 0 < m.count_pollfds
    → fd_of s < m.max_fds
    → Returns (IsClosed m) (close_socket s m)
unfolding close_socket
close_socket-IsClosed none m h r = ground arith
close_socket-IsClosed (some zero) m h r = ground arith
close_socket-IsClosed (some (suc fd)) m h r =
    let d = mgmt_del_fd-ok (emit (Effect.closed (suc fd)) m) (suc fd) h in
    subst
      (λ o. Returns (IsClosed m) (o >>= λ m1. set_lookup (suc fd) none m1 >>= λ m2. ok (none, m2)))
      (sym d.1) (lookup-IsClosed (suc fd) (Effect.closed (suc fd)) m d.0 d.2 r)

-- What the release of the context `c` does to the lists of contexts.
pub record IsReleased (c : ℕ) (m n : Mgmt) : Type 0 where
  pub list_timeout : n.list_timeout ≡ list_del c m.list_timeout
  pub ctx_caches : n.ctx_caches ≡ c ∷ m.ctx_caches
  pub total_process : n.total_process ≡ m.total_process + 1
  pub deadlines : (x : ℕ) → timeouts n x ≡ timeouts m x
  pub entries : m.count_pollfds ≤ n.count_pollfds + 1
  pub in_range : (x : ℕ) → fd_of (n.ctxs x).sockfd < n.max_fds
  pub unlisted : (x : ℕ) → IsUnlisted (n.ctxs x)

IsUnlisted-update :
    (c x : ℕ) (f g : ℕ → HttpContext) (v : HttpContext)
    → f ≡ g
    → IsUnlisted v
    → IsUnlisted (g x)
    → IsUnlisted (update f c v x)
IsUnlisted-update c x f g v e h k = elim (Bool-cases (c == x)) [
  | inl same ↦ rw same h
  | inr other ↦ rw (other, e) k
]

-- The rest of the release, after the buffers are freed.
freed-IsReleased :
    (c : ℕ) (m : Mgmt) (s : Option ℕ × Mgmt) (t : HttpContext × Mgmt)
    → 0 < m.count_pollfds
    → ((x : ℕ) → fd_of (m.ctxs x).sockfd < m.max_fds)
    → ((x : ℕ) → IsUnlisted (m.ctxs x))
    → IsClosed m s
    → AreFreed (record (m.ctxs c) { status = CallingStatus.finish; sockfd = s.0 }) s.1 t
    → Returns (IsReleased c m) (
        let m1 = put_ctx c t.0 t.1 in
        let m2 = free_context c (record m1 { list_timeout = list_del c m1.list_timeout }) in
        ok (record m2 { total_process = m2.total_process + 1 }))
unfolding free_context
freed-IsReleased c m s t h r u k f = record {
  list_timeout = ap (list_del c) (f.list_timeout ∙ k.list_timeout);
  ctx_caches = ap (λ l. c ∷ l) (f.ctx_caches ∙ k.ctx_caches);
  total_process = ap (λ n. n + 1) (f.total_process ∙ k.total_process);
  deadlines =
      λ x. ground (arith, ap (λ (f : ℕ → HttpContext). (f x).timeout) (f.ctxs ∙ k.ctxs), f.timeout);
  entries = omega (arith, k.entries, f.entries);
  in_range = λ x. ground (
    arith,
    ap (λ (f : ℕ → HttpContext). fd_of (f x).sockfd) (f.ctxs ∙ k.ctxs),
    r x,
    ap fd_of f.socket ∙ k.socket,
    r c,
    f.max_fds ∙ k.max_fds,
  );
  unlisted = λ x. IsUnlisted-update c x t.1.ctxs m.ctxs t.0 (f.ctxs ∙ k.ctxs) f.unlisted (u x);
}

release-IsReleased :
    (c : ℕ) (m : Mgmt)
    → 0 < m.count_pollfds
    → ((x : ℕ) → fd_of (m.ctxs x).sockfd < m.max_fds)
    → ((x : ℕ) → IsUnlisted (m.ctxs x))
    → Returns (IsReleased c m) (http_context_release c m)
unfolding http_context_release
release-IsReleased c m h r u =
    Returns->>= (IsClosed m) (IsReleased c m) (close_socket (m.ctxs c).sockfd m) _
      (close_socket-IsClosed (m.ctxs c).sockfd m h (r c))
      λ s k.
        let ctx = record (m.ctxs c) { status = CallingStatus.finish; sockfd = s.0 } in
        Returns->>= (AreFreed ctx s.1) (IsReleased c m) (release_bufs ctx s.1) _
          (release_bufs-AreFreed ctx s.1 (u c)) λ t f. freed-IsReleased c m s t h r u k f

leave_ready-IsReleased :
    (s : CallingStatus) (c : ℕ) (m n : Mgmt) → IsReleased c (leave_ready s c m) n → IsReleased c m n
unfolding unready
leave_ready-IsReleased CallingStatus.ready c m n r = record {
  list_timeout = r.list_timeout;
  ctx_caches = r.ctx_caches;
  total_process = r.total_process;
  deadlines = r.deadlines;
  entries = r.entries;
  in_range = r.in_range;
  unlisted = r.unlisted;
}
leave_ready-IsReleased CallingStatus.pending c m n r = r
leave_ready-IsReleased CallingStatus.finish c m n r = r

leave_ready_same :
    (s : CallingStatus) (c : ℕ) (m : Mgmt)
    → ((leave_ready s c m).count_pollfds ≡ m.count_pollfds)
      × ((leave_ready s c m).ctxs ≡ m.ctxs)
      × ((leave_ready s c m).max_fds ≡ m.max_fds)
unfolding unready
leave_ready_same CallingStatus.ready c m = (refl, refl, refl)
leave_ready_same _ c m = (refl, refl, refl)

pub force_release-IsReleased :
    (c : ℕ) (m : Mgmt)
    → 0 < m.count_pollfds
    → ((x : ℕ) → fd_of (m.ctxs x).sockfd < m.max_fds)
    → ((x : ℕ) → IsUnlisted (m.ctxs x))
    → Returns (IsReleased c m) (force_release c m)
unfolding force_release
force_release-IsReleased c m h r u =
    Returns-mono (IsReleased c k) _ (http_context_release c k)
      (release-IsReleased c k (omega (arith, same.0))
        (λ x. ground (arith, ap (λ (f : ℕ → HttpContext). fd_of (f x).sockfd) same.1, same.2, r x))
        λ x. subst (λ (f : ℕ → HttpContext). IsUnlisted (f x)) (sym same.1) (u x))
      (leave_ready-IsReleased (m.ctxs c).status c m)
  where
    k : Mgmt
    k = leave_ready (m.ctxs c).status c m

    same : (k.count_pollfds ≡ m.count_pollfds) × (k.ctxs ≡ m.ctxs) × (k.max_fds ≡ m.max_fds)
    same = leave_ready_same (m.ctxs c).status c m

-- The part of the list from the first context on that has not timed out.
unfoldable pub live : ℕ → (ℕ → ℕ) → List ℕ → List ℕ
live now at [] = []
live now at (c ∷ cs) = let rest = live now at cs in if ltb now (at c) then c ∷ cs else rest

live_ext :
    (now : ℕ) (f g : ℕ → ℕ) (cs : List ℕ) → ((x : ℕ) → f x ≡ g x) → live now f cs ≡ live now g cs
unfolding live
live_ext now f g [] h = refl
live_ext now f g (c ∷ cs) h = ground (arith, h c, live_ext now f g cs h)

-- What is left of the contexts `cs` that had a timeout.
pub record IsRun (now : ℕ) (cs : List ℕ) (m n : Mgmt) : Type 0 where
  pub left : n.list_timeout ≡ live now (timeouts m) cs
  pub deadlines : (x : ℕ) → timeouts n x ≡ timeouts m x
  pub released : n.total_process + length n.list_timeout ≡ m.total_process + length cs
  pub freed :
      (a : ℕ) → count a n.ctx_caches + count a n.list_timeout ≡ count a m.ctx_caches + count a cs

module _ (now : ℕ) where
  go_on :
      (c : ℕ) (cs : List ℕ) (m k n : Mgmt)
      → ltb now (timeouts m c) ≡ false
      → IsReleased c m k
      → IsRun now cs k n
      → IsRun now (c ∷ cs) m n
  unfolding live
  go_on c cs m k n late r d = record {
    left = d.left ∙ live_ext now _ _ cs r.deadlines ∙ rw late;
    deadlines = λ x. d.deadlines x ∙ r.deadlines x;
    released = omega (arith, d.released, r.total_process);
    freed = λ a. omega (arith, d.freed a, ap (count a) r.ctx_caches);
  }

  release_until-IsRun :
      (cs : List ℕ) (m : Mgmt)
      → m.list_timeout ≡ cs
      → length cs ≤ m.count_pollfds
      → ((x : ℕ) → fd_of (m.ctxs x).sockfd < m.max_fds)
      → ((x : ℕ) → IsUnlisted (m.ctxs x))
      → Returns (IsRun now cs m) (release_until now cs m)
  unfolding release_until live
  release_until-IsRun [] m e h r u = record {
    left = e;
    deadlines = λ x. refl;
    released = omega (arith, ap length e);
    freed = λ a. omega (arith, ap (count a) e);
  }
  release_until-IsRun (c ∷ cs) m e h r u = elim (Bool-cases (ltb now (timeouts m c))) [
    | inl early ↦ rw early (record {
      left = e ∙ rw early;
      deadlines = λ x. refl;
      released = omega (arith, ap length e);
      freed = λ a. omega (arith, ap (count a) e);
    })
    | inr late ↦ rw late (
        Returns->>= (IsReleased c m) (IsRun now (c ∷ cs) m) (force_release c m) _
          (force_release-IsReleased c m (omega arith) r u)
          λ k d.
            Returns-mono (IsRun now cs k) (IsRun now (c ∷ cs) m) (release_until now cs k)
              (release_until-IsRun cs k (ground (arith, d.list_timeout, e, ==_refl c))
                (omega (arith, d.entries)) d.in_range d.unlisted)
              (λ n f. go_on c cs m k n late d f))
  ]

-- A list that rises from `t` on has no context of an earlier timeout.
count-IsRising : (at : ℕ → ℕ) (a t : ℕ) (cs : List ℕ) → IsRising at t cs → at a < t → count a cs ≡ 0
count-IsRising at a t [] r h = refl
count-IsRising at a t (c ∷ cs) r h = ground (arith, r.0, count-IsRising at a (at c) cs r.1)

-- Counting what is left of a list that is in order.
count-live :
    (now : ℕ) (at : ℕ → ℕ) (a t : ℕ) (cs : List ℕ)
    → IsRising at t cs
    → count a (live now at cs) ≡ (if ltb now (at a) then count a cs else 0)
unfolding live
count-live now at a t [] r = ground arith
count-live now at a t (c ∷ cs) r =
    ground (arith, count-live now at a (at c) cs r.1, count-IsRising at a (at c) cs r.1)

-- Where the contexts stand in the order of their timeouts, the table can take out their sockets, and no
-- context's current buffer stands on its list, `http_mgmt_run_timeout` does not fail. A context stays on
-- the list of timeouts if its timeout is after `now`, and every other one is taken off. Each context is
-- put among the free ones as often as it is taken off, and as many are counted as finished.
pub http_mgmt_run_timeout-IsExpired :
    (now : ℕ) (m : Mgmt)
    → IsRising (timeouts m) 0 m.list_timeout
    → IsClosable m
    → Returns
        (λ n.
          ((c : ℕ)
            → count c n.list_timeout
              ≡ (if ltb now (timeouts m c) then count c m.list_timeout else 0))
          × (n.total_process + length n.list_timeout ≡ m.total_process + length m.list_timeout)
          × ((c : ℕ)
              → count c n.ctx_caches + count c n.list_timeout
                ≡ count c m.ctx_caches + count c m.list_timeout))
        (http_mgmt_run_timeout now m)
unfolding http_mgmt_run_timeout
http_mgmt_run_timeout-IsExpired now m r t =
    Returns-mono (IsRun now m.list_timeout m) _ (release_until now m.list_timeout m)
      (release_until-IsRun now m.list_timeout m refl t.entries t.in_range t.unlisted)
      λ n d. (
        λ c. ap (count c) d.left ∙ count-live now (timeouts m) c 0 m.list_timeout r,
        d.released,
        d.freed,
      )
