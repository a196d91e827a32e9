-- ===== src/HttpContext/Lifetime/Created.antt =====
-- A context that is created for a request.
use web_tunnel.Base.{
  ℕ, ◌+◌, ◌<◌, ◌≡◌, refl, sym, ap, ◌∙◌, subst, Bool, true, false, List, [], ◌∷◌, count, Option,
  none, some, Outcome, ok, Returns, Returns->>=, ◌>>=◌, arith, if◌then◌else◌, length, update_self,
}
use web_tunnel.State.{Mgmt, Ref, CallingStatus, AsyncFunc, HttpBuf, HttpContext, zero_context}
use web_tunnel.Runtime.{put_ctx}
use web_tunnel.PollTable.Laws.{IsTable, Polled}
use web_tunnel.HttpContext.Lists.{timeouts}
use web_tunnel.HttpContext.Lists.Sorted.{IsRising}
use web_tunnel.HttpContext.Host.{host_init}
use web_tunnel.HttpContext.Lifetime.{http_context_init, http_context_create, take_request}
use web_tunnel.Buffers.{alloc_context}
use web_tunnel.HttpContext.Lifetime.Init.{IsRising-ext, IsCreated, http_context_init-IsCreated}

-- The context `c` was made for the request of `m`, whose host is `name`, with the socket `fd`, and times out at
-- `until`.
pub record IsMade (c fd until : ℕ) (cs name : List ℕ) (m n : Mgmt) : Type 0 where
  pub ready : (n.ctxs c).status ≡ CallingStatus.ready
  pub connects : (n.ctxs c).func_run ≡ AsyncFunc.http_context_connect
  pub hostname : (n.ctxs c).hostname ≡ name
  pub seq : (n.ctxs c).seq ≡ m.buf_prepare.seq
  pub request : (n.ctxs c).buf_write.list_todo ≡ m.buf_prepare.list_todo
  pub moved : n.buf_prepare.list_todo ≡ []
  pub deadline : (n.ctxs c).timeout ≡ until
  pub socket : (n.ctxs c).sockfd ≡ some fd
  pub pfd : (n.ctxs c).pfd ≡ some (n.fd_lookup fd)
  pub lookup : n.http_lookup fd ≡ some (Ref.http c)
  pub on_list :
      count c n.list_high + count c n.list_low ≡ count c m.list_high + count c m.list_low + 1
  pub counted : length n.list_high + length n.list_low ≡ length m.list_high + length m.list_low + 1
  pub ready_len : n.ready_len ≡ m.ready_len + 1
  pub rising : IsRising (timeouts n) 0 n.list_timeout
  pub waits : (a : ℕ) → count a n.list_timeout ≡ count a (c ∷ m.list_timeout)
  pub table : IsTable n
  pub polled : Polled n fd
  pub others : (x : ℕ) → Polled m x → Polled n x
  pub free : n.ctx_caches ≡ cs

module _ (now timeout : ℕ) (host : HttpContext) (c : ℕ) (cs : List ℕ) (fd : ℕ) (m : Mgmt) where
  -- The request of `buf_prepare` is that of the context `c`.
  with_request : Mgmt
  with_request = take_request c fd (now + timeout) host (record m { ctx_caches = cs })

  http_context_create-eq-init :
      m.ctx_caches ≡ c ∷ cs
      → host_init m.buf_prepare zero_context m ≡ ok (host, true)
      → http_context_create now timeout (some fd) m
        ≡ (http_context_init c fd with_request >>= λ n. ok (n, true))
  unfolding http_context_create alloc_context host_init with_request
  http_context_create-eq-init e h =
      ap with_context (ap with_free e) ∙ ap (λ o. o >>= after c (record m { ctx_caches = cs })) h
    where
      with_free : List ℕ → Mgmt × Option ℕ
      with_free l = elim l [ [] ↦ (m, none) | d ∷ ds ↦ (record m { ctx_caches = ds }, some d) ]

      after : ℕ → Mgmt → HttpContext × Bool → Outcome (Mgmt × Bool)
      after d j r =
          if r.1
          then (http_context_init d fd (take_request d fd (now + timeout) r.0 j) >>= λ n.
              ok (n, true))
          else ok (put_ctx d r.0 j, false)

      with_context : Mgmt × Option ℕ → Outcome (Mgmt × Bool)
      with_context r = elim r.1 as (λ _. Outcome (Mgmt × Bool)) [
        | none ↦ ok (m, true)
        | some d ↦ host_init m.buf_prepare zero_context r.0 >>= after d r.0
      ]

  with_request-IsRising :
      IsRising (timeouts m) 0 m.list_timeout
      → count c m.list_timeout ≡ 0
      → IsRising (timeouts with_request) 0 with_request.list_timeout
  unfolding with_request take_request
  with_request-IsRising r z =
      IsRising-ext (timeouts m) _ 0 m.list_timeout (λ x h. ground (arith, z)) r

  created-IsMade :
      (n : Mgmt) → IsCreated c fd with_request n → IsMade c fd (now + timeout) cs host.hostname m n
  unfolding with_request take_request
  created-IsMade n d = record {
    ready = d.ready;
    connects = d.connects;
    hostname = d.named ∙ ap (λ (v : HttpContext). v.hostname) (update_self m.ctxs c _);
    seq = d.seq ∙ ap (λ (v : HttpContext). v.seq) (update_self m.ctxs c _);
    request =
        ap (λ (h : HttpBuf). h.list_todo) d.request
        ∙ ap (λ (v : HttpContext). v.buf_write.list_todo) (update_self m.ctxs c _);
    moved = ap (λ (h : HttpBuf). h.list_todo) d.prepared;
    deadline = d.deadline ∙ ap (λ (v : HttpContext). v.timeout) (update_self m.ctxs c _);
    socket = d.socket ∙ ap (λ (v : HttpContext). v.sockfd) (update_self m.ctxs c _);
    pfd = d.pfd;
    lookup = d.lookup;
    on_list = d.on_list;
    counted = d.counted;
    ready_len = d.ready_len;
    rising = d.rising;
    waits = d.waits;
    table = d.table;
    polled = d.polled;
    others = d.others;
    free = d.free;
  }

  -- Let `c` be the first free context, which is not on the list of timeouts, the host of the request in
  -- `buf_prepare` be found, and `fd` a new descriptor in range, where the table is well formed and the
  -- contexts stand in the order of their timeouts. Then `http_context_create` returns 0. The context is
  -- ready to connect, once more on a ready list, which is counted, and once more on the list of timeouts,
  -- which stays in order. It has the host's name, the sequence number of `buf_prepare`, its buffers, which
  -- leave `buf_prepare`, the timeout `now + timeout`, and the socket `fd`; the socket is in the table,
  -- which stays well formed with all other descriptors, and leads to the context.
  pub http_context_create-IsCreated :
      m.ctx_caches ≡ c ∷ cs
      → host_init m.buf_prepare zero_context m ≡ ok (host, true)
      → IsRising (timeouts m) 0 m.list_timeout
      → count c m.list_timeout ≡ 0
      → IsTable m
      → fd < m.max_fds
      → ¬ Polled m fd
      → Returns
          (λ r. (r.1 ≡ true) × IsMade c fd (now + timeout) cs host.hostname m r.0)
          (http_context_create now timeout (some fd) m)
  unfolding with_request take_request
  http_context_create-IsCreated e h r z t i p =
      subst (Returns _) (sym (http_context_create-eq-init e h)) (
        Returns->>= (IsCreated c fd with_request) _ (http_context_init c fd with_request) _
          (http_context_init-IsCreated c fd with_request (with_request-IsRising r z) t i p)
          λ n d. (refl, created-IsMade n d))
