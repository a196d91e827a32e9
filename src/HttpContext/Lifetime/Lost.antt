-- ===== src/HttpContext/Lifetime/Lost.antt =====
-- Contexts for which `socket` fails.
use web_tunnel.Base.{
  ℕ, zero, suc, ◌≡◌, refl, sym, ap, ◌∙◌, subst, Bool, true, false, List, [], ◌∷◌, length, Option,
  none, some, Outcome, ok, Returns, Returns-mono, ◌>>=◌, arith, if◌then◌else◌,
}
use web_tunnel.State.{Mgmt, HttpContext, zero_context}
use web_tunnel.Runtime.{put_ctx}
use web_tunnel.Buffers.{alloc_context}
use web_tunnel.HttpContext.Host.{host_init}
use web_tunnel.HttpContext.Lifetime.{http_context_create}

-- So many calls for which there is no socket.
unfoldable pub create_each : ℕ → ℕ → ℕ → Mgmt → Outcome Mgmt
create_each zero now timeout m = ok m
create_each (suc k) now timeout m =
    http_context_create now timeout none m >>= λ r. create_each k now timeout r.0

-- The free contexts are `cs`, and no list of contexts has changed.
pub record IsLost (cs : List ℕ) (m n : Mgmt) : Type 0 where
  pub free : n.ctx_caches ≡ cs
  pub list_timeout : n.list_timeout ≡ m.list_timeout
  pub list_high : n.list_high ≡ m.list_high
  pub list_low : n.list_low ≡ m.list_low
  pub request : n.buf_prepare ≡ m.buf_prepare
  pub bufs : n.bufs ≡ m.bufs

module _ (now timeout : ℕ) (host : HttpContext × Bool) where
  create-eq-ok :
      (c : ℕ) (cs : List ℕ) (m : Mgmt)
      → host_init m.buf_prepare zero_context m ≡ ok host
      → m.ctx_caches ≡ c ∷ cs
      → http_context_create now timeout none m
        ≡ ok (put_ctx c host.0 (record m { ctx_caches = cs }), false)
  unfolding http_context_create alloc_context host_init
  create-eq-ok c cs m h e =
      ap with_context (ap with_free e)
      ∙ ap (λ o. o >>= after c (record m { ctx_caches = cs })) h
      ∙ same host.1
    where
      with_free : List ℕ → Mgmt × Option ℕ
      with_free l = elim l [ [] ↦ (m, none) | d ∷ ds ↦ (record m { ctx_caches = ds }, some d) ]

      after : ℕ → Mgmt → HttpContext × Bool → Outcome (Mgmt × Bool)
      after d k r = if r.1 then ok (put_ctx d r.0 k, false) else ok (put_ctx d r.0 k, false)

      with_context : Mgmt × Option ℕ → Outcome (Mgmt × Bool)
      with_context r = elim r.1 as (λ _. Outcome (Mgmt × Bool)) [
        | none ↦ ok (m, true)
        | some d ↦ host_init m.buf_prepare zero_context r.0 >>= after d r.0
      ]

      left : Outcome (Mgmt × Bool)
      left = ok (put_ctx c host.0 (record m { ctx_caches = cs }), false)

      same : (k : Bool) → (if k then left else left) ≡ left
      same true = refl
      same false = refl

  create_each-IsLost :
      (cs : List ℕ) (m : Mgmt)
      → host_init m.buf_prepare zero_context m ≡ ok host
      → m.ctx_caches ≡ cs
      → Returns (IsLost [] m) (create_each (length cs) now timeout m)
  unfolding create_each host_init
  create_each-IsLost [] m h e = record {
    free = e;
    list_timeout = refl;
    list_high = refl;
    list_low = refl;
    request = refl;
    bufs = refl;
  }
  create_each-IsLost (c ∷ cs) m h e =
      subst (λ o. Returns (IsLost [] m) (o >>= λ r. create_each (length cs) now timeout r.0))
        (sym (create-eq-ok c cs m h e))
        (Returns-mono (IsLost [] k) _ (create_each (length cs) now timeout k)
          (create_each-IsLost cs k h' refl)
          λ n l. record {
            free = l.free;
            list_timeout = l.list_timeout;
            list_high = l.list_high;
            list_low = l.list_low;
            request = l.request;
            bufs = l.bufs;
          })
    where
      k : Mgmt
      k = put_ctx c host.0 (record m { ctx_caches = cs })

      h' : host_init k.buf_prepare zero_context k ≡ ok host
      h' = h

  no_context-same :
      (socket : Option ℕ) (m : Mgmt)
      → m.ctx_caches ≡ []
      → http_context_create now timeout socket m ≡ ok (m, true)
  unfolding http_context_create alloc_context
  no_context-same socket m e = grind (arith, e)

  -- Let no socket be there, and let the host of the request in `buf_prepare` be looked for without a
  -- fault. After as many calls of `http_context_create` as there are free contexts none is free, though
  -- no context was put on a list; and from then on a call returns 0, whatever `socket` would give, and
  -- does nothing.
  pub http_context_create-IsLost :
      (m : Mgmt)
      → host_init m.buf_prepare zero_context m ≡ ok host
      → Returns
          (λ n.
            IsLost [] m n
            × ((socket : Option ℕ) → http_context_create now timeout socket n ≡ ok (n, true)))
          (create_each (length m.ctx_caches) now timeout m)
  http_context_create-IsLost m h =
      Returns-mono (IsLost [] m) _ (create_each (length m.ctx_caches) now timeout m)
        (create_each-IsLost m.ctx_caches m h refl)
        λ n l. (l, λ socket. no_context-same socket n l.free)
