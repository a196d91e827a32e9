-- ===== src/HttpContext/Lifetime/Init.antt =====
-- What `http_context_init` leaves.
use web_tunnel.Base.{
  ℕ, ◌+◌, ◌<◌, ◌≡◌, ◌≢◌, refl, sym, ap, ◌∙◌, subst, Bool, true, false, List, [], ◌∷◌, length, count,
  Option, none, some, Outcome, ok, fault, overrun, ltb, leb, Returns, arith, update, update_self,
  if◌then◌else◌, ==_refl,
}
use web_tunnel.Base.Int.{ℤ}
use web_tunnel.State.{
  Mgmt, Ref, CallingStatus, CallerState, CcrLine, AsyncFunc, listening, no_events,
}
use web_tunnel.Runtime.{put_ctx, set_lookup}
use web_tunnel.PollTable.{mgmt_add_fd}
use web_tunnel.PollTable.Laws.{IsTable, Polled}
use web_tunnel.HttpContext.Lists.{insert_timeout, timeouts}
use web_tunnel.HttpContext.Lists.Sorted.{IsRising, insert_timeout-IsRising}
use web_tunnel.HttpContext.Lifetime.{http_context_init}
use web_tunnel.HttpContext.Lifetime.Readied.{readied, insert_ready_prio-IsReadied}

pub IsRising-ext :
    (f g : ℕ → ℕ) (t : ℕ) (cs : List ℕ)
    → ((x : ℕ) → count x cs ≢ 0 → f x ≡ g x)
    → IsRising f t cs
    → IsRising g t cs
IsRising-ext f g t [] h r = tt
IsRising-ext f g t (c ∷ cs) h r =
    let same = h c (ground (arith, ==_refl c)) in
    (
      omega (arith, same, r.0),
      subst (λ k. IsRising g k cs) same (IsRising-ext f g (f c) cs (λ x n. h x (ground arith)) r.1),
    )

-- The context `c` waits for its socket `fd`.
pub record IsCreated (c fd : ℕ) (m n : Mgmt) : Type 0 where
  pub ready : (n.ctxs c).status ≡ CallingStatus.ready
  pub connects : (n.ctxs c).func_run ≡ AsyncFunc.http_context_connect
  pub on_list :
      count c n.list_high + count c n.list_low ≡ count c m.list_high + count c m.list_low + 1
  pub counted : length n.list_high + length n.list_low ≡ length m.list_high + length m.list_low + 1
  pub ready_len : n.ready_len ≡ m.ready_len + 1
  pub rising : IsRising (timeouts n) 0 n.list_timeout
  pub waits : (a : ℕ) → count a n.list_timeout ≡ count a (c ∷ m.list_timeout)
  pub table : IsTable n
  pub polled : Polled n fd
  pub others : (x : ℕ) → Polled m x → Polled n x
  pub pfd : (n.ctxs c).pfd ≡ some (n.fd_lookup fd)
  pub lookup : n.http_lookup fd ≡ some (Ref.http c)
  pub free : n.ctx_caches ≡ m.ctx_caches
  pub prepared : n.buf_prepare ≡ m.buf_prepare
  pub named : (n.ctxs c).hostname ≡ (m.ctxs c).hostname
  pub socket : (n.ctxs c).sockfd ≡ (m.ctxs c).sockfd
  pub deadline : timeouts n c ≡ timeouts m c
  pub request : (n.ctxs c).buf_write ≡ (m.ctxs c).buf_write
  pub seq : (n.ctxs c).seq ≡ (m.ctxs c).seq

-- What `http_context_init` does behind `insert_ready_prio`.
polling : ℕ → ℕ → Mgmt → Outcome Mgmt
polling c fd k =
    let m1 = insert_timeout c k in
    let r = mgmt_add_fd (record m1 { total_add = m1.total_add + 1 }) fd listening in
    set_lookup fd (some (Ref.http c)) (put_ctx c (record (r.0.ctxs c) { pfd = r.1 }) r.0)

initial : ℕ → Mgmt → Mgmt
initial c m =
    put_ctx c
      (record (m.ctxs c) {
        errcode = 0;
        state = CallerState.connect;
        func_run = AsyncFunc.http_context_connect;
        status = CallingStatus.ready;
        ccr_line = CcrLine.start;
      })
      m

-- The table with the descriptor.
with_fd : ℕ → Mgmt → Mgmt
with_fd fd k = record k {
  fd_lookup = update k.fd_lookup fd k.count_pollfds;
  pollfds =
      update k.pollfds k.count_pollfds
        (record { fd = fd; events = listening; revents = no_events });
  count_pollfds = k.count_pollfds + 1;
}

mgmt_add_fd-eq-with_fd :
    (fd : ℕ) (k : Mgmt)
    → fd < k.max_fds
    → mgmt_add_fd k fd listening ≡ (with_fd fd k, some k.count_pollfds)
unfolding mgmt_add_fd with_fd
mgmt_add_fd-eq-with_fd fd k h =
    let in_range : leb k.max_fds fd ≡ false = ground arith in
    ap (λ (b : Bool). if b then (k, none) else (with_fd fd k, some k.count_pollfds)) in_range

-- What `polling` leaves.
polled_state : ℕ → ℕ → Mgmt → Mgmt
polled_state c fd k =
    let m1 = insert_timeout c k in
    let m2 = with_fd fd (record m1 { total_add = m1.total_add + 1 }) in
    record m2 {
      ctxs = update m2.ctxs c (record (m2.ctxs c) { pfd = some m1.count_pollfds });
      http_lookup = update m2.http_lookup fd (some (Ref.http c));
    }

polling-eq-ok : (c fd : ℕ) (k : Mgmt) → fd < k.max_fds → polling c fd k ≡ ok (polled_state c fd k)
unfolding polling polled_state with_fd insert_timeout
polling-eq-ok c fd k h =
    ap with_entry (
      mgmt_add_fd-eq-with_fd fd
        (record (insert_timeout c k) { total_add = (insert_timeout c k).total_add + 1 }) h)
    ∙ ap (λ (b : Bool). if b then ok (polled_state c fd k) else fault overrun) in_range
  where
    with_entry : Mgmt × Option ℕ → Outcome Mgmt
    with_entry r =
        set_lookup fd (some (Ref.http c)) (put_ctx c (record (r.0.ctxs c) { pfd = r.1 }) r.0)

    in_range : ltb fd k.max_fds ≡ true
    in_range = ground arith

module _ (c fd : ℕ) (m : Mgmt) (rising : IsRising (timeouts m) 0 m.list_timeout) (table : IsTable m)
    (in_range : fd < m.max_fds) (new : ¬ Polled m fd) where
  module _ (high low : List ℕ) (prio : ℤ) where
    k : Mgmt
    k = readied high low prio c (initial c m)

    k-timeouts : (x : ℕ) → timeouts k x ≡ timeouts m x
    unfolding k readied initial
    k-timeouts x = ground arith

    k-IsRising : IsRising (timeouts k) 0 k.list_timeout
    unfolding k readied initial
    k-IsRising =
        IsRising-ext (timeouts m) (timeouts k) 0 m.list_timeout (λ x h. sym (k-timeouts x)) rising

    polled_state-IsCreated :
        count c high + count c low ≡ count c m.list_high + count c m.list_low + 1
        → length high + length low ≡ length m.list_high + length m.list_low + 1
        → IsCreated c fd m (polled_state c fd k)
    unfolding polled_state with_fd k readied initial insert_timeout
    polled_state-IsCreated once longer = record {
      ready = ground (arith, ==_refl c);
      connects = ground (arith, ==_refl c);
      on_list = once;
      counted = longer;
      ready_len = refl;
      rising = IsRising-ext (timeouts k) _ 0 _ (λ x h. ground arith) inserted.0;
      waits = inserted.1;
      table = λ i lt. ground (arith, table i, new);
      polled = (ground arith, ground arith);
      others = λ x there. ground (arith, table (m.fd_lookup x), new);
      pfd = ground (arith, ==_refl c);
      lookup = update_self m.http_lookup fd _;
      free = refl;
      prepared = refl;
      named = ground (arith, ==_refl c);
      socket = ground (arith, ==_refl c);
      deadline = ground (arith, ==_refl c);
      request = ground (arith, ==_refl c);
      seq = ground (arith, ==_refl c);
    }
      where
        inserted :
            IsRising (timeouts (insert_timeout c k)) 0 (insert_timeout c k).list_timeout
            × ((a : ℕ) → count a (insert_timeout c k).list_timeout ≡ count a (c ∷ k.list_timeout))
        inserted = insert_timeout-IsRising c k k-IsRising

  pub http_context_init-IsCreated : Returns (IsCreated c fd m) (http_context_init c fd m)
  unfolding http_context_init polling initial k readied
  http_context_init-IsCreated =
      let r = insert_ready_prio-IsReadied c (initial c m) in
      subst (λ j. Returns (IsCreated c fd m) (polling c fd j)) (sym r.made)
        (subst (Returns (IsCreated c fd m))
          (sym (polling-eq-ok c fd (k r.high r.low r.prio) in_range))
          (polled_state-IsCreated r.high r.low r.prio r.once r.longer))
