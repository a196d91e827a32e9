-- ===== src/Cycle/Setup/Sound.antt =====
-- The state that the program starts from.
use web_tunnel.Base.{
  ℕ, zero, suc, ◌+◌, ◌<◌, ◌≡◌, refl, sym, subst, update, Bool, true, false, length, none, some, ok,
  Returns, arith, count, ltb, if◌then◌else◌,
}
use web_tunnel.State.{Mgmt, Pollfd, Ref, CallingStatus, no_events, listening}
use web_tunnel.Buffers.Ledger.{places}
use web_tunnel.PollTable.{mgmt_add_fd}
use web_tunnel.PollTable.Laws.{IsTable, Polled}
use web_tunnel.ToServer.Queue.{IsSending}
use web_tunnel.HttpContext.Lists.{timeouts}
use web_tunnel.HttpContext.Lists.Sorted.{IsRising}
use web_tunnel.Server.{tcp_server_init}
use web_tunnel.Cycle.Setup.{
  caches, caller_caches, httpbuf_caches, empty_mgmt, http_mgmt_init, http_mgmt_param_init,
}

-- The invariants of the program's parts, together: the table and the queue are well formed; no packet is
-- being received; each of the 256 buffers stands in one place, and each of the 256 contexts is free or has
-- a timeout; the timeouts are in order, and the ready lists are counted.
pub record IsSound (m : Mgmt) : Type 0 where
  pub table : IsTable m
  pub sending : IsSending m
  pub unsynced : m.sync_prepare ≡ false
  pub no_current : m.buf_prepare.curr ≡ none
  pub buffers : (a : ℕ) → places m a ≡ (if ltb a httpbuf_caches then 1 else 0)
  pub contexts :
      (c : ℕ)
      → count c m.ctx_caches + count c m.list_timeout ≡ (if ltb c caller_caches then 1 else 0)
  pub rising : IsRising (timeouts m) 0 m.list_timeout
  pub ready : m.ready_len ≡ length m.list_high + length m.list_low

count-caches : (a n : ℕ) → count a (caches n) ≡ (if ltb a n then 1 else 0)
unfolding caches
count-caches a zero = ground arith
count-caches a (suc n) = ground (arith, count-caches a n)

-- The state that `http_mgmt_init` leaves.
started : ℕ → ℕ → (ℕ → Pollfd) → (ℕ → ℕ) → Bool → Mgmt
started max_fds fd table lookup closed =
    let m = empty_mgmt max_fds table lookup closed in
    record m {
      fd_lookup = update lookup fd 0;
      pollfds = update table 0 (record { fd = fd; events = listening; revents = no_events });
      count_pollfds = 1;
      http_lookup = update m.http_lookup fd (some Ref.server);
      tcp_server = record (m.tcp_server) {
        status = CallingStatus.pending;
        serv_fd = fd;
        pfd = some 0;
      };
    }

http_mgmt_init-eq-ok :
    (max_fds fd : ℕ) (table : ℕ → Pollfd) (lookup : ℕ → ℕ) (closed : Bool)
    → fd < max_fds
    → http_mgmt_init max_fds table lookup closed (some fd) true
      ≡ ok (started max_fds fd table lookup closed, true)
unfolding http_mgmt_init empty_mgmt tcp_server_init mgmt_add_fd started
http_mgmt_init-eq-ok max_fds fd table lookup closed h = ground arith

started-IsSound :
    (max_fds fd now : ℕ) (table : ℕ → Pollfd) (lookup : ℕ → ℕ) (closed : Bool)
    → IsSound (http_mgmt_param_init now (started max_fds fd table lookup closed))
unfolding started empty_mgmt http_mgmt_param_init
started-IsSound max_fds fd now table lookup closed = record {
  table = λ i h. ground arith;
  sending = record { running = λ e. cc; busy = λ e. cc; stopped = λ e. refl };
  unsynced = refl;
  no_current = refl;
  buffers = λ a. omega (arith, count-caches a httpbuf_caches);
  contexts = λ c. omega (arith, count-caches c caller_caches);
  rising = tt;
  ready = refl;
}

-- The program's start, where the allocations and the server's `socket` and `bind` succeed, with a
-- descriptor in range: `http_mgmt_init` returns 0, and after `http_mgmt_param_init` the invariants of all
-- parts hold, and the server's socket is in the table and leads to the server.
pub http_mgmt_init-IsSound :
    (max_fds fd now : ℕ) (table : ℕ → Pollfd) (lookup : ℕ → ℕ) (closed : Bool)
    → fd < max_fds
    → Returns
        (λ r.
          (r.1 ≡ true)
          × IsSound (http_mgmt_param_init now r.0)
          × Polled r.0 fd
          × (r.0.http_lookup fd ≡ some Ref.server))
        (http_mgmt_init max_fds table lookup closed (some fd) true)
unfolding started
http_mgmt_init-IsSound max_fds fd now table lookup closed h =
    subst (Returns _) (sym (http_mgmt_init-eq-ok max_fds fd table lookup closed h))
      (refl, started-IsSound max_fds fd now table lookup closed, ground arith, ground arith)
