-- ===== src/Examples/Tables.antt =====
-- Examples for the table of sockets and the lists of contexts.
use web_tunnel.Base.{
  ℕ, zero, suc, ◌+◌, ◌≡◌, ◌≤◌, ◌<◌, refl, ◌∷◌, some, length, count, Returns, arith, ltb,
  if◌then◌else◌,
}
use web_tunnel.State.{no_events, listening}
use web_tunnel.PollTable.{mgmt_add_fd, mgmt_del_fd}
use web_tunnel.PollTable.Laws.{
  IsTable, Polled, entry, IsWithout, mgmt_add_fd-IsTable, mgmt_del_fd-IsWithout, mgmt_del_fd_stale,
}
use web_tunnel.HttpContext.Lists.{insert_timeout, timeouts}
use web_tunnel.HttpContext.Lists.Sorted.{IsRising, insert_timeout-IsRising}
use web_tunnel.HttpContext.Coroutines.{fd_of}
use web_tunnel.Scheduler.{http_mgmt_run_timeout}
use web_tunnel.Scheduler.Timeout.{IsUnlisted, http_mgmt_run_timeout-IsExpired}
use web_tunnel.Examples.Fixtures.{idle_state}

idle-IsTable : IsTable idle_state
idle-IsTable zero h = refl
idle-IsTable (suc zero) h = refl
idle-IsTable (suc (suc i)) h = absurd (omega arith)

mgmt_add_fd-IsTable_example :
    let r = mgmt_add_fd idle_state 9 listening in
    (r.1 ≡ some (r.0.fd_lookup 9))
    × IsTable r.0
    × Polled r.0 9
    × (entry r.0 9 ≡ record { fd = 9; events = listening; revents = no_events })
    × ((x : ℕ) → Polled idle_state x → Polled r.0 x × (entry r.0 x ≡ entry idle_state x))
mgmt_add_fd-IsTable_example =
    mgmt_add_fd-IsTable idle_state 9 listening idle-IsTable (omega arith) (λ h. omega arith)

mgmt_del_fd-IsWithout_example : Returns (IsWithout idle_state 3) (mgmt_del_fd idle_state 3)
mgmt_del_fd-IsWithout_example = mgmt_del_fd-IsWithout idle_state 3 idle-IsTable (omega arith, refl)

mgmt_del_fd_stale_example :
    Returns
      (λ n.
        (n.count_pollfds ≤ idle_state.fd_lookup 5)
        × (n.fd_lookup 5 ≡ idle_state.fd_lookup 3)
        × (n.fd_lookup 5 < idle_state.fd_lookup 5))
      (mgmt_del_fd idle_state 3)
mgmt_del_fd_stale_example =
    mgmt_del_fd_stale idle_state 3 idle-IsTable (omega arith, refl) 5 (λ e. omega arith)
      (omega arith, refl) refl

insert_timeout-IsRising_example :
    let n = insert_timeout 2 idle_state in
    IsRising (timeouts n) 0 n.list_timeout
    × ((a : ℕ) → count a n.list_timeout ≡ count a (2 ∷ idle_state.list_timeout))
insert_timeout-IsRising_example =
    insert_timeout-IsRising 2 idle_state (omega arith, (omega arith, tt))

fd_of-idle : (c : ℕ) → fd_of (idle_state.ctxs c).sockfd < 16
fd_of-idle zero = omega arith
fd_of-idle (suc c) = omega arith

idle-IsUnlisted : (c : ℕ) → IsUnlisted (idle_state.ctxs c)
idle-IsUnlisted zero = (refl, refl)
idle-IsUnlisted (suc c) = (refl, refl)

http_mgmt_run_timeout-IsExpired_example :
    Returns
      (λ n.
        ((c : ℕ)
          → count c n.list_timeout
            ≡ (if ltb 15 (timeouts idle_state c) then count c idle_state.list_timeout else 0))
        × (n.total_process + length n.list_timeout ≡ 2)
        × ((c : ℕ)
            → count c n.ctx_caches + count c n.list_timeout
              ≡ count c idle_state.ctx_caches + count c idle_state.list_timeout))
      (http_mgmt_run_timeout 15 idle_state)
http_mgmt_run_timeout-IsExpired_example =
    http_mgmt_run_timeout-IsExpired 15 idle_state (omega arith, (omega arith, tt))
      (record { entries = omega arith; in_range = fd_of-idle; unlisted = idle-IsUnlisted })
