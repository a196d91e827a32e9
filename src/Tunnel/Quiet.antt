-- ===== src/Tunnel/Quiet.antt =====
-- Rounds of the main loop in which nothing comes.
use web_tunnel.Base.{
  ℕ, zero, suc, ◌+◌, ◌*◌, ◌≤◌, ◌<◌, ◌≡◌, refl, ap, ◌∙◌, subst, sym, Bool, true, false, List, [],
  ◌∷◌, Option, none, some, Outcome, ok, Returns, Returns-mono, ◌>>=◌, arith, if◌then◌else◌,
}
use web_tunnel.State.{Mgmt, Events, CallingStatus}
use web_tunnel.Scheduler.{http_mgmt_run_timeout}
use web_tunnel.Server.{tcp_server_run, run_clients}
use web_tunnel.Cycle.{
  is_quiet, http_mgmt_run, execute_each, give_up_packet, check_alive, http_timeout_secs,
  ServiceAnswers,
}
use web_tunnel.Tunnel.Loop.{Round, round, session, serve, serve_each, set_revents}

-- Nothing is ready, and no packet is being received.
pub record IsIdle (m : Mgmt) : Type 0 where
  pub high : m.list_high ≡ []
  pub low : m.list_low ≡ []
  pub clients : m.tcp_server.list_client ≡ []
  pub server : m.tcp_server.status ≡ CallingStatus.pending
  pub unsynced : m.sync_prepare ≡ false
  pub not_closed : m.was_closed ≡ false

-- `poll` succeeds and reports nothing, and the last sign of life is not long ago.
pub record IsQuietRound (last : ℕ) (a : Round) : Type 0 where
  pub events : ℕ → Events
  pub reported : a.polled ≡ some events
  pub quiet : (i : ℕ) → is_quiet (events i) ≡ true
  pub soon : a.run.now ≤ last + 4 * http_timeout_secs

abbrev pub AreQuiet : ℕ → List Round → Type 0
AreQuiet last [] = Unit {0}
AreQuiet last (a ∷ as') = IsQuietRound last a × AreQuiet last as'

-- The table of polled descriptors may differ, nothing else.
abbrev pub IsKept : Mgmt → Mgmt → Type 0
IsKept m n = n ≡ record m { pollfds = n.pollfds }

idle-http_mgmt_run :
    (a : Round) (m : Mgmt)
    → IsIdle m
    → a.run.now ≤ m.last_alive_time + 4 * http_timeout_secs
    → http_mgmt_run a.run m ≡ ok m
unfolding http_mgmt_run execute_each give_up_packet check_alive tcp_server_run run_clients
idle-http_mgmt_run a m i h = grind (arith, i.high, i.low, i.clients, i.server, i.unsynced)

quiet-serve_each :
    (now : ℕ) (answers : ℕ → ServiceAnswers) (left n : ℕ)
    (service : ℕ → Mgmt → Outcome (Mgmt × Bool)) (m : Mgmt)
    → ((i : ℕ) → i < m.count_pollfds → is_quiet (m.pollfds i).revents ≡ true)
    → serve_each service now answers left n m ≡ ok (m, true)
unfolding serve_each serve
quiet-serve_each now answers zero n service m q = refl
quiet-serve_each now answers (suc left) n service m q =
    ground (arith, q n, quiet-serve_each now answers left (n + 1) service m q)

module _ (service : ℕ → Mgmt → Outcome (Mgmt × Bool)) where
  quiet-round :
      (a : Round) (m : Mgmt)
      → IsIdle m
      → (q : IsQuietRound m.last_alive_time a)
      → round service a m ≡ ok (set_revents q.events m, true)
  unfolding round set_revents
  quiet-round a m i q =
      ap (λ o. o >>= polled_by a.polled) (idle-http_mgmt_run a m i q.soon)
      ∙ ap (λ p. polled_by p m) q.reported
      ∙ quiet-serve_each a.polled_at a.services m.max_fds 0 service (set_revents q.events m)
          λ j lt. ground (arith, q.quiet j)
    where
      polled_by : Option (ℕ → Events) → Mgmt → Outcome (Mgmt × Bool)
      polled_by p n = elim p as (λ _. Outcome (Mgmt × Bool)) [
        | none ↦ http_mgmt_run_timeout a.polled_at n >>= λ k. ok (k, false)
        | some events ↦ serve_each service a.polled_at a.services n.max_fds 0 (set_revents events n)
      ]

  set_revents-IsIdle : (events : ℕ → Events) (m : Mgmt) → IsIdle m → IsIdle (set_revents events m)
  unfolding set_revents
  set_revents-IsIdle events m i = record {
    high = i.high;
    low = i.low;
    clients = i.clients;
    server = i.server;
    unsynced = i.unsynced;
    not_closed = i.not_closed;
  }

  -- While no context is ready, no client is on the list, the server's coroutine waits, no packet is being
  -- received and the websocket is not closed, rounds in which `poll` succeeds and reports nothing change
  -- nothing but the table of polled descriptors, as long as the last sign of life is at most 32 seconds
  -- ago: in particular no context is released, whatever its timeout is.
  pub session_quiet :
      (as' : List Round) (m : Mgmt)
      → IsIdle m
      → AreQuiet m.last_alive_time as'
      → Returns (IsKept m) (session service as' m)
  unfolding session set_revents
  session_quiet [] m i q = refl
  session_quiet (a ∷ as') m i q = subst (Returns (IsKept m)) (sym step) (
      Returns-mono (IsKept n) (IsKept m) (session service as' n)
        (session_quiet as' n (set_revents-IsIdle (q.0).events m i) q.1) λ k e. e)
    where
      n : Mgmt
      n = set_revents (q.0).events m

      after : Mgmt × Bool → Outcome Mgmt
      after r = if r.1 then session service as' r.0 else ok r.0

      step : session service (a ∷ as') m ≡ session service as' n
      step =
          ap (λ c. if c then ok m else (round service a m >>= after)) i.not_closed
          ∙ ap (λ o. o >>= after) (quiet-round a m i q.0)
