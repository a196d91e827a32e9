-- ===== src/Tunnel/Loop.antt =====
-- The main loop of web-tunnel.c. `libwebsocket_service_fd` is a parameter: it gets the index of a
-- `struct pollfd`, calls the callbacks, and its Boolean is that its result is not negative.
use web_tunnel.Base.{
  ℕ, zero, suc, ◌+◌, Bool, true, false, List, [], ◌∷◌, Option, none, some, Outcome, ok, ◌>>=◌, ltb,
  if◌then◌else◌,
}
use web_tunnel.State.{Mgmt, Events}
use web_tunnel.Scheduler.{http_mgmt_run_timeout}
use web_tunnel.Cycle.{CycleAnswers, ServiceAnswers, is_quiet, http_mgmt_run, http_mgmt_service}
use web_tunnel.Cycle.Setup.{http_mgmt_param_init, http_mgmt_release_all}

-- What one round of the loop meets: `polled` is the events of the entries, or `none` if `poll` fails, and
-- `services` is the answers while an entry is served.
pub record Round : Type 0 where
  pub run : CycleAnswers
  pub polled : Option (ℕ → Events)
  pub polled_at : ℕ
  pub services : ℕ → ServiceAnswers

-- `poll` sets `revents` of the entries in use.
unfoldable pub set_revents : (ℕ → Events) → Mgmt → Mgmt
set_revents events m = record m {
  pollfds = λ i.
      if ltb i m.count_pollfds then record (m.pollfds i) { revents = events i } else m.pollfds i;
}

module _ (service_fd : ℕ → Mgmt → Outcome (Mgmt × Bool)) where
  -- The entry `n`: first libwebsockets looks at it, then the program. The Boolean is that the loop goes
  -- on.
  unfoldable pub serve : ℕ → ServiceAnswers → ℕ → Mgmt → Outcome (Mgmt × Bool)
  serve now a n m =
      let served = service_fd n (record m { last_alive_time = now }) >>= λ r.
      let own = http_mgmt_service a n r.0 >>= λ s. ok (s.0, true) in
      if r.1 then own else ok (r.0, false) in
      if is_quiet (m.pollfds n).revents then ok (m, true) else served

  -- `for (n = 0; n < pmgmt->count_pollfds; n++)`, with the entries of the table that are left.
  unfoldable pub serve_each : ℕ → (ℕ → ServiceAnswers) → ℕ → ℕ → Mgmt → Outcome (Mgmt × Bool)
  unfolding serve
  serve_each now answers zero n m = ok (m, true)
  serve_each now answers (suc left) n m =
      let next = serve now (answers n) n m >>= λ r.
      let rest = serve_each now answers left (n + 1) r.0 in if r.1 then rest else ok (r.0, false) in
      if ltb n m.count_pollfds then next else ok (m, true)

  -- One round of the loop; it is left after a failed `poll` too, since `n` is negative then.
  unfoldable pub round : Round → Mgmt → Outcome (Mgmt × Bool)
  unfolding set_revents serve_each
  round a m = http_mgmt_run a.run m >>= λ n. elim a.polled as (λ _. Outcome (Mgmt × Bool)) [
    | none ↦ http_mgmt_run_timeout a.polled_at n >>= λ k. ok (k, false)
    | some events ↦ serve_each a.polled_at a.services n.max_fds 0 (set_revents events n)
  ]

  -- `while (n >= 0 && !was_closed && !force_exit)`, for as many rounds as are given.
  unfoldable pub session : List Round → Mgmt → Outcome Mgmt
  unfolding round
  session [] m = ok m
  session (a ∷ as') m =
      let next = round a m >>= λ r. let rest = session as' r.0 in if r.1 then rest else ok r.0 in
      if m.was_closed then ok m else next

-- The program's own part of the way from `done` to `reconn` and to the next websocket, at the time `now`.
unfoldable pub reset : ℕ → Mgmt → Outcome Mgmt
reset now m =
    http_mgmt_release_all m >>= λ n. ok (http_mgmt_param_init now (record n { was_closed = false }))

-- The way from `done` to the next websocket: `destroy` is `libwebsocket_context_destroy`, and `connect` is
-- `libwebsocket_create_context` and `libwebsocket_client_connect`, each with the callbacks that it calls.
-- The Boolean is that there is a websocket.
unfoldable pub reconnect :
    (Mgmt → Outcome (Mgmt × Bool))
    → (Mgmt → Outcome (Mgmt × Bool))
    → ℕ
    → Mgmt
    → Outcome (Mgmt × Bool)
unfolding reset
reconnect destroy connect now m = do a ← destroy m; n ← reset now a.0; connect n
