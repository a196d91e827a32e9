-- ===== src/Examples/Programs.antt =====
-- The program from its start: libwebsockets' socket is polled, and a client of the tunnel accepted.
use web_tunnel.Base.{
  none, ◌≢◌, use_after_free, ℕ, ◌≡◌, refl, Bool, true, false, [], ◌∷◌, some, Outcome, ok, fault,
  arith, ◌==◌, if◌then◌else◌,
}
use web_tunnel.State.{Mgmt, no_events, listening}
use web_tunnel.PollTable.{mgmt_add_fd}
use web_tunnel.ToServer.{codes}
use web_tunnel.Server.{AcceptAnswer, tcp_server_init, tcp_server_run}
use web_tunnel.Cycle.{http_mgmt_run, http_mgmt_service}
use web_tunnel.Cycle.Setup.{http_mgmt_init, http_mgmt_param_init}
use web_tunnel.Tunnel.{PollReason, callback_http, Reason, callback_dumb_increment}
use web_tunnel.Dispatch.Forwarding.{Answer}
use web_tunnel.Tunnel.Loop.{reconnect, Round, session}
use web_tunnel.Consistent.{IsConsistent}
use web_tunnel.Consistent.Rounds.{clear_revents, Serves, Calls, IsFreshRound}
use web_tunnel.Consistent.Program.{
  Library, AreServed, named, Reaches, Reaches-IsConsistent, Reaches-never_freed,
}
use web_tunnel.Consistent.Safe.{IsSafe, Reaches-IsSafe}
use web_tunnel.Examples.Fixtures.{idle_state}
use web_tunnel.Examples.Rounds.{quiet_round}

-- The result of a run, or `a` if it fails.
abbrev value : {A : Type 0} → A → Outcome A → A
value a (ok b) = b
value a (fault e) = a

-- The websocket's socket is 4; `revents` of another entry is left alone.
abbrev serviced : Bool → ℕ → Mgmt → Outcome (Mgmt × Bool)
serviced true i m = ok (clear_revents i m, true)
serviced false i m = ok (m, true)

abbrev service : ℕ → Mgmt → Outcome (Mgmt × Bool)
service i m = serviced ((m.pollfds i).fd == 4) i m

serviced-Serves : (b : Bool) (i : ℕ) (m : Mgmt) → Serves m (serviced b i m)
serviced-Serves true i m =
    Serves.returned m (clear_revents i m) true
      (Calls.cleared i m (clear_revents i m) (Calls.no_call (clear_revents i m)))
serviced-Serves false i m = Serves.returned m m true (Calls.no_call m)

abbrev websockets : Library
websockets = record {
  service_fd = service;
  destroy = λ m. ok (m, true);
  connect = λ m. ok (m, true);
}

websockets-AreServed : AreServed websockets
websockets-AreServed = record {
  service_fd = λ i m. serviced-Serves ((m.pollfds i).fd == 4) i m;
  destroy = λ m. Serves.returned m m true (Calls.no_call m);
  connect = λ m. Serves.returned m m true (Calls.no_call m);
}

-- The server's descriptor, 3, can be read: a client is there.
abbrev accepting_round : Round
accepting_round = record quiet_round {
  polled = some (λ i. if i == 0 then listening else no_events);
  services = λ i. record ((quiet_round.services) i) { accepts = AcceptAnswer.accepted 9 };
}

abbrev begun : Mgmt
begun =
    (value (idle_state, false)
      (http_mgmt_init 16 idle_state.pollfds (λ fd. fd) false (some 3) true)).0

-- The program is started for the user "u".
abbrev ready : Mgmt
ready = http_mgmt_param_init 100 (named (codes "u") (codes "l") (codes "r") 80 8080 begun)

-- The websocket's socket, 4, is in the table.
abbrev polled : Mgmt
polled = (value (idle_state, false) (callback_http (PollReason.add_poll_fd 4 listening) ready)).0

abbrev accepted : Mgmt
accepted = value idle_state (session service (accepting_round ∷ []) polled)

begun-Reaches : Reaches websockets ready
unfolding http_mgmt_init tcp_server_init mgmt_add_fd
begun-Reaches =
    Reaches.starts 16 idle_state.pollfds (λ fd. fd) false (some 3) true (codes "u") (codes "l")
      (codes "r") 80 8080 100 begun (omega arith) (omega arith) (omega arith) refl

polled-Reaches : Reaches websockets polled
unfolding callback_http http_mgmt_init tcp_server_init mgmt_add_fd http_mgmt_param_init named
polled-Reaches = Reaches.calls ready polled begun-Reaches (
    Calls.polling (PollReason.add_poll_fd 4 listening) true ready polled polled refl
      (Calls.no_call polled))

accepting_round-IsFreshRound : IsFreshRound accepting_round
accepting_round-IsFreshRound = (tt, λ i e. omega (arith, e))

accepted-Reaches : Reaches websockets accepted
unfolding session callback_http http_mgmt_init tcp_server_init mgmt_add_fd http_mgmt_param_init
    named clear_revents http_mgmt_run tcp_server_run http_mgmt_service
accepted-Reaches =
    Reaches.rounds (accepting_round ∷ []) polled accepted polled-Reaches
      (accepting_round-IsFreshRound, tt) refl

abbrev no_answer : Answer
no_answer = record { resolve = λ host. 0; memory = false; socket = none }

Reaches-IsConsistent_example : IsConsistent accepted
Reaches-IsConsistent_example =
    Reaches-IsConsistent websockets websockets-AreServed accepted accepted-Reaches

Reaches-IsSafe_example : IsSafe accepted
Reaches-IsSafe_example = Reaches-IsSafe websockets websockets-AreServed accepted accepted-Reaches

-- A message of the server follows, then a round with the next client.
Reaches-never_freed_example :
    (session service (accepting_round ∷ []) accepted ≢ fault use_after_free)
    × (callback_dumb_increment (Reason.receive 101 no_answer (1 ∷ 2 ∷ [])) accepted
        ≢ fault use_after_free)
    × (callback_http (PollReason.del_poll_fd 4) accepted ≢ fault use_after_free)
    × (reconnect websockets.destroy websockets.connect 102 accepted ≢ fault use_after_free)
Reaches-never_freed_example =
    Reaches-never_freed websockets websockets-AreServed accepted accepted-Reaches
      (accepting_round ∷ []) (Reason.receive 101 no_answer (1 ∷ 2 ∷ [])) (PollReason.del_poll_fd 4)
      102 (accepting_round-IsFreshRound, tt) (λ fd e. absurd (cc))

accepted_client : accepted.tcp_server.list_client ≡ 0 ∷ []
unfolding session callback_http http_mgmt_init tcp_server_init mgmt_add_fd http_mgmt_param_init
    named clear_revents http_mgmt_run tcp_server_run http_mgmt_service
accepted_client = refl
