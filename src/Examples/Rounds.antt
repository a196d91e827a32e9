-- ===== src/Examples/Rounds.antt =====
-- An example for the main loop: a context whose timeout has passed, and a round in which nothing comes.
use web_tunnel.Base.{[], ◌∷◌, true, false, some, none, ok, Returns, arith, refl}
use web_tunnel.State.{Mgmt, CallingStatus, no_events}
use web_tunnel.Runtime.{ConnectAnswer}
use web_tunnel.Server.{AcceptAnswer}
use web_tunnel.Tunnel.Loop.{Round, session}
use web_tunnel.Tunnel.Quiet.{IsIdle, IsQuietRound, IsKept, session_quiet}
use web_tunnel.Examples.Fixtures.{idle_state}

abbrev waiting_state : Mgmt
waiting_state = record idle_state {
  tcp_server = record (idle_state.tcp_server) { status = CallingStatus.pending };
}

-- At 25, the timeouts 10 and 20 have passed.
abbrev pub quiet_round : Round
quiet_round = record {
  run = record {
    now = 25;
    contexts = λ c. record {
      connects = ConnectAnswer.refused;
      writes = [];
      reads = record { bytes = none; again = false };
    };
    clients = λ c. record { now = 25; reads = record { bytes = none; again = false }; writes = [] };
    accepts = AcceptAnswer.refused;
    memory = true;
  };
  polled = some (λ i. no_events);
  polled_at = 25;
  services = λ i. record {
    context = record {
      connects = ConnectAnswer.refused;
      writes = [];
      reads = record { bytes = none; again = false };
    };
    client = record { now = 25; reads = record { bytes = none; again = false }; writes = [] };
    accepts = AcceptAnswer.refused;
    memory = true;
  };
}

waiting_state-IsIdle : IsIdle waiting_state
waiting_state-IsIdle = record {
  high = refl;
  low = refl;
  clients = refl;
  server = refl;
  unsynced = refl;
  not_closed = refl;
}

quiet_round-IsQuietRound : IsQuietRound 0 quiet_round
quiet_round-IsQuietRound = record {
  events = λ i. no_events;
  reported = refl;
  quiet = λ i. refl;
  soon = omega arith;
}

session_quiet_example :
    Returns
      (IsKept waiting_state)
      (session (λ i n. ok (n, true)) (quiet_round ∷ quiet_round ∷ []) waiting_state)
session_quiet_example =
    session_quiet (λ i n. ok (n, true)) (quiet_round ∷ quiet_round ∷ []) waiting_state
      waiting_state-IsIdle (quiet_round-IsQuietRound, (quiet_round-IsQuietRound, tt))
