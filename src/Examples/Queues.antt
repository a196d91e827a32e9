-- ===== src/Examples/Queues.antt =====
-- Examples for the queue to the server as a whole, the handshake, and messages that are refused.
use web_tunnel.Base.{ℕ, ◌≡◌, refl, false, List, [], ◌∷◌, Returns, ok, arith}
use web_tunnel.Base.Int.{pos}
use web_tunnel.ToServer.{http_mgmt_handshake}
use web_tunnel.ToServer.Outbox.{Event, submitted, writable, Outbox}
use web_tunnel.ToServer.Handshake.{IsHandshake, http_mgmt_handshake-IsHandshake}
use web_tunnel.Prepare.{http_mgmt_prepare}
use web_tunnel.Prepare.Refused.{IsRefused, http_mgmt_prepare-IsRefused, is_acceptable}
use web_tunnel.Examples.Fixtures.{idle_state, sending_state}

abbrev one_waits : Outbox
one_waits = record { waiting = (1 ∷ 2 ∷ 3 ∷ []) ∷ []; sent = [] }

abbrev events : List Event
events = submitted 5 ∷ writable (pos 3) ∷ writable (pos 3) ∷ []

http_mgmt_handshake-IsHandshake_example :
    Returns (IsHandshake sending_state 0 (1 ∷ 2 ∷ 3 ∷ [])) (http_mgmt_handshake sending_state)
http_mgmt_handshake-IsHandshake_example =
    http_mgmt_handshake-IsHandshake sending_state 0 (1 ∷ 2 ∷ 3 ∷ []) (omega arith) (omega arith)
      (omega arith) refl

-- A message of three bytes.
abbrev short : List ℕ
short = 1 ∷ 2 ∷ 3 ∷ []

short-refused : is_acceptable short ≡ false
unfolding is_acceptable
short-refused = refl

http_mgmt_prepare-IsRefused_example :
    Returns (IsRefused idle_state) (http_mgmt_prepare ok 100 short idle_state)
http_mgmt_prepare-IsRefused_example =
    http_mgmt_prepare-IsRefused ok 100 short idle_state (omega arith) refl short-refused
