-- ===== src/Examples/Clients.antt =====
-- Examples for the local server, its clients, and the program's start.
use web_tunnel.Base.{ℕ, ◌%◌, ◌≡◌, refl, ◌<◌, true, false, some, [], ◌∷◌, Returns, arith}
use web_tunnel.State.{
  Mgmt, Ref, TcpForward, TcpClient, empty_buf, empty_http_buf, zero_forward, zero_client,
}
use web_tunnel.Runtime.{WriteAnswer, ReadAnswer}
use web_tunnel.PollTable.Laws.{Polled}
use web_tunnel.ToServer.Queue.{IsSending}
use web_tunnel.Client.Writing.{write_client_buf}
use web_tunnel.Client.Writing.Stream.{IsSentCiphered, write_client_buf-IsSentCiphered}
use web_tunnel.Forward.Coroutines.{tcp_forward_read}
use web_tunnel.Forward.Coroutines.Reading.{IsForwarded, tcp_forward_read-IsForwarded}
use web_tunnel.Cycle.Setup.{http_mgmt_init, http_mgmt_param_init}
use web_tunnel.Cycle.Setup.Sound.{IsSound, http_mgmt_init-IsSound}
use web_tunnel.Examples.Fixtures.{idle_state}

-- The buffer 9 has 5 bytes for the client, which is written in one piece.
abbrev client_state : Mgmt
client_state = record idle_state { bufs = λ _. record empty_buf { mem = λ i. i % 256; len = 5 } }

abbrev client : TcpClient
client = record zero_client {
  client_fd = 6;
  buf_write = record empty_http_buf { list_todo = 9 ∷ []; curr = some 9 };
}

abbrev whole : WriteAnswer
whole = record { taken = λ len. some len; again = false }

byte_bound : (i : ℕ) → i % 256 < 256
byte_bound i = omega arith

write_client_buf-IsSentCiphered_example :
    Returns
      (IsSentCiphered 130 9 client client_state)
      (write_client_buf 125 whole 9 client client_state)
write_client_buf-IsSentCiphered_example =
    write_client_buf-IsSentCiphered 125 130 whole 9 client client_state (omega arith) (omega arith)
      (omega arith) refl byte_bound refl

-- Three bytes come from a connection.
abbrev connection : TcpForward
connection = record zero_forward { fwd_fd = 3; pfd = some 0; seq = 4 }

abbrev three : ReadAnswer
three = record { bytes = some (1 ∷ 2 ∷ 3 ∷ []); again = false }

idle-IsSending : IsSending idle_state
idle-IsSending = record { running = λ e. cc; busy = λ e. cc; stopped = λ e. refl }

tcp_forward_read-IsForwarded_example :
    Returns
      (IsForwarded 0 (1 ∷ 2 ∷ 3 ∷ []) (1 ∷ 2 ∷ 3 ∷ []) connection idle_state)
      (tcp_forward_read three connection idle_state)
tcp_forward_read-IsForwarded_example =
    tcp_forward_read-IsForwarded three connection idle_state 0 (1 ∷ 2 ∷ 3 ∷ []) 1 (2 ∷ 3 ∷ []) 0
      idle-IsSending refl refl (omega arith) (omega arith) refl

http_mgmt_init-IsSound_example :
    Returns
      (λ r.
        (r.1 ≡ true)
        × IsSound (http_mgmt_param_init 100 r.0)
        × Polled r.0 3
        × (r.0.http_lookup 3 ≡ some Ref.server))
      (http_mgmt_init 16 idle_state.pollfds (λ fd. fd) false (some 3) true)
http_mgmt_init-IsSound_example =
    http_mgmt_init-IsSound 16 3 100 idle_state.pollfds (λ fd. fd) false (omega arith)
