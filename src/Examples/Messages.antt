-- ===== src/Examples/Messages.antt =====
-- Examples for the messages to the server.
use web_tunnel.Base.{◌≡◌, refl, [], ◌∷◌, true, Returns, arith}
use web_tunnel.Base.Int.{pos, negsuc}
use web_tunnel.State.{zero_context}
use web_tunnel.ToServer.{http_mgmt_writable, generate_error}
use web_tunnel.ToServer.Queue.{
  IsSending, HasSent, IsDrained, drain, http_mgmt_writable-HasSent, drain-IsDrained,
}
use web_tunnel.ToServer.ErrorReply.{IsErrorReply, generate_error-IsErrorReply}
use web_tunnel.Examples.Fixtures.{idle_state, sending_state}

idle_state-IsSending : IsSending idle_state
idle_state-IsSending = record { running = λ e. cc; busy = λ e. cc; stopped = λ e. refl }

sending_state-IsSending : IsSending sending_state
sending_state-IsSending = record { running = λ e. refl; busy = λ e h. cc; stopped = λ e. cc }

http_mgmt_writable-HasSent_example :
    Returns (HasSent sending_state 7 [] (negsuc 0)) (http_mgmt_writable sending_state (negsuc 0))
http_mgmt_writable-HasSent_example =
    http_mgmt_writable-HasSent sending_state (negsuc 0) 7 [] sending_state-IsSending refl refl
      (λ e. omega arith)

drain-IsDrained_example :
    Returns (IsDrained sending_state (7 ∷ [])) (drain (pos 3 ∷ []) sending_state)
drain-IsDrained_example =
    drain-IsDrained (pos 3 ∷ []) (7 ∷ []) sending_state sending_state-IsSending refl refl refl
      ((λ e. omega arith), tt)

generate_error-IsErrorReply_example :
    Returns
      (λ n.
        IsErrorReply 0 (n.bufs 0)
        × IsSending n
        × (n.toserver ≡ true)
        × (n.buf_toserver.list_todo ≡ 0 ∷ [])
        × (n.http_buf_caches ≡ 1 ∷ 2 ∷ 3 ∷ []))
      (generate_error idle_state zero_context)
generate_error-IsErrorReply_example =
    generate_error-IsErrorReply idle_state zero_context 0 (1 ∷ 2 ∷ 3 ∷ []) idle_state-IsSending
      (omega arith) refl
