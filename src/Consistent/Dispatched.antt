-- ===== src/Consistent/Dispatched.antt =====
-- A whole packet is handed on, and the messages of which it is made are received.
use web_tunnel.Base.{
  ℕ, Option, none, some, Bool, true, false, Outcome, ok, ◌>>=◌, Ensures, Ensures-ok, Ensures-bind,
  Ensures-if, ◌==◌,
}
use web_tunnel.State.{Mgmt}
use web_tunnel.Buffers.{next_buf_info}
use web_tunnel.Header.{
  http_c_hand, http_c_req, http_c_tunnelreq, http_c_tunnelresp, http_c_forward, http_c_forward_req,
}
use web_tunnel.Prepare.{release_prepare}
use web_tunnel.Dispatch.{take_client_id, unless_done, handle, end_packet, prepare_process}
use web_tunnel.Dispatch.Forwarding.{Answer}
use web_tunnel.Consistent.{IsConsistent}
use web_tunnel.Consistent.Connections.{IsFresh}
use web_tunnel.Consistent.Packets.{
  state_of, process_tunnel_req-IsConsistent, process_tunnel_resp-IsConsistent,
}
use web_tunnel.Consistent.Forwarding.{
  process_tcp_forward-IsConsistent, process_tcp_forwardresp-IsConsistent,
}
use web_tunnel.Consistent.Contexts.{http_context_create-IsConsistent}

unless_done-IsConsistent :
    (r : Mgmt × Bool) → IsConsistent (state_of r) → IsConsistent (unless_done r)
unfolding release_prepare
unless_done-IsConsistent (m, true) s = s
unless_done-IsConsistent (m, false) s = s

-- What follows a handler.
done-IsConsistent :
    {o : Outcome (Mgmt × Bool)}
    → Ensures (λ r. IsConsistent (state_of r)) o
    → Ensures IsConsistent (o >>= λ r. ok (unless_done r))
done-IsConsistent h =
    Ensures-bind h λ r e. Ensures-ok {a = unless_done r} (unless_done-IsConsistent r e)

hand-IsConsistent :
    (o : Option ℕ) (m : Mgmt)
    → IsConsistent m
    → IsConsistent (elim o as (λ _. Mgmt) [ none ↦ m | some b ↦ take_client_id b m ])
unfolding take_client_id release_prepare
hand-IsConsistent none m s = s
hand-IsConsistent (some b) m s = s

handle-IsConsistent :
    (now : ℕ) (a : Answer) (m : Mgmt)
    → IsConsistent m
    → IsFresh a.socket
    → Ensures IsConsistent (handle now a m)
unfolding handle release_prepare
handle-IsConsistent now a m s n =
    let kind = m.buf_prepare.kind in
    let hand = elim (next_buf_info m.buf_prepare.list_todo) as (λ _. Mgmt) [
      | none ↦ m
      | some b ↦ take_client_id b m
    ] in
    Ensures-if (kind == http_c_hand)
      (Ensures-ok {a = hand} (hand-IsConsistent (next_buf_info m.buf_prepare.list_todo) m s))
      (Ensures-if (kind == http_c_tunnelreq)
        (done-IsConsistent (process_tunnel_req-IsConsistent m s))
        (Ensures-if (kind == http_c_tunnelresp)
          (done-IsConsistent (process_tunnel_resp-IsConsistent m s))
          (Ensures-if (kind == http_c_req)
            (done-IsConsistent (http_context_create-IsConsistent now 10 a.socket m s))
            (Ensures-if (kind == http_c_forward)
              (done-IsConsistent (process_tcp_forward-IsConsistent a m s n))
              (Ensures-if (kind == http_c_forward_req)
                (Ensures-bind (process_tcp_forwardresp-IsConsistent m s) λ r e.
                  Ensures-ok {a = release_prepare (unless_done r)} (unless_done-IsConsistent r e))
                (Ensures-ok {a = release_prepare m} s))))))

pub prepare_process-IsConsistent :
    (now : ℕ) (a : Answer) (m : Mgmt)
    → IsConsistent m
    → IsFresh a.socket
    → Ensures IsConsistent (prepare_process now a m)
unfolding prepare_process end_packet
prepare_process-IsConsistent now a m s n =
    Ensures-bind (handle-IsConsistent now a m s n) λ k e. Ensures-ok {a = end_packet now k} e
