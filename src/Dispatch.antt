-- ===== src/Dispatch.antt =====
-- A packet from the server is handed on: `prepare_process` of test-server/http_client.c with
-- `process_tcp_forward`, `process_tcp_forwardresp`, `process_tunnel_req` and `process_tunnel_resp`.
pub mod Forwarding
pub mod Tunnel
use web_tunnel.Base.{
  ℕ, ◌+◌, Bool, true, false, not, List, [], ◌∷◌, Option, none, some, Outcome, ok, ◌>>=◌, ◌==◌,
  if◌then◌else◌,
}
use web_tunnel.State.{Mgmt}
use web_tunnel.Buffers.{next_buf_info}
use web_tunnel.Header.{
  word32, htonl, http_c_hand, http_c_req, http_c_tunnelreq, http_c_tunnelresp, http_c_forward,
  http_c_forward_req,
}
use web_tunnel.Prepare.{release_prepare}
use web_tunnel.HttpContext.Lifetime.{http_context_create}
use web_tunnel.Dispatch.Forwarding.{Answer, process_tcp_forward, process_tcp_forwardresp}
use web_tunnel.Dispatch.Tunnel.{process_tunnel_req, process_tunnel_resp}

-- The server's answer to the handshake, in the first buffer.
unfoldable pub take_client_id : ℕ → Mgmt → Mgmt
take_client_id b m =
    let mem = (m.bufs b).mem in
    release_prepare
      (record m { client_id = htonl (word32 (mem 0) (mem 1) (mem 2) (mem 3)); shakehand = true })

-- Where a handler does not return 0 the packet is released.
abbrev pub unless_done : Mgmt × Bool → Mgmt
unless_done (m, true) = m
unless_done (m, false) = release_prepare m

-- The `switch` on the packet's type, which releases a packet of an unknown one.
unfoldable pub handle : ℕ → Answer → Mgmt → Outcome Mgmt
unfolding take_client_id
handle now a m =
    let kind = m.buf_prepare.kind in
    let hand = elim (next_buf_info m.buf_prepare.list_todo) as (λ _. Mgmt) [
      | none ↦ m
      | some b ↦ take_client_id b m
    ] in
    let tunnel_req = process_tunnel_req m >>= λ r. ok (unless_done r) in
    let tunnel_resp = process_tunnel_resp m >>= λ r. ok (unless_done r) in
    let req = http_context_create now 10 a.socket m >>= λ r. ok (unless_done r) in
    let forward = process_tcp_forward a m >>= λ r. ok (unless_done r) in
    let forward_req = process_tcp_forwardresp m >>= λ r. ok (release_prepare (unless_done r)) in
    if kind == http_c_hand
    then ok hand
    else if kind == http_c_tunnelreq
    then tunnel_req
    else if kind == http_c_tunnelresp
    then tunnel_resp
    else if kind == http_c_req
    then req
    else if kind == http_c_forward
    then forward
    else if kind == http_c_forward_req
    then forward_req
    else ok (release_prepare m)

-- `THE_END`.
unfoldable pub end_packet : ℕ → Mgmt → Mgmt
end_packet now m = record m {
  buf_prepare = record (m.buf_prepare) { len = 0; total_len = 0; kind = 0 };
  sync_prepare = false;
  sync_time = now;
}

-- `prepare_process` at the time `now`.
unfoldable pub prepare_process : ℕ → Answer → Mgmt → Outcome Mgmt
unfolding handle end_packet
prepare_process now a m = handle now a m >>= λ n. ok (end_packet now n)
