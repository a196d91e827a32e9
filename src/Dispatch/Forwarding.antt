-- ===== src/Dispatch/Forwarding.antt =====
-- `process_tcp_forward` and `process_tcp_forwardresp`.
pub mod Queued
use web_tunnel.Base.{
  ℕ, ◌+◌, ◌-◌, Bool, true, false, not, ◌||◌, List, [], ◌∷◌, ◌++◌, Option, none, some, Outcome, ok,
  fault, negative_length, overrun, ◌>>=◌, ◌>>◌, check, deref, ltb, ◌==◌, if◌then◌else◌,
}
use web_tunnel.State.{Mgmt, ForwardFunc, CcrLine, TcpForward, wait_out}
use web_tunnel.Buffers.{next_buf_info}
use web_tunnel.Header.{word16, word32, htons, htonl}
use web_tunnel.Chunk.Text.{c_string}
use web_tunnel.Prepare.{release_prepare}
use web_tunnel.Runtime.{set_events, in_use, put_forward}
use web_tunnel.Forward.Lifetime.{tcp_forward_create, tcp_forward_release}

-- What the system answers: `name_resolve`, `calloc` and `socket`.
pub record Answer : Type 0 where
  pub resolve : List ℕ → ℕ
  pub memory : Bool
  pub socket : Option ℕ

-- The first connection of the list with the sequence number.
unfoldable pub find_forward : ℕ → List ℕ → Mgmt → Outcome (Option ℕ)
find_forward seq [] m = ok none
find_forward seq (f ∷ fs) m =
    let rest = find_forward seq fs m in
    in_use (m.forwards f) >>= λ v. if v.seq == seq then ok (some f) else rest

-- An idle connection goes on with `tcp_forward_write`.
unfoldable pub wake_forward : ℕ → TcpForward → Mgmt → Outcome Mgmt
wake_forward f v m =
    let woken = set_events v.pfd wait_out m >>= λ n. ok (
      put_forward f
        (some (record v { func_run = ForwardFunc.tcp_forward_write; ccr_line = CcrLine.start }))
        n) in
    if v.idle then woken else ok m

-- The packet's buffers go behind those of the connection.
unfoldable pub take_packet : TcpForward → Mgmt → TcpForward
take_packet v m = record v {
  buf_write = record (v.buf_write) { list_todo = v.buf_write.list_todo ++ m.buf_prepare.list_todo };
}

abbrev pub is_null : Option ℕ → Bool
is_null none = true
is_null (some b) = false

unfoldable pub queue_packet : ℕ → TcpForward → Mgmt → Outcome Mgmt
unfolding take_packet wake_forward
queue_packet f v m = do
  let w = take_packet v m
  let m1 =
      put_forward f (some w) (record m { buf_prepare = record (m.buf_prepare) { list_todo = [] } })
  check (is_null m.buf_prepare.curr)
  wake_forward f w (release_prepare m1)

-- The Boolean is that 0 is returned.
unfoldable pub process_tcp_forwardresp : Mgmt → Outcome (Mgmt × Bool)
unfolding find_forward queue_packet
process_tcp_forwardresp m = find_forward m.buf_prepare.seq m.list_forward m >>= λ o.
    elim o as (λ _. Outcome (Mgmt × Bool)) [
      | none ↦ ok (m, false)
      | some f ↦ in_use (m.forwards f) >>= λ v. queue_packet f v m >>= λ n. ok (n, true)
    ]

-- The browser has closed the connection.
unfoldable pub close_forward : Mgmt → Outcome (Mgmt × Bool)
unfolding find_forward
close_forward m = find_forward m.buf_prepare.seq m.list_forward m >>= λ o.
    elim o as (λ _. Outcome (Mgmt × Bool)) [
      | none ↦ ok (m, false)
      | some f ↦ tcp_forward_release f m >>= λ n. ok (release_prepare n, true)
    ]

-- The packet in the buffer `b` asks for a connection. The host's name, with two NULs behind it, is copied
-- into `host[128]`.
unfoldable pub open_forward : Answer → ℕ → Mgmt → Outcome (Mgmt × Bool)
open_forward a b m =
    let buf = m.bufs b in
    let seq = htons (word16 (buf.mem 0) (buf.mem 1)) in
    let port = htons (word16 (buf.mem 2) (buf.mem 3)) in
    let kind = htonl (word32 (buf.mem 4) (buf.mem 5) (buf.mem 6) (buf.mem 7)) in
    let host = c_string (buf.len - 8) 8 buf.mem in
    let made = tcp_forward_create a.resolve a.memory a.socket seq host port kind m in
    if ltb buf.len 8
    then fault negative_length
    else if ltb 128 (buf.len - 8 + 2)
    then fault overrun
    else made >>= λ r. ok (release_prepare r.0, true)

unfoldable pub process_tcp_forward : Answer → Mgmt → Outcome (Mgmt × Bool)
unfolding close_forward open_forward
process_tcp_forward a m =
    let go = deref (next_buf_info m.buf_prepare.list_todo) >>= λ b.
    let mem = (m.bufs b).mem in
    if htonl (word32 (mem 4) (mem 5) (mem 6) (mem 7)) == 1
    then close_forward m
    else open_forward a b m in
    if ltb m.buf_prepare.len 8 then ok (m, false) else go
