-- ===== src/Forward/Coroutines.antt =====
-- `tcp_forward_connect`, `tcp_forward_write` and `tcp_forward_read`.
pub mod Writing
pub mod Packing
pub mod Reading
use web_tunnel.Base.{
  ℕ, ◌+◌, ◌-◌, Bool, true, false, not, ◌&&◌, List, [], ◌∷◌, length, Option, none, some, Outcome, ok,
  fault, null_deref, ◌>>=◌, ◌>>◌, check, update, slice, ltb, ◌==◌, if◌then◌else◌,
}
use web_tunnel.State.{
  Mgmt, Effect, CallerStatus, CcrLine, ForwardFunc, TcpForward, emit, wait_in, wait_out,
}
use web_tunnel.Buffers.{
  alloc_buf, free_buf, next_buf_info, list_del, write_buf, set_lengths, push_toserver,
}
use web_tunnel.Header.{
  header_bytes, make_header, bytes32, htonl, http_c_forward_resp, http_c_header_len,
  websock_min_pack_size,
}
use web_tunnel.ToServer.{http_mgmt_toserver}
use web_tunnel.Runtime.{
  ConnectAnswer, WriteAnswer, ReadAnswer, Turn, turn, is_poll_out, pollfd_at, set_events,
}

-- The connection is there: it waits for data.
unfoldable pub forward_connected : TcpForward → Mgmt → Outcome (Turn TcpForward)
forward_connected v m = do
  m1 ← set_events v.pfd wait_in m
  ok (
      turn CallerStatus.pending
        (record v {
          func_run = ForwardFunc.tcp_forward_read;
          ccr_line = CcrLine.start;
          idle = true;
        })
        m1)

-- One `connect` at most is made in a turn.
unfoldable pub forward_try : ConnectAnswer → TcpForward → Mgmt → Outcome (Turn TcpForward)
unfolding forward_connected
forward_try ConnectAnswer.connected v m = forward_connected v m
forward_try ConnectAnswer.in_progress v m = do
  m1 ← set_events v.pfd wait_out m
  ok (turn CallerStatus.continue v m1)
forward_try ConnectAnswer.refused v m = ok (turn CallerStatus.finish (record v { errcode = 3 }) m)

unfoldable pub tcp_forward_connect : ConnectAnswer → TcpForward → Mgmt → Outcome (Turn TcpForward)
unfolding forward_try forward_connected
tcp_forward_connect a v m = do
  pfd ← pollfd_at m v.pfd
  if is_poll_out pfd.revents then forward_connected v m else forward_try a v m

-- All is written: the connection is idle and waits for data.
unfoldable pub write_complete : TcpForward → Mgmt → Outcome (Turn TcpForward)
write_complete v m = do
  m1 ← set_events v.pfd wait_in m
  ok (
      turn CallerStatus.pending
        (record v {
          func_run = ForwardFunc.tcp_forward_read;
          ccr_line = CcrLine.start;
          idle = true;
        })
        m1)

-- `n` bytes of the buffer `b` are written: either a part is left, and `none` is given, or the buffer is
-- free and `curr` is the next one.
unfoldable pub advance : ℕ → ℕ → TcpForward → Mgmt → Bool × TcpForward × Mgmt
advance b n v m =
    let buf = m.bufs b in
    let rest = list_del b v.buf_write.list_todo in
    if ltb n buf.len
    then (
      false,
      record v { ccr_line = CcrLine.partial },
      record m { bufs = update m.bufs b (record buf { len = buf.len - n; start = buf.start + n }) },
    )
    else (
      true,
      record v { buf_write = record (v.buf_write) { list_todo = rest; curr = next_buf_info rest } },
      free_buf (some b) (record m { bufs = update m.bufs b (record buf { len = buf.len - n }) }),
    )

-- `while(buf_info != NULL)`, with the answers of the calls of `write`; without an answer the socket would
-- block.
unfoldable pub write_loop : List WriteAnswer → TcpForward → Mgmt → Outcome (Turn TcpForward)
unfolding write_complete advance
write_loop [] v m = elim v.buf_write.curr [
  | none ↦ write_complete v m
  | some b ↦ ok (turn CallerStatus.pending (record v { ccr_line = CcrLine.again }) m)
]
write_loop (a ∷ as') v m =
    let go = λ (w : TcpForward) (k : Mgmt). write_loop as' w k in
    elim v.buf_write.curr [
      | none ↦ write_complete v m
      | some b ↦ elim (a.taken (m.bufs b).len) [
        | none ↦
            if a.again
            then ok (turn CallerStatus.pending (record v { ccr_line = CcrLine.again }) m)
            else ok (turn CallerStatus.finish (record v { ccr_line = CcrLine.failed }) m)
        | some n ↦
            if n == 0 && not a.again
            then ok (turn CallerStatus.finish (record v { ccr_line = CcrLine.failed }) m)
            else (let k =
                  emit (Effect.wrote v.fwd_fd (slice (m.bufs b).start n (m.bufs b).mem)) m in
                let r = advance b n v k in
                if r.0 then go r.1 r.2 else ok (turn CallerStatus.pending r.1 r.2))
      ]
    ]

-- After a return with EAGAIN the coroutine goes on behind the call of `write`, with `n` being 0.
unfoldable pub resume_again : List WriteAnswer → TcpForward → Mgmt → Outcome (Turn TcpForward)
unfolding advance write_loop
resume_again answers v m = elim v.buf_write.curr [
  | none ↦ fault null_deref
  | some b ↦
      (let r = advance b 0 v m in
        if r.0 then write_loop answers r.1 r.2 else ok (turn CallerStatus.pending r.1 r.2))
]

abbrev pub is_null : Option ℕ → Bool
is_null none = true
is_null (some b) = false

unfoldable pub resume_write :
    CcrLine → List WriteAnswer → TcpForward → Mgmt → Outcome (Turn TcpForward)
unfolding write_loop resume_again
resume_write CcrLine.start answers v m = do
  check (is_null v.buf_write.curr)
  write_loop answers
      (record v { buf_write = record (v.buf_write) { curr = next_buf_info v.buf_write.list_todo } })
      m
resume_write CcrLine.partial answers v m = write_loop answers v m
resume_write CcrLine.again answers v m = resume_again answers v m
resume_write CcrLine.failed answers v m = resume_again answers v m
resume_write CcrLine.no_buf answers v m = write_loop answers v m

unfoldable pub tcp_forward_write : List WriteAnswer → TcpForward → Mgmt → Outcome (Turn TcpForward)
unfolding resume_write
tcp_forward_write answers v m = resume_write v.ccr_line answers (record v { idle = false }) m

-- `HTTP_C_HEADER_LEN + 4`.
abbrev pub forward_header_len : ℕ
forward_header_len = http_c_header_len + 4

abbrev zeros : ℕ → List ℕ
zeros n = slice 0 n (λ _. 0)

-- The length of the message for `n` bytes.
abbrev pub packed_len : ℕ → ℕ
packed_len n =
    if ltb (n + forward_header_len) websock_min_pack_size
    then websock_min_pack_size
    else n + forward_header_len

-- The bytes that `read` put behind the headers of `b` become a message.
unfoldable pub pack_forward : ℕ → ℕ → List ℕ → Mgmt → Mgmt
pack_forward b seq bytes m =
    let n = length bytes in
    let len = packed_len n in
    let m1 = write_buf b forward_header_len bytes m in
    let m2 = write_buf b http_c_header_len (bytes32 (htonl n)) m1 in
    let m3 = write_buf b (n + forward_header_len) (zeros (len - (n + forward_header_len))) m2 in
    set_lengths b 0 len len
      (write_buf b 0 (header_bytes (make_header http_c_forward_resp seq len)) m3)

abbrev pub switch_to_write : TcpForward → Mgmt → Outcome (TcpForward × Mgmt)
switch_to_write v m = elim v.buf_write.list_todo [
  | [] ↦ ok (v, m)
  | b ∷ bs ↦ set_events v.pfd wait_out m >>= λ k.
      ok (record v { func_run = ForwardFunc.tcp_forward_write; ccr_line = CcrLine.start }, k)
]

abbrev pub idle_turn : CallerStatus → TcpForward → Mgmt → Turn TcpForward
idle_turn s v m = turn s (record v { idle = true }) m

-- The bytes that were read go to the server.
unfoldable pub forward_bytes : ℕ → List ℕ → TcpForward → Mgmt → Outcome (Turn TcpForward)
unfolding pack_forward
forward_bytes b bytes v m = do
  m1 ← http_mgmt_toserver (push_toserver b (pack_forward b v.seq bytes m))
  r ← switch_to_write v m1
  ok (idle_turn CallerStatus.pending r.0 r.1)

-- The cases of the result of `read` into the buffer `b`.
unfoldable pub forward_got : ReadAnswer → ℕ → TcpForward → Mgmt → Outcome (Turn TcpForward)
unfolding forward_bytes
forward_got a b v m =
    let stopped = idle_turn CallerStatus.finish v (free_buf (some b) m) in
    elim a.bytes [
      | none ↦
          ok (if a.again then idle_turn CallerStatus.pending v (free_buf (some b) m) else stopped)
      | some [] ↦ ok stopped
      | some (x ∷ xs) ↦ forward_bytes b (x ∷ xs) v m
    ]

unfoldable pub tcp_forward_read : ReadAnswer → TcpForward → Mgmt → Outcome (Turn TcpForward)
unfolding forward_got
tcp_forward_read a v m =
    let r = alloc_buf m in
    elim r.1 [ none ↦ ok (idle_turn CallerStatus.pending v r.0) | some b ↦ forward_got a b v r.0 ]
