-- ===== src/Forward/Lifetime.antt =====
-- `tcp_forward_create`, `tcp_forward_closing` and `tcp_forward_release`.
use web_tunnel.Base.{
  ℕ, zero, suc, ◌+◌, ◌-◌, Bool, true, false, List, [], ◌∷◌, ◌++◌, length, Option, none, some,
  Outcome, ok, ◌>>=◌, ◌>>◌, slice,
}
use web_tunnel.State.{
  Mgmt, Effect, CallingStatus, ForwardFunc, Ref, HttpBuf, TcpForward, zero_forward, emit, listening,
}
use web_tunnel.Buffers.{
  check_unlisted, alloc_buf, free_buf, list_del, write_buf, set_lengths, push_toserver,
}
use web_tunnel.PollTable.{mgmt_add_fd, mgmt_del_fd}
use web_tunnel.Header.{
  header_bytes, make_header, bytes32, htonl, http_c_forward_resp, http_c_header_len,
  websock_min_pack_size,
}
use web_tunnel.ToServer.{http_mgmt_toserver, codes}
use web_tunnel.Runtime.{set_lookup, in_use, put_forward}
use web_tunnel.Forward.Coroutines.{forward_header_len}

-- "CLOSED!" with its NUL.
abbrev pub closed_text : List ℕ
closed_text = codes "CLOSED!" ++ 0 ∷ []

-- The message that says so is written into `b`.
unfoldable pub write_closed : ℕ → ℕ → Mgmt → Mgmt
write_closed b seq m =
    let pad = slice 0 (websock_min_pack_size - forward_header_len) (λ _. 0) in
    let m1 = set_lengths b 0 websock_min_pack_size websock_min_pack_size m in
    let m2 =
      write_buf b 0 (header_bytes (make_header http_c_forward_resp seq websock_min_pack_size)) m1 in
    let m3 = write_buf b forward_header_len closed_text (write_buf b forward_header_len pad m2) in
    write_buf b http_c_header_len (bytes32 (htonl (length closed_text))) m3

-- Without a free buffer the server is not told; what the function returns is read nowhere.
unfoldable pub tcp_forward_closing : TcpForward → Mgmt → Outcome Mgmt
unfolding write_closed
tcp_forward_closing v m =
    let r = alloc_buf m in
    elim r.1 [
      | none ↦ ok r.0
      | some b ↦ http_mgmt_toserver (push_toserver b (write_closed b v.seq r.0))
    ]

-- The descriptor, unless it is 0.
unfoldable pub forget_fd : ℕ → Mgmt → Outcome Mgmt
forget_fd zero m = ok m
forget_fd (suc fd) m = do
  m1 ← mgmt_del_fd m (suc fd)
  m2 ← set_lookup (suc fd) none m1
  ok (emit (Effect.closed (suc fd)) m2)

-- The current buffer and those on the list are put among the free ones. A current buffer that still stands
-- on the list would break both lists; the model ends there.
unfoldable pub give_back : HttpBuf → Mgmt → Outcome Mgmt
unfolding check_unlisted
give_back h m =
    check_unlisted h
    >> (let m1 = free_buf h.curr m in
        ok (record m1 { http_buf_caches = h.list_todo ++ m1.http_buf_caches }))

unfoldable pub tcp_forward_release : ℕ → Mgmt → Outcome Mgmt
unfolding forget_fd give_back
tcp_forward_release f m = do
  v ← in_use (m.forwards f)
  m1 ← tcp_forward_closing v m
  m2 ← forget_fd v.fwd_fd (record m1 { list_forward = list_del f m1.list_forward })
  m3 ← give_back v.buf_write m2
  ok (put_forward f none (record m3 { len_forward = m3.len_forward - 1 }))

-- `tcp_forward_create`: `resolve` is `name_resolve`, `memory` is whether `calloc` succeeds, and `socket` is
-- the descriptor, if there is one. The Boolean is that 0 is returned.
unfoldable pub tcp_forward_create :
    (List ℕ → ℕ) → Bool → Option ℕ → ℕ → List ℕ → ℕ → ℕ → Mgmt → Outcome (Mgmt × Bool)
tcp_forward_create resolve false socket seq host port kind m = ok (m, false)
tcp_forward_create resolve true none seq host port kind m = ok (m, false)
tcp_forward_create resolve true (some fd) seq host port kind m = do
  let f = m.next_forward
  let r = mgmt_add_fd m fd listening
  m1 ← set_lookup fd (some (Ref.forward f)) r.0
  ok (
    put_forward f
        (some (record zero_forward {
          seq = seq;
          host = resolve host;
          port = port;
          kind = kind;
          fwd_fd = fd;
          idle = true;
          pfd = r.1;
          func_run = ForwardFunc.tcp_forward_connect;
          status = CallingStatus.ready;
        }))
        (record m1 {
          next_forward = f + 1;
          list_forward = f ∷ m1.list_forward;
          len_forward = m1.len_forward + 1;
        }),
    true,
  )
