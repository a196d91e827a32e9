-- ===== src/Consistent/Packets.antt =====
-- A packet from the server is handed on.
use web_tunnel.Base.{
  none, Ensures-mono, Ensures-cases, Returns-Ensures, ◌≢◌, ◌≤◌, ◌∙◌, ap, sym, subst, count, arith,
  ℕ, deref-Ensures, ◌+◌, ◌≡◌, refl, List, [], ◌∷◌, Option, some, Bool, true, false, Ensures,
  Ensures-ok, Ensures-bind, Ensures-if, ◌-◌, ◌++◌, ◌%◌, slice, update_self, ltb,
}
use web_tunnel.State.{Mgmt, TcpClient, wait_out, ClientFunc, CcrLine, CallingStatus}
use web_tunnel.Buffers.{next_buf_info, alloc_buf, write_buf, set_lengths}
use web_tunnel.Header.{
  make_header, header_bytes, http_c_req, http_c_resp, http_c_header_len, http_buf_size,
}
use web_tunnel.Prepare.{release_prepare}
use web_tunnel.Runtime.{put_client}
use web_tunnel.Dispatch.Tunnel.{
  wake_client, copy_to_client, copy_to_clients, process_tunnel_req, answer_client, find_client,
  process_tunnel_resp,
}
use web_tunnel.Consistent.{core, IsConsistent, IsConsistent-At}
use web_tunnel.Consistent.Frames.{in_use-Ensures, alloc_buf-At, set_events-At}
use web_tunnel.Consistent.Searches.{listed_client, find_client-IsFound, Holds-used, req_seq_of}
use web_tunnel.Consistent.Clients.{put_client-IsConsistent}

abbrev pub state_of : Mgmt × Bool → Mgmt
state_of r = r.0

-- The list of clients is as it was.
abbrev pub IsKept : Mgmt → Mgmt → Type 0
IsKept m n = IsConsistent n × (n.tcp_server.list_client ≡ m.tcp_server.list_client)

wake_client-IsConsistent :
    (c : ℕ) (v w : TcpClient) (m : Mgmt)
    → IsConsistent m
    → m.clients c ≡ some v
    → w.client_fd ≡ v.client_fd
    → Ensures (IsKept m) (wake_client c w m)
unfolding wake_client
wake_client-IsConsistent c v w m s e p =
    let u = record w {
      func_run = ClientFunc.tcp_client_write;
      ccr_line = CcrLine.start;
      status = CallingStatus.ready;
      idle = false;
    } in
    Ensures-if w.idle
      (Ensures-bind (set_events-At (core m) w.pfd wait_out m (IsConsistent-At m s)) λ n h.
        Ensures-ok {a = put_client c (some u) n} (
          put_client-IsConsistent (core m) c v u n s.linked h e p,
          ap (λ x. x.list_client) h.inner,
        ))
      (Ensures-ok {a = m} (s, refl))

copy_to_client-IsConsistent :
    (first : Option ℕ) (c : ℕ) (m : Mgmt)
    → IsConsistent m
    → m.clients c ≢ none
    → Ensures (IsKept m) (copy_to_client first c m)
unfolding copy_to_client write_buf set_lengths
copy_to_client-IsConsistent first c m s u =
    let k = core m in
    let r = alloc_buf m in
    let h = alloc_buf-At k m (IsConsistent-At m s) in
    Ensures-bind (in_use-Ensures (m.clients c) u) λ v e. Ensures-bind (deref-Ensures r.1) λ n p.
      Ensures-bind (deref-Ensures first) λ b q.
        let buf = r.0.bufs b in
        let head =
          make_header http_c_req (v.req_seq % 256) (m.buf_prepare.len + http_c_header_len) in
        let m1 =
          write_buf n http_c_header_len (slice 0 buf.len buf.mem)
            (write_buf n 0 (header_bytes head) r.0) in
        let len = buf.len + http_c_header_len in
        let m2 = set_lengths n 0 len len m1 in
        let w = record v {
          buf_write = record (v.buf_write) { list_todo = n ∷ v.buf_write.list_todo };
        } in
        Ensures-mono
          (wake_client-IsConsistent c w w (put_client c (some w) m2)
            (put_client-IsConsistent k c v w m2 s.linked h e refl)
            (update_self m2.clients c (some w)) refl)
          λ z q. (q.0, q.1 ∙ ap (λ x. x.list_client) h.inner)

copy_to_clients-IsConsistent :
    (first : Option ℕ) (cs : List ℕ) (m : Mgmt)
    → IsConsistent m
    → ((c : ℕ) → 1 ≤ count c cs → 1 ≤ count c m.tcp_server.list_client)
    → Ensures IsConsistent (copy_to_clients first cs m)
unfolding copy_to_clients
copy_to_clients-IsConsistent first [] m s l = Ensures-ok {a = m} s
copy_to_clients-IsConsistent first (c ∷ cs) m s l =
    Ensures-bind
      (copy_to_client-IsConsistent first c m s (listed_client m c s (l c (ground arith))))
      λ n h.
        copy_to_clients-IsConsistent first cs n h.0
          λ x y. subst (λ t. 1 ≤ count x t) (sym h.1) (l x (ground arith))

pub process_tunnel_req-IsConsistent :
    (m : Mgmt) → IsConsistent m → Ensures (λ r. IsConsistent (state_of r)) (process_tunnel_req m)
unfolding process_tunnel_req release_prepare
process_tunnel_req-IsConsistent m s =
    Ensures-if (ltb (http_buf_size - http_c_header_len) m.buf_prepare.len)
      (Ensures-ok {a = (m, false)} s)
      (Ensures-bind
        (copy_to_clients-IsConsistent (next_buf_info m.buf_prepare.list_todo)
          m.tcp_server.list_client m s λ c h. h)
        λ n h. Ensures-ok {a = (release_prepare n, true)} h)

answer_client-IsConsistent :
    (c : ℕ) (m : Mgmt)
    → IsConsistent m
    → m.clients c ≢ none
    → Ensures (IsKept m) (answer_client c m)
unfolding answer_client write_buf set_lengths
answer_client-IsConsistent c m s u =
    let k = core m in
    let r = alloc_buf m in
    let h = alloc_buf-At k m (IsConsistent-At m s) in
    Ensures-bind (in_use-Ensures (m.clients c) u) λ v e. Ensures-bind (deref-Ensures r.1) λ n p.
      let head =
        make_header http_c_resp (v.req_seq % 256) (m.buf_prepare.len + http_c_header_len) in
      let m1 =
        set_lengths n 0 http_c_header_len http_c_header_len
          (write_buf n 0 (header_bytes head) r.0) in
      let m2 = record m1 { buf_prepare = record (m1.buf_prepare) { list_todo = [] } } in
      let w = record v {
        buf_write = record (v.buf_write) {
          list_todo = v.buf_write.list_todo ++ n ∷ m.buf_prepare.list_todo;
        };
      } in
      Ensures-mono
        (wake_client-IsConsistent c w w (put_client c (some w) m2)
          (put_client-IsConsistent k c v w m2 s.linked h e refl) (update_self m2.clients c (some w))
          refl)
        λ z q. (q.0, q.1 ∙ ap (λ x. x.list_client) h.inner)

pub process_tunnel_resp-IsConsistent :
    (m : Mgmt) → IsConsistent m → Ensures (λ r. IsConsistent (state_of r)) (process_tunnel_resp m)
unfolding process_tunnel_resp
process_tunnel_resp-IsConsistent m s =
    Ensures-bind
      (Returns-Ensures (find_client m.buf_prepare.seq m.tcp_server.list_client m)
        (find_client-IsFound m m.buf_prepare.seq s))
      λ o r. Ensures-cases o (Ensures-ok {a = (m, false)} s) λ c e.
        Ensures-bind
          (answer_client-IsConsistent c m s
            (Holds-used req_seq_of m.clients c m.buf_prepare.seq (r.found c e)))
          λ n h. Ensures-ok {a = (n, true)} h.0
