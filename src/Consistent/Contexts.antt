-- ===== src/Consistent/Contexts.antt =====
-- HTTP contexts are made, and their sockets closed.
use web_tunnel.Base.{
  Unfreed, Fault, Ensures-fault, deref-Ensures, List, [], ◌∷◌, drop, take, ltb, ℕ, zero, suc, ◌+◌,
  ◌≢◌, Option, none, some, true, false, Ensures, Ensures-ok, Ensures-bind, Ensures-if, Ensures-mono,
  Ensures-Option, update, arith,
}
use web_tunnel.State.{
  Mgmt, Ref, Effect, CallingStatus, CallerState, CcrLine, AsyncFunc, zero_context, listening, emit,
  HttpBuf, HttpContext,
}
use web_tunnel.Buffers.{alloc_context, next_buf_info, free_context, list_del}
use web_tunnel.PollTable.{mgmt_add_fd}
use web_tunnel.Runtime.{put_ctx, set_lookup}
use web_tunnel.HttpContext.Host.{host_init, get_host_from_buf, set_host, hostname_size}
use web_tunnel.Chunk.Text.{strstr, c_string}
use web_tunnel.ToServer.{codes}
use web_tunnel.Header.{http_buf_size}
use web_tunnel.HttpContext.Lists.{insert_timeout, insert_ready_prio}
use web_tunnel.HttpContext.Lifetime.{http_context_init, http_context_create, take_request}
use web_tunnel.HttpContext.Finish.{close_socket, release_bufs, http_context_release}
use web_tunnel.Consistent.{Core, core, At, IsConsistent, IsConsistent-At, At-IsConsistent, IsLinked}
use web_tunnel.Consistent.Linking.{other-Leads}
use web_tunnel.Consistent.Frames.{
  check_unlisted-Ensures, mgmt_add_fd-At, mgmt_del_fd-At, set_lookup-At,
}
use web_tunnel.Consistent.Packets.{state_of}

-- The descriptor leads to no client and no connection any more.
pub other_ref-IsConsistent :
    (k : Core) (fd : ℕ) (r : Option Ref) (m : Mgmt)
    → IsLinked k
    → At k m
    → ((c : ℕ) → r ≢ some (Ref.client c))
    → ((f : ℕ) → r ≢ some (Ref.forward f))
    → Ensures IsConsistent (set_lookup fd r m)
other_ref-IsConsistent k fd r m l h c f =
    let k' = record k { http_lookup = update k.http_lookup fd r } in
    let kept : IsLinked k' = record {
      clients = l.clients;
      forwards = l.forwards;
      client_refs = other-Leads _ _ _ _ fd r l.client_refs c;
      forward_refs = other-Leads _ _ _ _ fd r l.forward_refs f;
    } in
    Ensures-mono (set_lookup-At k fd r m h) λ n e. At-IsConsistent k' n kept e

insert_timeout-At : (k : Core) (c : ℕ) (m : Mgmt) → At k m → At k (insert_timeout c m)
unfolding insert_timeout
insert_timeout-At k c m h = h

pub insert_ready_prio-At : (k : Core) (c : ℕ) (m : Mgmt) → At k m → At k (insert_ready_prio c m)
unfolding insert_ready_prio
insert_ready_prio-At k c m h = ground arith

http_context_init-IsConsistent :
    (c fd : ℕ) (m : Mgmt) → IsConsistent m → Ensures IsConsistent (http_context_init c fd m)
unfolding http_context_init
http_context_init-IsConsistent c fd m s =
    let k = core m in
    let ctx = record (m.ctxs c) {
      errcode = 0;
      state = CallerState.connect;
      func_run = AsyncFunc.http_context_connect;
      status = CallingStatus.ready;
      ccr_line = CcrLine.start;
    } in
    let m0 = insert_ready_prio c (put_ctx c ctx m) in
    let m1 = insert_timeout c m0 in
    let m2 = record m1 { total_add = m1.total_add + 1 } in
    let r = mgmt_add_fd m2 fd listening in
    let h =
      insert_timeout-At k c m0 (insert_ready_prio-At k c (put_ctx c ctx m) (IsConsistent-At m s)) in
    other_ref-IsConsistent k fd (some (Ref.http c))
      (put_ctx c (record (r.0.ctxs c) { pfd = r.1 }) r.0) s.linked
      (mgmt_add_fd-At k m2 fd listening h) (λ x e. cc) λ x e. cc

alloc_context-At : (k : Core) (m : Mgmt) → At k m → At k (alloc_context m).0
unfolding alloc_context
alloc_context-At k m h = ground arith

get_host-Unfreed : (text : List ℕ) (ctx : HttpContext) → Unfreed (get_host_from_buf text ctx)
unfolding get_host_from_buf
get_host-Unfreed text ctx =
    Ensures-Option (strstr (codes "host:") text) (Ensures-ok {a = (ctx, false)} tt) λ i.
      let line = drop (i + 5) text in
      Ensures-Option (strstr (13 ∷ 10 ∷ []) line) (Ensures-ok {a = (ctx, false)} tt) λ n.
        Ensures-if (ltb n hostname_size) (Ensures-ok {a = (set_host (take n line) ctx, true)} tt)
          (Ensures-fault Fault.overrun tt)

host_init-Unfreed : (pbuf : HttpBuf) (ctx : HttpContext) (m : Mgmt) → Unfreed (host_init pbuf ctx m)
unfolding host_init
host_init-Unfreed pbuf ctx m =
    Ensures-bind (deref-Ensures (next_buf_info pbuf.list_todo))
      λ b e. get_host-Unfreed (c_string http_buf_size 0 (m.bufs b).mem) ctx

pub http_context_create-IsConsistent :
    (now timeout : ℕ) (socket : Option ℕ) (m : Mgmt)
    → IsConsistent m
    → Ensures (λ r. IsConsistent (state_of r)) (http_context_create now timeout socket m)
unfolding http_context_create take_request
http_context_create-IsConsistent now timeout socket m s =
    let r = alloc_context m in
    let q =
      At-IsConsistent (core m) r.0 s.linked (alloc_context-At (core m) m (IsConsistent-At m s)) in
    Ensures-Option r.1 (Ensures-ok {a = (m, true)} s) λ c.
      Ensures-bind (host_init-Unfreed m.buf_prepare zero_context r.0) λ h u.
        Ensures-if h.1
          (Ensures-Option socket (Ensures-ok {a = (put_ctx c h.0 r.0, false)} q) λ fd.
            Ensures-bind
              (http_context_init-IsConsistent c fd (take_request c fd (now + timeout) h.0 r.0) q)
              λ n e. Ensures-ok {a = (n, true)} e)
          (Ensures-ok {a = (put_ctx c h.0 r.0, false)} q)

close_socket-IsConsistent :
    (s : Option ℕ) (m : Mgmt)
    → IsConsistent m
    → Ensures (λ (r : Option ℕ × Mgmt). IsConsistent r.1) (close_socket s m)
unfolding close_socket
close_socket-IsConsistent none m h = Ensures-ok {a = (none, m)} h
close_socket-IsConsistent (some zero) m h = Ensures-ok {a = (some 0, m)} h
close_socket-IsConsistent (some (suc fd)) m h =
    let m0 = emit (Effect.closed (suc fd)) m in
    Ensures-bind (mgmt_del_fd-At (core m) m0 (suc fd) (IsConsistent-At m h)) λ m1 e.
      Ensures-bind
        (other_ref-IsConsistent (core m) (suc fd) none m1 h.linked e (λ x p. cc) λ x p. cc)
        λ m2 e2. Ensures-ok {a = (none, m2)} e2

release_bufs-IsConsistent :
    (ctx : HttpContext) (m : Mgmt)
    → IsConsistent m
    → Ensures (λ (r : HttpContext × Mgmt). IsConsistent r.1) (release_bufs ctx m)
unfolding release_bufs
release_bufs-IsConsistent ctx m h =
    Ensures-bind
      (Ensures-bind (check_unlisted-Ensures (core m) ctx.buf_read)
        λ u e. check_unlisted-Ensures (core m) ctx.buf_write)
      λ u e. Ensures-ok h

pub http_context_release-IsConsistent :
    (c : ℕ) (m : Mgmt) → IsConsistent m → Ensures IsConsistent (http_context_release c m)
unfolding http_context_release free_context
http_context_release-IsConsistent c m h =
    Ensures-bind (close_socket-IsConsistent (m.ctxs c).sockfd m h) λ s e.
      let ctx = record (m.ctxs c) { status = CallingStatus.finish; sockfd = s.0 } in
      Ensures-bind (release_bufs-IsConsistent ctx s.1 e) λ r e2.
        let m1 = put_ctx c r.0 r.1 in
        let m2 = free_context c (record m1 { list_timeout = list_del c m1.list_timeout }) in
        Ensures-ok {a = record m2 { total_process = m2.total_process + 1 }} e2
