-- ===== src/Consistent/Scheduling.antt =====
-- Contexts run, fail, time out and are released.
use web_tunnel.Base.{
  ℕ, List, [], ◌∷◌, Ensures, Ensures-ok, Ensures-bind, Ensures-if, Ensures-mono, Ensures-Option,
  ◌==◌, ltb,
}
use web_tunnel.State.{Mgmt, CallingStatus, CallerStatus, AsyncFunc, HttpContext}
use web_tunnel.Buffers.{alloc_buf, write_buf, set_lengths}
use web_tunnel.ToServer.{generate_error, write_error}
use web_tunnel.Runtime.{put_ctx}
use web_tunnel.HttpContext.Lists.{insert_ready_prio}
use web_tunnel.Scheduler.{
  Answers, run_async, unready, leave_ready, after_turn, http_context_execute, force_release,
  release_until, http_mgmt_run_timeout, release_each,
}
use web_tunnel.Consistent.{Core, core, At, IsConsistent, IsConsistent-At, At-IsConsistent}
use web_tunnel.Consistent.Frames.{alloc_buf-At, toserver-At}
use web_tunnel.Consistent.Contexts.{http_context_release-IsConsistent, insert_ready_prio-At}
use web_tunnel.Consistent.Turns.{IsContextTurn}
use web_tunnel.Consistent.Turns.ContextWriting.{
  http_context_connect-IsContextTurn, http_context_write-IsContextTurn,
}
use web_tunnel.Consistent.Turns.ContextReading.{http_context_read-IsContextTurn}

write_error-At :
    (k : Core) (ctx : HttpContext) (b : ℕ) (m : Mgmt) → At k m → At k (write_error ctx b m)
unfolding write_error write_buf set_lengths
write_error-At k ctx b m h = h

generate_error-IsConsistent :
    (m : Mgmt) (ctx : HttpContext) → IsConsistent m → Ensures IsConsistent (generate_error m ctx)
unfolding generate_error
generate_error-IsConsistent m ctx s =
    let k = core m in
    let r = alloc_buf m in
    let e = alloc_buf-At k m (IsConsistent-At m s) in
    Ensures-Option r.1 (Ensures-ok {a = m} s) λ b.
      Ensures-mono (toserver-At k b (write_error ctx b r.0) (write_error-At k ctx b r.0 e))
        λ n h. At-IsConsistent k n s.linked h

pub leave_ready-IsConsistent :
    (t : CallingStatus) (c : ℕ) (m : Mgmt) → IsConsistent m → IsConsistent (leave_ready t c m)
unfolding unready
leave_ready-IsConsistent CallingStatus.ready c m s = s
leave_ready-IsConsistent CallingStatus.pending c m s = s
leave_ready-IsConsistent CallingStatus.finish c m s = s

run_async-IsContextTurn :
    (k : Core) (f : AsyncFunc) (a : Answers) (ctx : HttpContext) (m : Mgmt)
    → At k m
    → Ensures (IsContextTurn k) (run_async f a ctx m)
run_async-IsContextTurn k AsyncFunc.http_context_connect a ctx m h =
    http_context_connect-IsContextTurn k a.connects ctx m h
run_async-IsContextTurn k AsyncFunc.http_context_write a ctx m h =
    http_context_write-IsContextTurn k a.writes ctx m h
run_async-IsContextTurn k AsyncFunc.http_context_read a ctx m h =
    http_context_read-IsContextTurn k a.reads ctx m h

after_turn-IsConsistent :
    (t : CallerStatus) (c : ℕ) (m : Mgmt) → IsConsistent m → Ensures IsConsistent (after_turn t c m)
after_turn-IsConsistent CallerStatus.finish c m s =
    Ensures-bind
      (Ensures-if ((m.ctxs c).errcode == 0) (Ensures-ok {a = m} s)
        (generate_error-IsConsistent m (m.ctxs c) s))
      λ n e. http_context_release-IsConsistent c n e
after_turn-IsConsistent CallerStatus.continue c m s = Ensures-ok {a = insert_ready_prio c m} (
    At-IsConsistent (core m) (insert_ready_prio c m) s.linked
      (insert_ready_prio-At (core m) c m (IsConsistent-At m s)))
after_turn-IsConsistent CallerStatus.pending c m s =
    Ensures-ok {a = put_ctx c (record (m.ctxs c) { status = CallingStatus.pending }) m} s

pub http_context_execute-IsConsistent :
    (a : Answers) (c : ℕ) (m : Mgmt)
    → IsConsistent m
    → Ensures IsConsistent (http_context_execute a c m)
unfolding http_context_execute
http_context_execute-IsConsistent a c m s =
    let m1 = leave_ready (m.ctxs c).status c m in
    let e = leave_ready-IsConsistent (m.ctxs c).status c m s in
    Ensures-bind
      (run_async-IsContextTurn (core m1) (m1.ctxs c).func_run a (m1.ctxs c) m1
        (IsConsistent-At m1 e))
      λ t h.
        after_turn-IsConsistent t.status c (put_ctx c t.self t.mgmt)
          (At-IsConsistent (core m1) t.mgmt e.linked h)

force_release-IsConsistent :
    (c : ℕ) (m : Mgmt) → IsConsistent m → Ensures IsConsistent (force_release c m)
unfolding force_release
force_release-IsConsistent c m s =
    http_context_release-IsConsistent c (leave_ready (m.ctxs c).status c m)
      (leave_ready-IsConsistent (m.ctxs c).status c m s)

release_until-IsConsistent :
    (now : ℕ) (cs : List ℕ) (m : Mgmt)
    → IsConsistent m
    → Ensures IsConsistent (release_until now cs m)
unfolding release_until
release_until-IsConsistent now [] m s = Ensures-ok {a = m} s
release_until-IsConsistent now (c ∷ cs) m s =
    Ensures-if (ltb now (m.ctxs c).timeout) (Ensures-ok {a = m} s)
      (Ensures-bind (force_release-IsConsistent c m s) λ n e. release_until-IsConsistent now cs n e)

pub http_mgmt_run_timeout-IsConsistent :
    (now : ℕ) (m : Mgmt) → IsConsistent m → Ensures IsConsistent (http_mgmt_run_timeout now m)
unfolding http_mgmt_run_timeout
http_mgmt_run_timeout-IsConsistent now m s = release_until-IsConsistent now m.list_timeout m s

pub release_each-IsConsistent :
    (cs : List ℕ) (m : Mgmt) → IsConsistent m → Ensures IsConsistent (release_each cs m)
unfolding release_each
release_each-IsConsistent [] m s = Ensures-ok {a = m} s
release_each-IsConsistent (c ∷ cs) m s =
    Ensures-bind (force_release-IsConsistent c m s) λ n e. release_each-IsConsistent cs n e
