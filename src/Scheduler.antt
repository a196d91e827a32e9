-- ===== src/Scheduler.antt =====
-- Running the HTTP contexts of test-server/http_client.c: `http_context_execute`,
-- `http_mgmt_run_timeout`, and the part of `http_mgmt_release_all` that does the same to all of them.
pub mod Timeout
use web_tunnel.Base.{
  ℕ, zero, suc, ◌+◌, ◌-◌, Bool, true, false, not, List, [], ◌∷◌, Option, none, some, Outcome, ok,
  ◌>>=◌, ltb, ◌==◌, if◌then◌else◌,
}
use web_tunnel.State.{Mgmt, CallingStatus, CallerStatus, AsyncFunc, HttpContext}
use web_tunnel.Buffers.{list_del}
use web_tunnel.ToServer.{generate_error}
use web_tunnel.Runtime.{ConnectAnswer, WriteAnswer, ReadAnswer, Turn, put_ctx}
use web_tunnel.HttpContext.Coroutines.{http_context_connect, http_context_write, http_context_read}
use web_tunnel.HttpContext.Finish.{http_context_release}
use web_tunnel.HttpContext.Lists.{insert_ready_prio}

-- The answers of the operating system in one turn.
pub record Answers : Type 0 where
  pub connects : ConnectAnswer
  pub writes : List WriteAnswer
  pub reads : ReadAnswer

abbrev pub run_async : AsyncFunc → Answers → HttpContext → Mgmt → Outcome (Turn HttpContext)
run_async AsyncFunc.http_context_connect a ctx m = http_context_connect a.connects ctx m
run_async AsyncFunc.http_context_write a ctx m = http_context_write a.writes ctx m
run_async AsyncFunc.http_context_read a ctx m = http_context_read a.reads ctx m

-- `list_del(&ctx->node)` of a context that is on one of the ready lists.
unfoldable pub unready : ℕ → Mgmt → Mgmt
unready c m = record m {
  list_high = list_del c m.list_high;
  list_low = list_del c m.list_low;
  ready_len = m.ready_len - 1;
}

-- Where the status is CALLING_READY.
abbrev pub leave_ready : CallingStatus → ℕ → Mgmt → Mgmt
leave_ready CallingStatus.ready c m = unready c m
leave_ready CallingStatus.pending c m = m
leave_ready CallingStatus.finish c m = m

-- What follows a context's turn.
abbrev pub after_turn : CallerStatus → ℕ → Mgmt → Outcome Mgmt
after_turn CallerStatus.finish c m =
    (let failed = generate_error m (m.ctxs c) in if (m.ctxs c).errcode == 0 then ok m else failed)
    >>= http_context_release c
after_turn CallerStatus.continue c m = ok (insert_ready_prio c m)
after_turn CallerStatus.pending c m =
    ok (put_ctx c (record (m.ctxs c) { status = CallingStatus.pending }) m)

unfoldable pub http_context_execute : Answers → ℕ → Mgmt → Outcome Mgmt
http_context_execute a c m =
    let m1 = leave_ready (m.ctxs c).status c m in
    run_async (m1.ctxs c).func_run a (m1.ctxs c) m1 >>= λ t.
    after_turn t.status c (put_ctx c t.self t.mgmt)

-- A context is taken off the ready list and released.
unfoldable pub force_release : ℕ → Mgmt → Outcome Mgmt
force_release c m = http_context_release c (leave_ready (m.ctxs c).status c m)

-- `list_for_each_entry_safe` over the list of timeouts as it is at the start.
unfoldable pub release_until : ℕ → List ℕ → Mgmt → Outcome Mgmt
release_until now [] m = ok m
release_until now (c ∷ cs) m =
    let rest = force_release c m >>= release_until now cs in
    if ltb now (m.ctxs c).timeout then ok m else rest

unfoldable pub http_mgmt_run_timeout : ℕ → Mgmt → Outcome Mgmt
unfolding release_until
http_mgmt_run_timeout now m = release_until now m.list_timeout m

unfoldable pub release_each : List ℕ → Mgmt → Outcome Mgmt
release_each [] m = ok m
release_each (c ∷ cs) m = force_release c m >>= release_each cs
