-- ===== src/HttpContext/Lists.antt =====
-- The lists of contexts: `insert_timeout` and `insert_ready_prio`.
pub mod Sorted
use web_tunnel.Base.{ℕ, zero, suc, ◌+◌, List, [], ◌∷◌, ◌++◌, ltb, if◌then◌else◌}
use web_tunnel.Base.Int.{ℤ, pos, negsuc}
use web_tunnel.State.{Mgmt, HttpContext}
use web_tunnel.Runtime.{put_ctx}

-- The place of `new` in the list of the timeouts `at`.
unfoldable pub insert_by : (ℕ → ℕ) → ℕ → List ℕ → List ℕ
insert_by at new [] = new ∷ []
insert_by at new (c ∷ cs) =
    let rest = insert_by at new cs in if ltb (at new) (at c) then new ∷ c ∷ cs else c ∷ rest

abbrev pub timeouts : Mgmt → ℕ → ℕ
timeouts m c = (m.ctxs c).timeout

unfoldable pub insert_timeout : ℕ → Mgmt → Mgmt
unfolding insert_by
insert_timeout new m = record m { list_timeout = insert_by (timeouts m) new m.list_timeout }

-- CALLING_PRIO_HIGH and CALLING_PRIO_LOW; another number counts as the latter, and is set to it.
abbrev pub valid_prio : ℤ → ℤ
valid_prio (pos zero) = pos 0
valid_prio (pos (suc zero)) = pos 1
valid_prio (pos (suc (suc n))) = pos 1
valid_prio (negsuc n) = pos 1

-- `list_add(&ctx->node, &mgmt->list_ready[prio])`.
abbrev pub add_ready : ℤ → ℕ → Mgmt → Mgmt
add_ready (pos zero) c m = record m { list_high = c ∷ m.list_high }
add_ready (pos (suc n)) c m = record m { list_low = c ∷ m.list_low }
add_ready (negsuc n) c m = m

unfoldable pub insert_ready_prio : ℕ → Mgmt → Mgmt
insert_ready_prio c m =
    let prio = valid_prio (m.ctxs c).prio in
    let m1 = add_ready prio c (put_ctx c (record (m.ctxs c) { prio = prio }) m) in
    record m1 { ready_len = m1.ready_len + 1 }
