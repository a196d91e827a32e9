-- ===== src/HttpContext/Lifetime/Readied.antt =====
-- A context that is put on a ready list.
use web_tunnel.Base.{ℕ, zero, suc, ◌+◌, ◌≡◌, refl, List, ◌∷◌, length, count, arith, update, ==_refl}
use web_tunnel.Base.Int.{ℤ, pos, negsuc}
use web_tunnel.State.{Mgmt}
use web_tunnel.Runtime.{put_ctx}
use web_tunnel.HttpContext.Lists.{insert_ready_prio, valid_prio, add_ready}

-- The state in which the context `c` is on a ready list.
unfoldable pub readied : List ℕ → List ℕ → ℤ → ℕ → Mgmt → Mgmt
readied high low prio c m = record m {
  ctxs = update m.ctxs c (record (m.ctxs c) { prio = prio });
  list_high = high;
  list_low = low;
  ready_len = m.ready_len + 1;
}

-- What `insert_ready_prio` leaves, for the priority `prio`.
pub record IsReadied (c : ℕ) (m n : Mgmt) : Type 0 where
  pub high : List ℕ
  pub low : List ℕ
  pub prio : ℤ
  pub made : n ≡ readied high low prio c m
  pub once : count c high + count c low ≡ count c m.list_high + count c m.list_low + 1
  pub longer : length high + length low ≡ length m.list_high + length m.list_low + 1

with_prio : ℤ → ℕ → Mgmt → Mgmt
with_prio prio c m =
    let m1 = add_ready prio c (put_ctx c (record (m.ctxs c) { prio = prio }) m) in
    record m1 { ready_len = m1.ready_len + 1 }

high-IsReadied : (c : ℕ) (m : Mgmt) → IsReadied c m (with_prio (pos 0) c m)
unfolding with_prio readied
high-IsReadied c m = record {
  high = c ∷ m.list_high;
  low = m.list_low;
  prio = pos 0;
  made = refl;
  once = ground (arith, ==_refl c);
  longer = omega arith;
}

low-IsReadied : (c : ℕ) (m : Mgmt) → IsReadied c m (with_prio (pos 1) c m)
unfolding with_prio readied
low-IsReadied c m = record {
  high = m.list_high;
  low = c ∷ m.list_low;
  prio = pos 1;
  made = refl;
  once = ground (arith, ==_refl c);
  longer = omega arith;
}

with_prio-IsReadied : (z : ℤ) (c : ℕ) (m : Mgmt) → IsReadied c m (with_prio (valid_prio z) c m)
with_prio-IsReadied (pos zero) c m = high-IsReadied c m
with_prio-IsReadied (pos (suc zero)) c m = low-IsReadied c m
with_prio-IsReadied (pos (suc (suc n))) c m = low-IsReadied c m
with_prio-IsReadied (negsuc n) c m = low-IsReadied c m

pub insert_ready_prio-IsReadied : (c : ℕ) (m : Mgmt) → IsReadied c m (insert_ready_prio c m)
unfolding insert_ready_prio with_prio
insert_ready_prio-IsReadied c m = with_prio-IsReadied (m.ctxs c).prio c m
