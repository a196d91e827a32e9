-- ===== src/HttpContext/Lists/Sorted.antt =====
-- The list of timeouts stays in order.
use web_tunnel.Base.{ℕ, ◌≤◌, ◌≡◌, refl, List, [], ◌∷◌, count, arith}
use web_tunnel.State.{Mgmt}
use web_tunnel.HttpContext.Lists.{insert_by, insert_timeout, timeouts}

-- No number of the list is below `t`, and they rise.
abbrev pub IsRising : (ℕ → ℕ) → ℕ → List ℕ → Type 0
IsRising at t [] = Unit {0}
IsRising at t (c ∷ cs) = (t ≤ at c) × IsRising at (at c) cs

IsRising-mono : (at : ℕ → ℕ) (s t : ℕ) (cs : List ℕ) → s ≤ t → IsRising at t cs → IsRising at s cs
IsRising-mono at s t [] h r = tt
IsRising-mono at s t (c ∷ cs) h r = (omega arith, r.1)

insert_by-IsRising :
    (at : ℕ → ℕ) (new t : ℕ) (cs : List ℕ)
    → t ≤ at new
    → IsRising at t cs
    → IsRising at t (insert_by at new cs)
unfolding insert_by
insert_by-IsRising at new t [] h r = (h, tt)
insert_by-IsRising at new t (c ∷ cs) h r =
    ground (arith, insert_by-IsRising at new (at c) cs, r.1, IsRising-mono at (at new) (at c) cs)

-- The contexts that wait are those that did, and the new one.
count-insert_by :
    (at : ℕ → ℕ) (new a : ℕ) (cs : List ℕ) → count a (insert_by at new cs) ≡ count a (new ∷ cs)
unfolding insert_by
count-insert_by at new a [] = refl
count-insert_by at new a (c ∷ cs) = ground (arith, count-insert_by at new a cs)

-- Where the contexts stand in the order of their timeouts, `insert_timeout` keeps them in this order,
-- adds the new one once, and takes none away.
pub insert_timeout-IsRising :
    (new : ℕ) (m : Mgmt)
    → IsRising (timeouts m) 0 m.list_timeout
    → let n = insert_timeout new m in
      IsRising (timeouts n) 0 n.list_timeout
      × ((a : ℕ) → count a n.list_timeout ≡ count a (new ∷ m.list_timeout))
unfolding insert_timeout
insert_timeout-IsRising new m r = (
  insert_by-IsRising (timeouts m) new 0 m.list_timeout (omega arith) r,
  λ a. count-insert_by (timeouts m) new a m.list_timeout,
)
