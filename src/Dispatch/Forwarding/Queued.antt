-- ===== src/Dispatch/Forwarding/Queued.antt =====
-- A packet for a forwarded connection.
use web_tunnel.Base.{
  ℕ, ◌≡◌, ◌≢◌, refl, ap, ◌∙◌, true, false, List, [], ◌∷◌, ◌++◌, none, some, ok, Returns,
  Returns->>=, arith, ==_refl, Bool-cases, inl, inr,
}
use web_tunnel.State.{Mgmt, CcrLine, ForwardFunc, TcpForward}
use web_tunnel.Prepare.{release_prepare}
use web_tunnel.Dispatch.Forwarding.{
  find_forward, wake_forward, take_packet, queue_packet, process_tcp_forwardresp,
}

-- The packet's buffers have gone behind those of the connection `f`, which was `v`.
pub record IsQueued (m : Mgmt) (f : ℕ) (v : TcpForward) (n : Mgmt) : Type 0 where
  pub conn : TcpForward
  pub stored : n.forwards f ≡ some conn
  pub queue : conn.buf_write.list_todo ≡ v.buf_write.list_todo ++ m.buf_prepare.list_todo
  pub taken : n.buf_prepare.list_todo ≡ []
  pub bytes : n.bufs ≡ m.bufs
  pub free : n.http_buf_caches ≡ m.http_buf_caches
  pub others : (g : ℕ) → g ≢ f → n.forwards g ≡ m.forwards g
  pub writes : v.idle ≡ true → conn.func_run ≡ ForwardFunc.tcp_forward_write

module _ (m : Mgmt) (f : ℕ) (v : TcpForward) (slot : ℕ) (has_pfd : v.pfd ≡ some slot)
    (no_current : m.buf_prepare.curr ≡ none) where
  woken-IsQueued : v.idle ≡ true → Returns (IsQueued m f v) (queue_packet f v m)
  unfolding queue_packet wake_forward take_packet release_prepare
  woken-IsQueued i =
      rw (no_current, i, has_pfd)
        (record {
          conn = record (take_packet v m) {
            func_run = ForwardFunc.tcp_forward_write;
            ccr_line = CcrLine.start;
            idle = true;
            pfd = some slot;
          };
          stored = ground (arith, ==_refl f);
          queue = refl;
          taken = refl;
          bytes = refl;
          free = refl;
          others = λ g h. ground arith;
          writes = λ h. refl;
        })

  asleep-IsQueued : v.idle ≡ false → Returns (IsQueued m f v) (queue_packet f v m)
  unfolding queue_packet wake_forward take_packet release_prepare
  asleep-IsQueued i =
      rw (no_current, i)
        (record {
          conn = record (take_packet v m) { idle = false };
          stored = ground (arith, ==_refl f);
          queue = refl;
          taken = refl;
          bytes = refl;
          free = refl;
          others = λ g h. ground arith;
          writes = λ h. ground (arith, i, h);
        })

  queue_packet-IsQueued : Returns (IsQueued m f v) (queue_packet f v m)
  queue_packet-IsQueued = elim (Bool-cases v.idle) [
    | inl i ↦ woken-IsQueued i
    | inr i ↦ asleep-IsQueued i
  ]

-- The connections of the list are in use and have other numbers.
abbrev pub AreOthers : ℕ → List ℕ → Mgmt → Type 0
AreOthers seq [] m = Unit {0}
AreOthers seq (g ∷ gs) m =
    ((w : TcpForward) × (m.forwards g ≡ some w) × (w.seq ≢ seq)) × AreOthers seq gs m

find_forward-first :
    (seq f : ℕ) (before after : List ℕ) (v : TcpForward) (m : Mgmt)
    → AreOthers seq before m
    → m.forwards f ≡ some v
    → v.seq ≡ seq
    → find_forward seq (before ++ f ∷ after) m ≡ ok (some f)
unfolding find_forward
find_forward-first seq f [] after v m o here same = rw here (ground (arith, same))
find_forward-first seq f (g ∷ gs) after v m o here same =
    rw o.0.1 (ground (arith, o.0.2, find_forward-first seq f gs after v m o.1 here same))

-- A packet arrives for a connection with its sequence number, which has an entry in the table; the
-- connections that stand before it on the list are in use and have other numbers, and no buffer is
-- current. The call does not fail and returns 0: the packet's buffers, unchanged, go behind those of the
-- connection, none is freed, no other connection is changed, and an idle connection goes on with
-- `tcp_forward_write`.
pub process_tcp_forwardresp-IsQueued :
    (m : Mgmt) (f : ℕ) (before after : List ℕ) (v : TcpForward) (slot : ℕ)
    → m.list_forward ≡ before ++ f ∷ after
    → AreOthers m.buf_prepare.seq before m
    → m.forwards f ≡ some v
    → v.seq ≡ m.buf_prepare.seq
    → v.pfd ≡ some slot
    → m.buf_prepare.curr ≡ none
    → Returns (λ r. (r.1 ≡ true) × IsQueued m f v r.0) (process_tcp_forwardresp m)
unfolding process_tcp_forwardresp
process_tcp_forwardresp-IsQueued m f before after v slot listed others here same pfd curr =
    rw found (
      rw here (
        Returns->>= (IsQueued m f v) _ (queue_packet f v m) _
          (queue_packet-IsQueued m f v slot pfd curr) λ n q. (refl, q)))
  where
    found : find_forward m.buf_prepare.seq m.list_forward m ≡ ok (some f)
    found =
        ap (λ l. find_forward m.buf_prepare.seq l m) listed
        ∙ find_forward-first m.buf_prepare.seq f before after v m others here same
