-- ===== src/Consistent/Frames.antt =====
-- Buffers, messages and the poll table: what is done to them leaves the clients and connections alone.
use web_tunnel.Base.{
  Ensures-if, Fault, check-Ensures, Unfreed, ltb, ◌≢◌, ℕ, zero, suc, ◌≡◌, refl, Bool, true, false,
  List, [], ◌∷◌, ◌++◌, Option, none, some, ok, Ensures, Ensures-bind, Ensures-ok, Ensures-fault,
  ◌>>◌, check, if◌then◌else◌, arith, update,
}
use web_tunnel.State.{Mgmt, Events, Ref, HttpBuf}
use web_tunnel.Buffers.{
  is_listed, check_unlisted, free_buf, alloc_buf, taken, write_buf, set_lengths, push_toserver,
  next_buf_info,
}
use web_tunnel.PollTable.{mgmt_add_fd, del_slot, mgmt_del_fd}
use web_tunnel.ToServer.{http_mgmt_toserver, start_writer, is_none}
use web_tunnel.Prepare.{release_prepare}
use web_tunnel.Runtime.{set_events, set_lookup, in_use, pollfd_at}
use web_tunnel.Forward.Lifetime.{give_back, forget_fd}
use web_tunnel.Consistent.{Core, core, At, IsConsistent, IsConsistent-At, At-IsConsistent, moved-At}

module _ (k : Core) where
  pub alloc_buf-At : (m : Mgmt) → At k m → At k (alloc_buf m).0
  unfolding alloc_buf taken
  alloc_buf-At m h = ground arith

  pub write_buf-At :
      (b off : ℕ) (bytes : List ℕ) (m : Mgmt) → At k m → At k (write_buf b off bytes m)
  unfolding write_buf
  write_buf-At b off bytes m h = h

  pub set_lengths-At : (b s l t : ℕ) (m : Mgmt) → At k m → At k (set_lengths b s l t m)
  unfolding set_lengths
  set_lengths-At b s l t m h = h

  pub release_prepare-At : (m : Mgmt) → At k m → At k (release_prepare m)
  unfolding release_prepare
  release_prepare-At m h = h

  pub check_unlisted-Ensures : (b : HttpBuf) → Unfreed (check_unlisted b)
  unfolding check_unlisted
  check_unlisted-Ensures b =
      Ensures-if (is_listed b.curr b.list_todo) (Ensures-fault Fault.list_corrupted tt)
        (Ensures-ok tt)

  pub give_back-At : (b : HttpBuf) (m : Mgmt) → At k m → Ensures (At k) (give_back b m)
  unfolding give_back
  give_back-At b m h = Ensures-bind (check_unlisted-Ensures b) λ u e.
      let m1 = free_buf b.curr m in
      Ensures-ok {a = record m1 { http_buf_caches = b.list_todo ++ m1.http_buf_caches }} h

  pub mgmt_add_fd-At : (m : Mgmt) (fd : ℕ) (e : Events) → At k m → At k (mgmt_add_fd m fd e).0
  unfolding mgmt_add_fd
  mgmt_add_fd-At m fd e h = ground arith

  slot-At : (m : Mgmt) (fd n : ℕ) → At k m → Ensures (At k) (del_slot m fd n)
  unfolding del_slot
  slot-At m fd zero h = (Ensures-fault Fault.overrun tt)
  slot-At m fd (suc zero) h = Ensures-ok h
  slot-At m fd (suc (suc n)) h = Ensures-ok h

  pub mgmt_del_fd-At : (m : Mgmt) (fd : ℕ) → At k m → Ensures (At k) (mgmt_del_fd m fd)
  unfolding mgmt_del_fd del_slot
  mgmt_del_fd-At m fd h = slot-At m fd m.count_pollfds h

  pub set_events-At :
      (p : Option ℕ) (f : Events → Events) (m : Mgmt) → At k m → Ensures (At k) (set_events p f m)
  set_events-At none f m h = Ensures-fault Fault.null_deref tt
  set_events-At (some i) f m h = Ensures-ok h

module _ (k : Core) where
  -- What is put behind the queue keeps its head.
  next_buf_info-behind :
      (xs ys : List ℕ) → xs ≢ [] → (next_buf_info (xs ++ ys) ≡ next_buf_info xs) × (xs ++ ys ≢ [])
  next_buf_info-behind [] ys h = absurd (h refl)
  next_buf_info-behind (x ∷ xs) ys h = (refl, λ e. cc)

  abbrev pub queued : List ℕ → Mgmt → Mgmt
  queued bs m = record m {
    buf_toserver = record (m.buf_toserver) { list_todo = m.buf_toserver.list_todo ++ bs };
  }

  pub started-At :
      (xs : List ℕ) (o : Option ℕ) (m : Mgmt)
      → m.buf_toserver.list_todo ≡ xs
      → next_buf_info xs ≡ o
      → core m ≡ k
      → m.toserver ≡ false
      → At k (start_writer m o)
  unfolding start_writer
  started-At [] o m e p c f = ground arith
  started-At (x ∷ xs) o m e p c f = ground arith

  stays-At : (bs : List ℕ) (m : Mgmt) → At k m → m.toserver ≡ true → At k (queued bs m)
  stays-At bs m h f =
      let r = next_buf_info-behind m.buf_toserver.list_todo bs (h.sends.busy f) in
      ground (arith, r.0, r.1)

  queued_on :
      (bs : List ℕ) (m : Mgmt)
      → At k m
      → (b : Bool) → m.toserver ≡ b
      → Ensures (At k) (
          if b
          then ok (queued bs m)
          else (check (is_none m.buf_toserver.curr)
              >> ok (start_writer (queued bs m) (next_buf_info (m.buf_toserver.list_todo ++ bs)))))
  queued_on bs m h true f = Ensures-ok (stays-At bs m h f)
  queued_on bs m h false f = Ensures-bind (check-Ensures (is_none m.buf_toserver.curr)) λ u q.
      Ensures-ok (started-At (m.buf_toserver.list_todo ++ bs) _ (queued bs m) refl refl h.inner f)

  pub queued-At :
      (bs : List ℕ) (m : Mgmt) → At k m → Ensures (At k) (http_mgmt_toserver (queued bs m))
  unfolding http_mgmt_toserver
  queued-At bs m h = queued_on bs m h m.toserver refl

  pub toserver-At :
      (b : ℕ) (m : Mgmt) → At k m → Ensures (At k) (http_mgmt_toserver (push_toserver b m))
  unfolding push_toserver
  toserver-At b m h = queued-At (b ∷ []) m h

pub in_use-Ensures : {A : Type 0} (o : Option A) → o ≢ none → Ensures (λ v. o ≡ some v) (in_use o)
in_use-Ensures none h = absurd (h refl)
in_use-Ensures (some v) h = Ensures-ok refl

pub pollfd_at-Ensures : (m : Mgmt) (p : Option ℕ) → Unfreed (pollfd_at m p)
pollfd_at-Ensures m none = Ensures-fault Fault.null_deref tt
pollfd_at-Ensures m (some i) = Ensures-ok tt

module _ (k : Core) where
  pub set_lookup-At :
      (fd : ℕ) (r : Option Ref) (m : Mgmt)
      → At k m
      → Ensures (At (record k { http_lookup = update k.http_lookup fd r })) (set_lookup fd r m)
  set_lookup-At fd r m h =
      Ensures-if (ltb fd m.max_fds)
        (Ensures-ok {a = record m { http_lookup = update m.http_lookup fd r }} (
          moved-At (λ c. record c { http_lookup = update c.http_lookup fd r }) k m
            (record m { http_lookup = update m.http_lookup fd r }) h refl refl refl))
        (Ensures-fault Fault.overrun tt)

  -- A socket that is not 0 is closed.
  pub forget_fd-At :
      (fd : ℕ) (m : Mgmt)
      → At k m
      → fd ≢ 0
      → Ensures (At (record k { http_lookup = update k.http_lookup fd none })) (forget_fd fd m)
  unfolding forget_fd
  forget_fd-At zero m h e = absurd (e refl)
  forget_fd-At (suc fd) m h e =
      Ensures-bind (mgmt_del_fd-At k m (suc fd) h)
        λ m1 h1. Ensures-bind (set_lookup-At (suc fd) none m1 h1) λ m2 h2. Ensures-ok h2

pub alloc_buf-IsConsistent : (m : Mgmt) → IsConsistent m → IsConsistent (alloc_buf m).0
alloc_buf-IsConsistent m s =
    At-IsConsistent (core m) (alloc_buf m).0 s.linked
      (alloc_buf-At (core m) m (IsConsistent-At m s))
