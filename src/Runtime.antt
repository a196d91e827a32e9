-- ===== src/Runtime.antt =====
-- What the coroutines of test-server/http_client.c share: the answers of the operating system, which are
-- arguments of the model's functions, the outcome of a turn, and accesses through pointers.
use web_tunnel.Base.{
  ℕ, ◌≤◌, ◌≡◌, Bool, not, ◌&&◌, List, [], ◌∷◌, Option, none, some, Outcome, ok, fault, null_deref,
  use_after_free, overrun, update, ltb, if◌then◌else◌,
}
use web_tunnel.State.{Mgmt, Events, Pollfd, Ref, CallerStatus, HttpContext, TcpClient, TcpForward}

-- `connect`: 0, an error EALREADY or EINPROGRESS, or another error.
pub data ConnectAnswer : Type 0 where
  connected in_progress refused : ConnectAnswer

-- `write`: of as many bytes as are offered, the number taken, or `none` for -1; `again` says that errno is
-- EINTR or EAGAIN.
pub record WriteAnswer : Type 0 where
  pub taken : ℕ → Option ℕ
  pub again : Bool

-- `read`: the bytes, of which there are none at the end of the stream, or `none` for -1.
pub record ReadAnswer : Type 0 where
  pub bytes : Option (List ℕ)
  pub again : Bool

-- A coroutine's turn: what it returns, the context that it ran on, and the rest of the state.
pub record Turn (A : Type 0) : Type 0 where
  pub status : CallerStatus
  pub self : A
  pub mgmt : Mgmt

abbrev pub turn : {A : Type 0} → CallerStatus → A → Mgmt → Turn A
turn s a m = record { status = s; self = a; mgmt = m }

-- A mask that is POLLOUT and nothing else.
abbrev pub is_poll_out : Events → Bool
is_poll_out e = e.poll_out && not e.poll_in && not e.poll_err && not e.poll_hup && not e.poll_other

-- The entry that a `struct pollfd *` points to, and an assignment to its `events`.
abbrev pub pollfd_at : Mgmt → Option ℕ → Outcome Pollfd
pollfd_at m none = fault null_deref
pollfd_at m (some i) = ok (m.pollfds i)

abbrev pub set_events : Option ℕ → (Events → Events) → Mgmt → Outcome Mgmt
set_events none f m = fault null_deref
set_events (some i) f m = ok (record m {
  pollfds = update m.pollfds i (record (m.pollfds i) { events = f (m.pollfds i).events });
})

-- `mgmt->http_lookup[fd] = ref`.
abbrev pub set_lookup : ℕ → Option Ref → Mgmt → Outcome Mgmt
set_lookup fd ref m =
    if ltb fd m.max_fds
    then ok (record m { http_lookup = update m.http_lookup fd ref })
    else fault overrun

-- The objects that `calloc` gave out.
abbrev pub in_use : {A : Type 0} → Option A → Outcome A
in_use none = fault use_after_free
in_use (some a) = ok a

abbrev pub put_ctx : ℕ → HttpContext → Mgmt → Mgmt
put_ctx c v m = record m { ctxs = update m.ctxs c v }

abbrev pub put_client : ℕ → Option TcpClient → Mgmt → Mgmt
put_client c v m = record m { clients = update m.clients c v }

abbrev pub put_forward : ℕ → Option TcpForward → Mgmt → Mgmt
put_forward f v m = record m { forwards = update m.forwards f v }

-- `write` takes no more bytes than it is offered.
abbrev pub IsHonest : WriteAnswer → Type 0
IsHonest a = (len n : ℕ) → a.taken len ≡ some n → n ≤ len

abbrev pub AreHonest : List WriteAnswer → Type 0
AreHonest [] = Unit {0}
AreHonest (a ∷ as') = IsHonest a × AreHonest as'
