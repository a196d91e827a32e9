-- ===== src/Consistent.antt =====
-- What stays true through the whole program: the queue to the server, and the objects that the lists and
-- the descriptors lead to.
pub mod Linking
pub mod Frames
pub mod Connections
pub mod Clients
pub mod Searches
pub mod Packets
pub mod Forwarding
pub mod Contexts
pub mod Dispatched
pub mod Messages
pub mod Websocket
pub mod Parsing
pub mod Turns
pub mod Scheduling
pub mod Server
pub mod Cycle
pub mod Rounds
pub mod Program
pub mod Safe
use web_tunnel.Base.{
  ℕ, ◌≤◌, ◌≡◌, ◌≢◌, refl, sym, ap, ◌∙◌, subst, Bool, true, false, List, [], Option, none, some,
  length, count,
}
use web_tunnel.State.{Mgmt, HttpBuf, Ref, TcpClient, TcpForward}
use web_tunnel.Buffers.{next_buf_info}
use web_tunnel.ToServer.Queue.{IsSending}

-- The clients and connections, with what leads to them.
pub record Core : Type 0 where
  pub clients : ℕ → Option TcpClient
  pub forwards : ℕ → Option TcpForward
  pub next_client : ℕ
  pub next_forward : ℕ
  pub list_client : List ℕ
  pub client_len : ℕ
  pub list_forward : List ℕ
  pub len_forward : ℕ
  pub http_lookup : ℕ → Option Ref

abbrev pub core : Mgmt → Core
core m = record {
  clients = m.clients;
  forwards = m.forwards;
  next_client = m.next_client;
  next_forward = m.next_forward;
  list_client = m.tcp_server.list_client;
  client_len = m.tcp_server.client_len;
  list_forward = m.list_forward;
  len_forward = m.len_forward;
  http_lookup = m.http_lookup;
}

-- The same with the queue.
pub record View : Type 0 where
  pub inner : Core
  pub queue : HttpBuf
  pub running : Bool

abbrev pub view : Mgmt → View
view m = record { inner = core m; queue = m.buf_toserver; running = m.toserver }

abbrev pub used {ℓ} : {A : Type ℓ} → Option A → ℕ
used none = 0
used (some a) = 1

-- The objects in use of one kind: each is on its list once, and nothing else is; the list is counted;
-- behind the last number given out there is none; and no socket is 0.
pub record IsPool {A : Type 0} (fd_of : A → ℕ) (objects : ℕ → Option A) (next : ℕ) (list : List ℕ)
    (len : ℕ) : Type 0 where
  pub counted : len ≡ length list
  pub listed : (c : ℕ) → count c list ≡ used (objects c)
  pub fresh : (c : ℕ) → next ≤ c → objects c ≡ none
  pub fds : (c : ℕ) (v : A) → objects c ≡ some v → fd_of v ≢ 0

-- The number `c` is that of an object in use, with the socket `fd`.
abbrev pub Holds : {A : Type 0} → (A → ℕ) → (ℕ → Option A) → ℕ → ℕ → Type 0
Holds {A} fd_of objects c fd = (v : A) × (objects c ≡ some v) × (fd_of v ≡ fd)

-- A descriptor that leads to an object leads to one in use, whose socket it is.
abbrev pub Leads : {A : Type 0} → (ℕ → Ref) → (A → ℕ) → (ℕ → Option A) → (ℕ → Option Ref) → Type 0
Leads {A} ref fd_of objects lookup =
    (fd c : ℕ) → lookup fd ≡ some (ref c) → Holds fd_of objects c fd

abbrev pub fd_of_client : TcpClient → ℕ
fd_of_client v = v.client_fd

abbrev pub fd_of_forward : TcpForward → ℕ
fd_of_forward v = v.fwd_fd

abbrev pub client_ref : ℕ → Ref
client_ref c = Ref.client c

abbrev pub forward_ref : ℕ → Ref
forward_ref f = Ref.forward f

pub record IsLinked (k : Core) : Type 0 where
  pub clients : IsPool fd_of_client k.clients k.next_client k.list_client k.client_len
  pub forwards : IsPool fd_of_forward k.forwards k.next_forward k.list_forward k.len_forward
  pub client_refs : Leads client_ref fd_of_client k.clients k.http_lookup
  pub forward_refs : Leads forward_ref fd_of_forward k.forwards k.http_lookup

-- The queue is well formed: `IsSending`, of the queue alone.
pub record Sends (v : View) : Type 0 where
  pub runs : v.running ≡ true → v.queue.curr ≡ next_buf_info v.queue.list_todo
  pub busy : v.running ≡ true → v.queue.list_todo ≢ []
  pub stopped : v.running ≡ false → v.queue.curr ≡ none

-- The queue is well formed, and the clients and connections are those of `k`.
pub record IsWithin (k : Core) (v : View) : Type 0 where
  pub inner : v.inner ≡ k
  pub sends : Sends v

abbrev pub At : Core → Mgmt → Type 0
At k m = IsWithin k (view m)

pub record IsCoherent (v : View) : Type 0 where
  pub sends : Sends v
  pub linked : IsLinked v.inner

-- What holds of every state of the program.
abbrev pub IsConsistent : Mgmt → Type 0
IsConsistent m = IsCoherent (view m)

pub Sends-IsSending : (m : Mgmt) → Sends (view m) → IsSending m
Sends-IsSending m s = record { running = s.runs; busy = s.busy; stopped = s.stopped }

pub IsSending-Sends : (m : Mgmt) → IsSending m → Sends (view m)
IsSending-Sends m s = record { runs = s.running; busy = s.busy; stopped = s.stopped }

pub At-IsConsistent : (k : Core) (m : Mgmt) → IsLinked k → At k m → IsConsistent m
At-IsConsistent k m l h = record { sends = h.sends; linked = subst IsLinked (sym h.inner) l }

-- A change of the clients and connections that leaves the queue alone.
pub moved-At :
    (g : Core → Core) (k : Core) (m n : Mgmt)
    → At k m
    → core n ≡ g (core m)
    → n.buf_toserver ≡ m.buf_toserver
    → n.toserver ≡ m.toserver
    → At (g k) n
moved-At g k m n h c q t = record {
  inner = c ∙ ap g h.inner;
  sends = record {
    runs = λ e.
        ap (λ b. b.curr) q ∙ h.sends.runs (sym t ∙ e) ∙ ap (λ b. next_buf_info b.list_todo) (sym q);
    busy = λ e f. h.sends.busy (sym t ∙ e) (ap (λ b. b.list_todo) (sym q) ∙ f);
    stopped = λ e. ap (λ b. b.curr) q ∙ h.sends.stopped (sym t ∙ e);
  };
}

pub IsConsistent-At : (m : Mgmt) → IsConsistent m → At (core m) m
IsConsistent-At m s = record { inner = refl; sends = s.sends }
