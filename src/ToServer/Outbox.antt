-- ===== src/ToServer/Outbox.antt =====
-- What the queue promises: a first-in first-out queue of messages, which the websocket empties.
use web_tunnel.Base.{ℕ, ◌≡◌, ◌≢◌, true, List, [], ◌∷◌, ◌++◌, Outcome, ok, ◌>>=◌, slice, count}
use web_tunnel.Base.Int.{ℤ}
use web_tunnel.State.{Mgmt, Buf}
use web_tunnel.Buffers.{push_toserver}
use web_tunnel.ToServer.{http_mgmt_toserver, http_mgmt_writable}
use web_tunnel.ToServer.Queue.{IsSending, messages, sent_in, NoneEmpty}

-- The messages that wait, and those that were sent, the oldest first.
pub record Outbox : Type 0 where
  pub waiting : List (List ℕ)
  pub sent : List (List ℕ)

abbrev pub submit : List ℕ → Outbox → Outbox
submit x o = record o { waiting = o.waiting ++ x ∷ [] }

abbrev write_from : List (List ℕ) → Outbox → Outbox
write_from [] o = o
write_from (x ∷ xs) o = record { waiting = xs; sent = o.sent ++ x ∷ [] }

abbrev pub write : Outbox → Outbox
write o = write_from o.waiting o

-- A part of the program puts the message of a buffer into the queue, or the websocket can be written to
-- and answers `n`.
pub data Event : Type 0 where
  submitted : ℕ → Event
  writable : ℤ → Event

abbrev message : (ℕ → Buf) → ℕ → List ℕ
message bufs b = slice 0 (bufs b).len (bufs b).mem

unfoldable pub specified : (ℕ → Buf) → List Event → Outbox → Outbox
specified bufs [] o = o
specified bufs (submitted b ∷ es) o = specified bufs es (submit (message bufs b) o)
specified bufs (writable n ∷ es) o = specified bufs es (write o)

-- The head of the list is gone.
abbrev pub rest_of : List ℕ → List ℕ
rest_of [] = []
rest_of (b ∷ bs) = bs

-- No message is empty, a buffer that is put in does not wait already, `queue` being those that do, and the
-- websocket is written to only while a message waits.
abbrev pub AreEnabled : (ℕ → Buf) → List ℕ → List Event → Outbox → Type 0
AreEnabled bufs queue [] o = Unit {0}
AreEnabled bufs queue (submitted b ∷ es) o =
    ((bufs b).len ≢ 0)
    × (count b queue ≡ 0)
    × AreEnabled bufs (queue ++ b ∷ []) es (submit (message bufs b) o)
AreEnabled bufs queue (writable n ∷ es) o =
    (o.waiting ≢ []) × AreEnabled bufs (rest_of queue) es (write o)

-- The program's calls.
unfoldable pub handled : List Event → Mgmt → Outcome Mgmt
handled [] m = ok m
handled (submitted b ∷ es) m = http_mgmt_toserver (push_toserver b m) >>= handled es
handled (writable n ∷ es) m = http_mgmt_writable m n >>= λ r. handled es r.0

-- How the state stands for the queue.
pub record Refines (bufs : ℕ → Buf) (m : Mgmt) (o : Outbox) : Type 0 where
  pub sending : IsSending m
  pub contents : m.bufs ≡ bufs
  pub waiting : messages bufs m.buf_toserver.list_todo ≡ o.waiting
  pub sent : sent_in m.trace ≡ o.sent
  pub full : NoneEmpty bufs m.buf_toserver.list_todo
  pub active : m.buf_toserver.list_todo ≢ [] → m.toserver ≡ true
