-- ===== src/ToServer/Queue.antt =====
-- The queue to the server: first in, first out, each buffer free again once its message is written.
use web_tunnel.Base.{
  ℕ, ◌≡◌, refl, sym, ap, ◌∙◌, ◌≢◌, Bool, true, false, List, [], ◌∷◌, ◌++◌, append-nil, append_assoc,
  length, none, some, Outcome, ok, Returns, Returns->>=, Returns-mono, subst, ◌>>=◌, slice, arith,
}
use mathlib.Core.Path.{ap₂}
use web_tunnel.Base.Int.{ℤ}
use web_tunnel.State.{Mgmt, Buf, Effect}
use web_tunnel.Buffers.{next_buf_info, push_toserver}
use web_tunnel.Buffers.Ledger.{places}
use web_tunnel.ToServer.{http_mgmt_toserver, start_writer, http_mgmt_writable, next_message, took}

-- While the writer runs, `curr` is the first message; while it does not, there is none.
pub record IsSending (m : Mgmt) : Type 0 where
  pub running : m.toserver ≡ true → m.buf_toserver.curr ≡ next_buf_info m.buf_toserver.list_todo
  pub busy : m.toserver ≡ true → m.buf_toserver.list_todo ≢ []
  pub stopped : m.toserver ≡ false → m.buf_toserver.curr ≡ none

-- The messages that wait, in order.
abbrev pub messages : (ℕ → Buf) → List ℕ → List (List ℕ)
messages bufs [] = []
messages bufs (b ∷ bs) = slice 0 (bufs b).len (bufs b).mem ∷ messages bufs bs

-- The messages among the effects.
abbrev pub sent_in : List Effect → List (List ℕ)
sent_in [] = []
sent_in (Effect.sent x ∷ es) = x ∷ sent_in es
sent_in (Effect.wrote fd x ∷ es) = sent_in es
sent_in (Effect.closed fd ∷ es) = sent_in es
sent_in (Effect.go_writable ∷ es) = sent_in es
sent_in (Effect.write_again ∷ es) = sent_in es

pub sent_in-append : (xs ys : List Effect) → sent_in (xs ++ ys) ≡ sent_in xs ++ sent_in ys
sent_in-append [] ys = refl
sent_in-append (Effect.sent x ∷ es) ys = ap (λ l. x ∷ l) (sent_in-append es ys)
sent_in-append (Effect.wrote fd x ∷ es) ys = sent_in-append es ys
sent_in-append (Effect.closed fd ∷ es) ys = sent_in-append es ys
sent_in-append (Effect.go_writable ∷ es) ys = sent_in-append es ys
sent_in-append (Effect.write_again ∷ es) ys = sent_in-append es ys

-- No waiting message is empty.
abbrev pub NoneEmpty : (ℕ → Buf) → List ℕ → Type 0
NoneEmpty bufs [] = Unit {0}
NoneEmpty bufs (b ∷ bs) = ((bufs b).len ≢ 0) × NoneEmpty bufs bs

next_buf_info-append : (xs : List ℕ) (b : ℕ) → (c : ℕ) × (next_buf_info (xs ++ b ∷ []) ≡ some c)
next_buf_info-append [] b = (b, refl)
next_buf_info-append (x ∷ xs) b = (x, refl)

append-ne-nil : (xs : List ℕ) (b : ℕ) → xs ++ b ∷ [] ≢ []
append-ne-nil [] b e = cc
append-ne-nil (x ∷ xs) b e = cc

next_buf_info-append_of_ne :
    (xs : List ℕ) (b : ℕ) → xs ≢ [] → next_buf_info (xs ++ b ∷ []) ≡ next_buf_info xs
next_buf_info-append_of_ne [] b h = absurd (h refl)
next_buf_info-append_of_ne (x ∷ xs) b h = refl

-- A message that is appended to a well-formed queue is followed by a call of `http_mgmt_toserver`, which
-- keeps the queue well formed, runs the writer, and changes nothing of the queue's order.
pub http_mgmt_toserver_lem :
    (m : Mgmt) (b : ℕ)
    → IsSending m
    → Returns
        (λ n.
          IsSending n
          × (n.toserver ≡ true)
          × (n.buf_toserver.list_todo ≡ m.buf_toserver.list_todo ++ b ∷ [])
          × (n.bufs ≡ m.bufs)
          × (n.http_buf_caches ≡ m.http_buf_caches))
        (http_mgmt_toserver (push_toserver b m))
unfolding http_mgmt_toserver start_writer push_toserver
http_mgmt_toserver_lem m b s = ground (
  arith,
  next_buf_info-append m.buf_toserver.list_todo b,
  append-ne-nil m.buf_toserver.list_todo b,
  next_buf_info-append_of_ne m.buf_toserver.list_todo b,
)

-- What one call of `http_mgmt_writable` does to a queue whose first message is that of `b`.
pub record HasSent (m : Mgmt) (b : ℕ) (bs : List ℕ) (n : ℤ) (r : Mgmt × Bool) : Type 0 where
  pub sending : IsSending r.0
  pub whole : r.1 ≡ took n (m.bufs b).len
  pub left : r.0.buf_toserver.list_todo ≡ bs
  pub freed : r.0.http_buf_caches ≡ b ∷ m.http_buf_caches
  pub same_bufs : r.0.bufs ≡ m.bufs
  pub sent_now : sent_in r.0.trace ≡ sent_in m.trace ++ slice 0 (m.bufs b).len (m.bufs b).mem ∷ []
  pub runs : r.0.toserver ≡ true → bs ≢ []
  pub stops : bs ≢ [] → r.0.toserver ≡ true
  pub kept : (a : ℕ) → places r.0 a ≡ places m a

-- The state once the message of `b` is written and `bs` are left.
after_message : Mgmt → ℕ → List ℕ → Mgmt
after_message m b bs = record m {
  trace = m.trace ++ Effect.sent (slice 0 (m.bufs b).len (m.bufs b).mem) ∷ [];
  buf_toserver = record (m.buf_toserver) { list_todo = bs };
  http_buf_caches = b ∷ m.http_buf_caches;
}

http_mgmt_writable-eq-ok :
    (m : Mgmt) (n : ℤ) (b : ℕ) (bs : List ℕ)
    → IsSending m
    → m.toserver ≡ true
    → m.buf_toserver.list_todo ≡ b ∷ bs
    → (m.bufs b).len ≢ 0
    → http_mgmt_writable m n
      ≡ ok (next_message (after_message m b bs) (next_buf_info bs), took n (m.bufs b).len)
unfolding http_mgmt_writable after_message
http_mgmt_writable-eq-ok m n b bs s on e full = ground arith

after_message-HasSent :
    (m : Mgmt) (n : ℤ) (b : ℕ) (bs : List ℕ)
    → m.toserver ≡ true
    → m.buf_toserver.list_todo ≡ b ∷ bs
    → HasSent m b bs n
        (next_message (after_message m b bs) (next_buf_info bs), took n (m.bufs b).len)
unfolding next_message after_message
after_message-HasSent m n b [] on e = record {
  sending = ground arith;
  whole = refl;
  left = refl;
  freed = refl;
  same_bufs = refl;
  sent_now = sent_in-append m.trace _;
  runs = λ h. ground arith;
  stops = λ h. ground arith;
  kept = λ a. ground arith;
}
after_message-HasSent m n b (c ∷ bs) on e = record {
  sending = ground arith;
  whole = refl;
  left = refl;
  freed = refl;
  same_bufs = refl;
  sent_now = ground (
    arith,
    sent_in-append (m.trace ++ Effect.sent (slice 0 (m.bufs b).len (m.bufs b).mem) ∷ [])
        (Effect.write_again ∷ []),
    sent_in-append m.trace (Effect.sent (slice 0 (m.bufs b).len (m.bufs b).mem) ∷ []),
    append-nil (sent_in (m.trace ++ Effect.sent (slice 0 (m.bufs b).len (m.bufs b).mem) ∷ [])),
  );
  runs = λ h. ground arith;
  stops = λ h. ground arith;
  kept = λ a. ground arith;
}

-- One call of `http_mgmt_writable` on a running, well-formed queue whose first message is that of `b` and
-- not empty sends this message, whatever `websocket_write` answers. It frees the buffer and leaves the
-- rest of the queue in order; the writer runs on exactly if a message is left; no buffer is lost.
pub http_mgmt_writable-HasSent :
    (m : Mgmt) (n : ℤ) (b : ℕ) (bs : List ℕ)
    → IsSending m
    → m.toserver ≡ true
    → m.buf_toserver.list_todo ≡ b ∷ bs
    → (m.bufs b).len ≢ 0
    → Returns (HasSent m b bs n) (http_mgmt_writable m n)
http_mgmt_writable-HasSent m n b bs s on e full =
    rw (http_mgmt_writable-eq-ok m n b bs s on e full) (after_message-HasSent m n b bs on e)

-- The websocket asks for a message as often as there are answers.
unfoldable pub drain : List ℤ → Mgmt → Outcome Mgmt
drain [] m = ok m
drain (n ∷ ns) m = http_mgmt_writable m n >>= λ r. drain ns r.0

pub record IsDrained (m : Mgmt) (bs : List ℕ) (r : Mgmt) : Type 0 where
  pub all_sent : sent_in r.trace ≡ sent_in m.trace ++ messages m.bufs bs
  pub idle : r.toserver ≡ false
  pub empty : r.buf_toserver.list_todo ≡ []
  pub kept : (a : ℕ) → places r a ≡ places m a

IsDrained-one :
    (m : Mgmt) (b : ℕ) (n : ℤ) (r : Mgmt × Bool) → HasSent m b [] n r → IsDrained m (b ∷ []) r.0
IsDrained-one m b n r h = record {
  all_sent = h.sent_now;
  idle = ground (arith, h.runs);
  empty = h.left;
  kept = h.kept;
}

IsDrained-more :
    (m : Mgmt) (b : ℕ) (bs : List ℕ) (n : ℤ) (r : Mgmt × Bool) (d : Mgmt)
    → HasSent m b bs n r
    → IsDrained r.0 bs d
    → IsDrained m (b ∷ bs) d
IsDrained-more m b bs n r d h i = record {
  all_sent =
      i.all_sent
      ∙ ap₂ ◌++◌ h.sent_now (ap (λ f. messages f bs) h.same_bufs)
      ∙ append_assoc (sent_in m.trace) _ _;
  idle = i.idle;
  empty = i.empty;
  kept = λ a. i.kept a ∙ h.kept a;
}

-- A running, well-formed queue of messages that are not empty, from which the websocket takes as many as
-- there are: they are sent in their order, each once, whatever the answers; then the queue is empty, the
-- writer is stopped, and no buffer is lost.
pub drain-IsDrained :
    (ns : List ℤ) (bs : List ℕ) (m : Mgmt)
    → IsSending m
    → m.toserver ≡ true
    → m.buf_toserver.list_todo ≡ bs
    → length ns ≡ length bs
    → NoneEmpty m.bufs bs
    → Returns (IsDrained m bs) (drain ns m)
unfolding drain
drain-IsDrained ns [] m s on e l full = absurd (s.busy on e)
drain-IsDrained [] (b ∷ bs) m s on e l full = absurd (omega arith)
drain-IsDrained (n ∷ []) (b ∷ []) m s on e l full =
    Returns->>= (HasSent m b [] n) _ (http_mgmt_writable m n) _
      (http_mgmt_writable-HasSent m n b [] s on e full.0) (IsDrained-one m b n)
drain-IsDrained (n ∷ k ∷ ns) (b ∷ []) m s on e l full = absurd (omega arith)
drain-IsDrained (n ∷ ns) (b ∷ c ∷ bs) m s on e l full =
    Returns->>= (HasSent m b (c ∷ bs) n) _ (http_mgmt_writable m n) _
      (http_mgmt_writable-HasSent m n b (c ∷ bs) s on e full.0)
      λ r h.
        Returns-mono (IsDrained r.0 (c ∷ bs)) _ (drain ns r.0)
          (drain-IsDrained ns (c ∷ bs) r.0 h.sending (h.stops (λ z. cc)) h.left (omega arith)
            (subst (λ f. NoneEmpty f (c ∷ bs)) (sym h.same_bufs) full.1))
          (λ d. IsDrained-more m b (c ∷ bs) n r d h)
