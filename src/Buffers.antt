-- ===== src/Buffers.antt =====
-- The free lists of test-server/http_client.c, `ctx_caches` and `http_buf_caches`, and the operations on
-- linked lists that it takes from list.h.
pub mod Ledger
use web_tunnel.Base.{
  ℕ, List, [], ◌∷◌, ◌++◌, ◌≡◌, refl, Option, none, some, update, copy, ◌==◌, if◌then◌else◌, Bool,
  false, count, ltb, Outcome, ok, fault, list_corrupted,
}
use web_tunnel.State.{Mgmt, HttpBuf}

-- `list_add_tail(node, list)`; `list_add` is `∷`, and a splice is `++`.
abbrev pub list_add_tail : ℕ → List ℕ → List ℕ
list_add_tail a xs = xs ++ a ∷ []

-- `list_del(node)`, for a node on the list.
abbrev pub list_del : ℕ → List ℕ → List ℕ
list_del a [] = []
list_del a (x ∷ xs) = if x == a then xs else x ∷ list_del a xs

-- The first node, which stays on the list.
abbrev pub next_buf_info : List ℕ → Option ℕ
next_buf_info [] = none
next_buf_info (x ∷ xs) = some x

unfoldable pub alloc_context : Mgmt → Mgmt × Option ℕ
alloc_context m = elim m.ctx_caches [
  | [] ↦ (m, none)
  | c ∷ cs ↦ (record m { ctx_caches = cs }, some c)
]

unfoldable pub free_context : ℕ → Mgmt → Mgmt
free_context c m = record m { ctx_caches = c ∷ m.ctx_caches }

-- The first free buffer `b` is taken, and `bs` are left.
unfoldable pub taken : Mgmt → ℕ → List ℕ → Mgmt
taken m b bs = record m {
  http_buf_caches = bs;
  bufs = update m.bufs b (record (m.bufs b) { len = 0; start = 0; total_len = 0 });
}

-- `alloc_buf`: `list_del` takes the buffer off the free ones, the only list that it stands on.
unfoldable pub alloc_buf : Mgmt → Mgmt × Option ℕ
alloc_buf m = elim m.http_buf_caches [ [] ↦ (m, none) | b ∷ bs ↦ (taken m b bs, some b) ]

-- `free_buf`; a NULL pointer is let be.
abbrev pub cons_buf : Option ℕ → List ℕ → List ℕ
cons_buf none bs = bs
cons_buf (some b) bs = b ∷ bs

abbrev pub free_buf : Option ℕ → Mgmt → Mgmt
free_buf b m = record m { http_buf_caches = cons_buf b m.http_buf_caches }

-- A current buffer may be freed only if it does not stand on its list any more.
abbrev pub is_listed : Option ℕ → List ℕ → Bool
is_listed none bs = false
is_listed (some b) bs = ltb 0 (count b bs)

unfoldable pub check_unlisted : HttpBuf → Outcome (Unit {0})
check_unlisted h = if is_listed h.curr h.list_todo then fault list_corrupted else ok tt

-- `memcpy(buf_info->buf + off, bytes, length bytes)`.
unfoldable pub write_buf : ℕ → ℕ → List ℕ → Mgmt → Mgmt
write_buf b off bytes m = record m {
  bufs = update m.bufs b (record (m.bufs b) { mem = copy off bytes (m.bufs b).mem });
}

-- The three assignments to `start`, `len` and `total_len`.
unfoldable pub set_lengths : ℕ → ℕ → ℕ → ℕ → Mgmt → Mgmt
set_lengths b start len total m = record m {
  bufs = update m.bufs b (record (m.bufs b) { start = start; len = len; total_len = total });
}

-- `list_add_tail(&buf_info->node, &mgmt->buf_toserver.list_todo)`, for a buffer that stands on no list, as
-- every caller has it.
unfoldable pub push_toserver : ℕ → Mgmt → Mgmt
push_toserver b m = record m {
  buf_toserver = record (m.buf_toserver) { list_todo = list_add_tail b m.buf_toserver.list_todo };
}

pub alloc_buf-some :
    (m : Mgmt) (b : ℕ) (bs : List ℕ)
    → m.http_buf_caches ≡ b ∷ bs
    → alloc_buf m ≡ (taken m b bs, some b)
unfolding alloc_buf
alloc_buf-some m b bs e = rw e

pub alloc_buf-none : (m : Mgmt) → m.http_buf_caches ≡ [] → alloc_buf m ≡ (m, none)
unfolding alloc_buf
alloc_buf-none m e = rw e
