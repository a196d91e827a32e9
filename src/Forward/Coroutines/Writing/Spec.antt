-- ===== src/Forward/Coroutines/Writing/Spec.antt =====
-- What a turn of `tcp_forward_write` does to the bytes of a connection.
use web_tunnel.Base.{
  ℕ, ◌≤◌, ◌≡◌, ◌≢◌, refl, true, List, [], ◌∷◌, ◌++◌, append-nil, append_assoc, count, none, arith,
  ◌==◌, if◌then◌else◌, ==_refl, slice, update,
}
use web_tunnel.State.{Mgmt, Buf, HttpBuf, Effect, CcrLine, TcpForward}
use web_tunnel.Buffers.{next_buf_info}
use web_tunnel.Runtime.{Turn}

-- The bytes of the buffers `bs` that are not written yet.
unfoldable pub pending : (ℕ → Buf) → List ℕ → List ℕ
pending bufs [] = []
pending bufs (b ∷ bs) = slice (bufs b).start (bufs b).len (bufs b).mem ++ pending bufs bs

-- The bytes given to `write` on the socket `fd`.
unfoldable pub wrote_in : ℕ → List Effect → List ℕ
wrote_in fd [] = []
wrote_in fd (Effect.wrote s bs ∷ es) = if s == fd then bs ++ wrote_in fd es else wrote_in fd es
wrote_in fd (Effect.closed s ∷ es) = wrote_in fd es
wrote_in fd (Effect.sent bs ∷ es) = wrote_in fd es
wrote_in fd (Effect.go_writable ∷ es) = wrote_in fd es
wrote_in fd (Effect.write_again ∷ es) = wrote_in fd es

abbrev pub IsHead : HttpBuf → Type 0
IsHead h = h.curr ≡ next_buf_info h.list_todo

-- Where the coroutine stands, `curr` is NULL, or the first buffer of the list.
abbrev pub AtLine : CcrLine → HttpBuf → Type 0
AtLine CcrLine.start h = h.curr ≡ none
AtLine CcrLine.again h = IsHead h × (h.list_todo ≢ [])
AtLine CcrLine.failed h = IsHead h × (h.list_todo ≢ [])
AtLine CcrLine.partial h = IsHead h
AtLine CcrLine.no_buf h = IsHead h

-- No buffer is on the list twice.
abbrev pub IsOnce : List ℕ → Type 0
IsOnce bs = (a : ℕ) → count a bs ≤ 1

-- What a turn has done: the socket's bytes and those that are left are together what they were.
pub record IsWritten (v : TcpForward) (m : Mgmt) (t : Turn TcpForward) : Type 0 where
  pub stream :
      wrote_in v.fwd_fd t.mgmt.trace ++ pending t.mgmt.bufs t.self.buf_write.list_todo
      ≡ wrote_in v.fwd_fd m.trace ++ pending m.bufs v.buf_write.list_todo
  pub fd : t.self.fwd_fd ≡ v.fwd_fd
  pub pfd : t.self.pfd ≡ v.pfd
  pub once : IsOnce t.self.buf_write.list_todo
  pub line : AtLine t.self.ccr_line t.self.buf_write
  pub complete : t.self.idle ≡ true → t.self.buf_write.list_todo ≡ []

pub wrote_in-append :
    (fd : ℕ) (es : List Effect) (bs : List ℕ)
    → wrote_in fd (es ++ Effect.wrote fd bs ∷ []) ≡ wrote_in fd es ++ bs
unfolding wrote_in
wrote_in-append fd [] bs = ground (arith, ==_refl fd, append-nil bs)
wrote_in-append fd (Effect.wrote s xs ∷ es) bs =
    ground (arith, wrote_in-append fd es bs, append_assoc xs (wrote_in fd es) bs)
wrote_in-append fd (Effect.closed s ∷ es) bs = wrote_in-append fd es bs
wrote_in-append fd (Effect.sent xs ∷ es) bs = wrote_in-append fd es bs
wrote_in-append fd (Effect.go_writable ∷ es) bs = wrote_in-append fd es bs
wrote_in-append fd (Effect.write_again ∷ es) bs = wrote_in-append fd es bs

pub pending-update :
    (bufs : ℕ → Buf) (b : ℕ) (w : Buf) (bs : List ℕ)
    → count b bs ≡ 0
    → pending (update bufs b w) bs ≡ pending bufs bs
unfolding pending
pending-update bufs b w [] h = refl
pending-update bufs b w (x ∷ xs) h = ground (arith, pending-update bufs b w xs)
