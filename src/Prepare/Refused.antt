-- ===== src/Prepare/Refused.antt =====
-- Messages that do not begin a packet.
use web_tunnel.Base.{
  ℕ, ◌≤◌, ◌<◌, ◌≡◌, refl, Bool, false, ◌&&◌, List, length, Option, Outcome, Returns, arith, leb,
  ◌==◌, count-append, Option-cases,
}
use web_tunnel.State.{Mgmt}
use web_tunnel.Buffers.{free_buf}
use web_tunnel.Buffers.Ledger.{places}
use web_tunnel.Header.{
  read_header, htonl, http_c_magic, http_c_version, http_c_header_len, http_buf_size, http_in_max,
}
use web_tunnel.Prepare.{http_mgmt_prepare, sync_header, release_prepare, memory}

-- What the program asks of a packet's first message.
unfoldable pub is_acceptable : List ℕ → Bool
is_acceptable buf =
    let h = read_header (memory buf) in
    leb http_c_header_len (length buf)
    && h.magic == htonl http_c_magic
    && h.version == http_c_version
    && leb (htonl h.length) http_in_max

-- No packet has begun, and no buffer is lost.
pub record IsRefused (m : Mgmt) (r : Mgmt × ℕ) : Type 0 where
  pub code : 10 ≤ r.1
  pub unsynced : r.0.sync_prepare ≡ false
  pub bytes : r.0.bufs ≡ m.bufs
  pub queue : r.0.buf_toserver ≡ m.buf_toserver
  pub trace : r.0.trace ≡ m.trace
  pub kept : (a : ℕ) → places r.0 a ≡ places m a

released-places : (m : Mgmt) (a : ℕ) → places (release_prepare m) a ≡ places m a
unfolding release_prepare
released-places m a = ground (
  arith,
  count-append a m.buf_prepare.list_todo (free_buf m.buf_prepare.curr m).http_buf_caches,
  Option-cases m.buf_prepare.curr,
)

same-IsRefused : (m : Mgmt) (n : ℕ) → 10 ≤ n → m.sync_prepare ≡ false → IsRefused m (m, n)
same-IsRefused m n h u = record {
  code = h;
  unsynced = u;
  bytes = refl;
  queue = refl;
  trace = refl;
  kept = λ a. refl;
}

released-IsRefused :
    (m : Mgmt) (n : ℕ) → 10 ≤ n → m.sync_prepare ≡ false → IsRefused m (release_prepare m, n)
unfolding release_prepare
released-IsRefused m n h u = record {
  code = h;
  unsynced = u;
  bytes = refl;
  queue = refl;
  trace = refl;
  kept = released-places m;
}

module _ (process : Mgmt → Outcome Mgmt) (now : ℕ) where
  sync_header-IsRefused :
      (info : Option ℕ) (buf : List ℕ) (m : Mgmt)
      → m.sync_prepare ≡ false
      → is_acceptable buf ≡ false
      → Returns (IsRefused m) (sync_header process now info buf m)
  unfolding sync_header is_acceptable
  sync_header-IsRefused info buf m u h = ground (
    arith,
    same-IsRefused m 10 (omega arith) u,
    same-IsRefused m 11 (omega arith) u,
    released-IsRefused m 12 (omega arith) u,
  )

  -- Between two packets, a message that is shorter than a header, or whose header has another magic
  -- number or version, or announces more than 20480 bytes, makes `http_mgmt_prepare` return an error: it
  -- does not fail, begins no packet, does not call `prepare_process`, and loses no buffer.
  pub http_mgmt_prepare-IsRefused :
      (buf : List ℕ) (m : Mgmt)
      → length buf < http_buf_size
      → m.sync_prepare ≡ false
      → is_acceptable buf ≡ false
      → Returns (IsRefused m) (http_mgmt_prepare process now buf m)
  unfolding http_mgmt_prepare
  http_mgmt_prepare-IsRefused buf m l u h =
      ground (arith, sync_header-IsRefused m.buf_prepare.curr buf m u h)
