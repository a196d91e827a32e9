-- ===== src/Prepare/Stale.antt =====
-- A packet that is given up while it is received. `http_mgmt_run` clears `sync_prepare` after the
-- timeout and leaves the current buffer; `http_mgmt_prepare` reads it before `release_prepare` frees it.
use web_tunnel.Base.{
  ℕ, ◌+◌, ◌≤◌, ◌<◌, ◌^◌, ◌≡◌, refl, ◌∙◌, ◌≢◌, ap, false, true, List, [], ◌∷◌, length, none, some,
  Outcome, ok, arith, count, count-append, slice, slice-copy, update_self,
}
use web_tunnel.State.{Mgmt, Buf}
use web_tunnel.Header.{http_c_header_len, http_buf_size, http_in_max}
use web_tunnel.Prepare.{
  http_mgmt_prepare, receive, receive_first, prepare_loop, fill, release_prepare, begin_packet,
}
use web_tunnel.Prepare.Reassembly.{loop-fits, append_bytes-partly}
use web_tunnel.Prepare.Headers.{first_message, started, first-eq_receive}

-- Reception of a packet of `total` bytes is on, but the packet has no buffer and no byte; `b` is free, and
-- holds the bytes `body` from `start` on.
pub record IsLost (m : Mgmt) (b start : ℕ) (body : List ℕ) (total : ℕ) : Type 0 where
  pub synced : m.sync_prepare ≡ true
  pub announced : m.buf_prepare.total_len ≡ total
  pub no_buffers : m.buf_prepare.list_todo ≡ []
  pub no_current : m.buf_prepare.curr ≡ none
  pub none_counted : m.buf_prepare.len ≡ 0
  pub free : 0 < count b m.http_buf_caches
  pub stored : slice start (length body) (m.bufs b).mem ≡ body

module _ (process : Mgmt → Outcome Mgmt) (now : ℕ) where
  first-eq_loop :
      (b : ℕ) (body : List ℕ) (m : Mgmt)
      → body ≢ []
      → (m.bufs b).start + length body ≤ http_buf_size
      → (m.bufs b).start + length body + m.buf_prepare.len < m.buf_prepare.total_len
      → receive_first process (some b) body m ≡ prepare_loop process 2 (some b) body m
  unfolding receive receive_first
  first-eq_loop b [] m h fits part = absurd (h refl)
  first-eq_loop b (x ∷ xs) m h fits part = ground arith

  -- If a packet was given up while its current buffer was `b`, the next packet's first message, with its
  -- whole header and bytes behind it, is written into `b`, which is free by then: where these bytes do not
  -- complete the packet and fit behind the start of `b`, they stand in the memory of `b` and are counted
  -- nowhere, though the packet's whole length is still waited for.
  pub stale-IsLost :
      (kind seq total b : ℕ) (body : List ℕ) (m : Mgmt)
      → m.sync_prepare ≡ false
      → m.buf_prepare.curr ≡ some b
      → kind < 256
      → seq < 2 ^ 16
      → total + http_c_header_len ≤ http_in_max
      → length body + http_c_header_len < http_buf_size
      → body ≢ []
      → (m.bufs b).start + length body ≤ http_buf_size
      → (m.bufs b).start + length body < total
      → (n : Mgmt) × (http_mgmt_prepare process now (first_message kind seq total body) m
          ≡ ok (n, 0))
        × IsLost n b (m.bufs b).start body total
  unfolding started fill release_prepare begin_packet
  stale-IsLost kind seq total b body m off c k s max short full fits part = (
    fill b body n0,
    first-eq_receive process now kind seq total body m k s max short off
        ∙ ap (λ i. receive_first process i body n0) c
        ∙ first-eq_loop b body n0 full same_start same_total
        ∙ loop-fits process 1 n0 b body same_start
        ∙ append_bytes-partly process n0 b body (ground (arith, c)),
    record {
      synced = refl;
      announced = refl;
      no_buffers = refl;
      no_current = refl;
      none_counted = refl;
      free = ground (arith, c, count-append b m.buf_prepare.list_todo (b ∷ m.http_buf_caches));
      stored =
          ap (λ (u : Buf). slice (m.bufs b).start (length body) u.mem) (update_self n0.bufs b _)
          ∙ slice-copy (m.bufs b).start body (m.bufs b).mem;
    },
  )
    where
      n0 : Mgmt
      n0 = started now kind seq total m

      same_start : (n0.bufs b).start + length body ≤ http_buf_size
      same_start = ground (arith, c)

      same_total : (n0.bufs b).start + length body + n0.buf_prepare.len < n0.buf_prepare.total_len
      same_total = ground (arith, c)
