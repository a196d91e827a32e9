-- ===== src/ToServer/Kept.antt =====
-- What a call of `http_mgmt_toserver` leaves as it was.
use web_tunnel.Base.{[], ◌∷◌, append-nil, ◌≡◌, false, none, Returns, arith, Option-cases}
use web_tunnel.State.{Mgmt, Effect}
use web_tunnel.ToServer.Queue.{sent_in, sent_in-append}
use web_tunnel.Buffers.{next_buf_info}
use web_tunnel.ToServer.{http_mgmt_toserver, start_writer}

pub http_mgmt_toserver-kept :
    (m : Mgmt)
    → (m.toserver ≡ false → m.buf_toserver.curr ≡ none)
    → Returns
        (λ n. (n.count_pollfds ≡ m.count_pollfds) × (n.max_fds ≡ m.max_fds))
        (http_mgmt_toserver m)
unfolding http_mgmt_toserver start_writer
http_mgmt_toserver-kept m h =
    ground (arith, h, Option-cases (next_buf_info m.buf_toserver.list_todo))

-- No message is sent by the call itself.
pub http_mgmt_toserver-silent :
    (m : Mgmt)
    → (m.toserver ≡ false → m.buf_toserver.curr ≡ none)
    → Returns (λ n. sent_in n.trace ≡ sent_in m.trace) (http_mgmt_toserver m)
unfolding http_mgmt_toserver start_writer
http_mgmt_toserver-silent m h = ground (
  arith,
  h,
  Option-cases (next_buf_info m.buf_toserver.list_todo),
  sent_in-append m.trace (Effect.go_writable ∷ []),
  append-nil (sent_in m.trace),
)
