-- ===== src/Client/Lifetime.antt =====
-- `tcp_client_release`.
use web_tunnel.Base.{ℕ, ◌-◌, none, Outcome, ok, ◌>>=◌}
use web_tunnel.State.{Mgmt}
use web_tunnel.Buffers.{list_del}
use web_tunnel.Runtime.{in_use, put_client}
use web_tunnel.Forward.Lifetime.{forget_fd, give_back}

-- The client `c` leaves the server's list.
unfoldable pub leave_server : ℕ → Mgmt → Mgmt
leave_server c m = record m {
  tcp_server = record (m.tcp_server) { list_client = list_del c m.tcp_server.list_client };
}

unfoldable pub tcp_client_release : ℕ → Mgmt → Outcome Mgmt
unfolding forget_fd give_back leave_server
tcp_client_release c m = do
  v ← in_use (m.clients c)
  m1 ← forget_fd v.client_fd (leave_server c m)
  m2 ← give_back v.buf_read m1
  m3 ← give_back v.buf_write m2
  let n = record m3 {
    tcp_server = record (m3.tcp_server) { client_len = m3.tcp_server.client_len - 1 };
  }
  ok (put_client c none n)
