-- ===== src/State.antt =====
-- The structures of test-server/http_client.h, and the world around them.
--
-- A pointer to an `http_buf_info`, an `http_context`, a `tcp_client_context` or a
-- `tcp_forward_context` is a number, its address; what it points to stands in a store of `Mgmt`.
-- A `struct list_head` is the list of the addresses linked on it, first to last. A pointer to an entry
-- of `pollfds` is the entry's index. An `int` is a number wherever the code keeps it at 0 or above.
mod Poll
mod Buffer
mod Context
mod Manager
pub use Poll.{Events, Pollfd, no_events, wait_out, wait_in, listening}
pub use Buffer.{Buf, HttpBuf, empty_buf, empty_http_buf}
pub use Context.{
  CallingStatus, CallerStatus, CallerState, CcrLine, AsyncFunc, ClientFunc, ForwardFunc, Ref,
  HttpContext, TcpClient, TcpServer, TcpForward, zero_context, zero_client, zero_forward,
}
pub use Manager.{Mgmt, Effect, emit, buf_at, put_buf}
