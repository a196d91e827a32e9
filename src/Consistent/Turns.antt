-- ===== src/Consistent/Turns.antt =====
-- A turn of a coroutine changes nothing of the clients and connections but its own, whose socket stays.
pub mod Writing
pub mod Reading
pub mod ClientReading
pub mod ClientWriting
pub mod ContextWriting
pub mod ContextReading
use web_tunnel.Base.{◌≡◌, ℕ}
use web_tunnel.State.{TcpClient, TcpForward, HttpContext}
use web_tunnel.Runtime.{Turn}
use web_tunnel.Consistent.{Core, At}

abbrev pub IsForwardTurn : Core → ℕ → Turn TcpForward → Type 0
IsForwardTurn k fd t = At k t.mgmt × (t.self.fwd_fd ≡ fd)

abbrev pub IsClientTurn : Core → ℕ → Turn TcpClient → Type 0
IsClientTurn k fd t = At k t.mgmt × (t.self.client_fd ≡ fd)

abbrev pub IsContextTurn : Core → Turn HttpContext → Type 0
IsContextTurn k t = At k t.mgmt
