-- ===== src/Client.antt =====
-- The local clients of the tunnel in test-server/http_client.c: `tcp_client_read`, `tcp_client_write` and
-- `tcp_client_release`. Their streams are enciphered.
pub mod Words
pub mod Reading
pub mod Writing
pub mod Lifetime
