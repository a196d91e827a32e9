-- ===== src/Forward.antt =====
-- The forwarded TCP connections of test-server/http_client.c: `tcp_forward_create`, the coroutines
-- `tcp_forward_connect`, `tcp_forward_read` and `tcp_forward_write`, `tcp_forward_closing`,
-- `tcp_forward_release` and `name_resolve`, which is the parameter `resolve`.
pub mod Coroutines
pub mod Lifetime
