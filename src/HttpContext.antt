-- ===== src/HttpContext.antt =====
-- The HTTP requests of test-server/http_client.c that are passed to a host in the local network:
-- `http_context_create`, `http_context_init`, the coroutines `http_context_connect`,
-- `http_context_write` and `http_context_read`, `http_context_finish` and `http_context_release`.
pub mod Host
pub mod Coroutines
pub mod Finish
pub mod Lists
pub mod Lifetime
