-- ===== src/Chunk.antt =====
-- The responses in chunks, in test-server/http_client.c: `http_chunk_check` and `http_parse`, with the C
-- library's `strstr`, `strcasestr` and `sscanf("%x")` on the texts that they are given.
pub mod Text
pub mod Check
pub mod Machine
pub mod Parse
