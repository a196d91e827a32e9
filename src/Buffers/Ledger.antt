-- ===== src/Buffers/Ledger.antt =====
-- The places in which a buffer can stand, counted.
use web_tunnel.Base.{ℕ, ◌+◌, Option, none, some, count, ◌==◌, if◌then◌else◌}
use web_tunnel.State.{Mgmt}

abbrev pub held : ℕ → Option ℕ → ℕ
held a none = 0
held a (some b) = if b == a then 1 else 0

-- How often the buffer `a` stands among the free ones, in the packet being received and on the way to
-- the server. The current buffer of a packet being received is on no list; that of `buf_toserver` is.
abbrev pub places : Mgmt → ℕ → ℕ
places m a =
    count a m.http_buf_caches
    + count a m.buf_prepare.list_todo
    + held a m.buf_prepare.curr
    + count a m.buf_toserver.list_todo
