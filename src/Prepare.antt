-- ===== src/Prepare.antt =====
-- The packets that come from the websocket server, in test-server/http_client.c: `release_prepare`,
-- `save_prepare` and `http_mgmt_prepare`. `prepare_process`, which is called on a whole packet, is the
-- parameter `process` here; Dispatch defines it.
pub mod Contents
pub mod Reassembly
pub mod Stream
pub mod Headers
pub mod Stale
pub mod Refused
use web_tunnel.Base.{
  ℕ, zero, suc, ◌+◌, ◌-◌, ◌^◌, Bool, true, false, not, ◌||◌, ◌&&◌, List, [], ◌∷◌, ◌++◌, length,
  drop, Option, none, some, Outcome, ok, fault, negative_length, list_corrupted, no_rounds, ◌>>=◌,
  ◌>>◌, check, update, copy, ltb, leb, ◌==◌, if◌then◌else◌,
}
use web_tunnel.State.{Mgmt}
use web_tunnel.Buffers.{alloc_buf, free_buf, list_add_tail}
use web_tunnel.Header.{
  read_header, htons, htonl, http_c_magic, http_c_version, http_c_header_len, http_buf_size,
  http_in_max,
}

-- The current buffer and those of the packet are free again.
unfoldable pub release_prepare : Mgmt → Mgmt
release_prepare m =
    let m1 = free_buf m.buf_prepare.curr m in
    record m1 {
      http_buf_caches = m.buf_prepare.list_todo ++ m1.http_buf_caches;
      buf_prepare = record (m.buf_prepare) {
        list_todo = [];
        curr = none;
        len = 0;
        total_len = 0;
        kind = 0;
      };
    }

-- The buffer `b` is full, or the last of its packet.
unfoldable pub save_prepare : ℕ → Mgmt → Mgmt
save_prepare b m =
    let start = (m.bufs b).start in
    record m {
      bufs = update m.bufs b (record (m.bufs b) { len = start; total_len = start; start = 0 });
      buf_prepare = record (m.buf_prepare) {
        len = m.buf_prepare.len + start;
        list_todo = list_add_tail b m.buf_prepare.list_todo;
        curr = none;
      };
    }

-- `buf_info->start = start`.
unfoldable pub set_start : ℕ → ℕ → Mgmt → Mgmt
set_start b start m = record m { bufs = update m.bufs b (record (m.bufs b) { start = start }) }

-- The bytes are copied behind those in `b`, and `start` goes up by their number.
unfoldable pub fill : ℕ → List ℕ → Mgmt → Mgmt
fill b bytes m =
    let v = m.bufs b in
    record m {
      bufs =
          update m.bufs b
            (record v { mem = copy v.start bytes v.mem; start = v.start + length bytes });
    }

unfoldable pub set_curr : Option ℕ → Mgmt → Mgmt
set_curr b m = record m { buf_prepare = record (m.buf_prepare) { curr = b } }

-- The message as the memory at `buf`.
abbrev pub memory : List ℕ → ℕ → ℕ
memory bytes = copy 0 bytes (λ _. 0)

-- A packet of kind `type` and sequence number `seq` begins, with `length` bytes after its header.
unfoldable pub begin_packet : ℕ → ℕ → ℕ → ℕ → Mgmt → Mgmt
begin_packet now length kind seq m = record m {
  sync_prepare = true;
  sync_time = now;
  buf_prepare = record (m.buf_prepare) { total_len = length; kind = kind; seq = seq };
}

-- Whether the message makes the buffer of `info` full, or the last of the packet.
abbrev pub is_saved : Option ℕ → List ℕ → Mgmt → Bool
is_saved none bytes m = false
is_saved (some b) bytes m =
    let start = (m.bufs b).start + length bytes in
    not (length bytes == 0)
    && (ltb http_buf_size start || leb m.buf_prepare.total_len (start + m.buf_prepare.len))

module _ (process : Mgmt → Outcome Mgmt) where
  -- The end of the loop's body, where the bytes fit into `b`; 0 is returned. What stands behind the end
  -- of the packet is cut off.
  unfoldable pub append_bytes : ℕ → List ℕ → Mgmt → Outcome (Mgmt × ℕ)
  append_bytes b bytes m =
      let m1 = fill b bytes m in
      let start = (m1.bufs b).start in
      let tmp_len = start + m1.buf_prepare.len in
      let total = m1.buf_prepare.total_len in
      if leb total tmp_len
      then (process (save_prepare b (set_start b (start - (tmp_len - total)) m1)) >>= λ n.
          ok (n, 0))
      else ok (m1, 0)

  -- The loop's body for the buffer `b`: a full one is saved, and the loop goes on with none.
  unfoldable pub loop_body :
      (Option ℕ → Mgmt → Outcome (Mgmt × ℕ)) → ℕ → List ℕ → Mgmt → Outcome (Mgmt × ℕ)
  loop_body again b bytes m =
      if ltb http_buf_size ((m.bufs b).start + length bytes)
      then (let m1 = save_prepare b m in again m1.buf_prepare.curr m1)
      else append_bytes b bytes m

  -- `for(;;)`, with the value of `buf_info` at its head and the rounds left. The number returned is 4
  -- if no buffer is free.
  unfoldable pub prepare_loop : ℕ → Option ℕ → List ℕ → Mgmt → Outcome (Mgmt × ℕ)
  unfolding loop_body append_bytes
  prepare_loop zero info bytes m = fault no_rounds
  prepare_loop (suc rounds) info bytes m =
      let again = λ (i : Option ℕ) (n : Mgmt). prepare_loop rounds i bytes n in
      let r = alloc_buf m in
      elim info [
        | some b ↦ loop_body again b bytes m
        | none ↦ elim r.1 [
          | none ↦ ok (release_prepare r.0, 4)
          | some b ↦ loop_body again b bytes (set_curr (some b) r.0)
        ]
      ]

  -- What follows the header's block, with the value of `buf_info`. Two rounds are enough, since a fresh
  -- buffer takes any message.
  unfoldable pub receive : Option ℕ → List ℕ → Mgmt → Outcome (Mgmt × ℕ)
  unfolding prepare_loop
  receive info bytes m = if length bytes == 0 then ok (m, 0) else prepare_loop 2 info bytes m

  -- `receive` after the header's block, where `release_prepare` has freed the buffer of `info`: to put it
  -- on the packet's list, while it is among the free ones, would break both lists, and the model ends there.
  unfoldable pub receive_first : Option ℕ → List ℕ → Mgmt → Outcome (Mgmt × ℕ)
  unfolding receive
  receive_first info bytes m =
      if is_saved info bytes m then fault list_corrupted else receive info bytes m

  -- The block `if(!mgmt->sync_prepare)`, and what follows it; `info` is `buf_prepare.curr` at the
  -- function's entry. A length below that of the header makes `total_len` negative: the program goes on
  -- with it, and the model ends there.
  unfoldable pub sync_header : ℕ → Option ℕ → List ℕ → Mgmt → Outcome (Mgmt × ℕ)
  unfolding receive_first
  sync_header now info buf m =
      let h = read_header (memory buf) in
      let len = htonl h.length in
      let m1 = release_prepare m in
      if ltb (length buf) http_c_header_len
      then ok (m, 10)
      else if not (h.magic == htonl http_c_magic) || not (h.version == http_c_version)
      then ok (m, 11)
      else if ltb http_in_max len
      then ok (m1, 12)
      else if ltb len http_c_header_len
      then fault negative_length
      else receive_first info (drop http_c_header_len buf)
          (begin_packet now (len - http_c_header_len) h.kind (htons h.seq) m1)

  -- `http_mgmt_prepare(mgmt, buf, len)` at the time `now`, and the number that it returns.
  unfoldable pub http_mgmt_prepare : ℕ → List ℕ → Mgmt → Outcome (Mgmt × ℕ)
  unfolding sync_header receive
  http_mgmt_prepare now buf m = do
    check (ltb (length buf) http_buf_size)
    if m.sync_prepare
        then receive m.buf_prepare.curr buf m
        else sync_header now m.buf_prepare.curr buf m
