-- ===== src/Consistent/Messages.antt =====
-- The messages of a packet are received: `http_mgmt_prepare`.
use web_tunnel.Base.{
  check-Ensures, Fault, ℕ, suc, zero, ◌+◌, ◌-◌, not, ◌||◌, List, length, drop, Option, some,
  Outcome, Ensures, Ensures-ok, Ensures-fault, Ensures-bind, Ensures-if, Ensures-Option, ◌==◌, ltb,
  leb,
}
use web_tunnel.State.{Mgmt}
use web_tunnel.Buffers.{alloc_buf}
use web_tunnel.Header.{
  read_header, htons, htonl, http_c_magic, http_c_version, http_c_header_len, http_buf_size,
  http_in_max,
}
use web_tunnel.Prepare.{
  release_prepare, save_prepare, set_start, fill, set_curr, memory, begin_packet, append_bytes,
  loop_body, prepare_loop, receive, is_saved, receive_first, sync_header, http_mgmt_prepare,
}
use web_tunnel.Consistent.{IsConsistent}
use web_tunnel.Consistent.Frames.{alloc_buf-IsConsistent}

abbrev pub received : Mgmt × ℕ → Mgmt
received r = r.0

module _ (process : Mgmt → Outcome Mgmt)
    (p : (m : Mgmt) → IsConsistent m → Ensures IsConsistent (process m)) where
  append_bytes-IsConsistent :
      (b : ℕ) (bytes : List ℕ) (m : Mgmt)
      → IsConsistent m
      → Ensures (λ r. IsConsistent (received r)) (append_bytes process b bytes m)
  unfolding append_bytes fill set_start save_prepare
  append_bytes-IsConsistent b bytes m s =
      let m1 = fill b bytes m in
      let start = (m1.bufs b).start in
      let tmp_len = start + m1.buf_prepare.len in
      let total = m1.buf_prepare.total_len in
      Ensures-if (leb total tmp_len)
        (Ensures-bind (p (save_prepare b (set_start b (start - (tmp_len - total)) m1)) s)
          λ n e. Ensures-ok {a = (n, 0)} e)
        (Ensures-ok {a = (m1, 0)} s)

  loop_body-IsConsistent :
      (again : Option ℕ → Mgmt → Outcome (Mgmt × ℕ)) (b : ℕ) (bytes : List ℕ) (m : Mgmt)
      → ((i : Option ℕ) (n : Mgmt)
          → IsConsistent n
          → Ensures (λ r. IsConsistent (received r)) (again i n))
      → IsConsistent m
      → Ensures (λ r. IsConsistent (received r)) (loop_body process again b bytes m)
  unfolding loop_body save_prepare
  loop_body-IsConsistent again b bytes m k s =
      let m1 = save_prepare b m in
      Ensures-if (ltb http_buf_size ((m.bufs b).start + length bytes)) (k m1.buf_prepare.curr m1 s)
        (append_bytes-IsConsistent b bytes m s)

  prepare_loop-IsConsistent :
      (rounds : ℕ) (info : Option ℕ) (bytes : List ℕ) (m : Mgmt)
      → IsConsistent m
      → Ensures (λ r. IsConsistent (received r)) (prepare_loop process rounds info bytes m)
  unfolding prepare_loop release_prepare set_curr
  prepare_loop-IsConsistent zero info bytes m s = (Ensures-fault Fault.no_rounds tt)
  prepare_loop-IsConsistent (suc rounds) info bytes m s =
      let again = λ (i : Option ℕ) (n : Mgmt). prepare_loop process rounds i bytes n in
      let k = λ (i : Option ℕ) (n : Mgmt) (e : IsConsistent n).
        prepare_loop-IsConsistent rounds i bytes n e in
      let r = alloc_buf m in
      let h = alloc_buf-IsConsistent m s in
      Ensures-Option info
        (Ensures-Option r.1 (Ensures-ok {a = (release_prepare r.0, 4)} h)
          λ b. loop_body-IsConsistent again b bytes (set_curr (some b) r.0) k h)
        λ b. loop_body-IsConsistent again b bytes m k s

  receive-IsConsistent :
      (info : Option ℕ) (bytes : List ℕ) (m : Mgmt)
      → IsConsistent m
      → Ensures (λ r. IsConsistent (received r)) (receive process info bytes m)
  unfolding receive
  receive-IsConsistent info bytes m s =
      Ensures-if (length bytes == 0) (Ensures-ok {a = (m, 0)} s)
        (prepare_loop-IsConsistent 2 info bytes m s)

  receive_first-IsConsistent :
      (info : Option ℕ) (bytes : List ℕ) (m : Mgmt)
      → IsConsistent m
      → Ensures (λ r. IsConsistent (received r)) (receive_first process info bytes m)
  unfolding receive_first
  receive_first-IsConsistent info bytes m s =
      Ensures-if (is_saved info bytes m) (Ensures-fault Fault.list_corrupted tt)
        (receive-IsConsistent info bytes m s)

  sync_header-IsConsistent :
      (now : ℕ) (info : Option ℕ) (buf : List ℕ) (m : Mgmt)
      → IsConsistent m
      → Ensures (λ r. IsConsistent (received r)) (sync_header process now info buf m)
  unfolding sync_header release_prepare begin_packet
  sync_header-IsConsistent now info buf m s =
      let h = read_header (memory buf) in
      let len = htonl h.length in
      let m1 = release_prepare m in
      Ensures-if (ltb (length buf) http_c_header_len) (Ensures-ok {a = (m, 10)} s) (
        Ensures-if (not (h.magic == htonl http_c_magic) || not (h.version == http_c_version))
          (Ensures-ok {a = (m, 11)} s)
          (Ensures-if (ltb http_in_max len) (Ensures-ok {a = (m1, 12)} s) (
            Ensures-if (ltb len http_c_header_len) (Ensures-fault Fault.negative_length tt) (
              receive_first-IsConsistent info (drop http_c_header_len buf)
                (begin_packet now (len - http_c_header_len) h.kind (htons h.seq) m1) s))))

  pub http_mgmt_prepare-IsConsistent :
      (now : ℕ) (buf : List ℕ) (m : Mgmt)
      → IsConsistent m
      → Ensures (λ r. IsConsistent (received r)) (http_mgmt_prepare process now buf m)
  unfolding http_mgmt_prepare
  http_mgmt_prepare-IsConsistent now buf m s =
      Ensures-bind (check-Ensures (ltb (length buf) http_buf_size)) λ u q.
        Ensures-if m.sync_prepare (receive-IsConsistent m.buf_prepare.curr buf m s)
          (sync_header-IsConsistent now m.buf_prepare.curr buf m s)
