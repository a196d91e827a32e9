-- ===== src/ToServer/ErrorReply.antt =====
-- What `generate_error` puts into the queue.
use web_tunnel.Base.{
  ℕ, ◌+◌, ◌*◌, ◌%◌, ◌^◌, ◌<◌, ◌≡◌, refl, sym, subst, List, [], ◌∷◌, ◌++◌, length, true, Returns,
  Returns-mono, copy, arith,
}
use web_tunnel.State.{Mgmt, Buf, HttpContext}
use web_tunnel.Buffers.{taken, alloc_buf-some, write_buf, set_lengths, push_toserver}
use web_tunnel.Header.{
  header_bytes, read_header, htons, htonl, http_c_resp, http_c_header_len, http_c_magic,
  http_c_version,
}
use web_tunnel.Header.Roundtrip.{read_header-copy, htons_twice}
use web_tunnel.ToServer.{generate_error, write_error, error_text, error_header, http_mgmt_toserver}
use web_tunnel.ToServer.Queue.{IsSending, http_mgmt_toserver_lem}

tmp_len_lem : (length error_text + http_c_header_len) % 2 ^ 16 ≡ 106
unfolding error_text
tmp_len_lem = refl

error_header-read :
    (seq len : ℕ) (mem : ℕ → ℕ)
    → seq < 2 ^ 16
    → len < 2 ^ 16
    → read_header (copy 0 (header_bytes (error_header seq len)) mem) ≡ error_header seq len
unfolding error_header
error_header-read seq len mem h k =
    read_header-copy (error_header seq len) mem (omega arith) (omega arith) (omega arith)
      (omega arith) (omega arith) (omega arith)

-- A reply of `generate_error`, as the receiver of the header reads it.
pub record IsErrorReply (seq : ℕ) (buf : Buf) : Type 0 where
  pub magic : htonl (read_header buf.mem).magic ≡ http_c_magic
  pub version : (read_header buf.mem).version ≡ http_c_version
  pub kind : (read_header buf.mem).kind ≡ http_c_resp
  pub to_request : htons (read_header buf.mem).seq ≡ seq
  pub whole : buf.len ≡ http_c_header_len + 90
  pub announced : htonl (read_header buf.mem).length ≡ buf.len * 65536

error_buf : ℕ → (ℕ → ℕ) → Buf
error_buf seq mem = record {
  mem = copy 0 (header_bytes (error_header seq 106)) mem;
  start = 0;
  len = 106;
  total_len = 106;
}

error_buf-IsErrorReply :
    (seq : ℕ) (mem : ℕ → ℕ) → seq < 2 ^ 16 → IsErrorReply seq (error_buf seq mem)
unfolding error_buf
error_buf-IsErrorReply seq mem h =
    let e = error_header-read seq 106 mem h (omega arith) in
    record {
      magic = rw e (unfold error_header in refl);
      version = rw e (unfold error_header in refl);
      kind = rw e (unfold error_header in refl);
      to_request = rw e (unfold error_header in htons_twice seq h);
      whole = refl;
      announced = rw e (unfold error_header in refl);
    }

write_error_buf :
    (m : Mgmt) (ctx : HttpContext) (b : ℕ)
    → (mem : ℕ → ℕ) × ((write_error ctx b m).bufs b ≡ error_buf ctx.seq mem)
unfolding write_error write_buf set_lengths error_buf
write_error_buf m ctx b =
    (copy http_c_header_len (error_text ++ 0 ∷ []) (m.bufs b).mem, rw tmp_len_lem (ground arith))

write_error_rest :
    (m : Mgmt) (ctx : HttpContext) (b : ℕ)
    → ((write_error ctx b m).buf_toserver ≡ m.buf_toserver)
      × ((write_error ctx b m).toserver ≡ m.toserver)
      × ((write_error ctx b m).http_buf_caches ≡ m.http_buf_caches)
unfolding write_error write_buf set_lengths
write_error_rest m ctx b = (refl, refl, refl)

generate_error-eq_toserver :
    (m : Mgmt) (ctx : HttpContext) (b : ℕ) (bs : List ℕ)
    → m.http_buf_caches ≡ b ∷ bs
    → generate_error m ctx ≡ http_mgmt_toserver (push_toserver b (write_error ctx b (taken m b bs)))
unfolding generate_error
generate_error-eq_toserver m ctx b bs e = ground (arith, alloc_buf-some m b bs)

-- With a free buffer and a well-formed queue, `generate_error` appends a reply to the request's sequence
-- number and starts the writer; it does not fail. The length that the reply announces is 65536 times its
-- own length, since the 32-bit field is turned round as if it had 16 bits.
pub generate_error-IsErrorReply :
    (m : Mgmt) (ctx : HttpContext) (b : ℕ) (bs : List ℕ)
    → IsSending m
    → ctx.seq < 2 ^ 16
    → m.http_buf_caches ≡ b ∷ bs
    → Returns
        (λ n.
          IsErrorReply ctx.seq (n.bufs b)
          × IsSending n
          × (n.toserver ≡ true)
          × (n.buf_toserver.list_todo ≡ m.buf_toserver.list_todo ++ b ∷ [])
          × (n.http_buf_caches ≡ bs))
        (generate_error m ctx)
unfolding taken write_error set_lengths write_buf
generate_error-IsErrorReply m ctx b bs s h e = rw (generate_error-eq_toserver m ctx b bs e) (
    Returns-mono _ _ (http_mgmt_toserver (push_toserver b full))
      (http_mgmt_toserver_lem full b sending)
      λ n r. (
        subst (λ f. IsErrorReply ctx.seq (f b)) (sym r.3)
            (rw (write_error_buf free ctx b).1 (error_buf-IsErrorReply ctx.seq _ h)),
        r.0,
        r.1,
        r.2,
        r.4,
      ))
  where
    free : Mgmt
    free = taken m b bs

    full : Mgmt
    full = write_error ctx b free

    sending : IsSending full
    sending = ground (arith, write_error_rest free ctx b)
