-- ===== src/Forward/Coroutines/Packing.antt =====
-- The message that `tcp_forward_read` makes of the bytes that it read.
use web_tunnel.Base.{
  ℕ, ◌+◌, ◌-◌, ◌^◌, ◌≤◌, ◌<◌, ◌≡◌, refl, sym, ap, ◌∙◌, List, length, arith, subst, ==_refl, copy,
  slice, length-slice, slice-copy, slice-copy_below, slice-copy_above,
}
use web_tunnel.State.{Mgmt, Buf}
use web_tunnel.Buffers.{write_buf, set_lengths}
use web_tunnel.Header.{
  header_bytes, read_header, make_header, bytes32, htonl, http_c_forward_resp, http_c_header_len,
  http_buf_size, websock_min_pack_size,
}
use web_tunnel.Header.Roundtrip.{read_header-copy, length-header_bytes}
use web_tunnel.Forward.Coroutines.{forward_header_len, packed_len, pack_forward, zeros}

-- The buffer holds the message of the connection `seq` with the bytes `bytes`.
pub record IsPacked (seq : ℕ) (bytes : List ℕ) (buf : Buf) : Type 0 where
  pub header : read_header buf.mem ≡ make_header http_c_forward_resp seq buf.len
  pub announced : slice http_c_header_len 4 buf.mem ≡ bytes32 (htonl (length bytes))
  pub body : slice forward_header_len (length bytes) buf.mem ≡ bytes
  pub padding :
      slice
        (length bytes + forward_header_len)
        (buf.len - (length bytes + forward_header_len))
        buf.mem
      ≡ zeros (buf.len - (length bytes + forward_header_len))
  pub from_start : buf.start ≡ 0
  pub shortest : websock_min_pack_size ≤ buf.len
  pub longest : buf.len ≤ http_buf_size

module _ (seq : ℕ) (bytes : List ℕ) (mem : ℕ → ℕ)
    (fits : length bytes + forward_header_len ≤ http_buf_size) (short : seq < 2 ^ 16) where
  gap : ℕ
  gap = packed_len (length bytes) - (length bytes + forward_header_len)

  -- The memory after each of the writes.
  with_body : ℕ → ℕ
  with_body = copy forward_header_len bytes mem

  with_length : ℕ → ℕ
  unfolding with_body
  with_length = copy http_c_header_len (bytes32 (htonl (length bytes))) with_body

  with_padding : ℕ → ℕ
  unfolding with_length gap
  with_padding = copy (length bytes + forward_header_len) (zeros gap) with_length

  packed : ℕ → ℕ
  unfolding with_padding
  packed =
      copy 0 (header_bytes (make_header http_c_forward_resp seq (packed_len (length bytes))))
        with_padding

  bounds :
      (websock_min_pack_size ≤ packed_len (length bytes))
      × (packed_len (length bytes) ≤ http_buf_size)
      × (length bytes + forward_header_len ≤ packed_len (length bytes))
  bounds = ground arith

  -- The header is behind everything else.
  behind : (off n : ℕ) → http_c_header_len ≤ off → slice off n packed ≡ slice off n with_padding
  unfolding packed
  behind off n h = slice-copy_above off n 0 _ with_padding (
      omega (
        arith,
        length-header_bytes (make_header http_c_forward_resp seq (packed_len (length bytes))),
      ))

  packed_body : slice forward_header_len (length bytes) packed ≡ bytes
  unfolding with_padding with_length with_body
  packed_body =
      behind forward_header_len (length bytes) (omega arith)
      ∙ slice-copy_below forward_header_len (length bytes) _ (zeros gap) with_length (omega arith)
      ∙ slice-copy_above forward_header_len (length bytes) http_c_header_len _ with_body
          (omega arith)
      ∙ slice-copy forward_header_len bytes mem

  packed_length : slice http_c_header_len 4 packed ≡ bytes32 (htonl (length bytes))
  unfolding with_padding with_length
  packed_length =
      behind http_c_header_len 4 (omega arith)
      ∙ slice-copy_below http_c_header_len 4 _ (zeros gap) with_length (omega arith)
      ∙ slice-copy http_c_header_len (bytes32 (htonl (length bytes))) with_body

  packed_padding : slice (length bytes + forward_header_len) gap packed ≡ zeros gap
  unfolding with_padding
  packed_padding =
      behind _ gap (omega arith)
      ∙ ap (λ n. slice (length bytes + forward_header_len) n with_padding)
          (sym (length-slice 0 gap _))
      ∙ slice-copy (length bytes + forward_header_len) (zeros gap) with_length

  packed_header :
      read_header packed ≡ make_header http_c_forward_resp seq (packed_len (length bytes))
  unfolding packed
  packed_header =
      read_header-copy (make_header http_c_forward_resp seq (packed_len (length bytes)))
        with_padding (omega arith) (omega arith) (omega arith) (omega arith) (omega arith)
        (omega arith)

  packed_buf : Buf
  unfolding packed
  packed_buf = record {
    mem = packed;
    start = 0;
    len = packed_len (length bytes);
    total_len = packed_len (length bytes);
  }

  packed-IsPacked : IsPacked seq bytes packed_buf
  unfolding packed_buf gap
  packed-IsPacked = record {
    header = packed_header;
    announced = packed_length;
    body = packed_body;
    padding = packed_padding;
    from_start = refl;
    shortest = bounds.0;
    longest = bounds.1;
  }

pub pack_forward-IsPacked :
    (b seq : ℕ) (bytes : List ℕ) (m : Mgmt)
    → length bytes + forward_header_len ≤ http_buf_size
    → seq < 2 ^ 16
    → IsPacked seq bytes ((pack_forward b seq bytes m).bufs b)
unfolding pack_forward write_buf set_lengths packed_buf packed with_padding with_length with_body
    gap
pack_forward-IsPacked b seq bytes m fits short =
    subst (IsPacked seq bytes) (ground (arith, ==_refl b))
      (packed-IsPacked seq bytes (m.bufs b).mem fits short)
