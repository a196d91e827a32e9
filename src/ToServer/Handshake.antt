-- ===== src/ToServer/Handshake.antt =====
-- The message with which `http_mgmt_handshake` introduces the client.
use web_tunnel.Base.{
  ℕ, zero, suc, ◌+◌, ◌*◌, ◌/◌, ◌%◌, ◌^◌, ◌≤◌, ◌<◌, ◌≡◌, refl, sym, ap, ◌∙◌, subst, true, List, [],
  ◌∷◌, ◌++◌, length, length-append, Option, Outcome, ok, deref, Returns, ◌>>=◌, arith, ==_refl,
  copy, slice, slice-copy, copy_below,
}
use web_tunnel.State.{Mgmt}
use web_tunnel.Buffers.{alloc_buf, alloc_buf-some, taken, write_buf, set_lengths, next_buf_info}
use web_tunnel.Header.{header_bytes, read_header, make_header, http_c_hand, http_c_header_len}
use web_tunnel.Header.Roundtrip.{read_header-copy, read_header_ext}
use web_tunnel.ToServer.{
  http_mgmt_handshake, shake_text, decimal, decimal_digits, fill_shake, codes,
}
use web_tunnel.ToServer.Queue.{IsSending}

-- The head of the queue is the handshake, whose text names the user, the host and the port.
pub record IsHandshake (m : Mgmt) (b : ℕ) (bs : List ℕ) (n : Mgmt) : Type 0 where
  pub text : List ℕ
  pub announces :
      text
      ≡ codes "{\"username\":\""
        ++ m.username
        ++ codes "\",\"host\":\""
        ++ m.local_host
        ++ codes "\",\"port\":"
        ++ decimal m.local_port
        ++ codes "}"
  pub header :
      read_header (n.bufs b).mem ≡ make_header http_c_hand 0 (length text + http_c_header_len)
  pub stored : slice http_c_header_len (length text) (n.bufs b).mem ≡ text
  pub whole : (n.bufs b).len ≡ length text + http_c_header_len
  pub first : n.buf_toserver.list_todo ≡ b ∷ m.buf_toserver.list_todo
  pub running : n.toserver ≡ true
  pub sending : IsSending n
  pub free : n.http_buf_caches ≡ bs

-- What the function leaves, once the buffer `b` is taken.
with_handshake : ℕ → List ℕ → Mgmt → Mgmt
with_handshake b shake m =
    let len = length shake + http_c_header_len in
    let m1 = write_buf b 0 (header_bytes (make_header http_c_hand 0 len)) m in
    let m2 = set_lengths b 0 len len (write_buf b http_c_header_len shake m1) in
    record m2 {
      buf_toserver = record (m2.buf_toserver) {
        list_todo = b ∷ m2.buf_toserver.list_todo;
        curr = next_buf_info (b ∷ m2.buf_toserver.list_todo);
      };
      toserver = true;
    }

length-decimal_digits :
    (k f n : ℕ) (acc : List ℕ)
    → n < f
    → n < 10 * 10 ^ k
    → length (decimal_digits f n acc) ≤ k + 1 + length acc
unfolding decimal_digits
length-decimal_digits k zero n acc h b = absurd (omega arith)
length-decimal_digits zero (suc f) n acc h b = ground arith
length-decimal_digits (suc k) (suc f) n acc h b =
    let power : 10 ^ suc k ≡ 10 * 10 ^ k = omega arith in
    let less : n / 10 < 10 * 10 ^ k = omega arith in
    ground (arith, less, length-decimal_digits k f (n / 10) ((48 + n % 10) ∷ acc))

length-decimal : (n : ℕ) → n < 2 ^ 16 → length (decimal n) ≤ 5
unfolding decimal
length-decimal n h = length-decimal_digits 4 (suc n) n [] (omega arith) (omega arith)

length-parts :
    (a b c d e g h : List ℕ)
    → length (a ++ b ++ c ++ d ++ e ++ g ++ h)
      ≡ length a + length b + length c + length d + length e + length g + length h
length-parts a b c d e g h =
    rw
      (
        length-append (a ++ b ++ c ++ d ++ e ++ g) h,
        length-append (a ++ b ++ c ++ d ++ e) g,
        length-append (a ++ b ++ c ++ d) e,
        length-append (a ++ b ++ c) d,
        length-append (a ++ b) c,
        length-append a b,
      )
      refl

-- The text fits into the array if the names do into theirs.
length-shake_text :
    (m : Mgmt)
    → length m.username < 128
    → length m.local_host < 128
    → m.local_port < 2 ^ 16
    → length (shake_text m) < 512
unfolding shake_text
length-shake_text m u l p =
    let d = length-decimal m.local_port p in
    rw
      (length-parts (codes "{\"username\":\"") m.username (codes "\",\"host\":\"") m.local_host
        (codes "\",\"port\":") (decimal m.local_port) (codes "}"))
      (omega arith)

fill_shake-ok : (text : List ℕ) → length text < 512 → fill_shake text ≡ ok text
unfolding fill_shake
fill_shake-ok text h = ground arith

http_mgmt_handshake-eq-ok :
    (m : Mgmt) (b : ℕ) (bs : List ℕ)
    → length (shake_text m) < 512
    → m.http_buf_caches ≡ b ∷ bs
    → http_mgmt_handshake m ≡ ok (with_handshake b (shake_text m) (taken m b bs))
unfolding http_mgmt_handshake with_handshake
http_mgmt_handshake-eq-ok m b bs fits e =
    ap (λ (o : Outcome (List ℕ)). o >>= finish (alloc_buf m)) (fill_shake-ok (shake_text m) fits)
    ∙ ap (λ r. finish r (shake_text m)) (alloc_buf-some m b bs e)
  where
    finish : Mgmt × Option ℕ → List ℕ → Outcome Mgmt
    finish r shake = deref r.1 >>= λ c. ok (with_handshake c shake r.0)

-- The memory of the buffer.
shake_mem : List ℕ → (ℕ → ℕ) → ℕ → ℕ
shake_mem shake mem =
    copy http_c_header_len shake
      (copy 0 (header_bytes (make_header http_c_hand 0 (length shake + http_c_header_len))) mem)

shake_mem_text :
    (shake : List ℕ) (mem : ℕ → ℕ)
    → slice http_c_header_len (length shake) (shake_mem shake mem) ≡ shake
unfolding shake_mem
shake_mem_text shake mem = slice-copy http_c_header_len shake _

with_handshake-mem :
    (m : Mgmt) (b : ℕ) (bs shake : List ℕ)
    → ((with_handshake b shake (taken m b bs)).bufs b).mem ≡ shake_mem shake (m.bufs b).mem
unfolding with_handshake write_buf set_lengths taken shake_mem
with_handshake-mem m b bs shake = rw (==_refl b) refl

shake_mem_header :
    (shake : List ℕ) (mem : ℕ → ℕ)
    → read_header (shake_mem shake mem)
      ≡ make_header http_c_hand 0 (length shake + http_c_header_len)
unfolding shake_mem
shake_mem_header shake mem =
    read_header_ext _ _ (λ i h. copy_below http_c_header_len shake _ i h)
    ∙ read_header-copy (make_header http_c_hand 0 (length shake + http_c_header_len)) mem
        (omega arith) (omega arith) (omega arith) (omega arith) (omega arith) (omega arith)

-- With a free buffer, names shorter than 128 bytes and a port below 2^16, `http_mgmt_handshake` does not
-- fail: the buffer holds the message, a header with its length and the text
-- {"username":"U","host":"H","port":P} for the user U, the local host H and the local port P in decimal;
-- it is put before the messages that wait, the queue is well formed, and the writer runs.
pub http_mgmt_handshake-IsHandshake :
    (m : Mgmt) (b : ℕ) (bs : List ℕ)
    → length m.username < 128
    → length m.local_host < 128
    → m.local_port < 2 ^ 16
    → m.http_buf_caches ≡ b ∷ bs
    → Returns (IsHandshake m b bs) (http_mgmt_handshake m)
unfolding with_handshake write_buf set_lengths taken shake_text
http_mgmt_handshake-IsHandshake m b bs u l p e =
    subst (Returns (IsHandshake m b bs))
      (sym (http_mgmt_handshake-eq-ok m b bs (length-shake_text m u l p) e))
      (record {
        header = ap read_header (mem_eq) ∙ shake_mem_header (shake_text m) (m.bufs b).mem;
        text = shake_text m;
        announces = refl;
        stored =
            ap (slice http_c_header_len (length (shake_text m))) mem_eq
            ∙ shake_mem_text (shake_text m) (m.bufs b).mem;
        whole = ground (arith, ==_refl b);
        first = refl;
        running = refl;
        sending = record { running = λ h. refl; busy = λ h k. cc; stopped = λ h. cc };
        free = refl;
      })
  where
    mem_eq :
        ((with_handshake b (shake_text m) (taken m b bs)).bufs b).mem
        ≡ shake_mem (shake_text m) (m.bufs b).mem
    mem_eq = with_handshake-mem m b bs (shake_text m)
