-- ===== src/Client/Writing/Stream.antt =====
-- What a client receives from `tcp_client_write`.
use mathlib.Core.Path.{ap₂}
use web_tunnel.Base.{
  ℕ, zero, suc, ◌+◌, ◌/◌, ◌%◌, ◌^◌, ◌<◌, ◌≡◌, refl, sym, ap, ◌∙◌, subst, ◌&&◌, Option, List, [],
  ◌∷◌, ◌++◌, length, some, Outcome, ok, fault, assertion, none, check, Returns, ◌>>=◌, ◌>>◌, arith,
  update, copy, slice, length-slice, slice-copy, update_self, ==_refl, ◌==◌,
}
use web_tunnel.State.{Mgmt, Buf, Effect, TcpClient, emit}
use web_tunnel.Buffers.{write_buf, list_del}
use web_tunnel.Cipher.{encry2, decry2}
use web_tunnel.Cipher.Roundtrip.{decry2-encry2}
use web_tunnel.Cipher.Shape.{encry2-ok}
use web_tunnel.Runtime.{WriteAnswer}
use web_tunnel.Client.Words.{words_of, bytes_of_words, on_words}
use web_tunnel.Client.Words.Laws.{
  AllBytes, words_of-bytes_of_words, bytes_of_words-words_of, words_of-AllWords, length-words_of,
  length-bytes_of_words,
}
use web_tunnel.Client.Writing.{rounded, client_advance, write_client_buf}

-- What a receiver makes of `len` bytes at the time `t`.
unfoldable pub deciphered : ℕ → List ℕ → ℕ → Outcome (List ℕ)
deciphered t bytes len = decry2 t (words_of bytes) (len / 4) >>= λ ws. ok (bytes_of_words ws)

-- The bytes of the buffer, enciphered.
record IsCiphered (t t' : ℕ) (plain : List ℕ) (len : ℕ) (ws : List ℕ) : Type 0 where
  made : encry2 t (words_of plain) (len / 4) ≡ ok ws
  opens : deciphered t' (bytes_of_words ws) len ≡ ok plain
  measured : length (bytes_of_words ws) ≡ len

-- Two steps after a call, one by one.
>>=_assoc :
    {A B C : Type 0} (o : Outcome A) (f : A → Outcome B) (g : B → Outcome C)
    → ((o >>= f) >>= g) ≡ (o >>= λ a. f a >>= g)
>>=_assoc (ok a) f g = refl
>>=_assoc (fault e) f g = refl

module _ (t t' : ℕ) (early : t + 59 < 2 ^ 32) (early' : t' + 59 < 2 ^ 32)
    (minute : (t + 59) / 60 ≡ (t' + 59) / 60) where
  ciphered :
      (plain : List ℕ) (len : ℕ)
      → len % 8 ≡ 0
      → length plain ≡ len
      → AllBytes plain
      → (ws : List ℕ) × IsCiphered t t' plain len ws
  unfolding deciphered
  ciphered plain len whole l bytes =
      let w = words_of-AllWords plain bytes in
      let k = encry2-ok t (words_of plain) (len / 4) (omega arith) w in
      let n = length-words_of (len / 4) plain (omega arith) in
      (
        k.0,
        record {
          made = k.1;
          opens =
              ap (λ v. decry2 t' v (len / 4) >>= λ ws. ok (bytes_of_words ws))
                (words_of-bytes_of_words k.0 k.2)
              ∙ ap (λ o. o >>= λ v. decry2 t' v (len / 4) >>= λ ws. ok (bytes_of_words ws))
                  (sym k.1)
              ∙ sym (>>=_assoc (encry2 t (words_of plain) (len / 4)) _ _)
              ∙ ap (λ o. o >>= λ ws. ok (bytes_of_words ws))
                  (decry2-encry2 t t' (words_of plain) (len / 4) early early' minute (omega arith)
                    w)
              ∙ ap ok (bytes_of_words-words_of (len / 4) plain (omega arith) bytes);
          measured = omega (arith, length-bytes_of_words k.0, k.3, n);
        },
      )

-- The message of `b` was written to the client's socket in one piece, enciphered, and `b` is free.
pub record IsSentCiphered (t' : ℕ) (b : ℕ) (v : TcpClient) (m : Mgmt) (r : TcpClient × Mgmt)
    : Type 0 where
  pub bytes : List ℕ
  pub written : r.1.trace ≡ m.trace ++ Effect.wrote v.client_fd bytes ∷ []
  pub opens :
      deciphered t' bytes (rounded (m.bufs b).len)
      ≡ ok (slice 0 (rounded (m.bufs b).len) (m.bufs b).mem)
  pub freed : r.1.http_buf_caches ≡ b ∷ m.http_buf_caches
  pub left : r.0.buf_write.list_todo ≡ list_del b v.buf_write.list_todo

module _ (t : ℕ) (a : WriteAnswer) (b : ℕ) (v : TcpClient) (m : Mgmt) (ws : List ℕ)
    (made : encry2 t
        (words_of (slice 0 (rounded (m.bufs b).len) (m.bufs b).mem))
        (rounded (m.bufs b).len / 4)
      ≡ ok ws) where
  m1 : Mgmt
  m1 = record m { bufs = update m.bufs b (record (m.bufs b) { len = rounded (m.bufs b).len }) }

  enciphered :
      on_words (encry2 t) b 0 (rounded (m.bufs b).len / 4) m1
      ≡ ok (write_buf b 0 (bytes_of_words ws) m1)
  unfolding on_words m1
  enciphered =
      ap (λ o. o >>= λ (k : List ℕ). ok (write_buf b 0 (bytes_of_words k) m1))
        (ap₂ (λ n (mem : ℕ → ℕ). encry2 t (words_of (slice 0 n mem)) (rounded (m.bufs b).len / 4))
            (omega arith) (ap (λ (u : Buf). u.mem) (update_self m.bufs b _))
          ∙ made)

  m2 : Mgmt
  unfolding m1
  m2 = write_buf b 0 (bytes_of_words ws) m1

  -- The rest of the loop's body.
  rest_of : Option ℕ → Mgmt → Outcome (TcpClient × Mgmt)
  rest_of o k = elim o as (λ _. Outcome (TcpClient × Mgmt)) [
    | none ↦ fault assertion
    | some n ↦
        check (n == rounded (m.bufs b).len && (k.bufs b).start == 0)
        >> ok (
            client_advance b v (
              emit
                (Effect.wrote v.client_fd
                  (slice (k.bufs b).start (rounded (m.bufs b).len) (k.bufs b).mem))
                k))
  ]

  write_client_buf-eq-rest :
      write_client_buf t a b v m ≡ rest_of (a.taken (rounded (m.bufs b).len)) m2
  unfolding write_client_buf m1 m2 rest_of
  write_client_buf-eq-rest = ap (λ o. o >>= rest_of (a.taken (rounded (m.bufs b).len))) enciphered

  module _ (fresh : (m.bufs b).start ≡ 0)
      (all : a.taken (rounded (m.bufs b).len) ≡ some (rounded (m.bufs b).len))
      (measured : length (bytes_of_words ws) ≡ rounded (m.bufs b).len) where
    m2_start : (m2.bufs b).start ≡ 0
    unfolding m2 m1 write_buf
    m2_start = ground (arith, fresh, ==_refl b)

    m2_bytes : slice (m2.bufs b).start (rounded (m.bufs b).len) (m2.bufs b).mem ≡ bytes_of_words ws
    unfolding m2 m1 write_buf
    m2_bytes =
        ap₂ (λ s (mem : ℕ → ℕ). slice s (rounded (m.bufs b).len) mem) m2_start
          (ap (λ (u : Buf). u.mem) (update_self m1.bufs b _))
        ∙ ap (λ n. slice 0 n (copy 0 (bytes_of_words ws) (m1.bufs b).mem)) (sym measured)
        ∙ slice-copy 0 (bytes_of_words ws) (m1.bufs b).mem

    rest-eq-ok :
        rest_of (a.taken (rounded (m.bufs b).len)) m2
        ≡ ok (client_advance b v (emit (Effect.wrote v.client_fd (bytes_of_words ws)) m2))
    unfolding rest_of
    rest-eq-ok =
        ap (λ o. rest_of o m2) all ∙ rw (m2_bytes, m2_start, ==_refl (rounded (m.bufs b).len))

    sent-IsSentCiphered :
        (t' : ℕ)
        → deciphered t' (bytes_of_words ws) (rounded (m.bufs b).len)
          ≡ ok (slice 0 (rounded (m.bufs b).len) (m.bufs b).mem)
        → Returns (IsSentCiphered t' b v m) (write_client_buf t a b v m)
    unfolding client_advance m2 m1 write_buf
    sent-IsSentCiphered t' o =
        subst (Returns (IsSentCiphered t' b v m)) (sym (write_client_buf-eq-rest ∙ rest-eq-ok))
          (record {
            bytes = bytes_of_words ws;
            written = refl;
            opens = o;
            freed = refl;
            left = refl;
          })

AllBytes-slice : (off n : ℕ) (mem : ℕ → ℕ) → ((i : ℕ) → mem i < 256) → AllBytes (slice off n mem)
unfolding slice
AllBytes-slice off zero mem h = tt
AllBytes-slice off (suc n) mem h = (h off, AllBytes-slice (off + 1) n mem h)

-- Let a buffer of bytes start at 0, and `write` take its whole length, rounded up to a multiple of 8.
-- Writing it to a client at a time `t`, at which 59 seconds are left to the clock's 2^32, does not fail;
-- it writes one piece of data, from which a receiver at such a time `t'` gets back the message of the
-- rounded length, if both clocks round up to the same minute; the buffer leaves the list and is free.
pub write_client_buf-IsSentCiphered :
    (t t' : ℕ) (a : WriteAnswer) (b : ℕ) (v : TcpClient) (m : Mgmt)
    → t + 59 < 2 ^ 32
    → t' + 59 < 2 ^ 32
    → (t + 59) / 60 ≡ (t' + 59) / 60
    → (m.bufs b).start ≡ 0
    → ((i : ℕ) → (m.bufs b).mem i < 256)
    → a.taken (rounded (m.bufs b).len) ≡ some (rounded (m.bufs b).len)
    → Returns (IsSentCiphered t' b v m) (write_client_buf t a b v m)
write_client_buf-IsSentCiphered t t' a b v m early early' minute fresh bytes all =
    let c =
      ciphered t t' early early' minute (slice 0 (rounded (m.bufs b).len) (m.bufs b).mem)
        (rounded (m.bufs b).len) (omega arith)
        (length-slice 0 (rounded (m.bufs b).len) (m.bufs b).mem)
        (AllBytes-slice 0 (rounded (m.bufs b).len) (m.bufs b).mem bytes) in
    sent-IsSentCiphered t a b v m c.0 c.1.made fresh all c.1.measured t' c.1.opens
