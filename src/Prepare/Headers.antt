-- ===== src/Prepare/Headers.antt =====
-- The message that begins a packet.
use mathlib.Core.Path.{ap₂}
use web_tunnel.Base.{
  ℕ, suc, ◌+◌, ◌-◌, ◌≤◌, ◌<◌, ◌^◌, ◌≡◌, refl, sym, subst, ap, ◌∙◌, false, List, [], ◌∷◌, ◌++◌,
  length, length-append, drop, take, count-append, Option, none, Outcome, ◌>>=◌, arith, lt→ltb,
}
use web_tunnel.State.{Mgmt}
use web_tunnel.Buffers.{free_buf}
use web_tunnel.Buffers.Ledger.{places}
use web_tunnel.Header.{
  header_bytes, read_header, make_header, http_c_header_len, http_buf_size, http_in_max,
}
use web_tunnel.Header.Roundtrip.{
  read_header-append, htonl_twice, htons_twice, length-header_bytes, drop-header_bytes,
}
use web_tunnel.Prepare.{
  http_mgmt_prepare, sync_header, receive, receive_first, release_prepare, begin_packet, memory,
}
use web_tunnel.Prepare.Contents.{IsFilling, payload}
use web_tunnel.Prepare.Reassembly.{IsReceiving}
use web_tunnel.Prepare.Stream.{receive_all, join, AreMessages, IsProcessed, stream-IsProcessed}

-- The first message of a packet of `total` bytes, as the server writes it, with the bytes `body`.
abbrev pub first_message : ℕ → ℕ → ℕ → List ℕ → List ℕ
first_message kind seq total body =
    header_bytes (make_header kind seq (total + http_c_header_len)) ++ body

-- No packet is being received, and there is no current buffer; each buffer stands in as many places as
-- `p` says, and in one at most.
pub record IsBetween (p : ℕ → ℕ) (m : Mgmt) : Type 0 where
  pub unsynced : m.sync_prepare ≡ false
  pub no_current : m.buf_prepare.curr ≡ none
  pub owned : (a : ℕ) → places m a ≡ p a
  pub once : (a : ℕ) → p a ≤ 1

-- The state that the header leads to.
unfoldable pub started : ℕ → ℕ → ℕ → ℕ → Mgmt → Mgmt
started now kind seq total m = begin_packet now total kind seq (release_prepare m)

started-IsReceiving :
    {p : ℕ → ℕ} (now kind seq total : ℕ) (m : Mgmt)
    → IsBetween p m
    → 0 < total
    → IsReceiving p (started now kind seq total m) [] total
unfolding started begin_packet release_prepare payload
started-IsReceiving now kind seq total m b h = record {
  synced = refl;
  filling = record {
    current = refl;
    contents = refl;
    counted = omega arith;
    room = omega arith;
    owned = λ a.
        ground (
          arith,
          b.owned a,
          b.no_current,
          count-append a m.buf_prepare.list_todo m.http_buf_caches,
        );
    once = b.once;
  };
  announced = refl;
  incomplete = h;
}

module _ (process : Mgmt → Outcome Mgmt) (now : ℕ) where
  accepted-eq_receive :
      (info : Option ℕ) (buf : List ℕ) (m : Mgmt) (kind seq len : ℕ)
      → read_header (memory buf) ≡ make_header kind seq len
      → http_c_header_len ≤ length buf
      → seq < 2 ^ 16
      → http_c_header_len ≤ len
      → len ≤ http_in_max
      → sync_header process now info buf m
        ≡ receive_first process info
            (drop http_c_header_len buf)
            (begin_packet now (len - http_c_header_len) kind seq (release_prepare m))
  unfolding sync_header
  accepted-eq_receive info buf m kind seq len e long s lo hi =
      ground (arith, e, htonl_twice len, htons_twice seq)

  unsynced-eq_header :
      (buf : List ℕ) (m : Mgmt)
      → length buf < http_buf_size
      → m.sync_prepare ≡ false
      → http_mgmt_prepare process now buf m ≡ sync_header process now m.buf_prepare.curr buf m
  unfolding http_mgmt_prepare
  unsynced-eq_header buf m h off = ground arith

  pub first-eq_receive :
      (kind seq total : ℕ) (body : List ℕ) (m : Mgmt)
      → kind < 256
      → seq < 2 ^ 16
      → total + http_c_header_len ≤ http_in_max
      → length body + http_c_header_len < http_buf_size
      → m.sync_prepare ≡ false
      → http_mgmt_prepare process now (first_message kind seq total body) m
        ≡ receive_first process m.buf_prepare.curr body (started now kind seq total m)
  unfolding started
  first-eq_receive kind seq total body m k s t l off =
      unsynced-eq_header (first_message kind seq total body) m (omega (arith, len)) off
      ∙ accepted-eq_receive m.buf_prepare.curr (first_message kind seq total body) m kind seq
          (total + http_c_header_len) (read_header-append kind seq _ body _ k s (omega arith))
          (omega (arith, len)) s (omega arith) t
      ∙ same
    where
      len : length (first_message kind seq total body) ≡ http_c_header_len + length body
      len = omega (
        arith,
        length-append (header_bytes (make_header kind seq (total + http_c_header_len))) body,
        length-header_bytes (make_header kind seq (total + http_c_header_len)),
      )

      total_left : total + http_c_header_len - http_c_header_len ≡ total
      total_left = omega arith

      same :
          receive_first process m.buf_prepare.curr
            (drop http_c_header_len (first_message kind seq total body))
            (begin_packet now
              (total + http_c_header_len - http_c_header_len)
              kind
              seq
              (release_prepare m))
          ≡ receive_first process m.buf_prepare.curr body
              (begin_packet now total kind seq (release_prepare m))
      same =
          ap₂
            (λ l t.
              receive_first process m.buf_prepare.curr l
                (begin_packet now t kind seq (release_prepare m)))
            (drop-header_bytes (make_header kind seq (total + http_c_header_len)) body) total_left

  -- What the header's message leaves to be received.
  abbrev pieces : List ℕ → List (List ℕ)
  pieces [] = []
  pieces (x ∷ xs) = (x ∷ xs) ∷ []

  receive-eq_prepare :
      (x : ℕ) (xs : List ℕ) (kind seq total : ℕ) (m : Mgmt)
      → suc (length xs) < http_buf_size
      → receive process none (x ∷ xs) (started now kind seq total m)
        ≡ http_mgmt_prepare process now (x ∷ xs) (started now kind seq total m)
  unfolding http_mgmt_prepare started begin_packet release_prepare
  receive-eq_prepare x xs kind seq total m h = rw (lt→ltb _ _ h)

  pieces-eq :
      (kind seq total : ℕ) (body : List ℕ) (rest : List (List ℕ)) (m : Mgmt)
      → length body < http_buf_size
      → (receive process none body (started now kind seq total m) >>= λ r.
          receive_all process now rest r.0)
        ≡ receive_all process now (pieces body ++ rest) (started now kind seq total m)
  unfolding receive_all receive
  pieces-eq kind seq total [] rest m h = refl
  pieces-eq kind seq total (x ∷ xs) rest m h =
      ap (λ o. o >>= λ (r : Mgmt × ℕ). receive_all process now rest r.0)
        (receive-eq_prepare x xs kind seq total m h)

  pieces-messages :
      (body : List ℕ) (xs : List (List ℕ))
      → length body < http_buf_size
      → AreMessages xs
      → AreMessages (pieces body ++ xs)
  pieces-messages [] xs h a = a
  pieces-messages (x ∷ body) xs h a = ((λ e. cc), h, a)

  pieces-join : (body : List ℕ) (xs : List (List ℕ)) → join (pieces body ++ xs) ≡ body ++ join xs
  pieces-join [] xs = refl
  pieces-join (x ∷ body) xs = refl

  length-pieces : (body : List ℕ) (xs : List (List ℕ)) → length (pieces body ++ xs) ≤ length xs + 1
  length-pieces [] xs = omega arith
  length-pieces (x ∷ body) xs = omega arith

  pieces-append :
      (body : List ℕ) (xs ys : List (List ℕ))
      → (pieces body ++ xs) ++ ys ≡ pieces body ++ (xs ++ ys)
  pieces-append [] xs ys = refl
  pieces-append (x ∷ body) xs ys = refl

  started-free :
      (kind seq total : ℕ) (m : Mgmt)
      → length m.http_buf_caches ≤ length (started now kind seq total m).http_buf_caches
  unfolding started begin_packet release_prepare
  started-free kind seq total m = ground (
    arith,
    length-append m.buf_prepare.list_todo m.http_buf_caches,
    length-append m.buf_prepare.list_todo (free_buf m.buf_prepare.curr m).http_buf_caches,
  )

  -- Between two packets, with no current buffer and each buffer in one place at most, a message below 2048
  -- bytes arrives with the whole header of a packet of 1 byte or more, at most 20480 with the header, and
  -- the bytes `body`, which do not complete it. Other messages follow, none empty and each below 2048
  -- bytes, of which the last and no other completes the packet; more buffers are free than messages
  -- follow. Then `prepare_process` is called once, at the last message, with the header's kind and
  -- sequence number and exactly the packet's bytes, however the messages cut them behind the header; no
  -- buffer is lost or stands in two places. The stream's outcome is that of the call.
  pub packet-IsFilling :
      {p : ℕ → ℕ} (kind seq total : ℕ) (body : List ℕ) (xs : List (List ℕ)) (last : List ℕ)
      (m : Mgmt)
      → IsBetween p m
      → kind < 256
      → seq < 2 ^ 16
      → 0 < total
      → total + http_c_header_len ≤ http_in_max
      → length body + http_c_header_len < http_buf_size
      → AreMessages (xs ++ last ∷ [])
      → length (body ++ join xs) < total
      → total ≤ length (body ++ join (xs ++ last ∷ []))
      → length xs + 1 < length m.http_buf_caches
      → (n : Mgmt) × (receive_all process now
            (first_message kind seq total body ∷ xs ++ last ∷ [])
            m
          ≡ process n)
        × IsFilling p n none (take total (body ++ join (xs ++ last ∷ [])))
        × (n.buf_prepare.kind ≡ kind)
        × (n.buf_prepare.seq ≡ seq)
  unfolding receive_all receive_first started begin_packet
  packet-IsFilling {p} kind seq total body xs last m b k s pos max short ms lt ge free = (
    done.at,
    ap (λ o. o >>= λ (r : Mgmt × ℕ). receive_all process now (xs ++ last ∷ []) r.0)
          (first-eq_receive kind seq total body m k s max short b.unsynced
            ∙ ap (λ i. receive_first process i body n0) b.no_current)
        ∙ pieces-eq kind seq total body (xs ++ last ∷ []) m (omega arith)
        ∙ ap (λ l. receive_all process now l n0) (sym (pieces-append body xs (last ∷ [])))
        ∙ done.outcome,
    subst (λ l. IsFilling p done.at none (take total l)) pieces_all done.filled,
    done.kind,
    done.seq,
  )
    where
      n0 : Mgmt
      n0 = started now kind seq total m

      pieces_all : join ((pieces body ++ xs) ++ last ∷ []) ≡ body ++ join (xs ++ last ∷ [])
      pieces_all = ap join (pieces-append body xs (last ∷ [])) ∙ pieces-join body (xs ++ last ∷ [])

      done :
          IsProcessed p process n0
            (take total (join ((pieces body ++ xs) ++ last ∷ [])))
            (receive_all process now ((pieces body ++ xs) ++ last ∷ []) n0)
      done =
          stream-IsProcessed process now (pieces body ++ xs) last n0 [] total
            (started-IsReceiving now kind seq total m b pos)
            (rw (pieces-append body xs (last ∷ []))
              (pieces-messages body (xs ++ last ∷ []) (omega arith) ms))
            (rw (pieces-join body xs) lt) (rw pieces_all ge)
            (omega (arith, length-pieces body xs, started-free kind seq total m))
