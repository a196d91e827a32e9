-- ===== src/Prepare/Reassembly.antt =====
-- A packet is put together from its messages, however it is cut.
use web_tunnel.Base.{
  ℕ, suc, ◌+◌, ◌-◌, ◌≤◌, ◌<◌, ◌≡◌, refl, sym, ap, ◌∙◌, subst, ◌≢◌, true, List, [], ◌∷◌, ◌++◌,
  length, take, Option, none, some, Outcome, ok, ◌>>=◌, arith, le→leb, lt→leb, le→ltb, lt→ltb,
}
use native.Mathlib.Decide.{dec_le}
use web_tunnel.State.{Mgmt}
use web_tunnel.Buffers.{taken, alloc_buf-some}
use web_tunnel.Header.{http_buf_size}
use web_tunnel.Prepare.{
  save_prepare, set_start, set_curr, fill, append_bytes, loop_body, prepare_loop, http_mgmt_prepare,
}
use web_tunnel.Prepare.Contents.{
  IsFilling, taken-IsFilling, save_prepare-IsFilling, fill-IsFilling, set_start-IsFilling,
}

-- A packet of `total` bytes is being received, and its bytes `got` are there.
pub record IsReceiving (p : ℕ → ℕ) (m : Mgmt) (got : List ℕ) (total : ℕ) : Type 0 where
  pub synced : m.sync_prepare ≡ true
  pub filling : IsFilling p m m.buf_prepare.curr got
  pub announced : m.buf_prepare.total_len ≡ total
  pub incomplete : length got < total

-- What stays of the packet's header, and the free buffers, of which `k` are used at most.
pub record IsSamePacket (k : ℕ) (m n : Mgmt) : Type 0 where
  pub kind : n.buf_prepare.kind ≡ m.buf_prepare.kind
  pub seq : n.buf_prepare.seq ≡ m.buf_prepare.seq
  pub free : length m.http_buf_caches ≤ length n.http_buf_caches + k

-- The outcome once the bytes `all` are there: the packet is incomplete and reception goes on, or
-- `prepare_process` is called on the packet's `total` bytes.
pub data Received (p : ℕ → ℕ) (process : Mgmt → Outcome Mgmt) (k : ℕ) (m : Mgmt) (all : List ℕ)
    (total : ℕ) (r : Outcome (Mgmt × ℕ)) : Type 0 where
  partly :
      (n : Mgmt)
      → r ≡ ok (n, 0)
      → IsReceiving p n all total
      → IsSamePacket k m n
      → Received p process k m all total r
  wholly :
      (n : Mgmt)
      → r ≡ (process n >>= λ q. ok (q, 0))
      → total ≤ length all
      → IsFilling p n none (take total all)
      → IsSamePacket k m n
      → Received p process k m all total r

taken_start :
    (m : Mgmt) (b : ℕ) (bs : List ℕ) → ((set_curr (some b) (taken m b bs)).bufs b).start ≡ 0
unfolding set_curr taken
taken_start m b bs = ground arith

Received-from :
    {p : ℕ → ℕ} {process : Mgmt → Outcome Mgmt} {k k' : ℕ} {m m' : Mgmt} {all : List ℕ} {total : ℕ}
    {r : Outcome (Mgmt × ℕ)}
    → m'.buf_prepare.kind ≡ m.buf_prepare.kind
    → m'.buf_prepare.seq ≡ m.buf_prepare.seq
    → length m.http_buf_caches + k' ≤ length m'.http_buf_caches + k
    → Received p process k' m' all total r
    → Received p process k m all total r
Received-from k s c (partly n e i h) =
    partly n e i (record { kind = h.kind ∙ k; seq = h.seq ∙ s; free = omega (arith, h.free) })
Received-from k s c (wholly n e t i h) =
    wholly n e t i (record { kind = h.kind ∙ k; seq = h.seq ∙ s; free = omega (arith, h.free) })

List-cases : (xs : List ℕ) → xs ≢ [] → (y : ℕ) × (ys : List ℕ) × (xs ≡ y ∷ ys)
List-cases [] h = absurd (h refl)
List-cases (y ∷ ys) h = (y, ys, refl)

module _ (process : Mgmt → Outcome Mgmt) where
  -- The packet that `append_bytes` hands on.
  pub handed_on : Mgmt → ℕ → List ℕ → Mgmt
  handed_on m b bytes =
      let n = fill b bytes m in
      let start = (n.bufs b).start in
      save_prepare b (set_start b (start - (start + n.buf_prepare.len - n.buf_prepare.total_len)) n)

  pub append_bytes-wholly :
      (m : Mgmt) (b : ℕ) (bytes : List ℕ)
      → m.buf_prepare.total_len ≤ ((fill b bytes m).bufs b).start + m.buf_prepare.len
      → append_bytes process b bytes m ≡ (process (handed_on m b bytes) >>= λ q. ok (q, 0))
  unfolding append_bytes handed_on fill
  append_bytes-wholly m b bytes h = rw (le→leb _ _ h)

  pub append_bytes-partly :
      (m : Mgmt) (b : ℕ) (bytes : List ℕ)
      → ((fill b bytes m).bufs b).start + m.buf_prepare.len < m.buf_prepare.total_len
      → append_bytes process b bytes m ≡ ok (fill b bytes m, 0)
  unfolding append_bytes fill
  append_bytes-partly m b bytes h = rw (lt→leb _ _ h)

  append_bytes-Received :
      {p : ℕ → ℕ} (m : Mgmt) (b : ℕ) (got bytes : List ℕ)
      → IsFilling p m (some b) got
      → m.sync_prepare ≡ true
      → length got < m.buf_prepare.total_len
      → (m.bufs b).start + length bytes ≤ http_buf_size
      → Received p process 0 m
          (got ++ bytes)
          m.buf_prepare.total_len
          (append_bytes process b bytes m)
  unfolding fill set_start save_prepare handed_on
  append_bytes-Received {p} m b got bytes f on lt fits =
      elim (dec_le m.buf_prepare.total_len (length (got ++ bytes))) [
        | yes h ↦
            wholly (handed_on m b bytes) (append_bytes-wholly m b bytes (omega (arith, g.counted)))
              h
              (save_prepare-IsFilling _ b _ (
                set_start-IsFilling n b m.buf_prepare.total_len (got ++ bytes) g
                  (omega (arith, f.counted)) h))
              same
        | no h ↦
            partly n (append_bytes-partly m b bytes (omega (arith, g.counted)))
              (record {
                synced = on;
                filling = subst (λ i. IsFilling p n i (got ++ bytes)) (sym g.current) g;
                announced = refl;
                incomplete = omega arith;
              })
              (record { kind = refl; seq = refl; free = omega arith })
      ]
    where
      n : Mgmt
      n = fill b bytes m

      g : IsFilling p n (some b) (got ++ bytes)
      g = fill-IsFilling m b got bytes f fits

      same : IsSamePacket 0 m (handed_on m b bytes)
      same = record { kind = refl; seq = refl; free = omega arith }

  -- A round with no current buffer, where one is free.
  loop-none :
      (r : ℕ) (m : Mgmt) (b : ℕ) (bs bytes : List ℕ)
      → m.http_buf_caches ≡ b ∷ bs
      → length bytes ≤ http_buf_size
      → prepare_loop process (suc r) none bytes m
        ≡ append_bytes process b bytes (set_curr (some b) (taken m b bs))
  unfolding prepare_loop loop_body
  loop-none r m b bs bytes e h = ground (arith, alloc_buf-some m b bs, taken_start m b bs)

  -- A round whose buffer takes the bytes, and one whose buffer does not.
  pub loop-fits :
      (r : ℕ) (m : Mgmt) (b : ℕ) (bytes : List ℕ)
      → (m.bufs b).start + length bytes ≤ http_buf_size
      → prepare_loop process (suc r) (some b) bytes m ≡ append_bytes process b bytes m
  unfolding prepare_loop loop_body
  loop-fits r m b bytes h = rw (le→ltb _ _ h)

  loop-full :
      (r : ℕ) (m : Mgmt) (b : ℕ) (bytes : List ℕ)
      → http_buf_size < (m.bufs b).start + length bytes
      → prepare_loop process (suc r) (some b) bytes m
        ≡ prepare_loop process r none bytes (save_prepare b m)
  unfolding prepare_loop loop_body save_prepare
  loop-full r m b bytes h = rw (lt→ltb _ _ h)

  none-Received :
      {p : ℕ → ℕ} (r : ℕ) (m : Mgmt) (b : ℕ) (bs got bytes : List ℕ)
      → IsFilling p m none got
      → m.sync_prepare ≡ true
      → length got < m.buf_prepare.total_len
      → m.http_buf_caches ≡ b ∷ bs
      → length bytes ≤ http_buf_size
      → Received p process 1 m
          (got ++ bytes)
          m.buf_prepare.total_len
          (prepare_loop process (suc r) none bytes m)
  unfolding set_curr taken
  none-Received r m b bs got bytes f on lt e h = rw (loop-none r m b bs bytes e h) (
      Received-from refl refl (omega (arith, ap length e)) (
        append_bytes-Received (set_curr (some b) (taken m b bs)) b got bytes
          (taken-IsFilling m b bs got f e) on lt (omega (arith, taken_start m b bs))))

  some-Received :
      {p : ℕ → ℕ} (m : Mgmt) (b c : ℕ) (cs got bytes : List ℕ)
      → IsFilling p m (some b) got
      → m.sync_prepare ≡ true
      → length got < m.buf_prepare.total_len
      → m.http_buf_caches ≡ c ∷ cs
      → length bytes ≤ http_buf_size
      → Received p process 1 m
          (got ++ bytes)
          m.buf_prepare.total_len
          (prepare_loop process 2 (some b) bytes m)
  unfolding save_prepare
  some-Received m b c cs got bytes f on lt e h =
      elim (dec_le ((m.bufs b).start + length bytes) http_buf_size) [
        | yes fits ↦ rw (loop-fits 1 m b bytes fits) (
            Received-from refl refl (omega arith)
              (append_bytes-Received m b got bytes f on lt fits))
        | no full ↦ rw (loop-full 1 m b bytes (omega arith)) (
            Received-from refl refl (omega arith) (
              none-Received 0 (save_prepare b m) c cs got bytes (save_prepare-IsFilling m b got f)
                on lt e h))
      ]

  prepare_loop-Received :
      {p : ℕ → ℕ} (m : Mgmt) (info : Option ℕ) (c : ℕ) (cs got bytes : List ℕ)
      → IsFilling p m info got
      → m.sync_prepare ≡ true
      → length got < m.buf_prepare.total_len
      → m.http_buf_caches ≡ c ∷ cs
      → length bytes ≤ http_buf_size
      → Received p process 1 m
          (got ++ bytes)
          m.buf_prepare.total_len
          (prepare_loop process 2 info bytes m)
  prepare_loop-Received m none c cs got bytes f = none-Received 1 m c cs got bytes f
  prepare_loop-Received m (some b) c cs got bytes f = some-Received m b c cs got bytes f

  http_mgmt_prepare-eq_loop :
      (now : ℕ) (m : Mgmt) (bytes : List ℕ)
      → bytes ≢ []
      → length bytes < http_buf_size
      → m.sync_prepare ≡ true
      → http_mgmt_prepare process now bytes m ≡ prepare_loop process 2 m.buf_prepare.curr bytes m
  unfolding http_mgmt_prepare
  http_mgmt_prepare-eq_loop now m [] full short on = absurd (full refl)
  http_mgmt_prepare-eq_loop now m (x ∷ bytes) full short on = ground arith

  -- While a packet is being received, where a buffer is free and each stands in one place at most, a
  -- message that is not empty and below 2048 bytes is taken: its bytes are put behind those that are
  -- there, and `prepare_process` is called exactly if the packet is complete, on the packet's bytes and no
  -- others. No buffer is lost or taken twice, and one more is used at most.
  pub http_mgmt_prepare-Received :
      {p : ℕ → ℕ} (now : ℕ) (m : Mgmt) (got bytes : List ℕ) (total : ℕ)
      → IsReceiving p m got total
      → bytes ≢ []
      → length bytes < http_buf_size
      → m.http_buf_caches ≢ []
      → Received p process 1 m (got ++ bytes) total (http_mgmt_prepare process now bytes m)
  http_mgmt_prepare-Received {p} now m got bytes total r full short free =
      let c = List-cases m.http_buf_caches free in
      rw (http_mgmt_prepare-eq_loop now m bytes full short r.synced) (
        subst
          (λ t.
            Received p process 1 m (got ++ bytes) t
              (prepare_loop process 2 m.buf_prepare.curr bytes m))
          r.announced
          (prepare_loop-Received m m.buf_prepare.curr c.0 c.1 got bytes r.filling r.synced
            (omega (arith, r.announced, r.incomplete)) c.2 (omega arith)))
