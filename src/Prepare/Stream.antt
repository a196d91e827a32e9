-- ===== src/Prepare/Stream.antt =====
-- A whole packet: the message that begins it, and the messages that follow.
use web_tunnel.Base.{
  ℕ, ◌+◌, ◌≤◌, ◌<◌, ◌≡◌, refl, sym, subst, ap, ◌∙◌, ◌≢◌, List, [], ◌∷◌, ◌++◌, append_assoc,
  append-nil, length, length-append, take, none, Outcome, ok, fault, ◌>>=◌, arith,
}
use web_tunnel.State.{Mgmt}
use web_tunnel.Header.{http_buf_size}
use web_tunnel.Prepare.{http_mgmt_prepare}
use web_tunnel.Prepare.Contents.{IsFilling}
use web_tunnel.Prepare.Reassembly.{
  IsReceiving, Received, partly, wholly, http_mgmt_prepare-Received,
}

-- The websocket delivers the messages one after the other.
unfoldable pub receive_all : (Mgmt → Outcome Mgmt) → ℕ → List (List ℕ) → Mgmt → Outcome Mgmt
receive_all process now [] m = ok m
receive_all process now (x ∷ xs) m =
    http_mgmt_prepare process now x m >>= λ r. receive_all process now xs r.0

abbrev pub join : List (List ℕ) → List ℕ
join [] = []
join (x ∷ xs) = x ++ join xs

-- Messages that are not empty, and as short as the program asserts.
abbrev pub AreMessages : List (List ℕ) → Type 0
AreMessages [] = Unit {0}
AreMessages (x ∷ xs) = (x ≢ []) × (length x < http_buf_size) × AreMessages xs

-- `prepare_process` is called on a packet whose buffers hold `packet`, and its outcome is the stream's.
pub record IsProcessed (p : ℕ → ℕ) (process : Mgmt → Outcome Mgmt) (m : Mgmt) (packet : List ℕ)
    (r : Outcome Mgmt) : Type 0 where
  pub at : Mgmt
  pub outcome : r ≡ process at
  pub filled : IsFilling p at none packet
  pub kind : at.buf_prepare.kind ≡ m.buf_prepare.kind
  pub seq : at.buf_prepare.seq ≡ m.buf_prepare.seq

done : (x : Outcome Mgmt) → ((x >>= λ q. ok (q, 0)) >>= λ (r : Mgmt × ℕ). ok r.0) ≡ x
done (ok m) = refl
done (fault e) = refl

free-ne-nil : (xs : List ℕ) → 0 < length xs → xs ≢ []
free-ne-nil xs h e = omega (arith, ap length e)

IsProcessed-from :
    {p : ℕ → ℕ} {process : Mgmt → Outcome Mgmt} {m m' : Mgmt} {packet : List ℕ} {r : Outcome Mgmt}
    → m'.buf_prepare.kind ≡ m.buf_prepare.kind
    → m'.buf_prepare.seq ≡ m.buf_prepare.seq
    → IsProcessed p process m' packet r
    → IsProcessed p process m packet r
IsProcessed-from k s i = record {
  at = i.at;
  outcome = i.outcome;
  filled = i.filled;
  kind = i.kind ∙ k;
  seq = i.seq ∙ s;
}

module _ (process : Mgmt → Outcome Mgmt) (now : ℕ) where
  -- The packet is complete with the message `x`.
  last-IsProcessed :
      {p : ℕ → ℕ} (m : Mgmt) (all : List ℕ) (total : ℕ) (x : List ℕ)
      → total ≤ length all
      → Received p process 1 m all total (http_mgmt_prepare process now x m)
      → IsProcessed p process m (take total all) (receive_all process now (x ∷ []) m)
  unfolding receive_all
  last-IsProcessed m all total x h (partly n e i s) = absurd (omega (arith, i.incomplete))
  last-IsProcessed m all total x h (wholly n e t i s) = record {
    at = n;
    outcome = ap (λ o. o >>= λ (r : Mgmt × ℕ). ok r.0) e ∙ done (process n);
    filled = i;
    kind = s.kind;
    seq = s.seq;
  }

  -- Reception goes on after the message `x`.
  next-IsProcessed :
      {p : ℕ → ℕ} (m : Mgmt) (all packet : List ℕ) (total : ℕ) (x : List ℕ) (xs : List (List ℕ))
      → length all < total
      → Received p process 1 m all total (http_mgmt_prepare process now x m)
      → ((n : Mgmt)
          → IsReceiving p n all total
          → length m.http_buf_caches ≤ length n.http_buf_caches + 1
          → IsProcessed p process n packet (receive_all process now xs n))
      → IsProcessed p process m packet (receive_all process now (x ∷ xs) m)
  unfolding receive_all
  next-IsProcessed {p} m all packet total x xs h (partly n e i s) go =
      subst (IsProcessed p process m packet)
        (sym (ap (λ o. o >>= λ (r : Mgmt × ℕ). receive_all process now xs r.0) e))
        (IsProcessed-from s.kind s.seq (go n i s.free))
  next-IsProcessed m all packet total x xs h (wholly n e t i s) go = absurd (omega arith)

  -- While `total` bytes are received and `got` of them are there, messages arrive of which none but the
  -- last completes the packet, and each finds a free buffer. Then `prepare_process` is called once, at
  -- the last one, with the first `total` bytes of all that came, whatever the messages' sizes.
  pub stream-IsProcessed :
      {p : ℕ → ℕ} (xs : List (List ℕ)) (last : List ℕ) (m : Mgmt) (got : List ℕ) (total : ℕ)
      → IsReceiving p m got total
      → AreMessages (xs ++ last ∷ [])
      → length (got ++ join xs) < total
      → total ≤ length (got ++ join (xs ++ last ∷ []))
      → length xs < length m.http_buf_caches
      → IsProcessed p process m
          (take total (got ++ join (xs ++ last ∷ [])))
          (receive_all process now (xs ++ last ∷ []) m)
  stream-IsProcessed {p} [] last m got total r ms lt ge free =
      subst
        (λ t.
          IsProcessed p process m (take total (got ++ t)) (receive_all process now (last ∷ []) m))
        (sym (append-nil last))
        (last-IsProcessed m (got ++ last) total last (rw (append-nil last) at ge) (
          http_mgmt_prepare-Received process now m got last total r ms.0 ms.1
            (free-ne-nil m.http_buf_caches (omega arith))))
  stream-IsProcessed {p} (x ∷ xs) last m got total r ms lt ge free =
      next-IsProcessed m (got ++ x) _ total x (xs ++ last ∷ [])
        (omega
          (arith, length-append got x, length-append got (x ++ join xs), length-append x (join xs)))
        (http_mgmt_prepare-Received process now m got x total r ms.0 ms.1
          (free-ne-nil m.http_buf_caches (omega arith)))
        λ n i f.
          subst
            (λ t.
              IsProcessed p process n (take total t) (receive_all process now (xs ++ last ∷ []) n))
            (append_assoc got x (join (xs ++ last ∷ [])))
            (stream-IsProcessed xs last n (got ++ x) total i ms.2 (rw append_assoc lt)
              (rw append_assoc ge) (omega (arith, f)))
