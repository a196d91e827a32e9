-- ===== src/Consistent/Searches.antt =====
-- The searches for a connection and a client by the number of a packet.
use web_tunnel.Base.{
  ℕ, ◌≤◌, ◌≡◌, ◌≢◌, refl, sym, ◌∙◌, subst, ap, List, [], ◌∷◌, Option, none, some, Bool, true, false,
  Outcome, ok, ◌>>=◌, Returns, Returns-mono, count, ◌==◌, Bool-cases, inl, inr, arith,
  if◌then◌else◌,
}
use web_tunnel.State.{Mgmt, TcpClient, TcpForward}
use web_tunnel.Runtime.{in_use}
use web_tunnel.Dispatch.Forwarding.{find_forward}
use web_tunnel.Dispatch.Tunnel.{find_client}
use web_tunnel.Consistent.{IsConsistent, Holds, IsPool, used}

module _ {A : Type 0} (number : A → ℕ) (objects : ℕ → Option A) where
  -- What a search gives: an object in use with the number, or `none` if none of the list has it.
  pub record IsFoundIn (seq : ℕ) (list : List ℕ) (o : Option ℕ) : Type 0 where
    pub found : (c : ℕ) → o ≡ some c → Holds number objects c seq
    pub missing :
        o ≡ none → (c : ℕ) (v : A) → 1 ≤ count c list → objects c ≡ some v → number v ≢ seq

  found_first :
      (seq : ℕ) (c : ℕ) (v : A) (list : List ℕ) (b : Bool) (rest : Outcome (Option ℕ))
      → objects c ≡ some v
      → (b ≡ true → number v ≡ seq)
      → (b ≡ false → number v ≢ seq)
      → Returns (IsFoundIn seq list) rest
      → Returns (IsFoundIn seq (c ∷ list)) (if b then ok (some c) else rest)
  found_first seq c v list true rest e t f h = record {
    found = λ x p. let q : c ≡ x = cc in (v, subst (λ y. objects y ≡ some v) q e, t refl);
    missing = λ p. absurd (cc);
  }
  found_first seq c v list false rest e t f h =
      Returns-mono (IsFoundIn seq list) (IsFoundIn seq (c ∷ list)) rest h λ o r. record {
        found = r.found;
        missing = λ p x w n q. elim (Bool-cases (c == x)) [
          | inl i ↦
              (let j : c ≡ x = ground arith in
                let k : v ≡ w = cc in subst (λ y. number y ≢ seq) k (f refl))
          | inr i ↦ r.missing p x w (ground arith) q
        ];
      }

  -- The numbers of a list are those of objects in use.
  abbrev AreUsed : List ℕ → Type 0
  AreUsed list = (c : ℕ) → 1 ≤ count c list → (v : A) × (objects c ≡ some v)

  tail-AreUsed : (c : ℕ) (list : List ℕ) → AreUsed (c ∷ list) → AreUsed list
  tail-AreUsed c list u x h = u x (ground arith)

  head-AreUsed : (c : ℕ) (list : List ℕ) → AreUsed (c ∷ list) → (v : A) × (objects c ≡ some v)
  head-AreUsed c list u = u c (ground arith)

abbrev pub seq_of : TcpForward → ℕ
seq_of v = v.seq

abbrev pub req_seq_of : TcpClient → ℕ
req_seq_of v = v.req_seq

module _ (m : Mgmt) where
  find_forward-in_list :
      (seq : ℕ) (fs : List ℕ)
      → AreUsed seq_of m.forwards fs
      → Returns (IsFoundIn seq_of m.forwards seq fs) (find_forward seq fs m)
  unfolding find_forward
  find_forward-in_list seq [] u = record {
    found = λ f e. absurd (cc);
    missing = λ e f v n. absurd (omega arith);
  }
  find_forward-in_list seq (f ∷ fs) u =
      let v = head-AreUsed seq_of m.forwards f fs u in
      let rest = find_forward seq fs m in
      subst
        (λ o.
          Returns (IsFoundIn seq_of m.forwards seq (f ∷ fs))
            (in_use o >>= λ w. if w.seq == seq then ok (some f) else rest))
        (sym v.1)
        (found_first seq_of m.forwards seq f v.0 fs (v.0.seq == seq) rest v.1 (λ t. ground arith)
          (λ t. ground arith) (find_forward-in_list seq fs (tail-AreUsed seq_of m.forwards f fs u)))

  find_client-in_list :
      (seq : ℕ) (cs : List ℕ)
      → AreUsed req_seq_of m.clients cs
      → Returns (IsFoundIn req_seq_of m.clients seq cs) (find_client seq cs m)
  unfolding find_client
  find_client-in_list seq [] u = record {
    found = λ f e. absurd (cc);
    missing = λ e f v n. absurd (omega arith);
  }
  find_client-in_list seq (c ∷ cs) u =
      let v = head-AreUsed req_seq_of m.clients c cs u in
      let rest = find_client seq cs m in
      subst
        (λ o.
          Returns (IsFoundIn req_seq_of m.clients seq (c ∷ cs))
            (in_use o >>= λ w. if seq == w.req_seq then ok (some c) else rest))
        (sym v.1)
        (found_first req_seq_of m.clients seq c v.0 cs (seq == v.0.req_seq) rest v.1
          (λ t. ground arith) (λ t. ground arith)
          (find_client-in_list seq cs (tail-AreUsed req_seq_of m.clients c cs u)))

used-some : {A : Type 0} (o : Option A) → 1 ≤ used o → (v : A) × (o ≡ some v)
used-some none h = absurd (omega arith)
used-some (some v) h = (v, refl)

module _ {A : Type 0} (number : A → ℕ) (objects : ℕ → Option A) where
  -- The object that a search is for, or `none` if no object in use has the number.
  pub record IsFound (seq : ℕ) (o : Option ℕ) : Type 0 where
    pub found : (c : ℕ) → o ≡ some c → Holds number objects c seq
    pub missing : o ≡ none → (c : ℕ) (v : A) → objects c ≡ some v → number v ≢ seq

  module _ (fd_of : A → ℕ) (next : ℕ) (list : List ℕ) (len : ℕ) where
    pool-AreUsed : IsPool fd_of objects next list len → AreUsed number objects list
    pool-AreUsed p c h = used-some (objects c) (subst (λ n. 1 ≤ n) (p.listed c) h)

    pool-IsFound :
        (seq : ℕ) (o : Outcome (Option ℕ))
        → IsPool fd_of objects next list len
        → Returns (IsFoundIn number objects seq list) o
        → Returns (IsFound seq) o
    pool-IsFound seq o p h =
        Returns-mono (IsFoundIn number objects seq list) (IsFound seq) o h λ a r. record {
          found = r.found;
          missing = λ e c v q.
              let n : count c list ≡ 1 = p.listed c ∙ ap used q in
              r.missing e c v (omega (arith, n)) q;
        }

-- In a consistent state the connection of a sequence number is found, if there is one.
pub find_forward-IsFound :
    (m : Mgmt) (seq : ℕ)
    → IsConsistent m
    → Returns (IsFound seq_of m.forwards seq) (find_forward seq m.list_forward m)
find_forward-IsFound m seq s =
    let p = s.linked.forwards in
    pool-IsFound seq_of m.forwards _ _ _ _ seq (find_forward seq m.list_forward m) p
      (find_forward-in_list m seq m.list_forward (pool-AreUsed seq_of m.forwards _ _ _ _ p))

pub find_client-IsFound :
    (m : Mgmt) (seq : ℕ)
    → IsConsistent m
    → Returns (IsFound req_seq_of m.clients seq) (find_client seq m.tcp_server.list_client m)
find_client-IsFound m seq s =
    let p = s.linked.clients in
    pool-IsFound req_seq_of m.clients _ _ _ _ seq (find_client seq m.tcp_server.list_client m) p (
      find_client-in_list m seq m.tcp_server.list_client
        (pool-AreUsed req_seq_of m.clients _ _ _ _ p))

-- What is on its list is in use.
pub listed_client :
    (m : Mgmt) (c : ℕ) → IsConsistent m → 1 ≤ count c m.tcp_server.list_client → m.clients c ≢ none
listed_client m c s h e =
    let n : count c m.tcp_server.list_client ≡ 0 = s.linked.clients.listed c ∙ ap used e in
    omega (arith, n, h)

pub Holds-used :
    {A : Type 0} (number : A → ℕ) (objects : ℕ → Option A) (c n : ℕ)
    → Holds number objects c n
    → objects c ≢ none
Holds-used number objects c n (v, e, p) q = cc
