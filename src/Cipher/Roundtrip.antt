-- ===== src/Cipher/Roundtrip.antt =====
-- Deciphering undoes enciphering: for a round, for a block, and for arrays.
use web_tunnel.Base.{
  ℕ, zero, suc, ◌+◌, ◌-◌, ◌/◌, ◌%◌, ◌^◌, ◌<◌, ◌≡◌, refl, sym, ap, ◌∙◌, arith, List, [], ◌∷◌, ok,
  ◌>>=◌,
}
use mathlib.Core.Path.{ap₂}
use web_tunnel.Cipher.{
  add32, sub32, mix, Key, Block, delta, rounds, final_sum, encry_round, decry_round, encry_loop,
  decry_loop, encry, decry, each_pair, encry2, decry2, generate_key, hash, shared_key, u32,
}

abbrev pub IsWord : ℕ → Type 0
IsWord v = v < 2 ^ 32

-- `v - x` after `v + x`, and the other way round, where `x` is a word.
pub sub32-add32 : (a x : ℕ) → IsWord a → IsWord x → sub32 (add32 a x) x ≡ a
unfolding sub32 add32
sub32-add32 a x h k = omega arith

pub add32-sub32 : (a x : ℕ) → IsWord a → IsWord x → add32 (sub32 a x) x ≡ a
unfolding sub32 add32
add32-sub32 a x h k = omega arith

mix-IsWord : (v sum ka kb : ℕ) → IsWord (mix v sum ka kb)
unfolding mix
mix-IsWord v sum ka kb = omega arith

add32-IsWord : (a b : ℕ) → IsWord (add32 a b)
unfolding add32
add32-IsWord a b = omega arith

sub32-IsWord : (a b : ℕ) → IsWord (sub32 a b)
unfolding sub32
sub32-IsWord a b = omega arith

pub record IsBlock (s : Block) : Type 0 where
  pub v0_word : IsWord s.v0
  pub v1_word : IsWord s.v1
  pub sum_word : IsWord s.sum

abbrev delta_word : IsWord delta
delta_word = omega arith

block_ext : {s t : Block} → s.v0 ≡ t.v0 → s.v1 ≡ t.v1 → s.sum ≡ t.sum → s ≡ t
block_ext p q r = λ i. record { v0 = p i; v1 = q i; sum = r i }

encry_round-IsBlock : (k : Key) (s : Block) → IsBlock (encry_round k s)
unfolding encry_round
encry_round-IsBlock k s = record {
  v0_word = add32-IsWord _ _;
  v1_word = add32-IsWord _ _;
  sum_word = add32-IsWord _ _;
}

decry_round-IsBlock : (k : Key) (s : Block) → IsBlock (decry_round k s)
unfolding decry_round
decry_round-IsBlock k s = record {
  v0_word = sub32-IsWord _ _;
  v1_word = sub32-IsWord _ _;
  sum_word = sub32-IsWord _ _;
}

decry_round-encry_round : (k : Key) (s : Block) → IsBlock s → decry_round k (encry_round k s) ≡ s
unfolding decry_round encry_round
decry_round-encry_round k s h =
    let sum' = add32 s.sum delta in
    let v0' = add32 s.v0 (mix s.v1 sum' k.k0 k.k1) in
    let e1 : sub32 (add32 s.v1 (mix v0' sum' k.k2 k.k3)) (mix v0' sum' k.k2 k.k3) ≡ s.v1 =
      sub32-add32 s.v1 _ h.v1_word (mix-IsWord _ _ _ _) in
    let e0 : sub32 v0' (mix s.v1 sum' k.k0 k.k1) ≡ s.v0 =
      sub32-add32 s.v0 _ h.v0_word (mix-IsWord _ _ _ _) in
    block_ext (rw e1 e0) e1 (sub32-add32 s.sum delta h.sum_word delta_word)

encry_round-decry_round : (k : Key) (s : Block) → IsBlock s → encry_round k (decry_round k s) ≡ s
unfolding decry_round encry_round
encry_round-decry_round k s h =
    let v1' = sub32 s.v1 (mix s.v0 s.sum k.k2 k.k3) in
    let es : add32 (sub32 s.sum delta) delta ≡ s.sum =
      add32-sub32 s.sum delta h.sum_word delta_word in
    let e0 : add32 (sub32 s.v0 (mix v1' s.sum k.k0 k.k1)) (mix v1' s.sum k.k0 k.k1) ≡ s.v0 =
      add32-sub32 s.v0 _ h.v0_word (mix-IsWord _ _ _ _) in
    let e1 : add32 v1' (mix s.v0 s.sum k.k2 k.k3) ≡ s.v1 =
      add32-sub32 s.v1 _ h.v1_word (mix-IsWord _ _ _ _) in
    block_ext (rw (es, e0)) (rw (es, e0, e1)) es

-- One more round at the end, in place of one at the start.
encry_loop-suc :
    (n : ℕ) (k : Key) (s : Block) → encry_loop (suc n) k s ≡ encry_round k (encry_loop n k s)
unfolding encry_loop
encry_loop-suc zero k s = refl
encry_loop-suc (suc n) k s = encry_loop-suc n k (encry_round k s)

decry_loop-suc :
    (n : ℕ) (k : Key) (s : Block) → decry_loop (suc n) k s ≡ decry_round k (decry_loop n k s)
unfolding decry_loop
decry_loop-suc zero k s = refl
decry_loop-suc (suc n) k s = decry_loop-suc n k (decry_round k s)

pub encry_loop-IsBlock : (n : ℕ) (k : Key) (s : Block) → IsBlock s → IsBlock (encry_loop n k s)
unfolding encry_loop
encry_loop-IsBlock zero k s h = h
encry_loop-IsBlock (suc n) k s h = encry_loop-IsBlock n k _ (encry_round-IsBlock k s)

decry_loop-IsBlock : (n : ℕ) (k : Key) (s : Block) → IsBlock s → IsBlock (decry_loop n k s)
unfolding decry_loop
decry_loop-IsBlock zero k s h = h
decry_loop-IsBlock (suc n) k s h = decry_loop-IsBlock n k _ (decry_round-IsBlock k s)

decry_loop-encry_loop :
    (n : ℕ) (k : Key) (s : Block) → IsBlock s → decry_loop n k (encry_loop n k s) ≡ s
unfolding decry_loop
decry_loop-encry_loop zero k s h = unfold encry_loop in refl
decry_loop-encry_loop (suc n) k s h =
    rw
      (
        encry_loop-suc n k s,
        decry_round-encry_round k (encry_loop n k s) (encry_loop-IsBlock n k s h),
      )
      (decry_loop-encry_loop n k s h)

encry_loop-decry_loop :
    (n : ℕ) (k : Key) (s : Block) → IsBlock s → encry_loop n k (decry_loop n k s) ≡ s
unfolding encry_loop
encry_loop-decry_loop zero k s h = unfold decry_loop in refl
encry_loop-decry_loop (suc n) k s h =
    rw
      (
        decry_loop-suc n k s,
        encry_round-decry_round k (decry_loop n k s) (decry_loop-IsBlock n k s h),
      )
      (encry_loop-decry_loop n k s h)

-- The running sum does not depend on the key or on the data.
sum_up : ℕ → ℕ → ℕ
sum_up zero x = x
sum_up (suc n) x = sum_up n (add32 x delta)

sum_down : ℕ → ℕ → ℕ
sum_down zero x = x
sum_down (suc n) x = sum_down n (sub32 x delta)

encry_loop_sum : (n : ℕ) (k : Key) (s : Block) → (encry_loop n k s).sum ≡ sum_up n s.sum
unfolding encry_loop encry_round sum_up
encry_loop_sum zero k s = refl
encry_loop_sum (suc n) k s = encry_loop_sum n k (encry_round k s)

decry_loop_sum : (n : ℕ) (k : Key) (s : Block) → (decry_loop n k s).sum ≡ sum_down n s.sum
unfolding decry_loop decry_round sum_down
decry_loop_sum zero k s = refl
decry_loop_sum (suc n) k s = decry_loop_sum n k (decry_round k s)

sum_up_end : sum_up rounds 0 ≡ final_sum
unfolding sum_up add32
sum_up_end = refl

sum_down_end : sum_down rounds final_sum ≡ 0
unfolding sum_down sub32
sum_down_end = refl

abbrev pub AreWords : ℕ × ℕ → Type 0
AreWords p = IsWord p.0 × IsWord p.1

start : ℕ × ℕ → ℕ → Block
start p sum = record { v0 = p.0; v1 = p.1; sum = sum }

-- A block of two words that is enciphered and then deciphered under the same key is unchanged.
pub decry-encry : (k : Key) (p : ℕ × ℕ) → AreWords p → decry k (encry k p) ≡ p
unfolding decry encry start
decry-encry k (a, b) h = ap (λ (t : Block). (t.v0, t.v1)) (ap (decry_loop rounds k) e ∙ back)
  where
    words : IsBlock (start (a, b) 0)
    words = record { v0_word = h.0; v1_word = h.1; sum_word = omega arith }

    s : Block
    s = encry_loop rounds k (start (a, b) 0)

    e : start (encry k (a, b)) final_sum ≡ s
    e = block_ext refl refl (sym (encry_loop_sum rounds k (start (a, b) 0) ∙ sum_up_end))

    back : decry_loop rounds k s ≡ start (a, b) 0
    back = decry_loop-encry_loop rounds k (start (a, b) 0) words

-- A block of two words that is deciphered and then enciphered under the same key is unchanged.
pub encry-decry : (k : Key) (p : ℕ × ℕ) → AreWords p → encry k (decry k p) ≡ p
unfolding decry encry start
encry-decry k (a, b) h = ap (λ (t : Block). (t.v0, t.v1)) (ap (encry_loop rounds k) e ∙ back)
  where
    words : IsBlock (start (a, b) final_sum)
    words = record { v0_word = h.0; v1_word = h.1; sum_word = omega arith }

    s : Block
    s = decry_loop rounds k (start (a, b) final_sum)

    e : start (decry k (a, b)) 0 ≡ s
    e = block_ext refl refl (sym (decry_loop_sum rounds k (start (a, b) final_sum) ∙ sum_down_end))

    back : encry_loop rounds k s ≡ start (a, b) final_sum
    back = encry_loop-decry_loop rounds k (start (a, b) final_sum) words

abbrev pub AllWords : List ℕ → Type 0
AllWords [] = Unit {0}
AllWords (v ∷ vs) = IsWord v × AllWords vs

each_pair_undo :
    (f g : ℕ × ℕ → ℕ × ℕ)
    → ((p : ℕ × ℕ) → AreWords p → g (f p) ≡ p)
    → (n : ℕ) (vs : List ℕ) → AllWords vs
    → each_pair g n (each_pair f n vs) ≡ vs
unfolding each_pair
each_pair_undo f g undo zero vs h = refl
each_pair_undo f g undo (suc n) [] h = refl
each_pair_undo f g undo (suc n) (a ∷ []) h = refl
each_pair_undo f g undo (suc n) (a ∷ b ∷ vs) (ha, (hb, hs)) =
    ap₂ (λ (p : ℕ × ℕ) l. p.0 ∷ p.1 ∷ l) (undo (a, b) (ha, hb)) (each_pair_undo f g undo n vs hs)

-- The same minute on both clocks gives the same key.
generate_key_minute :
    (t t' : ℕ) (k : Key)
    → t + 59 < 2 ^ 32
    → t' + 59 < 2 ^ 32
    → (t + 59) / 60 ≡ (t' + 59) / 60
    → generate_key t k ≡ generate_key t' k
unfolding generate_key
generate_key_minute t t' k h h' e =
    ap (λ x. record k { k3 = hash x }) {x = u32 (u32 t + 60 + 2 ^ 32 - 1) / 60}
      {y = u32 (u32 t' + 60 + 2 ^ 32 - 1) / 60} (omega arith)

-- An array of words of even length `len` that `encry2` has enciphered at time `t` is given back by
-- `decry2` at time `t'`, if both clocks round up to the same minute. Neither call fails.
pub decry2-encry2 :
    (t t' : ℕ) (v : List ℕ) (len : ℕ)
    → t + 59 < 2 ^ 32
    → t' + 59 < 2 ^ 32
    → (t + 59) / 60 ≡ (t' + 59) / 60
    → len % 2 ≡ 0
    → AllWords v
    → (encry2 t v len >>= λ w. decry2 t' w len) ≡ ok v
unfolding encry2 decry2
decry2-encry2 t t' v len h h' e even words = rw even (
    ap (λ k. ok (each_pair (decry k) (len / 2) (each_pair (encry key) (len / 2) v)))
      (sym (generate_key_minute t t' shared_key h h' e))
    ∙ ap ok (each_pair_undo (encry key) (decry key) (decry-encry key) (len / 2) v words))
  where
    key : Key
    key = generate_key t shared_key
