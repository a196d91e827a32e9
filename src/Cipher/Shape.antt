-- ===== src/Cipher/Shape.antt =====
-- What `encry2` returns is an array of words of the same length.
use web_tunnel.Base.{ℕ, zero, suc, ◌/◌, ◌%◌, ◌≡◌, refl, ap, List, [], ◌∷◌, length, ok, arith}
use web_tunnel.Cipher.{Key, rounds, encry, each_pair, encry2, generate_key, shared_key}
use web_tunnel.Cipher.Roundtrip.{AreWords, AllWords, encry_loop-IsBlock}

pub encry-AreWords : (k : Key) (p : ℕ × ℕ) → AreWords p → AreWords (encry k p)
unfolding encry
encry-AreWords k (a, b) h =
    let s =
      encry_loop-IsBlock rounds k (record { v0 = a; v1 = b; sum = 0 })
        (record { v0_word = h.0; v1_word = h.1; sum_word = omega arith }) in
    (s.v0_word, s.v1_word)

each_pair-AllWords :
    (f : ℕ × ℕ → ℕ × ℕ)
    → ((p : ℕ × ℕ) → AreWords p → AreWords (f p))
    → (n : ℕ) (vs : List ℕ) → AllWords vs
    → AllWords (each_pair f n vs)
unfolding each_pair
each_pair-AllWords f w zero vs h = h
each_pair-AllWords f w (suc n) [] h = h
each_pair-AllWords f w (suc n) (a ∷ []) h = h
each_pair-AllWords f w (suc n) (a ∷ b ∷ vs) (p, (q, r)) =
    let s = w (a, b) (p, q) in (s.0, (s.1, each_pair-AllWords f w n vs r))

length-each_pair : (f : ℕ × ℕ → ℕ × ℕ) (n : ℕ) (vs : List ℕ) → length (each_pair f n vs) ≡ length vs
unfolding each_pair
length-each_pair f zero vs = refl
length-each_pair f (suc n) [] = refl
length-each_pair f (suc n) (a ∷ []) = refl
length-each_pair f (suc n) (a ∷ b ∷ vs) = ap (λ k. suc (suc k)) (length-each_pair f n vs)

pub encry2-ok :
    (t : ℕ) (v : List ℕ) (len : ℕ)
    → len % 2 ≡ 0
    → AllWords v
    → (ws : List ℕ) × (encry2 t v len ≡ ok ws) × AllWords ws × (length ws ≡ length v)
unfolding encry2
encry2-ok t v len even h = (
  each_pair (encry (generate_key t shared_key)) (len / 2) v,
  rw even,
  each_pair-AllWords (encry (generate_key t shared_key))
      (encry-AreWords (generate_key t shared_key)) (len / 2) v h,
  length-each_pair (encry (generate_key t shared_key)) (len / 2) v,
)
