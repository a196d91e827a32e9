-- ===== src/Cipher.antt =====
-- The block cipher of test-server/http_client.c: `hash`, `generate_key`, `encry`, `decry` on pairs of
-- `uint32_t`, and `encry2`, `decry2` on arrays of them. A word is a number below 2 ^ 32; the wraps of
-- C's unsigned arithmetic are written out. `time(&t)` is the argument `t`.
pub mod Roundtrip
pub mod Shape
use web_tunnel.Base.{
  ℕ, zero, suc, ◌+◌, ◌-◌, ◌*◌, ◌/◌, ◌%◌, ◌^◌, bit_xor, List, [], ◌∷◌, Outcome, ok, check, ◌>>=◌,
  ◌>>◌, ◌==◌,
}

abbrev pub u32 : ℕ → ℕ
u32 n = n % 2 ^ 32

pub add32 : ℕ → ℕ → ℕ
add32 a b = u32 (a + b)

pub sub32 : ℕ → ℕ → ℕ
sub32 a b = u32 (a + 2 ^ 32 - b)

abbrev pub shl : ℕ → ℕ → ℕ
shl x k = u32 (x * 2 ^ k)

abbrev pub shr : ℕ → ℕ → ℕ
shr x k = x / 2 ^ k

-- `unsigned int hash(unsigned int x)`.
pub hash : ℕ → ℕ
hash x0 =
    let x1 = u32 (bit_xor (shr x0 16) x0 * 0x45d9f3b) in
    let x2 = u32 (bit_xor (shr x1 16) x1 * 0x45d9f3b) in bit_xor (shr x2 16) x2

-- The four words of a key, `k[0]` to `k[3]`.
pub record Key : Type 0 where
  pub k0 : ℕ
  pub k1 : ℕ
  pub k2 : ℕ
  pub k3 : ℕ

-- `(uint32_t)t`, rounded up to whole minutes, and hashed into `k[3]`.
unfoldable pub generate_key : ℕ → Key → Key
generate_key t k = record k { k3 = hash (u32 (u32 t + 60 + 2 ^ 32 - 1) / 60) }

-- The array that `encry2` and `decry2` start from.
abbrev pub shared_key : Key
shared_key = record { k0 = 0x53726438; k1 = 0x89742910; k2 = 0x47492018; k3 = 0 }

-- The variables of the two loops.
pub record Block : Type 0 where
  pub v0 : ℕ
  pub v1 : ℕ
  pub sum : ℕ

abbrev pub delta : ℕ
delta = 0x9e3779b9

abbrev pub rounds : ℕ
rounds = 32

abbrev pub final_sum : ℕ
final_sum = 0xC6EF3720

-- `((v << 4) + ka) ^ (v + sum) ^ ((v >> 5) + kb)`. The result is an `uint32_t`.
pub mix : ℕ → ℕ → ℕ → ℕ → ℕ
unfolding add32
mix v sum ka kb = u32 (bit_xor (bit_xor (add32 (shl v 4) ka) (add32 v sum)) (add32 (shr v 5) kb))

pub encry_round : Key → Block → Block
encry_round k s =
    let sum = add32 s.sum delta in
    let v0 = add32 s.v0 (mix s.v1 sum k.k0 k.k1) in
    let v1 = add32 s.v1 (mix v0 sum k.k2 k.k3) in record { v0 = v0; v1 = v1; sum = sum }

pub decry_round : Key → Block → Block
decry_round k s =
    let v1 = sub32 s.v1 (mix s.v0 s.sum k.k2 k.k3) in
    let v0 = sub32 s.v0 (mix v1 s.sum k.k0 k.k1) in
    record { v0 = v0; v1 = v1; sum = sub32 s.sum delta }

pub encry_loop : ℕ → Key → Block → Block
encry_loop zero k s = s
encry_loop (suc n) k s = encry_loop n k (encry_round k s)

pub decry_loop : ℕ → Key → Block → Block
decry_loop zero k s = s
decry_loop (suc n) k s = decry_loop n k (decry_round k s)

-- `encry(v, k)` on the pair `v[0]`, `v[1]`.
unfoldable pub encry : Key → ℕ × ℕ → ℕ × ℕ
encry k (a, b) = let s = encry_loop rounds k (record { v0 = a; v1 = b; sum = 0 }) in (s.v0, s.v1)

unfoldable pub decry : Key → ℕ × ℕ → ℕ × ℕ
decry k (a, b) =
    let s = decry_loop rounds k (record { v0 = a; v1 = b; sum = final_sum }) in (s.v0, s.v1)

-- `for (i = 0; i < n; i++) f(v + i * 2)`. What stands behind the pairs is left alone.
unfoldable pub each_pair : (ℕ × ℕ → ℕ × ℕ) → ℕ → List ℕ → List ℕ
each_pair f zero vs = vs
each_pair f (suc n) [] = []
each_pair f (suc n) (a ∷ []) = a ∷ []
each_pair f (suc n) (a ∷ b ∷ vs) = let p = f (a, b) in p.0 ∷ p.1 ∷ each_pair f n vs

-- `encry2(v, len)` at the time `t`.
unfoldable pub encry2 : ℕ → List ℕ → ℕ → Outcome (List ℕ)
unfolding generate_key hash encry each_pair
encry2 t v len = do
  check (len % 2 == 0)
  ok (each_pair (encry (generate_key t shared_key)) (len / 2) v)

unfoldable pub decry2 : ℕ → List ℕ → ℕ → Outcome (List ℕ)
unfolding generate_key hash decry each_pair
decry2 t v len = do
  check (len % 2 == 0)
  ok (each_pair (decry (generate_key t shared_key)) (len / 2) v)
