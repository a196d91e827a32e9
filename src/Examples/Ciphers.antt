-- ===== src/Examples/Ciphers.antt =====
-- Examples for the cipher and the header.
use web_tunnel.Base.{◌≡◌, refl, [], ◌∷◌, ok, ◌>>=◌, arith}
use web_tunnel.Cipher.{shared_key, encry, decry, encry2, decry2}
use web_tunnel.Cipher.Roundtrip.{encry-decry, decry2-encry2}

encry-decry_example : encry shared_key (decry shared_key (1, 0xffffffff)) ≡ (1, 0xffffffff)
encry-decry_example = encry-decry shared_key (1, 0xffffffff) (omega arith, omega arith)

decry2-encry2_example :
    (encry2 61 (7 ∷ 8 ∷ 9 ∷ 10 ∷ []) 4 >>= λ w. decry2 119 w 4) ≡ ok (7 ∷ 8 ∷ 9 ∷ 10 ∷ [])
decry2-encry2_example =
    decry2-encry2 61 119 (7 ∷ 8 ∷ 9 ∷ 10 ∷ []) 4 (omega arith) (omega arith) refl refl
      (omega arith, (omega arith, (omega arith, (omega arith, tt))))
