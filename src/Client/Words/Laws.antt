-- ===== src/Client/Words/Laws.antt =====
-- Bytes as words and back.
use mathlib.Core.Path.{ap₂}
use web_tunnel.Base.{ℕ, zero, suc, ◌*◌, ◌<◌, ◌≡◌, refl, ap, List, [], ◌∷◌, ◌++◌, length, arith}
use web_tunnel.Header.{bytes32, word32}
use web_tunnel.Cipher.Roundtrip.{AllWords}
use web_tunnel.Client.Words.{words_of, bytes_of_words}

abbrev pub AllBytes : List ℕ → Type 0
AllBytes [] = Unit {0}
AllBytes (b ∷ bs) = (b < 256) × AllBytes bs

-- The words that stand in memory are those that were written.
pub words_of-bytes_of_words : (ws : List ℕ) → AllWords ws → words_of (bytes_of_words ws) ≡ ws
unfolding words_of bytes_of_words
words_of-bytes_of_words [] h = refl
words_of-bytes_of_words (w ∷ ws) h = ap₂ ◌∷◌ (omega (arith, h.0)) (words_of-bytes_of_words ws h.1)

four :
    (a b c d : ℕ)
    → a < 256
    → b < 256
    → c < 256
    → d < 256
    → bytes32 (word32 a b c d) ≡ a ∷ b ∷ c ∷ d ∷ []
four a b c d p q r s =
    ap₂ ◌∷◌ (omega arith)
      (ap₂ ◌∷◌ (omega arith) (ap₂ ◌∷◌ (omega arith) (ap (λ x. x ∷ []) (omega arith))))

-- Whole words of bytes are the bytes.
pub bytes_of_words-words_of :
    (n : ℕ) (bs : List ℕ) → length bs ≡ 4 * n → AllBytes bs → bytes_of_words (words_of bs) ≡ bs
unfolding words_of bytes_of_words
bytes_of_words-words_of n [] e h = refl
bytes_of_words-words_of n (a ∷ []) e h = absurd (omega (arith, e))
bytes_of_words-words_of n (a ∷ b ∷ []) e h = absurd (omega (arith, e))
bytes_of_words-words_of n (a ∷ b ∷ c ∷ []) e h = absurd (omega (arith, e))
bytes_of_words-words_of zero (a ∷ b ∷ c ∷ d ∷ bs) e h = absurd (omega (arith, e))
bytes_of_words-words_of (suc n) (a ∷ b ∷ c ∷ d ∷ bs) e (p, (q, (r, (s, t)))) =
    ap₂ ◌++◌ (four a b c d p q r s) (bytes_of_words-words_of n bs (omega (arith, e)) t)

pub words_of-AllWords : (bs : List ℕ) → AllBytes bs → AllWords (words_of bs)
unfolding words_of
words_of-AllWords [] h = tt
words_of-AllWords (a ∷ []) h = tt
words_of-AllWords (a ∷ b ∷ []) h = tt
words_of-AllWords (a ∷ b ∷ c ∷ []) h = tt
words_of-AllWords (a ∷ b ∷ c ∷ d ∷ bs) (p, (q, (r, (s, t)))) = (omega arith, words_of-AllWords bs t)

pub length-words_of : (n : ℕ) (bs : List ℕ) → length bs ≡ 4 * n → length (words_of bs) ≡ n
unfolding words_of
length-words_of n [] e = omega (arith, e)
length-words_of n (a ∷ []) e = absurd (omega (arith, e))
length-words_of n (a ∷ b ∷ []) e = absurd (omega (arith, e))
length-words_of n (a ∷ b ∷ c ∷ []) e = absurd (omega (arith, e))
length-words_of zero (a ∷ b ∷ c ∷ d ∷ bs) e = absurd (omega (arith, e))
length-words_of (suc n) (a ∷ b ∷ c ∷ d ∷ bs) e = ap suc (length-words_of n bs (omega (arith, e)))

pub length-bytes_of_words : (ws : List ℕ) → length (bytes_of_words ws) ≡ 4 * length ws
unfolding bytes_of_words
length-bytes_of_words [] = omega arith
length-bytes_of_words (w ∷ ws) = omega (arith, length-bytes_of_words ws)
