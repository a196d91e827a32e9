-- ===== src/Client/Words.antt =====
-- A part of a buffer as an array of `uint32_t`, on a little-endian host.
pub mod Laws
use web_tunnel.Base.{ℕ, ◌*◌, List, [], ◌∷◌, ◌++◌, Outcome, ok, ◌>>=◌, slice}
use web_tunnel.State.{Mgmt}
use web_tunnel.Buffers.{write_buf}
use web_tunnel.Header.{bytes32, word32}

-- The words of the bytes, of which there are four for each.
unfoldable pub words_of : List ℕ → List ℕ
words_of [] = []
words_of (a ∷ []) = []
words_of (a ∷ b ∷ []) = []
words_of (a ∷ b ∷ c ∷ []) = []
words_of (a ∷ b ∷ c ∷ d ∷ bytes) = word32 a b c d ∷ words_of bytes

unfoldable pub bytes_of_words : List ℕ → List ℕ
bytes_of_words [] = []
bytes_of_words (w ∷ ws) = bytes32 w ++ bytes_of_words ws

-- `cipher((uint32_t*)(buf + off), len)`, for one of the functions of Cipher.
unfoldable pub on_words : (List ℕ → ℕ → Outcome (List ℕ)) → ℕ → ℕ → ℕ → Mgmt → Outcome Mgmt
unfolding words_of bytes_of_words
on_words cipher b off len m = cipher (words_of (slice off (4 * len) (m.bufs b).mem)) len >>= λ ws.
    ok (write_buf b off (bytes_of_words ws) m)
