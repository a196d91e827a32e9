-- ===== src/Chunk/Parse/Pieces.antt =====
-- The chunks of a response, and the loop of `http_parse` on them.
use web_tunnel.Base.{
  ℕ, suc, ◌+◌, ◌*◌, ◌≤◌, ◌<◌, ◌≡◌, ◌≢◌, refl, subst, sym, List, [], ◌∷◌, ◌++◌, length,
  length-append, append_assoc, append-nil, some, Returns, arith,
}
use web_tunnel.Base.Int.{pos}
use web_tunnel.State.{HttpContext}
use web_tunnel.Chunk.Text.{scan_hex}
use web_tunnel.Chunk.Machine.{Parser, chunk_loop}
use web_tunnel.Chunk.Parse.Scan.{IsLine}
use web_tunnel.Chunk.Parse.Copying.{IsBeginning}
use web_tunnel.Chunk.Parse.Decoding.{
  step-Returns, IsBehindLine, begin-IsBehindLine, empty-IsBeginning, IsSized, line-IsSized,
  copied-IsBeginning,
}
use web_tunnel.Chunk.Parse.Finishing.{IsDecoded, last-IsDecoded}

-- A chunk as it is sent: the line with its size, and its bytes.
pub record Piece : Type 0 where
  pub line : List ℕ
  pub bytes : List ℕ

-- The line is the size in hexadecimal digits, which fits into `chunk_str`.
pub record IsPiece (c : Piece) : Type 0 where
  pub text : IsLine c.line
  pub short : length c.line < 32
  pub size : scan_hex c.line ≡ some (pos (length c.bytes))
  pub full : c.bytes ≢ []
  pub shown : c.line ≢ []

abbrev pub ArePieces : List Piece → Type 0
ArePieces [] = Unit {0}
ArePieces (c ∷ cs) = IsPiece c × ArePieces cs

-- The chunks as they are sent, with a last one of the size 0, and the bytes that they carry.
abbrev pub encoded : List Piece → List ℕ
encoded [] = 48 ∷ 13 ∷ 10 ∷ []
encoded (c ∷ cs) = c.line ++ 13 ∷ 10 ∷ (c.bytes ++ 13 ∷ 10 ∷ encoded cs)

abbrev pub carried : List Piece → List ℕ
carried [] = []
carried (c ∷ cs) = c.bytes ++ carried cs

full-length : (xs : List ℕ) → xs ≢ [] → length xs ≢ 0
full-length [] h = absurd (h refl)
full-length (x ∷ xs) h = omega arith

pub encoded-length : (cs : List Piece) → ArePieces cs → 5 * length cs + 3 ≤ length (encoded cs)
encoded-length [] a = omega arith
encoded-length (c ∷ cs) a = omega (
  arith,
  length-append c.line (13 ∷ 10 ∷ (c.bytes ++ 13 ∷ 10 ∷ encoded cs)),
  length-append c.bytes (13 ∷ 10 ∷ encoded cs),
  full-length c.bytes a.0.full,
  encoded-length cs a.1,
)

-- Rounds enough for the chunks, and more.
pub enough : List Piece → ℕ → ℕ
enough [] extra = suc (suc extra)
enough (c ∷ cs) extra = suc (suc (suc (suc (suc (enough cs extra)))))

pub enough-add : (cs : List Piece) (extra : ℕ) → enough cs extra ≡ 5 * length cs + 2 + extra
unfolding enough
enough-add [] extra = omega arith
enough-add (c ∷ cs) extra = omega (arith, enough-add cs extra)

scan_hex-zero : scan_hex (48 ∷ []) ≡ some (pos 0)
unfolding scan_hex
scan_hex-zero = refl

module _ (b : ℕ) (ctx : HttpContext) (caches : List ℕ) where
  pub chunk_loop-IsDecoded :
      (cs : List Piece) (got : List ℕ) (extra : ℕ) (p : Parser)
      → IsBeginning b ctx caches got (encoded cs) p
      → ArePieces cs
      → 0 < length got
      → Returns (IsDecoded b ctx caches (got ++ carried cs)) (chunk_loop (enough cs extra) p)
  unfolding enough
  chunk_loop-IsDecoded [] got extra p i a h =
      subst (λ g. Returns (IsDecoded b ctx caches g) (chunk_loop (suc (suc extra)) p))
        (sym (append-nil got))
        (step-Returns (IsBehindLine b ctx caches (48 ∷ []) got []) _ (suc extra) p
          (begin-IsBehindLine b ctx caches (48 ∷ []) got [] p i
            ((λ e. omega arith), (λ e. omega arith), tt) (omega arith))
          λ q j. last-IsDecoded b ctx caches (48 ∷ []) got [] extra q j (λ e. cc) scan_hex-zero h)
  chunk_loop-IsDecoded (c ∷ cs) got extra p i a h =
      step-Returns (IsBehindLine b ctx caches c.line got behind) _ _ p
        (begin-IsBehindLine b ctx caches c.line got behind p i a.0.text a.0.short)
        λ p1 i1.
          step-Returns (IsSized b ctx caches (length c.bytes) got behind) _ _ p1
            (line-IsSized b ctx caches c.line got behind (length c.bytes) p1 i1 a.0.shown a.0.size
              (full-length c.bytes a.0.full))
            λ p2 i2.
              step-Returns (IsBeginning b ctx caches (got ++ c.bytes) (13 ∷ 10 ∷ encoded cs)) _ _ p2
                (copied-IsBeginning b ctx caches c.bytes (13 ∷ 10 ∷ encoded cs) got p2 i2
                  (omega arith))
                λ p3 i3.
                  step-Returns (IsBehindLine b ctx caches [] (got ++ c.bytes) (encoded cs)) _ _ p3
                    (begin-IsBehindLine b ctx caches [] (got ++ c.bytes) (encoded cs) p3 i3 tt
                      (omega arith))
                    λ p4 i4.
                      step-Returns (IsBeginning b ctx caches (got ++ c.bytes) (encoded cs)) _ _ p4
                        (empty-IsBeginning b ctx caches (got ++ c.bytes) (encoded cs) p4 i4)
                        λ p5 i5.
                          subst
                            (λ g.
                              Returns (IsDecoded b ctx caches g) (chunk_loop (enough cs extra) p5))
                            (append_assoc got c.bytes (carried cs))
                            (chunk_loop-IsDecoded cs (got ++ c.bytes) extra p5 i5 a.1
                              (omega (arith, length-append got c.bytes)))
    where
      behind : List ℕ
      behind = c.bytes ++ 13 ∷ 10 ∷ encoded cs
