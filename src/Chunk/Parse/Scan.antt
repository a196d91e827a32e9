-- ===== src/Chunk/Parse/Scan.antt =====
-- Reading the line with a chunk's size.
use web_tunnel.Base.{
  ℕ, zero, suc, ◌+◌, ◌≤◌, ◌<◌, ◌≡◌, ◌≢◌, ◌∙◌, subst, List, [], ◌∷◌, ◌++◌, length, arith, update,
  copy, copy_below,
}
use web_tunnel.Chunk.Text.{c_string}
use web_tunnel.Chunk.Machine.{scan_size}

-- The bytes of the list stand at `mem + i`.
abbrev pub StandsAt : (ℕ → ℕ) → ℕ → List ℕ → Type 0
StandsAt mem i [] = Unit {0}
StandsAt mem i (x ∷ xs) = (mem i ≡ x) × StandsAt mem (i + 1) xs

-- A line's text has no NUL and no carriage return.
abbrev pub IsLine : List ℕ → Type 0
IsLine [] = Unit {0}
IsLine (x ∷ xs) = (x ≢ 0) × (x ≢ 13) × IsLine xs

pub StandsAt-append :
    (mem : ℕ → ℕ) (i : ℕ) (xs ys : List ℕ)
    → StandsAt mem i (xs ++ ys)
    → StandsAt mem i xs × StandsAt mem (i + length xs) ys
StandsAt-append mem i [] ys h = (tt, subst (λ k. StandsAt mem k ys) (omega arith) h)
StandsAt-append mem i (x ∷ xs) ys h =
    let r = StandsAt-append mem (i + 1) xs ys h.1 in
    ((h.0, r.0), subst (λ k. StandsAt mem k ys) (omega arith) r.1)

pub append-StandsAt :
    (mem : ℕ → ℕ) (i : ℕ) (xs ys : List ℕ)
    → StandsAt mem i xs
    → StandsAt mem (i + length xs) ys
    → StandsAt mem i (xs ++ ys)
append-StandsAt mem i [] ys h k = subst (λ k. StandsAt mem k ys) (omega arith) k
append-StandsAt mem i (x ∷ xs) ys h k =
    (h.0, append-StandsAt mem (i + 1) xs ys h.1 (subst (λ k. StandsAt mem k ys) (omega arith) k))

-- A change below the bytes leaves them.
pub StandsAt-kept :
    (mem mem' : ℕ → ℕ) (i : ℕ) (xs : List ℕ)
    → ((k : ℕ) → i ≤ k → mem' k ≡ mem k)
    → StandsAt mem i xs
    → StandsAt mem' i xs
StandsAt-kept mem mem' i [] h s = tt
StandsAt-kept mem mem' i (x ∷ xs) h s =
    (h i (omega arith) ∙ s.0, StandsAt-kept mem mem' (i + 1) xs (λ k l. h k (omega arith)) s.1)

-- The line that ends in a carriage return is copied into the array from `j` on.
pub scan_size-line :
    (line : List ℕ) (n i : ℕ) (mem : ℕ → ℕ) (j : ℕ) (str : ℕ → ℕ)
    → StandsAt mem i (line ++ 13 ∷ [])
    → IsLine line
    → length line < n
    → j + length line < 32
    → scan_size n i mem j str ≡ (i + length line, j + length line, copy j line str)
unfolding scan_size copy
scan_size-line [] zero i mem j str s l h k = absurd (omega arith)
scan_size-line [] (suc n) i mem j str s l h k = ground (arith, s.0)
scan_size-line (x ∷ xs) zero i mem j str s l h k = absurd (omega arith)
scan_size-line (x ∷ xs) (suc n) i mem j str s l h k = ground (
  arith,
  s.0,
  l.1,
  scan_size-line xs n (i + 1) mem (j + 1) (update str j (mem i)) s.1 l.2 (omega arith)
      (omega arith),
)

c_string-line :
    (line : List ℕ) (n off : ℕ) (mem : ℕ → ℕ)
    → StandsAt mem off (line ++ 0 ∷ [])
    → IsLine line
    → length line < n
    → c_string n off mem ≡ line
unfolding c_string
c_string-line [] zero off mem s l h = absurd (omega arith)
c_string-line [] (suc n) off mem s l h = ground (arith, s.0)
c_string-line (x ∷ xs) zero off mem s l h = absurd (omega arith)
c_string-line (x ∷ xs) (suc n) off mem s l h =
    ground (arith, s.0, l.0, c_string-line xs n (off + 1) mem s.1 l.2 (omega arith))

StandsAt-copy :
    (off : ℕ) (xs : List ℕ) (mem : ℕ → ℕ)
    → StandsAt (update (copy off xs mem) (off + length xs) 0) off (xs ++ 0 ∷ [])
unfolding copy
StandsAt-copy off [] mem = (ground arith, tt)
StandsAt-copy off (x ∷ xs) mem = (
  ground (arith, copy_below (off + 1) xs (update mem off x) off),
  subst (λ k. StandsAt (update (copy (off + 1) xs (update mem off x)) k 0) (off + 1) (xs ++ 0 ∷ []))
      (omega arith) (StandsAt-copy (off + 1) xs (update mem off x)),
)

-- The array with the line and a NUL behind it.
abbrev pub terminated : List ℕ → (ℕ → ℕ) → ℕ → ℕ
terminated line str = update (copy 0 line str) (length line) 0

terminated-StandsAt :
    (line : List ℕ) (str : ℕ → ℕ) → StandsAt (terminated line str) 0 (line ++ 0 ∷ [])
terminated-StandsAt line str =
    subst (λ k. StandsAt (update (copy 0 line str) k 0) 0 (line ++ 0 ∷ [])) (omega arith)
      (StandsAt-copy 0 line str)

-- It is read as the line.
pub c_string-terminated :
    (line : List ℕ) (str : ℕ → ℕ)
    → IsLine line
    → length line < 32
    → c_string 33 0 (terminated line str) ≡ line
c_string-terminated line str l h =
    c_string-line line 33 0 (terminated line str) (terminated-StandsAt line str) l (omega arith)

pub terminated_head : (x : ℕ) (xs : List ℕ) (str : ℕ → ℕ) → terminated (x ∷ xs) str 0 ≡ x
terminated_head x xs str = (terminated-StandsAt (x ∷ xs) str).0
