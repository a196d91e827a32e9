-- ===== src/Base/Memory.antt =====
-- Arrays of C as total functions of the index, with `memcpy` into them and slices out of them.
use Prim.Native.Nat.{ℕ, zero, suc, ◌+◌, ◌≤◌, ◌<◌}
use mathlib.Core.Path.{◌≡◌, refl, ap, ap₂}
use mathlib.Core.List.{List, [], ◌∷◌, ◌++◌}
use native.Mathlib.Omega.{arith}
use web_tunnel.Base.Tests.{◌==◌, if◌then◌else◌}
use web_tunnel.Base.Lists.{length, take}

module _ {ℓ} {A : Type ℓ} where
  abbrev pub update : (ℕ → A) → ℕ → A → ℕ → A
  update f p v q = if p == q then v else f q

-- `memcpy(mem + off, bytes, length bytes)`.
unfoldable pub copy : ℕ → List ℕ → (ℕ → ℕ) → ℕ → ℕ
copy off [] mem = mem
copy off (b ∷ bs) mem = copy (off + 1) bs (update mem off b)

-- The `n` bytes at `mem + off`.
unfoldable pub slice : ℕ → ℕ → (ℕ → ℕ) → List ℕ
slice off zero mem = []
slice off (suc n) mem = mem off ∷ slice (off + 1) n mem

pub length-slice : (off n : ℕ) (mem : ℕ → ℕ) → length (slice off n mem) ≡ n
unfolding slice
length-slice off zero mem = refl
length-slice off (suc n) mem = ap suc (length-slice (off + 1) n mem)

pub slice-append :
    (off m n : ℕ) (mem : ℕ → ℕ) → slice off (m + n) mem ≡ slice off m mem ++ slice (off + m) n mem
unfolding slice
slice-append off zero n mem =
    let e : 0 + n ≡ n = omega arith in let e' : off + 0 ≡ off = omega arith in rw (e, e')
slice-append off (suc m) n mem =
    let e : suc m + n ≡ suc (m + n) = omega arith in
    let e' : off + suc m ≡ off + 1 + m = omega arith in
    rw (e, e') (ap (λ l. mem off ∷ l) (slice-append (off + 1) m n mem))

-- A write above a slice leaves it alone.
pub copy_below : (off : ℕ) (bs : List ℕ) (mem : ℕ → ℕ) (i : ℕ) → i < off → copy off bs mem i ≡ mem i
unfolding copy
copy_below off [] mem i h = refl
copy_below off (b ∷ bs) mem i h =
    ground (arith, copy_below (off + 1) bs (update mem off b) i (omega arith))

pub slice-copy_below :
    (off n to : ℕ) (bs : List ℕ) (mem : ℕ → ℕ)
    → off + n ≤ to
    → slice off n (copy to bs mem) ≡ slice off n mem
unfolding slice
slice-copy_below off zero to bs mem h = refl
slice-copy_below off (suc n) to bs mem h =
    ap₂ ◌∷◌ (copy_below to bs mem off (omega arith))
      (slice-copy_below (off + 1) n to bs mem (omega arith))

pub slice-copy :
    (off : ℕ) (bs : List ℕ) (mem : ℕ → ℕ) → slice off (length bs) (copy off bs mem) ≡ bs
unfolding slice copy
slice-copy off [] mem = refl
slice-copy off (b ∷ bs) mem =
    ap₂ ◌∷◌ (ground (arith, copy_below (off + 1) bs (update mem off b) off (omega arith)))
      (slice-copy (off + 1) bs (update mem off b))

pub take-slice : (k off n : ℕ) (mem : ℕ → ℕ) → k ≤ n → take k (slice off n mem) ≡ slice off k mem
unfolding slice
take-slice zero off n mem h = refl
take-slice (suc k) off zero mem h = absurd (omega arith)
take-slice (suc k) off (suc n) mem h =
    ap (λ l. mem off ∷ l) (take-slice k (off + 1) n mem (omega arith))

module _ {ℓ} {A : Type ℓ} where
  pub update_self : (f : ℕ → A) (p : ℕ) (v : A) → update f p v p ≡ v
  update_self f p v = ground arith

-- What is written behind an index does not change it.
pub copy-append_below :
    (off : ℕ) (xs ys : List ℕ) (mem : ℕ → ℕ) (i : ℕ)
    → i < off + length xs
    → copy off (xs ++ ys) mem i ≡ copy off xs mem i
unfolding copy
copy-append_below off [] ys mem i h = copy_below off ys mem i (omega arith)
copy-append_below off (x ∷ xs) ys mem i h =
    copy-append_below (off + 1) xs ys (update mem off x) i (omega arith)

-- A write below a slice leaves it alone.
pub copy_above :
    (off : ℕ) (bs : List ℕ) (mem : ℕ → ℕ) (i : ℕ) → off + length bs ≤ i → copy off bs mem i ≡ mem i
unfolding copy
copy_above off [] mem i h = refl
copy_above off (b ∷ bs) mem i h =
    ground (arith, copy_above (off + 1) bs (update mem off b) i (omega arith))

pub slice-copy_above :
    (off n to : ℕ) (bs : List ℕ) (mem : ℕ → ℕ)
    → to + length bs ≤ off
    → slice off n (copy to bs mem) ≡ slice off n mem
unfolding slice
slice-copy_above off zero to bs mem h = refl
slice-copy_above off (suc n) to bs mem h =
    ap₂ ◌∷◌ (copy_above to bs mem off h) (slice-copy_above (off + 1) n to bs mem (omega arith))
