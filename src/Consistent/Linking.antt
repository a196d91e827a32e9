-- ===== src/Consistent/Linking.antt =====
-- What the operations on clients and connections do to the links between them.
use web_tunnel.Base.{
  ℕ, ◌+◌, ◌-◌, ◌≤◌, ◌≡◌, ◌≢◌, refl, ap, ◌∙◌, Bool, true, false, List, [], ◌∷◌, Option, none, some,
  length, count, update, arith, ◌==◌, if◌then◌else◌,
}
use web_tunnel.State.{Ref}
use web_tunnel.Buffers.{list_del}
use web_tunnel.Consistent.{IsPool, Holds, Leads, used}

pub count-list_del :
    (a b : ℕ) (xs : List ℕ)
    → 1 ≤ count a xs
    → count b (list_del a xs) + (if a == b then 1 else 0) ≡ count b xs
count-list_del a b [] h = absurd (omega arith)
count-list_del a b (x ∷ xs) h = ground (arith, count-list_del a b xs)

pub length-list_del :
    (a : ℕ) (xs : List ℕ) → 1 ≤ count a xs → length (list_del a xs) + 1 ≡ length xs
length-list_del a [] h = absurd (omega arith)
length-list_del a (x ∷ xs) h = ground (arith, length-list_del a xs)

module _ {A : Type 0} (fd_of : A → ℕ) (objects : ℕ → Option A) (next : ℕ) (list : List ℕ)
    (len : ℕ) where
  -- The object stays in use and keeps its socket.
  pub put-IsPool :
      (c : ℕ) (v w : A)
      → IsPool fd_of objects next list len
      → objects c ≡ some v
      → fd_of w ≡ fd_of v
      → IsPool fd_of (update objects c (some w)) next list len
  put-IsPool c v w l e s = record {
    counted = l.counted;
    listed = λ x. ground (arith, l.listed x);
    fresh = λ x h. ground (arith, l.fresh x);
    fds = λ x y h. ground (arith, l.fds x y, l.fds c v);
  }

  pub new-IsPool :
      (w : A)
      → IsPool fd_of objects next list len
      → fd_of w ≢ 0
      → IsPool fd_of (update objects next (some w)) (next + 1) (next ∷ list) (len + 1)
  new-IsPool w l s = record {
    counted = ground (arith, l.counted);
    listed = λ x. ground (arith, l.listed x, l.fresh next);
    fresh = λ x h. ground (arith, l.fresh x);
    fds = λ x y h. ground (arith, l.fds x y);
  }

  pub drop-IsPool :
      (c : ℕ) (v : A)
      → IsPool fd_of objects next list len
      → objects c ≡ some v
      → IsPool fd_of (update objects c none) next (list_del c list) (len - 1)
  drop-IsPool c v l e =
      let once : count c list ≡ 1 = l.listed c ∙ ap used e in
      record {
        counted = ground (arith, l.counted, length-list_del c list);
        listed = λ x. ground (arith, l.listed x, count-list_del c x list);
        fresh = λ x h. ground (arith, l.fresh x);
        fds = λ x y h. ground (arith, l.fds x y);
      }

-- Another object is put at `c`: what is held elsewhere is held still.
module _ {A : Type 0} (fd_of : A → ℕ) (objects : ℕ → Option A) where
  held_at :
      (c x fd : ℕ) (o : Option A) (b : Bool)
      → (c == x) ≡ b
      → Holds fd_of objects x fd
      → ((v : A) → objects x ≡ some v → c ≡ x → (u : A) × (o ≡ some u) × (fd_of u ≡ fd_of v))
      → (w : A) × ((if b then o else objects x) ≡ some w) × (fd_of w ≡ fd)
  held_at c x fd o true t h k = let r = k h.0 h.1 (ground arith) in (r.0, r.1, r.2 ∙ h.2)
  held_at c x fd o false t h k = h

  pub put-Holds :
      (c x fd : ℕ) (v w : A)
      → Holds fd_of objects x fd
      → objects c ≡ some v
      → fd_of w ≡ fd_of v
      → Holds fd_of (update objects c (some w)) x fd
  put-Holds c x fd v w h e s =
      held_at c x fd (some w) (c == x) refl h λ u p q. (w, refl, ground arith)

  pub other-Holds :
      (c x fd : ℕ) (o : Option A)
      → Holds fd_of objects x fd
      → c ≢ x
      → Holds fd_of (update objects c o) x fd
  other-Holds c x fd o h e = held_at c x fd o (c == x) refl h λ u p q. absurd (e q)

module _ {A : Type 0} (ref : ℕ → Ref) (fd_of : A → ℕ) (objects : ℕ → Option A)
    (lookup : ℕ → Option Ref) where
  pub put-Leads :
      (c : ℕ) (v w : A)
      → Leads ref fd_of objects lookup
      → objects c ≡ some v
      → fd_of w ≡ fd_of v
      → Leads ref fd_of (update objects c (some w)) lookup
  put-Leads c v w l e s fd x h = put-Holds fd_of objects c x fd v w (l fd x h) e s

  -- The entry of a descriptor is changed to something else.
  pub other-Leads :
      (d : ℕ) (r : Option Ref)
      → Leads ref fd_of objects lookup
      → ((c : ℕ) → r ≢ some (ref c))
      → Leads ref fd_of objects (update lookup d r)
  other-Leads d r l n fd x h = l fd x (ground (arith, n x))

  led_at :
      (c : ℕ) (w : A)
      → ((a b : ℕ) → ref a ≡ ref b → a ≡ b)
      → Leads ref fd_of objects lookup
      → objects c ≡ none
      → (fd x : ℕ) (b : Bool) → (fd_of w == fd) ≡ b
      → (if b then some (ref c) else lookup fd) ≡ some (ref x)
      → Holds fd_of (update objects c (some w)) x fd
  led_at c w inj l e fd x true p h = let q : c ≡ x = inj c x (cc) in (w, ground arith, ground arith)
  led_at c w inj l e fd x false p h =
      let r = l fd x h in
      other-Holds fd_of objects c x fd (some w) r λ q. let o : objects x ≡ some r.0 = r.1 in cc

  pub new-Leads :
      (c : ℕ) (w : A)
      → ((a b : ℕ) → ref a ≡ ref b → a ≡ b)
      → Leads ref fd_of objects lookup
      → objects c ≡ none
      → Leads ref fd_of (update objects c (some w)) (update lookup (fd_of w) (some (ref c)))
  new-Leads c w inj l e fd x h = led_at c w inj l e fd x (fd_of w == fd) refl h

  pub drop-Leads :
      (c : ℕ) (v : A)
      → Leads ref fd_of objects lookup
      → objects c ≡ some v
      → Leads ref fd_of (update objects c none) (update lookup (fd_of v) none)
  drop-Leads c v l e fd x h =
      let k : lookup fd ≡ some (ref x) = ground arith in
      let d : fd_of v ≢ fd = λ q. ground arith in
      other-Holds fd_of objects c x fd none (l fd x k) λ q.
        let r = l fd x k in
        let p : fd_of r.0 ≡ fd = r.2 in let o : objects x ≡ some r.0 = r.1 in d (cc)
