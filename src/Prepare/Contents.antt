-- ===== src/Prepare/Contents.antt =====
-- What the buffers of a packet hold while it is received, and how each step of the loop changes it.
use mathlib.Core.Path.{ap₂}
use native.Mathlib.Nat.{zero-add}
use web_tunnel.Base.{
  ℕ, ◌+◌, ◌-◌, ◌≤◌, ◌≡◌, refl, sym, ap, ◌∙◌, subst, List, [], ◌∷◌, ◌++◌, append-nil, append_assoc,
  length, length-append, length-take, take, take-append, count, count-append, Option, none, some,
  update, copy, slice, update_self, ==_refl, slice-append, slice-copy, slice-copy_below,
  length-slice, take-slice, arith,
}
use web_tunnel.State.{Mgmt, Buf}
use web_tunnel.Buffers.{taken}
use web_tunnel.Buffers.Ledger.{places, held}
use web_tunnel.Header.{http_buf_size}
use web_tunnel.Prepare.{save_prepare, set_start, set_curr, fill}

-- The bytes of the buffers on a list.
unfoldable pub payload : (ℕ → Buf) → List ℕ → List ℕ
payload bufs [] = []
payload bufs (b ∷ bs) = slice 0 (bufs b).len (bufs b).mem ++ payload bufs bs

-- The bytes in the current buffer, and their number.
abbrev pub part : (ℕ → Buf) → Option ℕ → List ℕ
part bufs none = []
part bufs (some b) = slice 0 (bufs b).start (bufs b).mem

abbrev pub size : (ℕ → Buf) → Option ℕ → ℕ
size bufs none = 0
size bufs (some b) = (bufs b).start

-- The bytes `got` stand in the buffers of the packet, where `info` is the current one; each
-- buffer stands in as many places as `p` says, and in one at most.
pub record IsFilling (p : ℕ → ℕ) (m : Mgmt) (info : Option ℕ) (got : List ℕ) : Type 0 where
  pub current : m.buf_prepare.curr ≡ info
  pub contents : payload m.bufs m.buf_prepare.list_todo ++ part m.bufs info ≡ got
  pub counted : m.buf_prepare.len + size m.bufs info ≡ length got
  pub room : size m.bufs info ≤ http_buf_size
  pub owned : (a : ℕ) → places m a ≡ p a
  pub once : (a : ℕ) → p a ≤ 1

pub payload-update :
    (bufs : ℕ → Buf) (b : ℕ) (v : Buf) (bs : List ℕ)
    → count b bs ≡ 0
    → payload (update bufs b v) bs ≡ payload bufs bs
unfolding payload
payload-update bufs b v [] h = refl
payload-update bufs b v (x ∷ bs) h = ground (arith, payload-update bufs b v bs)

pub payload-append :
    (bufs : ℕ → Buf) (xs ys : List ℕ) → payload bufs (xs ++ ys) ≡ payload bufs xs ++ payload bufs ys
unfolding payload
payload-append bufs [] ys = refl
payload-append bufs (x ∷ xs) ys =
    ap (λ l. slice 0 (bufs x).len (bufs x).mem ++ l) (payload-append bufs xs ys)
    ∙ sym (append_assoc _ (payload bufs xs) (payload bufs ys))

free-off_packet :
    {p : ℕ → ℕ} (m : Mgmt) (b : ℕ) (bs got : List ℕ) {info : Option ℕ}
    → IsFilling p m info got
    → m.http_buf_caches ≡ b ∷ bs
    → (count b m.buf_prepare.list_todo ≡ 0) × (held b m.buf_prepare.curr ≡ 0)
free-off_packet m b bs got f e = ground (arith, f.owned b, f.once b, ==_refl b)

current-off_packet :
    {p : ℕ → ℕ} (m : Mgmt) (b : ℕ) (got : List ℕ)
    → IsFilling p m (some b) got
    → count b m.buf_prepare.list_todo ≡ 0
current-off_packet m b got f = ground (arith, f.owned b, f.once b, f.current, ==_refl b)

-- A free buffer becomes the current one.
pub taken-IsFilling :
    {p : ℕ → ℕ} (m : Mgmt) (b : ℕ) (bs got : List ℕ)
    → IsFilling p m none got
    → m.http_buf_caches ≡ b ∷ bs
    → IsFilling p (set_curr (some b) (taken m b bs)) (some b) got
unfolding set_curr taken slice
taken-IsFilling m b bs got f e = record {
  current = refl;
  contents =
      ap₂ ◌++◌
        (payload-update m.bufs b _ m.buf_prepare.list_todo (free-off_packet m b bs got f e).0)
        (ap (λ (v : Buf). slice 0 v.start v.mem) (update_self m.bufs b _))
      ∙ f.contents;
  counted = ap (λ (v : Buf). m.buf_prepare.len + v.start) (update_self m.bufs b _) ∙ f.counted;
  room = ground arith;
  owned = λ a. ground (arith, f.owned a, f.current);
  once = f.once;
}

-- The current buffer is put on the list.
pub save_prepare-IsFilling :
    {p : ℕ → ℕ} (m : Mgmt) (b : ℕ) (got : List ℕ)
    → IsFilling p m (some b) got
    → IsFilling p (save_prepare b m) none got
unfolding save_prepare payload
save_prepare-IsFilling m b got f = record {
  current = refl;
  contents =
      append-nil _
      ∙ payload-append saved m.buf_prepare.list_todo (b ∷ [])
      ∙ ap₂ ◌++◌ (payload-update m.bufs b _ m.buf_prepare.list_todo (current-off_packet m b got f))
          (append-nil _ ∙ ap (λ (v : Buf). slice 0 v.len v.mem) (update_self m.bufs b _))
      ∙ f.contents;
  counted = omega (arith, f.counted);
  room = omega arith;
  owned =
      λ a. ground (arith, f.owned a, f.current, count-append a m.buf_prepare.list_todo (b ∷ []));
  once = f.once;
}
  where
    saved : ℕ → Buf
    saved = (save_prepare b m).bufs

-- The current buffer is given other contents.
refill-IsFilling :
    {p : ℕ → ℕ} (m : Mgmt) (b : ℕ) (got more : List ℕ) (v : Buf)
    → IsFilling p m (some b) got
    → payload m.bufs m.buf_prepare.list_todo ++ slice 0 v.start v.mem ≡ more
    → m.buf_prepare.len + v.start ≡ length more
    → v.start ≤ http_buf_size
    → IsFilling p (record m { bufs = update m.bufs b v }) (some b) more
refill-IsFilling m b got more v f c l r = record {
  current = f.current;
  contents =
      ap₂ ◌++◌ (payload-update m.bufs b v m.buf_prepare.list_todo (current-off_packet m b got f))
        (ap (λ (w : Buf). slice 0 w.start w.mem) (update_self m.bufs b v))
      ∙ c;
  counted = ap (λ (w : Buf). m.buf_prepare.len + w.start) (update_self m.bufs b v) ∙ l;
  room = subst (λ (w : Buf). w.start ≤ http_buf_size) (sym (update_self m.bufs b v)) r;
  owned = f.owned;
  once = f.once;
}

-- Bytes that fit are written behind those in the current buffer.
pub fill-IsFilling :
    {p : ℕ → ℕ} (m : Mgmt) (b : ℕ) (got bytes : List ℕ)
    → IsFilling p m (some b) got
    → (m.bufs b).start + length bytes ≤ http_buf_size
    → IsFilling p (fill b bytes m) (some b) (got ++ bytes)
unfolding fill
fill-IsFilling m b got bytes f fits =
    refill-IsFilling m b got (got ++ bytes) _ f contents
      (omega (arith, f.counted, length-append got bytes)) fits
  where
    v : Buf
    v = m.bufs b

    written :
        slice 0 (v.start + length bytes) (copy v.start bytes v.mem) ≡ slice 0 v.start v.mem ++ bytes
    written =
        slice-append 0 v.start (length bytes) (copy v.start bytes v.mem)
        ∙ ap₂ ◌++◌ (slice-copy_below 0 v.start v.start bytes v.mem (omega arith))
            (rw (zero-add v.start) (slice-copy v.start bytes v.mem))

    contents :
        payload m.bufs m.buf_prepare.list_todo
          ++ slice 0 (v.start + length bytes) (copy v.start bytes v.mem)
        ≡ got ++ bytes
    contents =
        ap (◌++◌ (payload m.bufs m.buf_prepare.list_todo)) written
        ∙ sym (append_assoc _ (slice 0 v.start v.mem) bytes)
        ∙ ap (λ l. l ++ bytes) f.contents

-- The current buffer is cut down, so that `total` bytes are left.
pub set_start-IsFilling :
    {p : ℕ → ℕ} (m : Mgmt) (b total : ℕ) (got : List ℕ)
    → IsFilling p m (some b) got
    → m.buf_prepare.len ≤ total
    → total ≤ length got
    → IsFilling p
        (set_start b ((m.bufs b).start - ((m.bufs b).start + m.buf_prepare.len - total)) m)
        (some b)
        (take total got)
unfolding set_start
set_start-IsFilling m b total got f lo hi =
    refill-IsFilling m b got (take total got) _ f contents
      (omega (arith, f.counted, length-take total got)) (omega (arith, f.room))
  where
    v : Buf
    v = m.bufs b

    before : List ℕ
    before = payload m.bufs m.buf_prepare.list_todo

    counted : length before + v.start ≡ length got
    counted = omega (
      arith,
      ap length f.contents,
      length-append before (slice 0 v.start v.mem),
      length-slice 0 v.start v.mem,
    )

    left : v.start - (v.start + m.buf_prepare.len - total) ≡ total - length before
    left = omega (arith, counted, f.counted)

    contents :
        before ++ slice 0 (v.start - (v.start + m.buf_prepare.len - total)) v.mem ≡ take total got
    contents = rw left (
        ap (◌++◌ before) (
          sym (
            take-slice (total - length before) 0 v.start v.mem (omega (arith, counted, f.counted))))
        ∙ sym (take-append total before (slice 0 v.start v.mem) (omega (arith, counted, f.counted)))
        ∙ ap (take total) f.contents)
