-- ===== src/Header/Roundtrip.antt =====
-- What is read back from the bytes of a header.
use web_tunnel.Base.{
  List, ◌++◌, ◌∙◌, copy-append_below, drop, ℕ, ◌^◌, ◌<◌, ◌≡◌, refl, arith, copy, length,
}
use web_tunnel.Header.{
  Header, header_bytes, read_header, htons, htonl, http_c_header_len, make_header,
}

pub htons_twice : (x : ℕ) → x < 2 ^ 16 → htons (htons x) ≡ x
htons_twice x h = omega arith

pub htonl_twice : (x : ℕ) → x < 2 ^ 32 → htonl (htonl x) ≡ x
htonl_twice x h = omega arith

pub length-header_bytes : (h : Header) → length (header_bytes h) ≡ http_c_header_len
unfolding header_bytes
length-header_bytes h = refl

header_ext :
    {g h : Header}
    → g.magic ≡ h.magic
    → g.version ≡ h.version
    → g.kind ≡ h.kind
    → g.seq ≡ h.seq
    → g.length ≡ h.length
    → g.reserved ≡ h.reserved
    → g ≡ h
header_ext p q r s t u =
    λ i. record { magic = p i; version = q i; kind = r i; seq = s i; length = t i; reserved = u i }

-- A header written at the start of a buffer is read back field by field.
pub read_header-copy :
    (h : Header) (mem : ℕ → ℕ)
    → h.magic < 2 ^ 32
    → h.version < 256
    → h.kind < 256
    → h.seq < 2 ^ 16
    → h.length < 2 ^ 32
    → h.reserved < 2 ^ 32
    → read_header (copy 0 (header_bytes h) mem) ≡ h
unfolding read_header header_bytes copy
read_header-copy h mem a b c d e f =
    header_ext (omega arith) (omega arith) (omega arith) (omega arith) (omega arith) (omega arith)

-- Only the first 16 bytes of the memory are read.
pub read_header_ext :
    (f g : ℕ → ℕ) → ((i : ℕ) → i < http_c_header_len → f i ≡ g i) → read_header f ≡ read_header g
unfolding read_header
read_header_ext f g h =
    header_ext
      (omega (arith, h 0 (omega arith), h 1 (omega arith), h 2 (omega arith), h 3 (omega arith)))
      (h 4 (omega arith)) (h 5 (omega arith)) (omega (arith, h 6 (omega arith), h 7 (omega arith)))
      (omega (arith, h 8 (omega arith), h 9 (omega arith), h 10 (omega arith), h 11 (omega arith)))
      (omega
        (arith, h 12 (omega arith), h 13 (omega arith), h 14 (omega arith), h 15 (omega arith)))

-- A header that is followed by other bytes.
pub read_header-append :
    (kind seq len : ℕ) (body : List ℕ) (mem : ℕ → ℕ)
    → kind < 256
    → seq < 2 ^ 16
    → len < 2 ^ 32
    → read_header (copy 0 (header_bytes (make_header kind seq len) ++ body) mem)
      ≡ make_header kind seq len
read_header-append kind seq len body mem k s l =
    read_header_ext _ _ (λ i h.
      copy-append_below 0 (header_bytes (make_header kind seq len)) body mem i
        (omega (arith, length-header_bytes (make_header kind seq len))))
    ∙ read_header-copy (make_header kind seq len) mem (omega arith) (omega arith) k (omega arith)
        (omega arith) (omega arith)

pub drop-header_bytes :
    (h : Header) (body : List ℕ) → drop http_c_header_len (header_bytes h ++ body) ≡ body
unfolding header_bytes
drop-header_bytes h body = refl
