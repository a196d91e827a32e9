-- ===== src/Header.antt =====
-- `http_c_header` of test-server/http_client.h and its bytes, as the program writes and reads them on a
-- little-endian host, where `htons` and `htonl` turn the bytes of a number round.
pub mod Roundtrip
use web_tunnel.Base.{ℕ, ◌+◌, ◌*◌, ◌/◌, ◌%◌, ◌^◌, List, [], ◌∷◌, ◌++◌}

abbrev pub http_c_magic : ℕ
http_c_magic = 0x10293874

abbrev pub http_c_version : ℕ
http_c_version = 1

abbrev pub http_c_req : ℕ
http_c_req = 0x1

abbrev pub http_c_resp : ℕ
http_c_resp = 0x2

abbrev pub http_c_hand : ℕ
http_c_hand = 0x3

abbrev pub http_c_tunnelreq : ℕ
http_c_tunnelreq = 0x5

abbrev pub http_c_tunnelresp : ℕ
http_c_tunnelresp = 0x6

abbrev pub http_c_forward : ℕ
http_c_forward = 0x10

abbrev pub http_c_forward_req : ℕ
http_c_forward_req = 0x11

abbrev pub http_c_forward_resp : ℕ
http_c_forward_resp = 0x12

-- `sizeof(http_c_header)`.
abbrev pub http_c_header_len : ℕ
http_c_header_len = 16

abbrev pub http_buf_size : ℕ
http_buf_size = 2048

abbrev pub http_in_max : ℕ
http_in_max = 20480

abbrev pub websock_min_pack_size : ℕ
websock_min_pack_size = 40

-- The bytes of a `uint16_t` and a `uint32_t` in memory, and back.
abbrev pub bytes16 : ℕ → List ℕ
bytes16 x = (x % 256) ∷ (x / 256 % 256) ∷ []

abbrev pub bytes32 : ℕ → List ℕ
bytes32 x = (x % 256) ∷ (x / 256 % 256) ∷ (x / 65536 % 256) ∷ (x / 16777216 % 256) ∷ []

abbrev pub word16 : ℕ → ℕ → ℕ
word16 b0 b1 = b0 + b1 * 256

abbrev pub word32 : ℕ → ℕ → ℕ → ℕ → ℕ
word32 b0 b1 b2 b3 = b0 + b1 * 256 + b2 * 65536 + b3 * 16777216

abbrev pub htons : ℕ → ℕ
htons x = word16 (x / 256 % 256) (x % 256)

abbrev pub htonl : ℕ → ℕ
htonl x = word32 (x / 16777216 % 256) (x / 65536 % 256) (x / 256 % 256) (x % 256)

-- The fields as they stand in memory.
pub record Header : Type 0 where
  pub magic : ℕ
  pub version : ℕ
  pub kind : ℕ
  pub seq : ℕ
  pub length : ℕ
  pub reserved : ℕ

-- The packed structure, byte for byte.
pub header_bytes : Header → List ℕ
header_bytes h =
    bytes32 h.magic
    ++ (h.version % 256) ∷ (h.kind % 256) ∷ bytes16 h.seq
    ++ bytes32 h.length
    ++ bytes32 h.reserved

-- `memcpy(&header, buf, 16)`, from the memory at `buf`.
pub read_header : (ℕ → ℕ) → Header
read_header mem = record {
  magic = word32 (mem 0) (mem 1) (mem 2) (mem 3);
  version = mem 4;
  kind = mem 5;
  seq = word16 (mem 6) (mem 7);
  length = word32 (mem 8) (mem 9) (mem 10) (mem 11);
  reserved = word32 (mem 12) (mem 13) (mem 14) (mem 15);
}

-- The header that every sender but `generate_error` fills in.
abbrev pub make_header : ℕ → ℕ → ℕ → Header
make_header kind seq len = record {
  magic = htonl http_c_magic;
  version = http_c_version;
  kind = kind;
  seq = htons seq;
  length = htonl len;
  reserved = 0;
}
