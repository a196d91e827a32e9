-- ===== src/HttpContext/Host.antt =====
-- The host of a request: `str_strip`, `get_host_from_buf` and `host_init`.
use web_tunnel.Base.{
  ℕ, ◌+◌, ◌-◌, ◌*◌, ◌%◌, ◌^◌, Bool, true, false, ◌&&◌, List, [], ◌∷◌, take, drop, none, some,
  Outcome, ok, fault, overrun, ◌>>=◌, deref, ltb, leb, ◌==◌, if◌then◌else◌,
}
use web_tunnel.State.{Mgmt, HttpBuf, HttpContext}
use web_tunnel.Buffers.{next_buf_info}
use web_tunnel.Header.{http_buf_size}
use web_tunnel.ToServer.{codes}
use web_tunnel.Chunk.Text.{c_string, strstr, is_space, skip_space}

unfoldable pub str_strip : List ℕ → List ℕ
str_strip [] = []
str_strip (c ∷ cs) = let rest = str_strip cs in if is_space c then rest else c ∷ rest

-- The decimal digits at the head of a text, behind the number `acc`.
unfoldable pub digits_value : ℕ → List ℕ → ℕ
digits_value acc [] = acc
digits_value acc (c ∷ cs) =
    let rest = digits_value (acc * 10 + (c - 48)) cs in if leb 48 c && leb c 57 then rest else acc

-- The bits of a `short` that is given the result of `atoi`.
abbrev signed_value : List ℕ → ℕ
signed_value [] = 0
signed_value (c ∷ cs) =
    if c == 45
    then (2 ^ 16 - digits_value 0 cs % 2 ^ 16) % 2 ^ 16
    else if c == 43
    then digits_value 0 cs % 2 ^ 16
    else digits_value 0 (c ∷ cs) % 2 ^ 16

unfoldable pub port_of : List ℕ → ℕ
unfolding skip_space digits_value
port_of s = signed_value (skip_space s)

-- `char hostname[128]`.
abbrev pub hostname_size : ℕ
hostname_size = 128

-- The host and the port of what stands behind "host:", which is a `char hostname[128]`.
unfoldable pub set_host : List ℕ → HttpContext → HttpContext
unfolding str_strip port_of
set_host name ctx = elim (strstr (codes ":") name) [
  | none ↦ record ctx { hostname = str_strip name; port = 80 }
  | some k ↦ record ctx { hostname = str_strip (take k name); port = port_of (drop (k + 1) name) }
]

-- `get_host_from_buf` on the text at `buf`; the Boolean is that 0 is returned.
unfoldable pub get_host_from_buf : List ℕ → HttpContext → Outcome (HttpContext × Bool)
unfolding set_host
get_host_from_buf text ctx = elim (strstr (codes "host:") text) [
  | none ↦ ok (ctx, false)
  | some i ↦
      (let line = drop (i + 5) text in
        elim (strstr (13 ∷ 10 ∷ []) line) as (λ _. Outcome (HttpContext × Bool)) [
          | none ↦ ok (ctx, false)
          | some n ↦
              if ltb n hostname_size then ok (set_host (take n line) ctx, true) else fault overrun
        ])
]

-- `host_init` for the request in `pbuf`. The text ends at its first NUL, or with the buffer.
unfoldable pub host_init : HttpBuf → HttpContext → Mgmt → Outcome (HttpContext × Bool)
unfolding get_host_from_buf
host_init pbuf ctx m = deref (next_buf_info pbuf.list_todo) >>= λ b.
    get_host_from_buf (c_string http_buf_size 0 (m.bufs b).mem) ctx
