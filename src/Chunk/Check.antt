-- ===== src/Chunk/Check.antt =====
-- `http_chunk_check`.
use web_tunnel.Base.{
  ℕ, ◌+◌, Bool, true, false, List, [], ◌∷◌, ◌++◌, take, drop, Option, none, some, if◌then◌else◌,
}
use web_tunnel.State.{Mgmt, HttpContext}
use web_tunnel.Buffers.{alloc_buf, free_buf, write_buf}
use web_tunnel.ToServer.{codes}
use web_tunnel.Chunk.Text.{c_string, strstr, strcasestr}

-- The index that `http_chunk_check` returns is `none` for -1.
abbrev pub Checked : Type 0
Checked = HttpContext × Mgmt × Option ℕ

-- Whether the header's text names the transfer encoding "chunked".
unfoldable pub names_chunked : List ℕ → Bool
names_chunked header = elim (strcasestr (codes "Transfer-Encoding:") header) [
  | none ↦ false
  | some i ↦ elim (strcasestr (codes "chunked") (drop i header)) as (λ _. Bool) [
    | none ↦ false
    | some k ↦ true
  ]
]

-- The header's `offset` bytes are looked at in a buffer of their own.
unfoldable pub check_header : HttpContext → ℕ → List ℕ → Mgmt → Checked
check_header ctx offset header m =
    let r = alloc_buf m in
    elim r.1 [
      | none ↦ (record ctx { errcode = 11 }, m, none)
      | some t ↦ (
        (if names_chunked header then record ctx { is_chunk = true } else ctx),
        free_buf (some t) (write_buf t 0 (header ++ 0 ∷ []) r.0),
        some offset,
      )
    ]

unfoldable pub http_chunk_check : HttpContext → ℕ → Mgmt → Checked
unfolding check_header
http_chunk_check ctx b m =
    let m1 = write_buf b (m.bufs b).len (0 ∷ []) m in
    let text = c_string ((m.bufs b).len + 1) 0 (m1.bufs b).mem in
    elim (strstr (13 ∷ 10 ∷ 13 ∷ 10 ∷ []) text) [
      | none ↦ (ctx, m1, some 0)
      | some k ↦ check_header ctx (k + 4) (take (k + 4) text) m1
    ]
