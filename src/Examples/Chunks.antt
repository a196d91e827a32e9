-- ===== src/Examples/Chunks.antt =====
-- An example of a response in chunks: a header, the chunk "abc", and the last chunk.
use web_tunnel.Base.{
  ℕ, ◌+◌, ◌≤◌, ◌≡◌, refl, true, some, List, [], ◌∷◌, ◌++◌, copy, slice, Returns, length, arith,
}
use web_tunnel.State.{Mgmt, HttpContext, empty_buf, empty_http_buf, zero_context}
use web_tunnel.ToServer.{codes}
use web_tunnel.Buffers.{write_buf, alloc_buf, taken}
use web_tunnel.Header.{http_buf_size}
use web_tunnel.Chunk.Text.{scan_hex, strstr, c_string}
use web_tunnel.Chunk.Check.{http_chunk_check, names_chunked}
use web_tunnel.Chunk.Parse.{http_parse}
use web_tunnel.Chunk.Parse.Scan.{StandsAt}
use web_tunnel.Chunk.Parse.Pieces.{Piece, IsPiece, encoded, carried}
use web_tunnel.Chunk.Parse.Decoded.{IsParsed, http_parse-IsParsed}
use web_tunnel.Examples.Fixtures.{idle_state}

abbrev header : List ℕ
header = codes "Transfer-Encoding:chunked" ++ 13 ∷ 10 ∷ 13 ∷ 10 ∷ []

abbrev abc : Piece
abc = record { line = 51 ∷ []; bytes = 97 ∷ 98 ∷ 99 ∷ [] }

abc-IsPiece : IsPiece abc
unfolding scan_hex
abc-IsPiece = record {
  text = ((λ e. omega arith), (λ e. omega arith), tt);
  short = omega arith;
  size = refl;
  full = λ e. cc;
  shown = λ e. cc;
}

abbrev response_state : Mgmt
response_state = record idle_state {
  bufs = λ _. record empty_buf { mem = copy 0 (header ++ encoded (abc ∷ [])) (λ _. 0); len = 40 };
}

abbrev response : HttpContext
response = record zero_context { buf_read = record empty_http_buf { list_todo = 8 ∷ 9 ∷ [] } }

abbrev chunked : HttpContext
chunked = record response { is_chunk = true }

abbrev checked_state : Mgmt
checked_state = (http_chunk_check response 8 response_state).1

checked : http_chunk_check response 8 response_state ≡ (chunked, checked_state, some 29)
unfolding http_chunk_check strstr c_string write_buf copy alloc_buf names_chunked taken
checked = refl

stands : StandsAt (checked_state.bufs 8).mem 29 (encoded (abc ∷ []))
unfolding http_chunk_check strstr c_string write_buf copy alloc_buf names_chunked taken
stands = (refl, (refl, (refl, (refl, (refl, (refl, (refl, (refl, (refl, (refl, (refl, tt)))))))))))

inside : 29 + length (encoded (abc ∷ [])) ≤ (checked_state.bufs 8).len
unfolding http_chunk_check strstr c_string write_buf copy alloc_buf names_chunked taken
inside = omega arith

fits : (checked_state.bufs 8).len ≤ http_buf_size
unfolding http_chunk_check strstr c_string write_buf copy alloc_buf names_chunked taken
fits = omega arith

http_parse-IsParsed_example :
    Returns
      (IsParsed 8
        (record chunked { buf_read = record empty_http_buf { list_todo = 9 ∷ [] } })
        checked_state.http_buf_caches
        (slice 0 29 (checked_state.bufs 8).mem ++ carried (abc ∷ [])))
      (http_parse response response_state)
http_parse-IsParsed_example =
    http_parse-IsParsed 8 (9 ∷ []) (abc ∷ []) 29 (abc-IsPiece, tt) (λ e. omega arith) response
      response_state chunked checked_state refl checked refl refl stands inside fits
