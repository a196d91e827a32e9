-- ===== src/State/Buffer.antt =====
-- `http_buf_info` and `http_buf`.
use web_tunnel.Base.{ℕ, List, [], Option, none}

-- `mem` is the memory behind the pointer `buf`.
pub record Buf : Type 0 where
  pub mem : ℕ → ℕ
  pub start : ℕ
  pub len : ℕ
  pub total_len : ℕ

pub record HttpBuf : Type 0 where
  pub list_todo : List ℕ
  pub curr : Option ℕ
  pub len : ℕ
  pub total_len : ℕ
  pub kind : ℕ
  pub seq : ℕ

abbrev pub empty_buf : Buf
empty_buf = record { mem = λ _. 0; start = 0; len = 0; total_len = 0 }

abbrev pub empty_http_buf : HttpBuf
empty_http_buf = record { list_todo = []; curr = none; len = 0; total_len = 0; kind = 0; seq = 0 }
