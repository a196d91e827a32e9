-- ===== src/Chunk/Parse/Hang.antt =====
-- A chunk whose size is read as a negative `int`.
use web_tunnel.Base.{
  ℕ, zero, suc, ◌-◌, ◌<◌, ◌≡◌, refl, ap, false, some, ok, fault, no_rounds, arith, ◌==◌,
}
use web_tunnel.Base.Int.{negsuc}
use web_tunnel.Chunk.Machine.{
  Parser, copy_chunk, step_get_size, chunk_step, chunk_loop, chunk_get_size, going, below_size,
  at_size,
}

module _ (p : Parser) (b n : ℕ) (at : p.state ≡ chunk_get_size) (here : p.buf_info ≡ some b)
    (negative : p.chunk_size ≡ some (negsuc n)) (inside : p.offset < (p.mgmt.bufs b).len) where
  copy_chunk-same : (k : ℕ) → copy_chunk k b p ≡ ok p
  unfolding copy_chunk
  copy_chunk-same zero = refl
  copy_chunk-same (suc k) = rw (ap (below_size p.j) negative)

  not_at_end : (p.offset == (p.mgmt.bufs b).len) ≡ false
  not_at_end = ground arith

  step_get_size-same : step_get_size b p ≡ ok (p, going)
  unfolding step_get_size
  step_get_size-same =
      rw (copy_chunk-same ((p.mgmt.bufs b).len - p.offset))
        (rw (not_at_end, ap (at_size p.j) negative))

  chunk_step-same : chunk_step p ≡ ok (p, going)
  unfolding chunk_step
  chunk_step-same = simp (here, at, step_get_size-same)

  -- Where a byte of the current buffer is left and the size of the chunk is negative, the loop of
  -- `http_parse` does not end: whatever number of rounds it is given, it uses them up.
  pub chunk_loop_endless : (rounds : ℕ) → chunk_loop rounds p ≡ fault no_rounds
  unfolding chunk_loop
  chunk_loop_endless zero = refl
  chunk_loop_endless (suc rounds) = rw chunk_step-same (chunk_loop_endless rounds)
