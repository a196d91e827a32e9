-- ===== src/Examples/Forwarding.antt =====
-- Examples for the forwarded connections and for the chunks of a response.
use web_tunnel.Base.{
  true, suc, ◌≡◌, refl, [], ◌∷◌, false, none, some, fault, no_rounds, Returns, arith, leb,
  if◌then◌else◌, ◌==◌,
}
use web_tunnel.Base.Int.{negsuc}
use web_tunnel.State.{
  Mgmt, TcpForward, empty_buf, empty_http_buf, zero_forward, zero_context, CcrLine,
}
use web_tunnel.Runtime.{WriteAnswer, IsHonest}
use web_tunnel.Forward.Coroutines.{tcp_forward_write}
use web_tunnel.Forward.Coroutines.Writing.{tcp_forward_write-IsWritten}
use web_tunnel.Forward.Coroutines.Writing.Spec.{IsWritten, IsOnce}
use web_tunnel.Chunk.Machine.{Parser, chunk_loop, chunk_get_size}
use web_tunnel.Chunk.Parse.Hang.{chunk_loop_endless}
use web_tunnel.Dispatch.Forwarding.{process_tcp_forwardresp}
use web_tunnel.Dispatch.Forwarding.Queued.{IsQueued, process_tcp_forwardresp-IsQueued}
use web_tunnel.Examples.Fixtures.{idle_state}

-- A connection with the buffer 8 to be written, of which a part was written before.
abbrev writing : TcpForward
writing = record zero_forward {
  ccr_line = CcrLine.partial;
  buf_write = record empty_http_buf { list_todo = 8 ∷ []; curr = some 8 };
  fwd_fd = 3;
  pfd = some 0;
}

abbrev forward_state : Mgmt
forward_state = record idle_state {
  bufs = λ _. record empty_buf { mem = suc; start = 1; len = 5 };
  forwards = λ _. some writing;
  list_forward = 0 ∷ [];
  len_forward = 1;
}

-- Two bytes are taken at most.
abbrev two : WriteAnswer
two = record { taken = λ len. if leb 2 len then some 2 else none; again = false }

two-IsHonest : IsHonest two
two-IsHonest len n h = ground arith

writing-IsOnce : IsOnce writing.buf_write.list_todo
writing-IsOnce a = ground arith

tcp_forward_write-IsWritten_example :
    Returns (IsWritten writing forward_state) (tcp_forward_write (two ∷ []) writing forward_state)
tcp_forward_write-IsWritten_example =
    tcp_forward_write-IsWritten (two ∷ []) writing forward_state 0 (two-IsHonest, tt) refl
      writing-IsOnce refl

-- A size of 0x80000000, with bytes left in the buffer 8.
abbrev stuck : Parser
stuck = record {
  ctx = zero_context;
  mgmt = forward_state;
  buf_info = some 8;
  last_buf = some 8;
  plist = [];
  state = chunk_get_size;
  offset = 2;
  last_i = 1;
  new_total = 1;
  j = 0;
  chunk_str = λ _. 0;
  chunk_size = some (negsuc 0x7fffffff);
}

chunk_loop_endless_example : chunk_loop 3 stuck ≡ fault no_rounds
chunk_loop_endless_example = chunk_loop_endless stuck 8 0x7fffffff refl refl refl (omega arith) 3

-- The buffer 9 is a packet for the connection, while it is idle.
abbrev idle_connection : TcpForward
idle_connection = record zero_forward { fwd_fd = 3; pfd = some 0; idle = true; seq = 4 }

-- A connection with another number stands before it on the list.
abbrev other_connection : TcpForward
other_connection = record zero_forward { fwd_fd = 5; pfd = some 1; idle = true; seq = 3 }

abbrev packet_state : Mgmt
packet_state = record forward_state {
  forwards = λ g. if g == 1 then some other_connection else some idle_connection;
  list_forward = 1 ∷ 0 ∷ [];
  buf_prepare = record empty_http_buf { list_todo = 9 ∷ []; seq = 4 };
}

process_tcp_forwardresp-IsQueued_example :
    Returns
      (λ r. (r.1 ≡ true) × IsQueued packet_state 0 idle_connection r.0)
      (process_tcp_forwardresp packet_state)
process_tcp_forwardresp-IsQueued_example =
    process_tcp_forwardresp-IsQueued packet_state 0 (1 ∷ []) [] idle_connection 0 refl
      ((other_connection, refl, λ e. omega (arith, e)), tt) refl refl refl refl
