-- ===== src/Examples/Packets.antt =====
-- Examples for the packets from the server. `prepare_process` is a function that frees nothing and
-- returns; the packet's body is cut into two messages, of which the first comes with the header.
use web_tunnel.Base.{ℕ, ◌≤◌, ◌≡◌, refl, [], ◌∷◌, ◌++◌, true, false, none, some, Outcome, ok, arith}
use web_tunnel.State.{Mgmt}
use web_tunnel.Header.{http_c_req}
use web_tunnel.Buffers.Ledger.{places}
use web_tunnel.Prepare.{http_mgmt_prepare}
use web_tunnel.Prepare.Contents.{IsFilling, payload}
use web_tunnel.Prepare.Reassembly.{IsReceiving, Received, http_mgmt_prepare-Received}
use web_tunnel.Prepare.Stream.{receive_all}
use web_tunnel.Prepare.Headers.{IsBetween, first_message, packet-IsFilling}
use web_tunnel.Prepare.Stale.{IsLost, stale-IsLost}
use web_tunnel.Examples.Fixtures.{idle_state}

abbrev process : Mgmt → Outcome Mgmt
process m = ok (record m { sync_prepare = false })

idle-once : (a : ℕ) → places idle_state a ≤ 1
idle-once a = ground arith

idle-IsBetween : IsBetween (places idle_state) idle_state
idle-IsBetween = record { unsynced = refl; no_current = refl; owned = λ a. refl; once = idle-once }

packet-IsFilling_example :
    (n : Mgmt) × (receive_all process 100
        (first_message http_c_req 9 3 (65 ∷ []) ∷ [] ++ (66 ∷ 67 ∷ 68 ∷ []) ∷ [])
        idle_state
      ≡ process n)
    × IsFilling (places idle_state) n none (65 ∷ 66 ∷ 67 ∷ [])
    × (n.buf_prepare.kind ≡ http_c_req)
    × (n.buf_prepare.seq ≡ 9)
packet-IsFilling_example =
    packet-IsFilling process 100 http_c_req 9 3 (65 ∷ []) [] (66 ∷ 67 ∷ 68 ∷ []) idle_state
      idle-IsBetween (omega arith) (omega arith) (omega arith) (omega arith) (omega arith)
      ((λ e. cc), omega arith, tt) (omega arith) (omega arith) (omega arith)

-- Reception of three bytes has begun.
abbrev receiving_state : Mgmt
receiving_state = record idle_state {
  sync_prepare = true;
  buf_prepare = record (idle_state.buf_prepare) { total_len = 3; kind = http_c_req; seq = 9 };
}

receiving_state-IsReceiving : IsReceiving (places idle_state) receiving_state [] 3
unfolding payload
receiving_state-IsReceiving = record {
  synced = refl;
  filling = record {
    current = refl;
    contents = refl;
    counted = refl;
    room = omega arith;
    owned = λ a. refl;
    once = idle-once;
  };
  announced = refl;
  incomplete = omega arith;
}

http_mgmt_prepare-Received_example :
    Received
      (places idle_state)
      process
      1
      receiving_state
      (65 ∷ 66 ∷ [])
      3
      (http_mgmt_prepare process 100 (65 ∷ 66 ∷ []) receiving_state)
http_mgmt_prepare-Received_example =
    http_mgmt_prepare-Received process 100 receiving_state [] (65 ∷ 66 ∷ []) 3
      receiving_state-IsReceiving (λ e. cc) (omega arith) (λ e. cc)

-- A packet was given up while its current buffer was 7.
abbrev stale_state : Mgmt
stale_state = record idle_state { buf_prepare = record (idle_state.buf_prepare) { curr = some 7 } }

stale-IsLost_example :
    (n : Mgmt) × (http_mgmt_prepare process 100
        (first_message http_c_req 9 5 (65 ∷ 66 ∷ []))
        stale_state
      ≡ ok (n, 0))
    × IsLost n 7 0 (65 ∷ 66 ∷ []) 5
stale-IsLost_example =
    stale-IsLost process 100 http_c_req 9 5 7 (65 ∷ 66 ∷ []) stale_state refl refl (omega arith)
      (omega arith) (omega arith) (omega arith) (λ e. cc) (omega arith) (omega arith)
