-- ===== src/Examples/Contexts.antt =====
-- Examples for the contexts' creation, and for a new websocket.
use web_tunnel.Base.{
  ℕ, zero, suc, ◌<◌, ◌≡◌, refl, true, [], ◌∷◌, ◌++◌, copy, Bool, Option, some, Returns, ok, arith,
}
use web_tunnel.State.{Mgmt, HttpContext, empty_http_buf, empty_buf, zero_context}
use web_tunnel.HttpContext.Coroutines.{fd_of}
use web_tunnel.HttpContext.Host.{host_init, get_host_from_buf, set_host, str_strip, port_of}
use web_tunnel.ToServer.{codes}
use web_tunnel.Chunk.Text.{strstr, c_string}
use web_tunnel.HttpContext.Lifetime.{http_context_create}
use web_tunnel.HttpContext.Lifetime.Lost.{IsLost, create_each, http_context_create-IsLost}
use web_tunnel.HttpContext.Lifetime.Created.{IsMade, http_context_create-IsCreated}
use web_tunnel.PollTable.Laws.{IsTable, Polled}
use web_tunnel.Scheduler.Timeout.{IsUnlisted}
use web_tunnel.Tunnel.Loop.{reset}
use web_tunnel.Tunnel.Reconnect.{IsFresh, reset-IsFresh}
use web_tunnel.Examples.Fixtures.{idle_state}

idle_in_range : (c : ℕ) → fd_of (idle_state.ctxs c).sockfd < idle_state.max_fds
idle_in_range zero = omega arith
idle_in_range (suc n) = omega arith

idle-IsUnlisted : (c : ℕ) → IsUnlisted (idle_state.ctxs c)
idle-IsUnlisted zero = (refl, refl)
idle-IsUnlisted (suc n) = (refl, refl)

reset-IsFresh_example : Returns (IsFresh 100 idle_state) (reset 100 idle_state)
reset-IsFresh_example =
    reset-IsFresh 100 idle_state
      (record { entries = omega arith; in_range = idle_in_range; unlisted = idle-IsUnlisted })

-- The request in the buffer 8 is for the port 80 of the host "a".
abbrev request_state : Mgmt
request_state = record idle_state {
  bufs = λ _. record empty_buf { mem = copy 0 (codes "host:a:80" ++ 13 ∷ 10 ∷ []) (λ _. 0) };
  buf_prepare = record empty_http_buf { list_todo = 8 ∷ [] };
}

abbrev host : HttpContext × Bool
host = (record zero_context { hostname = codes "a"; port = 80 }, true)

host_found : host_init request_state.buf_prepare zero_context request_state ≡ ok host
unfolding host_init get_host_from_buf set_host strstr c_string copy str_strip port_of
host_found = refl

http_context_create-IsLost_example :
    Returns
      (λ n.
        IsLost [] request_state n
        × ((socket : Option ℕ) → http_context_create 100 8 socket n ≡ ok (n, true)))
      (create_each 2 100 8 request_state)
http_context_create-IsLost_example = http_context_create-IsLost 100 8 host request_state host_found

request_state-IsTable : IsTable request_state
request_state-IsTable zero h = refl
request_state-IsTable (suc zero) h = refl
request_state-IsTable (suc (suc n)) h = absurd (omega arith)

request_state-new : ¬ Polled request_state 7
request_state-new h = omega arith

http_context_create-IsCreated_example :
    Returns
      (λ r. (r.1 ≡ true) × IsMade 2 7 108 (3 ∷ []) (codes "a") request_state r.0)
      (http_context_create 100 8 (some 7) request_state)
http_context_create-IsCreated_example =
    http_context_create-IsCreated 100 8 host.0 2 (3 ∷ []) 7 request_state refl host_found
      (omega arith, (omega arith, tt)) refl request_state-IsTable (omega arith) request_state-new
