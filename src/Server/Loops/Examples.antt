-- ===== src/Server/Loops/Examples.antt =====
-- Runs of the loops of crates/ombrac-server/src/connection/datagram.rs, and the theorems at these inputs.
use native.Mathlib.Decide.{ℕ_discrete}
use ombrac.Prelude.{ℕ, none, some, List, [], ◌∷◌, ◌++◌, ◌+◌, ◌≡◌, refl, true, All, ok, err}
use ombrac.Net.{
  Bytes, SocketAddr, ip_v4, socket_addr, io_error, timed_out, connection_reset, IoResult,
}
use ombrac.Cache.Map.{map_cache}
use ombrac.Metrics.{zero_counters}
use ombrac.Protocol.{UdpPacket, unfragmented}
use ombrac.Server.{Parts, Tunnel}
use ombrac.Server.Loops.{
  AcceptTurn, reading, accept_loop, DownstreamHandler, DownstreamTurn, cancelled, receiving,
  send_datagram, process_and_send_datagram, downstream_turn, downstream_loop, new_counts,
}
use ombrac.Server.Loops.Accept.{GoesOn, EndsBy, datagrams, handle_all, accept_loop-EndsBy}
use ombrac.Server.Loops.Downstream.{received, total, Replies, downstream_loop-Replies}
use ombrac.Server.Loops.Account.{
  World, open_session, evict, late_upstream, Reachable, begin, later, upstream,
}

key_discrete : Discrete (ℕ × ℕ)
key_discrete = hlevel ℕ_discrete

bytes_discrete : Discrete Bytes
bytes_discrete = hlevel ℕ_discrete

abbrev test_addr : SocketAddr
test_addr = socket_addr (ip_v4 (1 ∷ 2 ∷ 3 ∷ 4 ∷ [])) 53

-- No datagram decodes.
abbrev test_parts : Parts
test_parts = record {
  decode = λ b. err (io_error connection_reset "bad packet");
  resolver = record {
    is_utf8 = λ name. true;
    parse_ip = λ name. none;
    get_dns_resolver = ok tt;
    lookup_aaaa = λ name. ok [];
    lookup_a = λ name. ok [];
  };
  bind = λ family attempt. ok tt;
  buffers = map_cache key_discrete;
  sessions = map_cache ℕ_discrete;
  dns_cache = map_cache bytes_discrete;
}

abbrev test_tunnel : Tunnel test_parts
test_tunnel = record {
  reassembler = λ k. none;
  sessions = λ k. none;
  dns = λ k. none;
  counters = zero_counters;
}

-- A time out, a datagram, and a connection that is reset before another one.
abbrev test_turns : List AcceptTurn
test_turns =
    reading (err (io_error timed_out "idle"))
    ∷ reading (ok (1 ∷ []))
    ∷ reading (err (io_error connection_reset "reset"))
    ∷ reading (ok (2 ∷ []))
    ∷ []

accept_loop-EndsBy_example :
    (before : List AcceptTurn) × All GoesOn before
    × EndsBy before test_turns (accept_loop test_parts test_tunnel test_turns).2
    × ((accept_loop test_parts test_tunnel test_turns).0
        ≡ (handle_all test_parts test_tunnel (datagrams before)).0)
    × ((accept_loop test_parts test_tunnel test_turns).1
        ≡ (handle_all test_parts test_tunnel (datagrams before)).1)
accept_loop-EndsBy_example = accept_loop-EndsBy test_parts test_tunnel test_turns

test_reset :
    (accept_loop test_parts test_tunnel test_turns).2
    ≡ some (err (io_error connection_reset "reset"))
unfolding accept_loop
test_reset = refl

-- The codec writes the payload only.
abbrev test_encode : UdpPacket → IoResult Bytes
test_encode (unfragmented session_id address payload) = ok payload
test_encode _ = err (io_error connection_reset "no fragments")

abbrev test_handler : DownstreamHandler
test_handler = record { session_id = 7; downstream_bytes = 0; sent = [] }

-- Of three packets the second is not sent in time, and the third comes after the shutdown.
abbrev test_back : List DownstreamTurn
test_back =
    receiving (ok (1 ∷ 2 ∷ [], test_addr)) (some (ok tt))
    ∷ receiving (ok (3 ∷ [], test_addr)) none
    ∷ cancelled
    ∷ receiving (ok (4 ∷ [], test_addr)) (some (ok tt))
    ∷ []

test_sent :
    downstream_loop test_encode test_handler test_back
    ≡ record { session_id = 7; downstream_bytes = 3; sent = (1 ∷ 2 ∷ []) ∷ [] }
unfolding downstream_loop downstream_turn process_and_send_datagram send_datagram
test_sent = refl

downstream_loop-Replies_example :
    ((downstream_loop test_encode test_handler test_back).downstream_bytes
      ≡ test_handler.downstream_bytes + total (received test_back))
    × ((bs : List Bytes) × ((downstream_loop test_encode test_handler test_back).sent
          ≡ test_handler.sent ++ bs)
        × Replies test_encode test_handler.session_id (received test_back) bs)
downstream_loop-Replies_example = downstream_loop-Replies test_encode test_handler test_back

-- A task that runs when its session has been evicted: its octet is in no counter of the metrics.
test_late : (w : World) × Reachable w × (w.metrics.bytes_rx ≡ 0) × (upstream w.evicted ≡ 1)
unfolding upstream
test_late = (
  _,
  later (later (later begin open_session) (evict [] [] new_counts refl))
      (late_upstream [] [] new_counts (9 ∷ []) refl),
  refl,
  refl,
)
