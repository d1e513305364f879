-- ===== src/Server/Examples.antt =====
-- Datagrams of a client on a server whose caches keep everything
-- (crates/ombrac-server/src/connection/datagram.rs and dns.rs), and the theorems at these inputs.
use native.Mathlib.Decide.{ℕ_discrete}
use ombrac.Prelude.{ℕ, zero, suc, ◌≡◌, refl, true, none, some, [], ◌∷◌, ok, err}
use ombrac.Net.{Bytes, SocketAddr, ip_v4, socket_addr, IoResult, io_error, other}
use ombrac.Cache.{Cache}
use ombrac.Cache.Map.{map_cache, map_cache-Retains}
use ombrac.Metrics.{zero_counters}
use ombrac.Protocol.{domain, UdpPacket, unfragmented}
use ombrac.Reassembly.{process}
use ombrac.Server.{
  Resolver, a_record, other_record, first_aaaa, first_a, choose_record, resolve_domain, remember,
  lookup_host, bind_attempts, bind_udp_socket_with_retry, ipv4_any, bind_family, Session, Task,
  Parts, Tunnel, insert_session, create_session, try_get_with, get_or_create_session, spawn_task,
  forward, handle_decoded, handle_upstream_packet, run_task,
}
use ombrac.Server.Datagram.{handle_upstream_packet-task}

bytes_discrete : Discrete Bytes
bytes_discrete = hlevel ℕ_discrete

key_discrete : Discrete (ℕ × ℕ)
key_discrete = hlevel ℕ_discrete

-- One name, which has an IPv4 record only.
abbrev test_resolver : Resolver
test_resolver = record {
  is_utf8 = λ name. true;
  parse_ip = λ name. none;
  get_dns_resolver = ok tt;
  lookup_aaaa = λ name. ok (other_record ∷ []);
  lookup_a = λ name. ok (other_record ∷ a_record (1 ∷ 2 ∷ 3 ∷ 4 ∷ []) ∷ []);
}

abbrev test_name : Bytes
test_name = 97 ∷ []

abbrev test_addr : SocketAddr
test_addr = socket_addr (ip_v4 (1 ∷ 2 ∷ 3 ∷ 4 ∷ [])) 53

abbrev test_dns_cache : Cache Bytes SocketAddr
test_dns_cache = map_cache bytes_discrete

-- The first attempt fails and the others succeed.
abbrev test_bind : ℕ → IoResult (Unit {0})
test_bind zero = err (io_error other "in use")
test_bind (suc n) = ok tt

test_bind_retry : bind_udp_socket_with_retry test_bind ≡ ok tt
unfolding bind_udp_socket_with_retry bind_attempts
test_bind_retry = refl

-- The codec takes every octet string for a whole packet of session 7.
abbrev test_packet : Bytes → UdpPacket
test_packet payload = unfragmented 7 (domain test_name 53) payload

abbrev test_parts : Parts
test_parts = record {
  decode = λ b. ok (test_packet b);
  resolver = test_resolver;
  bind = λ family. test_bind;
  buffers = map_cache key_discrete;
  sessions = map_cache ℕ_discrete;
  dns_cache = test_dns_cache;
}

abbrev test_tunnel : Tunnel test_parts
test_tunnel = record {
  reassembler = λ k. none;
  sessions = λ k. none;
  dns = λ k. none;
  counters = zero_counters;
}

abbrev test_session : Session
test_session = record { family = ipv4_any; destination = domain test_name 53 }

abbrev test_task : Task
test_task = record { session = test_session; address = domain test_name 53; payload = 9 ∷ [] }

abbrev after_packet : Tunnel test_parts
unfolding handle_upstream_packet
after_packet = (handle_upstream_packet test_parts test_tunnel (9 ∷ [])).0

test_handle :
    handle_upstream_packet test_parts test_tunnel (9 ∷ []) ≡ (after_packet, ok (some test_task))
unfolding after_packet handle_upstream_packet handle_decoded process forward get_or_create_session
    try_get_with create_session insert_session spawn_task lookup_host remember resolve_domain
    choose_record first_aaaa first_a bind_udp_socket_with_retry bind_attempts bind_family
test_handle = refl

test_run : (run_task test_parts after_packet test_task).1 ≡ some (9 ∷ [], test_addr)
unfolding run_task after_packet handle_upstream_packet handle_decoded process forward
    get_or_create_session try_get_with create_session insert_session spawn_task lookup_host remember
    resolve_domain choose_record first_aaaa first_a bind_udp_socket_with_retry bind_attempts
    bind_family bytes_discrete ℕ_discrete
test_run = refl

handle_upstream_packet-task_example :
    (packet : UdpPacket) × (session_id : ℕ) × (test_parts.decode (9 ∷ []) ≡ ok packet)
    × ((process test_parts.buffers test_tunnel.reassembler packet).1
        ≡ ok (some (session_id, test_task.address, test_task.payload)))
    × (test_parts.sessions.find after_packet.sessions session_id ≡ some test_task.session)
handle_upstream_packet-task_example =
    handle_upstream_packet-task test_parts (map_cache-Retains ℕ_discrete) test_tunnel after_packet
      (9 ∷ []) test_task test_handle

abbrev kept_tunnel : Tunnel test_parts
kept_tunnel = record test_tunnel { sessions = λ k. some test_session }

process-whole :
    (payload : Bytes)
    → (process test_parts.buffers kept_tunnel.reassembler (test_packet payload)).1
      ≡ ok (some (7, domain test_name 53, payload))
unfolding process
process-whole payload = refl
