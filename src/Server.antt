-- ===== src/Server.antt =====
-- The server's side of UDP: crates/ombrac-server/src/connection/dns.rs (name resolution) and
-- crates/ombrac-server/src/connection/datagram.rs (what it does with a datagram of the client). The
-- resolver, the caches, the sockets and the bincode codec are arguments.
pub mod Dns
pub mod Datagram
pub mod Loops
mod Examples
use ombrac.Prelude.{
  ℕ, zero, suc, Bool, true, false, Option, none, some, List, [], ◌∷◌, ◌++◌, ◌+◌, is_some,
  if◌then◌else◌, length, Result, ok, err, ◌>>=◌, ◌>>◌,
}
use ombrac.Net.{
  Bytes, invalid_input, not_found, other, IoError, io_error, IoResult, SocketAddr, v4, v6, IpAddr,
  ip_v4, ip_v6, socket_addr,
}
use ombrac.Cache.{Cache}
use ombrac.Metrics.{Counters}
use ombrac.Protocol.{Address, socket_v4, socket_v6, domain, UdpPacket}
use ombrac.Reassembly.{Buffers, Delivery, process}

-- hickory's RData, as far as the code names it.
pub data Rdata : Type 0 where
  aaaa_record a_record : Bytes → Rdata
  other_record : Rdata

-- The standard library's parsers, and hickory's resolver with its two queries.
pub record Resolver : Type 0 where
  pub is_utf8 : Bytes → Bool
  pub parse_ip : Bytes → Option IpAddr
  pub get_dns_resolver : IoResult (Unit {0})
  pub lookup_aaaa : Bytes → IoResult (List Rdata)
  pub lookup_a : Bytes → IoResult (List Rdata)

-- The loops over a query's answers: the first record of the type that was asked for.
unfoldable pub first_aaaa : List Rdata → Option IpAddr
first_aaaa [] = none
first_aaaa (aaaa_record o ∷ rest) = some (ip_v6 o)
first_aaaa (a_record o ∷ rest) = first_aaaa rest
first_aaaa (other_record ∷ rest) = first_aaaa rest

unfoldable pub first_a : List Rdata → Option IpAddr
first_a [] = none
first_a (aaaa_record o ∷ rest) = first_a rest
first_a (a_record o ∷ rest) = some (ip_v4 o)
first_a (other_record ∷ rest) = first_a rest

-- What a query yields; one that fails is passed over.
abbrev pub answer : (List Rdata → Option IpAddr) → IoResult (List Rdata) → Option IpAddr
answer first (ok records) = first records
answer first (err e) = none

-- The result of the two queries, AAAA before A.
unfoldable pub choose_record : Option IpAddr → Option IpAddr → ℕ → IoResult SocketAddr
choose_record (some ip) from_a port = ok (socket_addr ip port)
choose_record none (some ip) port = ok (socket_addr ip port)
choose_record none none port =
    err (io_error not_found "dns resolution failed for {}: no records found")

unfoldable pub resolve_domain : Resolver → Bytes → ℕ → IoResult SocketAddr
resolve_domain r name port =
    if r.is_utf8 name
    then elim (r.parse_ip name) [
      | some ip ↦ ok (socket_addr ip port)
      | none ↦
          r.get_dns_resolver
          >> choose_record (answer first_aaaa (r.lookup_aaaa name))
              (answer first_a (r.lookup_a name)) port
    ]
    else err (io_error invalid_input "domain name contains invalid utf-8 characters")

module _ (r : Resolver) (dns_cache : Cache Bytes SocketAddr) where
  -- The result of a resolution, kept in the cache when it is an address.
  unfoldable pub remember :
      dns_cache.State → Bytes → IoResult SocketAddr → dns_cache.State × IoResult SocketAddr
  remember s name (ok addr) = (dns_cache.insert s name addr, ok addr)
  remember s name (err e) = (s, err e)

  unfoldable pub lookup_host : dns_cache.State → Address → dns_cache.State × IoResult SocketAddr
  lookup_host s (socket_v4 a) = (s, ok (v4 a))
  lookup_host s (socket_v6 a) = (s, ok (v6 a))
  lookup_host s (domain name port) = elim (dns_cache.find s name) [
    | some addr ↦ (s, ok addr)
    | none ↦ remember s name (resolve_domain r name port)
  ]

abbrev pub socket_bind_retry_max : ℕ
socket_bind_retry_max = 3

-- The attempts that are left of bind_udp_socket_with_retry, the next one with the number `attempt`.
unfoldable pub bind_attempts : {S : Type 0} → (ℕ → IoResult S) → ℕ → ℕ → Option IoError → IoResult S
bind_attempts bind zero attempt none =
    err (io_error other "UDP socket bind failed after {SOCKET_BIND_RETRY_MAX} retries")
bind_attempts bind zero attempt (some e) = err e
bind_attempts bind (suc left) attempt last_error = elim (bind attempt) [
  | ok socket ↦ ok socket
  | err e ↦ bind_attempts bind left (attempt + 1) (some e)
]

unfoldable pub bind_udp_socket_with_retry : {S : Type 0} → (ℕ → IoResult S) → IoResult S
bind_udp_socket_with_retry bind = bind_attempts bind socket_bind_retry_max 0 none

-- Which unspecified address a session's socket is bound to.
pub data Family : Type 0 where
  ipv4_any ipv6_any : Family

unfoldable pub bind_family : SocketAddr → Family
bind_family (v4 a) = ipv4_any
bind_family (v6 a) = ipv6_any

-- A DatagramSession: its socket's family and its first destination. Its byte counts and the handler of
-- its way back are in Loops.
pub record Session : Type 0 where
  pub family : Family
  pub destination : Address

-- The task that is spawned for a packet: the session's socket sends `data` to the address, resolved.
pub record Task : Type 0 where
  pub session : Session
  pub address : Address
  pub payload : Bytes

-- What a DatagramTunnel calls: the codec, the resolver, binding a socket, and its three caches.
pub record Parts : Type 1 where
  pub decode : Bytes → IoResult UdpPacket
  pub resolver : Resolver
  pub bind : Family → ℕ → IoResult (Unit {0})
  pub buffers : Buffers
  pub sessions : Cache ℕ Session
  pub dns_cache : Cache Bytes SocketAddr

module _ (c : Parts) where
  pub record Tunnel : Type 0 where
    pub reassembler : c.buffers.State
    pub sessions : c.sessions.State
    pub dns : c.dns_cache.State
    pub counters : Counters

  -- The future that makes a new session, once its socket is bound.
  unfoldable pub insert_session :
      Tunnel → ℕ → Session → IoResult (Unit {0}) → Tunnel × IoResult Session
  insert_session t session_id session (err e) = (t, err e)
  insert_session t session_id session (ok socket) = (
    record t {
      sessions = c.sessions.insert t.sessions session_id session;
      counters = record t.counters { udp_sessions_opened = t.counters.udp_sessions_opened + 1 };
    },
    ok session,
  )

  -- The future, on the address that the lookup gave.
  unfoldable pub create_session :
      Tunnel → ℕ → Address → IoResult SocketAddr → Tunnel × IoResult Session
  create_session t session_id dest (err e) = (t, err e)
  create_session t session_id dest (ok addr) =
      insert_session t session_id (record { family = bind_family addr; destination = dest })
        (bind_udp_socket_with_retry (c.bind (bind_family addr)))

  -- `map_err(io::Error::other)`
  abbrev pub as_other : {A : Type 0} → IoResult A → IoResult A
  as_other (ok a) = ok a
  as_other (err e) = err (io_error other e.message)

  -- try_get_with, on what the cache has.
  unfoldable pub try_get_with : Tunnel → ℕ → Address → Option Session → Tunnel × IoResult Session
  try_get_with t session_id dest (some session) = (t, ok session)
  try_get_with t session_id dest none =
      let (dns', addr) = lookup_host c.resolver c.dns_cache t.dns dest in
      let (t', result) = create_session (record t { dns = dns' }) session_id dest addr in
      (t', as_other result)

  unfoldable pub get_or_create_session : Tunnel → ℕ → Address → Tunnel × IoResult Session
  get_or_create_session t session_id dest =
      try_get_with t session_id dest (c.sessions.find t.sessions session_id)

  -- The session for a packet, and the task that is spawned: an error drops the packet.
  unfoldable pub spawn_task :
      Address → Bytes → Tunnel × IoResult Session → Tunnel × IoResult (Option Task)
  spawn_task address payload (t, ok session) =
      (t, ok (some (record { session = session; address = address; payload = payload })))
  spawn_task address payload (t, err e) = (t, ok none)

  unfoldable pub forward : Tunnel → IoResult Delivery → Tunnel × IoResult (Option Task)
  forward t (err e) = (t, err e)
  forward t (ok none) = (t, ok none)
  forward t (ok (some (session_id, address, payload))) =
      let counted : Tunnel = record t {
        counters = record t.counters {
          reassemblies_completed = t.counters.reassemblies_completed + 1;
        };
      } in
      spawn_task address payload (get_or_create_session counted session_id address)

  -- handle_upstream_packet on what was decoded, up to the task that it spawns; the semaphore is never
  -- closed.
  unfoldable pub handle_decoded : Tunnel → IoResult UdpPacket → Tunnel × IoResult (Option Task)
  handle_decoded t (err e) = (t, ok none)
  handle_decoded t (ok packet) =
      let (reassembler', reassembled) = process c.buffers t.reassembler packet in
      forward (record t { reassembler = reassembler' }) reassembled

  unfoldable pub handle_upstream_packet : Tunnel → Bytes → Tunnel × IoResult (Option Task)
  handle_upstream_packet t packet_bytes = handle_decoded t (c.decode packet_bytes)

  -- The task, run later: the datagram that it sends, if the address resolves.
  unfoldable pub run_task : Tunnel → Task → Tunnel × Option (Bytes × SocketAddr)
  run_task t task =
      let (dns', dest) = lookup_host c.resolver c.dns_cache t.dns task.address in
      (record t { dns = dns' }, elim dest [ ok addr ↦ some (task.payload, addr) | err e ↦ none ])
