-- ===== src/Tun.antt =====
-- crates/ombrac-client/src/endpoint/tun.rs: the endpoint on a TUN device. Dns models its fake DNS,
-- this file the choice of a target and the UDP flows. The network stack's packets are those of
-- Netstack; the DNS codec, the CIDR library and the tunnel are arguments.
pub mod Dns
pub mod Names
pub mod Flows
pub mod Forward
mod Examples
use Prim.Native.Nat.{Ordering}
use ombrac.Prelude.{
  ℕ, zero, suc, Bool, true, false, not, Option, none, some, List, [], ◌∷◌, ◌++◌, ◌+◌, ◌*◌, ◌/◌,
  ◌&&◌, ◌||◌, ◌==◌, ltb, leb, if◌then◌else◌, length, Result, ok, err, ◌>>=◌,
}
use ombrac.Net.{
  Bytes, IpAddr, ip_v4, ip_v6, SocketAddr, v4, v6, port_of, other, IoError, io_error, IoResult,
}
use ombrac.Protocol.{Address, socket_v4, socket_v6, domain, from_socket_addr}
use ombrac.Copy.{CopyBidirectionalStats}
use ombrac.Netstack.{Parsers}
use ombrac.Netstack.Udp.{UdpPacket, parse_packet}
use ombrac.Netstack.Worker.{compare_addr}
use ombrac.Tun.Dns.{FakeDns, Ipv4Net, get_domain_by_ip, handle_dns_query, DnsQuery, DnsResponse}

-- The tests of std::net on the four octets of an address.
abbrev pub is_documentation : ℕ → ℕ → ℕ → Bool
is_documentation a b c =
    (a == 192 && b == 0 && c == 2)
    || (a == 198 && b == 51 && c == 100)
    || (a == 203 && b == 0 && c == 113)

abbrev pub is_private : ℕ → ℕ → Bool
is_private a b = a == 10 || (a == 172 && b / 16 == 1) || (a == 192 && b == 168)

-- The match on the octets.
abbrev pub is_listed : ℕ → ℕ → ℕ → Bool
is_listed a b c =
    a == 0
    || (a == 100 && leb 64 b && leb b 127)
    || (a == 192 && b == 0 && c == 0)
    || (a == 198 && (b == 18 || b == 19))
    || a == 240

abbrev pub is_broadcast : ℕ → ℕ → ℕ → ℕ → Bool
is_broadcast a b c d = a == 255 && b == 255 && c == 255 && d == 255

unfoldable pub reserved_v4 : ℕ → ℕ → ℕ → ℕ → Bool
reserved_v4 a b c d =
    is_private a b
    || a == 127
    || (a == 169 && b == 254)
    || (leb 224 a && leb a 239)
    || is_broadcast a b c d
    || is_documentation a b c
    || is_listed a b c

-- All octets are zero but the last, which is `last`.
abbrev pub is_last : ℕ → Bytes → Bool
is_last last [] = false
is_last last (x ∷ []) = x == last
is_last last (x ∷ y ∷ rest) = x == 0 && is_last last (y ∷ rest)

-- The tests on the first two segments of an IPv6 address.
unfoldable pub reserved_segments : ℕ → ℕ → Bool
reserved_segments s0 s1 =
    s0 / 512 == 126 || s0 / 64 == 1018 || (s0 == 8193 && s1 == 3512) || s0 == 256

unfoldable pub is_private_or_reserved : IpAddr → Bool
is_private_or_reserved (ip_v4 (a ∷ b ∷ c ∷ d ∷ [])) = reserved_v4 a b c d
is_private_or_reserved (ip_v6 (a ∷ b ∷ c ∷ d ∷ rest)) =
    is_last 1 (a ∷ b ∷ c ∷ d ∷ rest)
    || is_last 0 (a ∷ b ∷ c ∷ d ∷ rest)
    || a == 255
    || reserved_segments (a * 256 + b) (c * 256 + d)
is_private_or_reserved _ = false

unfoldable pub should_skip_address : Address → Bool
should_skip_address (socket_v4 sock) = is_private_or_reserved (ip_v4 sock.ip)
should_skip_address (socket_v6 sock) = is_private_or_reserved (ip_v6 sock.ip)
should_skip_address (domain name port) = false

pub record TunConfig : Type 0 where
  pub fakedns_cidr : Ipv4Net
  pub udp_idle_timeout : ℕ
  pub udp_session_channel_capacity : ℕ
  pub disable_udp_443 : Bool

abbrev pub ip_addr : SocketAddr → IpAddr
ip_addr (v4 a) = ip_v4 a.ip
ip_addr (v6 a) = ip_v6 a.ip

-- An address of the fake network without a name is an error.
unfoldable pub unnamed_address : TunConfig → SocketAddr → IoResult Address
unnamed_address config (v6 a) = ok (from_socket_addr (v6 a))
unnamed_address config (v4 a) =
    if config.fakedns_cidr.contains a.ip
    then err (io_error other "dns cache miss: {} -> {}")
    else ok (from_socket_addr (v4 a))

-- The name that the fake DNS gave the address for, or the address.
unfoldable pub named_address : TunConfig → SocketAddr → Option Bytes → IoResult Address
named_address config remote (some name) = ok (domain name (port_of remote))
named_address config remote none = unnamed_address config remote

unfoldable pub check_target : Address → IoResult Address
check_target target =
    if should_skip_address target
    then err (io_error other "skipping private/reserved address: {} -> {}")
    else ok target

-- The target of a stream or packet, as relay_tcp_stream and handle_udp_data_packet choose it.
unfoldable pub target_address : TunConfig → FakeDns → SocketAddr → IoResult Address
target_address config dns remote =
    named_address config remote (get_domain_by_ip dns (ip_addr remote)) >>= check_target

-- relay_tcp_stream, on the tunnel's stream to the target and the copying that follows.
unfoldable pub after_copy :
    Result CopyBidirectionalStats (IoError × CopyBidirectionalStats) → IoResult (Unit {0})
after_copy (ok stats) = ok tt
after_copy (err (e, stats)) = err e

unfoldable pub relay_tcp_stream :
    {S : Type 0}
    → TunConfig
    → FakeDns
    → SocketAddr
    → (Address → IoResult S)
    → (S → Result CopyBidirectionalStats (IoError × CopyBidirectionalStats))
    → IoResult (Unit {0})
relay_tcp_stream config dns remote open_bidirectional copy =
    target_address config dns remote >>= λ target.
    open_bidirectional target >>= λ stream. after_copy (copy stream)

-- A flow of relay_udp_flow: the addresses that it was made with, what waits in its channel, and whether
-- its receiver is there.
pub record UdpFlow : Type 0 where
  pub local_addr : SocketAddr
  pub fake_remote_addr : SocketAddr
  pub queue : List (Bytes × Address)
  pub receiving : Bool

abbrev pub is_eq : Ordering → Bool
is_eq Ordering.lt = false
is_eq Ordering.eq = true
is_eq Ordering.gt = false

abbrev pub same_addr : SocketAddr → SocketAddr → Bool
same_addr a b = is_eq (compare_addr a b)

-- The end of handle_udp_data_packet for a flow that is there, when its channel has room: the packet is
-- sent, or the flow, without its receiver, is removed.
abbrev pub to_flow : UdpFlow → Bytes × Address → List UdpFlow → List UdpFlow
to_flow flow m rest =
    if flow.receiving then record flow { queue = flow.queue ++ m ∷ [] } ∷ rest else rest

-- active_sessions.entry, by the local address.
unfoldable pub enter_session :
    List UdpFlow → SocketAddr → SocketAddr → Bytes × Address → List UdpFlow
enter_session [] local remote m =
    record { local_addr = local; fake_remote_addr = remote; queue = m ∷ []; receiving = true } ∷ []
enter_session (flow ∷ rest) local remote m =
    let later = enter_session rest local remote m in
    if same_addr flow.local_addr local then to_flow flow m rest else flow ∷ later

unfoldable pub handle_udp_target :
    List UdpFlow → UdpPacket → IoResult Address → List UdpFlow × IoResult (Unit {0})
handle_udp_target flows packet (err e) = (flows, err e)
handle_udp_target flows packet (ok target) =
    (enter_session flows packet.src_addr packet.dst_addr (packet.content, target), ok tt)

unfoldable pub handle_udp_data_packet :
    TunConfig → FakeDns → List UdpFlow → UdpPacket → List UdpFlow × IoResult (Unit {0})
handle_udp_data_packet config dns flows packet =
    handle_udp_target flows packet (target_address config dns packet.dst_addr)

-- What relay_udp_flow writes for a datagram that the tunnel gives it.
unfoldable pub reply_packet : UdpFlow → Bytes × Address → UdpPacket
reply_packet flow (content, source) = record {
  content = content;
  src_addr = flow.fake_remote_addr;
  dst_addr = flow.local_addr;
}

-- What process_incoming_udp_packets keeps, with the answers of the fake DNS that it wrote.
pub record TunUdp : Type 0 where
  pub dns : FakeDns
  pub active_sessions : List UdpFlow
  pub answers : List UdpPacket

-- hickory's codec: a query that was parsed, and a response as octets.
pub record DnsCodec : Type 0 where
  pub parse_query : Bytes → Option DnsQuery
  pub to_vec : DnsResponse → Option Bytes

-- The end of handle_dns_query_packet: the response goes back to where the query came from.
unfoldable pub write_response : TunUdp → UdpPacket → Option Bytes → TunUdp
write_response s packet none = s
write_response s packet (some content) = record s {
  answers =
      s.answers
      ++ record { content = content; src_addr = packet.dst_addr; dst_addr = packet.src_addr } ∷ [];
}

abbrev pub serialized : DnsCodec → Option DnsResponse → Option Bytes
serialized codec none = none
serialized codec (some r) = codec.to_vec r

unfoldable pub handle_dns_query_packet : DnsCodec → TunUdp → UdpPacket → TunUdp
handle_dns_query_packet codec s packet =
    let (dns', r) = handle_dns_query s.dns (codec.parse_query packet.content) in
    write_response (record s { dns = dns' }) packet (serialized codec r)

-- A packet in the loop of process_incoming_udp_packets.
unfoldable pub process_udp_packet : TunConfig → DnsCodec → TunUdp → UdpPacket → TunUdp
process_udp_packet config codec s packet =
    if port_of packet.dst_addr == 53
    then handle_dns_query_packet codec s packet
    else if config.disable_udp_443 && port_of packet.dst_addr == 443
    then s
    else record s {
      active_sessions = (handle_udp_data_packet config s.dns s.active_sessions packet).0;
    }

-- The loop, on the packets of the network stack's channel: it ends when `recv` gives none. What is
-- left in the channel is never read.
unfoldable pub process_incoming_udp_packets :
    Parsers → TunConfig → DnsCodec → TunUdp → List Bytes → TunUdp × List Bytes
process_incoming_udp_packets w config codec s [] = (s, [])
process_incoming_udp_packets w config codec s (packet ∷ rest) = elim (parse_packet w packet) [
  | none ↦ (s, rest)
  | some u ↦ process_incoming_udp_packets w config codec (process_udp_packet config codec s u) rest
]
